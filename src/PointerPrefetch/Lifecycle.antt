-- ===== src/PointerPrefetch/Lifecycle.antt =====
-- Start and end of the prefetcher, what it offers after a clean-up, and the pointer it reads from
-- a page.
use swap_prefetch.Common.{
  ℕ, ◌≡◌, refl, sym, subst, ap, ◌∙◌, true, false, not, ◌&&◌, ◌||◌, Option, none, some, List, [],
  ◌∷◌, ◌==◌, add64, arith, ◌⊎◌, inl, inr, Bool-cases, if◌then◌else◌,
}
use swap_prefetch.Memory.{PageData}
use swap_prefetch.RdmaSim.Allocator.{Allocator, rdma_sim_free}
use swap_prefetch.RdmaSim.Allocator.Correct.{IsHeap}
use swap_prefetch.AddressTranslation.{
  Translator, address_translator_cleanup, is_valid_local_pointer, is_valid_remote_pointer,
  convert_remote_to_local_pointer,
}
use swap_prefetch.PointerPrefetch.{
  PrefetchRecord, Prefetcher, pointer_prefetch_init, pointer_prefetch_cleanup, free_running,
  is_running, found_running, is_prefetched_page_available, find_prefetch_record,
  cleanup_old_prefetch_records, is_expired, usable_pointer, read_page_end_pointer,
}
use swap_prefetch.PointerPrefetch.Records.{Distinct, keep, free-IsHeap, cleanup-keep}

free_running-IsHeap :
    (rs : List PrefetchRecord) (a : Allocator) → IsHeap a → IsHeap (free_running rs a)
unfolding free_running
free_running-IsHeap [] a h = h
free_running-IsHeap (r ∷ rs) a h =
    free_running-IsHeap rs
      (if is_running r.status && not (r.remote_addr == 0)
        then (rdma_sim_free r.remote_addr a).1
        else a)
      (elim (Bool-cases (is_running r.status && not (r.remote_addr == 0))) [
        | inl y ↦
            subst (λ b. IsHeap (if b then (rdma_sim_free r.remote_addr a).1 else a)) (sym y)
              (free-IsHeap r.remote_addr a h)
        | inr n ↦ subst (λ b. IsHeap (if b then (rdma_sim_free r.remote_addr a).1 else a)) (sym n) h
      ])

-- Shutting down a running prefetcher drops all records, so that no page is available any more,
-- shuts the translator down, and keeps the heap of the remote memory valid; starting it again
-- succeeds with no records.
pub init-cleanup_prefetcher :
    (s : Prefetcher) (t : Translator) (a : Allocator)
    → s.initialized ≡ true
    → IsHeap a
    → let (s', t', a') = pointer_prefetch_cleanup s t a in
      IsHeap a'
      × (t' ≡ address_translator_cleanup t)
      × ((va : ℕ) → is_prefetched_page_available va s' ≡ false)
      × ((pointer_prefetch_init s' t').0.initialized ≡ true)
      × ((pointer_prefetch_init s' t').0.records ≡ [])
unfolding pointer_prefetch_cleanup pointer_prefetch_init is_prefetched_page_available found_running
    find_prefetch_record
init-cleanup_prefetcher s t a on h =
    simp on (free_running-IsHeap s.records a h, refl, (λ va. refl), refl, refl)

available-keep :
    (now : ℕ) (o : Option PrefetchRecord)
    → found_running (keep now o) ≡ true
    → found_running o ≡ true
unfolding found_running
available-keep now none h = h
available-keep now (some r) h = elim (Bool-cases (is_expired now r.status r.timestamp)) [
  | inl dead ↦ absurd (ground (arith, dead, h))
  | inr alive ↦ sym (ap (λ b. found_running (if b then none else some r)) alive) ∙ h
]

-- With at most one record for each address and a valid heap, a page that is available after a
-- clean-up was available before it.
pub is_prefetched_page_available-cleanup :
    (now va : ℕ) (s : Prefetcher) (a : Allocator)
    → Distinct s.records
    → IsHeap a
    → is_prefetched_page_available va (cleanup_old_prefetch_records now s a).0 ≡ true
    → is_prefetched_page_available va s ≡ true
unfolding is_prefetched_page_available
is_prefetched_page_available-cleanup now va s a d h on =
    available-keep now (find_prefetch_record va s.records)
      (sym (ap found_running ((cleanup-keep now s a d h).2 va)) ∙ on)

-- the word at the end of a page
abbrev pub end_word : PageData → (ℕ → ℕ) → ℕ
end_word page word_at = word_at (add64 page.va 4088)

-- why no pointer is read
abbrev pub NoPointer : Option PageData → (ℕ → ℕ) → Translator → Type 0
NoPointer none word_at t = Unit
NoPointer (some page) word_at t =
    (page.va ≡ 0)
    ⊎ (page.in_dram ≡ false)
    ⊎ (end_word page word_at ≡ 0)
    ⊎ ((is_valid_remote_pointer (end_word page word_at) t ≡ true)
        × ((convert_remote_to_local_pointer (end_word page word_at) t).valid ≡ false))
    ⊎ ((is_valid_remote_pointer (end_word page word_at) t ≡ false)
        × (is_valid_local_pointer (end_word page word_at) t ≡ false))

-- `read_page_end_pointer` returns 0 for no page, a page without an address or not in local memory,
-- and a last word that is 0, a remote pointer that is not converted, or neither a valid remote nor
-- a valid local pointer. In every other case it returns what the translator makes of the word, if
-- that is a valid remote pointer, and otherwise the word itself.
pub read_page_end_pointer_lem :
    (p : Option PageData) (word_at : ℕ → ℕ) (t : Translator) (s : Prefetcher)
    → let (r, s') = read_page_end_pointer p word_at t s in
      ((r ≡ 0) × NoPointer p word_at t)
      ⊎ ((page : PageData) × (p ≡ some page)
          × (page.in_dram ≡ true)
          × (((is_valid_remote_pointer (end_word page word_at) t ≡ true)
                × ((convert_remote_to_local_pointer (end_word page word_at) t).valid ≡ true)
                × (r
                    ≡ (convert_remote_to_local_pointer
                        (end_word page word_at)
                        t).converted_pointer))
              ⊎ ((is_valid_remote_pointer (end_word page word_at) t ≡ false)
                  × (is_valid_local_pointer (end_word page word_at) t ≡ true)
                  × (r ≡ end_word page word_at))))
unfolding read_page_end_pointer usable_pointer
read_page_end_pointer_lem none word_at t s = inl (refl, tt)
read_page_end_pointer_lem (some page) word_at t s =
    elim (Bool-cases (page.va == 0 || not page.in_dram)) [
      | inl bad ↦ inl (simp bad refl, ground (arith, bad))
      | inr good ↦ elim (Bool-cases (end_word page word_at == 0)) [
        | inl z ↦ inl (simp (good, z) refl, ground (arith, z))
        | inr nz ↦ elim (Bool-cases (is_valid_remote_pointer (end_word page word_at) t)) [
          | inl remote ↦
              elim (Bool-cases (convert_remote_to_local_pointer (end_word page word_at) t).valid) [
                | inl ok ↦ inr (
                  page,
                  refl,
                  ground (arith, good),
                  inl (remote, ok, simp (good, nz, remote, ok) refl),
                )
                | inr ko ↦
                    inl (simp (good, nz, remote, ko) refl, inr (inr (inr (inl (remote, ko)))))
              ]
          | inr no_remote ↦ elim (Bool-cases (is_valid_local_pointer (end_word page word_at) t)) [
            | inl local ↦ inr (
              page,
              refl,
              ground (arith, good),
              inr (no_remote, local, simp (good, nz, no_remote, local) refl),
            )
            | inr ko ↦
                inl (simp (good, nz, no_remote, ko) refl, inr (inr (inr (inr (no_remote, ko)))))
          ]
        ]
      ]
    ]
