-- ===== src/Prefetch/Client.antt =====
-- What `async_prefetch_page` does in a process whose list of blocks is empty, as it is in a client.
use swap_prefetch.Common.{
  ℕ, ◌≡◌, refl, ap, ◌∙◌, Bool, true, false, ◌||◌, Option, some, [], add64, ◌⊎◌, inl, inr,
  Bool-cases,
}
use swap_prefetch.Memory.{PageData}
use swap_prefetch.RdmaSim.Errno.{Errno, err}
use swap_prefetch.RdmaSim.Allocator.{Allocator}
use swap_prefetch.RdmaSim.Allocator.Correct.{allocate-no_blocks}
use swap_prefetch.PointerPrefetch.{
  PrefetchRecord, prefetch_completed, Prefetcher, page_size, find_prefetch_record, found_running,
}
use swap_prefetch.PointerPrefetch.Records.{found_running-completed}
use swap_prefetch.RdmaStorage.{Storage, Outside}
use swap_prefetch.Prefetch.{
  Prefetching, allocate_local, is_present, on_buffer, count_failed, async_prefetch_page,
}

-- the prefetcher once an attempt was counted
abbrev pub attempted : Prefetcher → Prefetcher
attempted p = record p {
  stats = record p.stats { total_attempts = add64 p.stats.total_attempts 1 };
}

allocate_local-empty :
    (malloc : Bool) (s : Storage)
    → s.client_blocks ≡ []
    → (e : Errno) × (allocate_local malloc page_size s ≡ (err e, s))
unfolding allocate_local
allocate_local-empty malloc s h =
    let client : Allocator = record {
      blocks = s.client_blocks;
      backed = false;
      connected = s.world.connected;
      used = s.world.server.used;
    } in
    let (e, none_given) = allocate-no_blocks malloc page_size client h in (e, rw none_given refl)

-- A page whose record is complete needs no prefetch.
pub async-running :
    (o : ℕ → Outside) (block_malloc record_malloc : Bool) (target_va source_va : ℕ)
    (page : Option PageData) (s : Prefetching) (r : PrefetchRecord)
    → find_prefetch_record target_va s.prefetcher.records ≡ some r
    → r.status ≡ prefetch_completed
    → async_prefetch_page o block_malloc record_malloc target_va source_va page s
      ≡ (true, record s { prefetcher = attempted s.prefetcher })
unfolding async_prefetch_page
async-running o bm rm target source page s r f e =
    let runs : found_running (find_prefetch_record target s.prefetcher.records) ≡ true =
      ap found_running f ∙ found_running-completed r e in
    let present : (is_present page
          || found_running (find_prefetch_record target s.prefetcher.records))
        ≡ true =
      ap (λ b. is_present page || b) runs ∙ or_true (is_present page) in
    simp (async_prefetch_page, present) refl
  where
    or_true : (b : Bool) → (b || true) ≡ true
    or_true true = refl
    or_true false = refl

-- In a client, a prefetch of a page that is not present and has no running record fails, whatever
-- comes from outside: it returns -1 and counts an attempt and a failure, and nothing else changes.
-- For another page it returns 0 and only counts an attempt. No request is submitted in any case.
pub async_prefetch_page-client :
    (o : ℕ → Outside) (block_malloc record_malloc : Bool) (target_va source_va : ℕ)
    (page : Option PageData) (s : Prefetching)
    → s.storage.client_blocks ≡ []
    → let (started, s') =
        async_prefetch_page o block_malloc record_malloc target_va source_va page s in
      let served =
        is_present page || found_running (find_prefetch_record target_va s.prefetcher.records) in
      (s'.storage ≡ s.storage)
      × (((served ≡ true) × (started ≡ true) × (s'.prefetcher ≡ attempted s.prefetcher))
          ⊎ ((served ≡ false)
              × (started ≡ false)
              × (s'.prefetcher ≡ count_failed (attempted s.prefetcher))))
unfolding async_prefetch_page on_buffer
async_prefetch_page-client o bm rm target source page s h =
    let served : Bool =
      is_present page || found_running (find_prefetch_record target s.prefetcher.records) in
    elim (Bool-cases served) [
      | inl y ↦ simp (async_prefetch_page, y) (refl, inl (refl, refl, refl))
      | inr n ↦
          let (e, failed) = allocate_local-empty bm s.storage h in
          simp (async_prefetch_page, n, failed) (refl, inr (refl, refl, refl))
    ]
