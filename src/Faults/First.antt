-- ===== src/Faults/First.antt =====
-- `handle_first_fault`: the first touch of a page.
use swap_prefetch.Common.{
  ℕ, suc, ◌%◌, ◌≡◌, ◌≢◌, refl, ap, ◌∙◌, true, false, not, ◌==◌, last_or, ==_ne,
}
use swap_prefetch.Memory.{Ptr, null, PageData}
use swap_prefetch.Core.{page_size}
use swap_prefetch.System.{Platform}
use swap_prefetch.System.Laws.{Lawful, SameMemory, SameDisk}
use swap_prefetch.System.View.{Abs, put, put-here, put-there}
use swap_prefetch.System.Runs.{
  Runs, Runs-bind, Runs-pure, Runs-assert, Runs-info_of, Runs-again, Runs-kernel, Runs-fault_at,
  Runs-count, Runs-then, Runs-else,
}
use swap_prefetch.Disklinux.{dram_free_list, inactive_list}
use swap_prefetch.Disklinux.Lists.{queued, taken_last, track_page-Runs, put_page_free-Runs}
use swap_prefetch.Disklinux.Reclaim.Fetch.{pagefault-free}
use swap_prefetch.Faults.{Pages, handle_first_fault, first_touch, wait_for}

-- what the frame of a page says that is touched for the first time
abbrev pub touched : ℕ → PageData → PageData
touched page_boundry d = record d { va = page_boundry; migrating = false; swapped_out = false }

module _ {P : Platform} (pages : Pages P) where
  -- the frame that is free the longest, and a page of the virtual memory
  pub record Touchable (v : Abs P) (g : Ptr) (page_boundry : ℕ) : Type 0 where
    pub nz : g ≢ null
    pub oldest : last_or null (v.contents dram_free_list) ≡ g
    pub unused : (v.info g).va ≡ 0
    pub frame : (v.info g).in_dram ≡ true
    pub va_nz : page_boundry ≢ 0
    pub aligned : (page_boundry % page_size == 0) ≡ true

  abbrev pub touched_first : (v : Abs P) (g : Ptr) (page_boundry : ℕ) → P.State → Abs P
  touched_first v g page_boundry s =
      queued inactive_list g (record (taken_last dram_free_list g v) {
        info = put v.info g (touched page_boundry (v.info g));
        prev_faults = (page_boundry, v.prev_faults.0);
        state = s;
      })

  -- On a machine that keeps to the laws, the first touch of a page of a registered range that the
  -- table of pages does not have is served without a failing assertion if a frame is free: the
  -- page gets the one that is free the longest, is mapped and holds zeros; all other pages and the
  -- storage hold what they held, and the page goes on the list of inactive pages.
  pub first_fault-zeros :
      Lawful P
      → (v : Abs P) (g : Ptr) (page_boundry : ℕ) → Touchable v g page_boundry
      → P.registered page_boundry v.state ≡ true
      → P.mapped page_boundry v.state ≡ false
      → ((u : Abs P) → Runs (pages.find_page page_boundry) u null u)
      → ((u : Abs P) → Runs (pages.add_page g) u tt u)
      → (n : ℕ)
      → (s : P.State) × Runs
          (handle_first_fault pages (suc n) page_boundry)
          v
          tt
          (touched_first v g page_boundry s)
        × (P.mapped page_boundry s ≡ true)
        × (P.memory page_boundry s ≡ P.zeros)
        × SameMemory P page_boundry v.state s
        × SameDisk P v.state s
  unfolding handle_first_fault first_touch
  first_fault-zeros laws v g a t reg out unknown adds n =
      let (s, ok, there, held, mem, dsk) = laws.copy_in a P.zeros v.state reg out in
      (
        s,
        Runs-bind _ (Runs-assert _ (ap not (==_ne a 0 t.va_nz))) (
            Runs-bind _ (pagefault-free v g t.nz t.oldest n) (
              Runs-bind _ (Runs-assert _ (ap not (==_ne g null t.nz))) (
                Runs-bind _ (unknown _) (
                  Runs-bind _ (Runs-again _ _ _ t.nz refl) (
                    Runs-bind _ (Runs-info_of t.nz (put-here _ _ _)) (
                      Runs-bind _ (Runs-assert _ (rw t.unused)) (
                        Runs-bind _ (Runs-again _ _ _ t.nz refl) (
                          Runs-bind _ (Runs-assert _ (ap not (==_ne a 0 t.va_nz))) (
                            Runs-bind _ (Runs-assert _ t.aligned) (
                              Runs-bind _ (adds _) (
                                Runs-bind _ (Runs-fault_at _) (
                                  Runs-bind _ (Runs-assert _ t.frame) (
                                    Runs-bind _ (Runs-kernel _ ok) (
                                      Runs-bind _ (Runs-again _ _ _ t.nz refl) (
                                        Runs-bind _ (track_page-Runs _ g t.nz (put-here _ _ _))
                                          (Runs-count _)))))))))))))))),
        there,
        held,
        mem,
        dsk,
      )

  -- If another thread has served the page in between, the frame is free again, and nothing is
  -- mapped.
  pub first_fault-raced :
      (v : Abs P) (g p : Ptr) (page_boundry : ℕ)
      → Touchable v g page_boundry
      → p ≢ null
      → p ≢ g
      → (v.info p).migrating ≡ false
      → ((u : Abs P) → Runs (pages.find_page page_boundry) u p u)
      → (n : ℕ)
      → Runs (handle_first_fault pages (suc n) page_boundry) v tt (
          queued dram_free_list g (record (taken_last dram_free_list g v) {
            info = put v.info g (record (v.info g) { migrating = true });
          }))
  unfolding handle_first_fault wait_for
  first_fault-raced v g p a t pz pg still known n =
      Runs-bind _ (Runs-assert _ (ap not (==_ne a 0 t.va_nz))) (
        Runs-bind _ (pagefault-free v g t.nz t.oldest n) (
          Runs-bind _ (Runs-assert _ (ap not (==_ne g null t.nz))) (
            Runs-bind _ (known _) (
              Runs-then _ _ _ (ap not (==_ne p null pz)) (
                Runs-bind _
                  (put_page_free-Runs _ g t.nz (put-here _ _ _)
                    (ap (λ (d : PageData). d.va) (put-here _ _ _) ∙ t.unused))
                  (Runs-bind _ (Runs-info_of pz (put-there _ _ pg refl))
                    (Runs-else _ _ _ still Runs-pure)))))))
