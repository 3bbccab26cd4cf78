-- ===== src/Disklinux/Swapin/Stale.antt =====
-- A page fault is served with `lrudisk_swapin_external_async`, whose two halves call the storage
-- only in a build with io_uring.
use swap_prefetch.Common.{ℕ, suc, ◌≡◌, ◌≢◌, refl, sym, ap, ◌∙◌, true, some, last_or, arith}
use swap_prefetch.Memory.{Ptr, null}
use swap_prefetch.Core.Up.{CanComeUp, start-Runs, finish-Runs}
use swap_prefetch.System.{Platform}
use swap_prefetch.System.Laws.{Lawful, SameMemory, SameDisk}
use swap_prefetch.System.View.{Abs, put, put-here, put-there}
use swap_prefetch.System.Runs.{
  allocated, Runs, Runs-bind, Runs-pure, Runs-assert, Runs-info_of, Runs-set_info, Runs-else,
}
use swap_prefetch.Disklinux.{disk_active_list, dram_free_list, inactive_list, disk_reserve_list}
use swap_prefetch.Disklinux.Lists.{queued, taken_off, taken_last, take_off-Runs}
use swap_prefetch.Disklinux.Reclaim.Fetch.{fetch_free-free}
use swap_prefetch.Disklinux.Swapin.{begin_swapin, end_swapin, lrudisk_swapin_external_async}
use swap_prefetch.Disklinux.Swapin.External.{Returnable, swapped_in, kept, keep_reserve-Runs}

module _ {P : Platform} where
  -- the state after the swap-in; the first list changes before the search for a frame
  abbrev pub brought_in_async : (v : Abs P) (p g : Ptr) → P.State → Abs P
  brought_in_async v p g s = queued inactive_list p (
      queued disk_reserve_list g
        (record (taken_last dram_free_list g (taken_off disk_active_list p v)) {
          info =
              put (put v.info p (swapped_in g (v.info g).virtual_offset (v.info p))) g
                (kept p (v.info p).virtual_offset (v.info g));
          state = s;
          buffer = some (allocated P v.buffer);
        }))

  begin_swapin-Runs :
      (v : Abs P) (p : Ptr) (offset : ℕ)
      → p ≢ null
      → v.list p ≡ disk_active_list
      → CanComeUp P (v.info p) offset
      → Runs
          (begin_swapin p)
          v
          tt
          (record (taken_off disk_active_list p v) { buffer = some (allocated P v.buffer) })
  unfolding begin_swapin
  begin_swapin-Runs v p offset pz on c =
      Runs-bind _ (take_off-Runs v disk_active_list p (ground arith) pz on) (
        Runs-bind _ (Runs-info_of pz refl) (
          Runs-bind _ (Runs-else _ _ _ c.in_dram Runs-pure)
            (start-Runs _ p (v.info p) offset pz refl c)))

  -- The swap-in that serves a page fault runs without a failing assertion and puts the page in
  -- memory, marks it and lists it as `lrudisk_swapin_external` does, but the memory then holds
  -- what the thread's buffer held before, or zeros if there was none: the place of the page on the
  -- storage is never read.
  pub swapin_external_async-stale :
      Lawful P
      → (v : Abs P) (p g : Ptr) → Returnable v p g
      → (n : ℕ)
      → (s : P.State) × Runs
          (lrudisk_swapin_external_async (suc n) p)
          v
          tt
          (brought_in_async v p g s)
        × (P.mapped (v.info p).va s ≡ true)
        × (P.memory (v.info p).va s ≡ allocated P v.buffer)
        × SameMemory P (v.info p).va v.state s
        × SameDisk P v.state s
  unfolding lrudisk_swapin_external_async end_swapin
  swapin_external_async-stale laws v p g r n =
      let (s, ok, there, held, mem, dsk) =
        laws.copy_in (v.info p).va (allocated P v.buffer) v.state r.registered r.mapped in
      let gp : g ≢ p = λ z. r.apart (sym z) in
      (
        s,
        Runs-bind _ (Runs-info_of r.nz refl) (
            Runs-bind _ (begin_swapin-Runs v p (v.info g).virtual_offset r.nz r.listed r.fits) (
              Runs-bind _
                (fetch_free-free _ g r.frame_nz
                  (ap (last_or null) (put-there _ _ (ground arith) refl) ∙ r.oldest) n)
                (Runs-bind _ (Runs-info_of r.frame_nz refl) (
                  Runs-bind _ (Runs-assert _ r.frame) (
                    Runs-bind _
                      (finish-Runs _ p (v.info p) _ (allocated P v.buffer) s r.nz refl r.fits refl
                        ok)
                      (Runs-bind _ (Runs-set_info _ r.frame_nz (put-there _ _ gp refl)) (
                        keep_reserve-Runs _ p g v.info _ _ r.nz r.frame_nz r.apart refl
                          (put-there _ _ r.apart (put-here _ _ _)) (put-here _ _ _)))))))),
        there,
        held,
        mem,
        dsk,
      )
