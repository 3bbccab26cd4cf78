-- ===== src/Faults/Major.antt =====
-- `handle_missing_fault`: a fault on a page that is on the storage.
use swap_prefetch.Common.{
  ℕ, suc, ◌≡◌, ◌≢◌, refl, sym, ap, subst, ◌∙◌, Bool, true, false, not, some, if◌then◌else◌, ==_refl,
  ==_ne,
}
use swap_prefetch.Memory.{Ptr, null, PageData, pure}
use swap_prefetch.System.{Platform, ◌>>◌}
use swap_prefetch.System.Laws.{Lawful, SameMemory, SameDisk}
use swap_prefetch.System.View.{Abs, put, put-here, put-there}
use swap_prefetch.System.Runs.{
  allocated, Runs, Runs-bind, Runs-pure, Runs-assert, Runs-info_of, Runs-set_info, Runs-inner,
  Runs-allocate, Runs-prev_faults, Runs-fault_at, Runs-count, Runs-then, Runs-else,
}
use swap_prefetch.Disklinux.Swapin.External.{Returnable, swapped_in, kept}
use swap_prefetch.Disklinux.Swapin.Stale.{brought_in_async, swapin_external_async-stale}
use swap_prefetch.Faults.{
  PrefetchCalls, handle_missing_fault, must_prefetch, swap_in, serve, count_wait, count_major,
  wait_for,
}

-- what a page says once its fault is served
abbrev pub served : PageData → PageData
served d = record d { swapped_out = false; migrating = false }

module _ {P : Platform} (prefetcher : PrefetchCalls P) where
  -- the state while the fault of a page is served
  abbrev pub faulting : (v : Abs P) → Ptr → Abs P
  faulting v p = record v {
    info = put v.info p (record (v.info p) { migrating = true });
    buffer = some (allocated P v.buffer);
    prev_faults = ((v.info p).va, v.prev_faults.0);
  }

  module _ (v : Abs P) (p : Ptr) (pz : p ≢ null) (still : (v.info p).migrating ≡ false) where
    -- A page whose fault another thread has served in between is left as it is.
    pub missing_fault-served :
        (v.info p).swapped_out ≡ false → (n : ℕ) → Runs (handle_missing_fault prefetcher n p) v tt v
    unfolding handle_missing_fault count_wait wait_for
    missing_fault-served here n = Runs-bind _ (Runs-info_of pz refl) (
        Runs-else _ _ _ still (
          Runs-then _ _ _ (ap not here) (
            Runs-bind _ (Runs-count _)
              (Runs-bind _ (Runs-info_of pz refl) (Runs-else _ _ _ still Runs-pure)))))

    module _ (away : (v.info p).swapped_out ≡ true) where
      begins :
          (n : ℕ) (u v' : Abs P) (hit : Bool)
          → Runs (prefetcher.handle_page_fault_with_prefetch p) (faulting v p) hit u
          → Runs
              (if hit then (do serve p; count_major) else (do
                swap_in prefetcher n p (v.info p).va
                if must_prefetch v.prev_faults (v.info p).va
                    then prefetcher.core_try_prefetch (v.info p).va
                    else pure tt))
              u
              tt
              v'
          → Runs (handle_missing_fault prefetcher n p) v tt v'
      unfolding handle_missing_fault
      begins n u v' hit asked rest = Runs-bind _ (Runs-info_of pz refl) (
          Runs-else _ _ _ still (
            Runs-else _ _ _ (ap not away) (
              Runs-bind _ (Runs-set_info _ pz refl) (
                Runs-bind _ Runs-prev_faults (
                  Runs-bind _ (Runs-fault_at _)
                    (Runs-bind _ Runs-allocate (Runs-bind _ asked rest)))))))

      -- A page that the prefetcher has served is marked as in use, and nothing else happens.
      pub missing_fault-prefetched :
          (n : ℕ) (u : Abs P)
          → Runs (prefetcher.handle_page_fault_with_prefetch p) (faulting v p) true u
          → Runs
              (handle_missing_fault prefetcher n p)
              v
              tt
              (record u { info = put u.info p (served (u.info p)) })
      missing_fault-prefetched n u asked =
          begins n u _ true asked (Runs-bind _ (Runs-set_info _ pz refl) (Runs-count _))

  faulting-Returnable : (v : Abs P) (p g : Ptr) → Returnable v p g → Returnable (faulting v p) p g
  faulting-Returnable v p g r =
      let at_p : put v.info p (record (v.info p) { migrating = true }) p
          ≡ record (v.info p) { migrating = true } =
        put-here _ _ _ in
      let at_g : put v.info p (record (v.info p) { migrating = true }) g ≡ v.info g =
        put-there _ _ (λ z. r.apart (sym z)) refl in
      let f = r.fits in
      record {
        nz = r.nz;
        frame_nz = r.frame_nz;
        apart = r.apart;
        listed = r.listed;
        oldest = r.oldest;
        frame = ap (λ (d : PageData). d.in_dram) at_g ∙ r.frame;
        fits =
            rw (at_p, at_g)
              (record {
                in_use = record { nz = f.in_use.nz; aligned = f.in_use.aligned };
                in_dram = f.in_dram;
                pt = f.pt;
                from = f.from;
                from_lt = f.from_lt;
                to = f.to;
                to_lt = f.to_lt;
              });
        mapped = rw at_p r.mapped;
        registered = rw at_p r.registered;
      }

  -- the state after a fault that the prefetcher did not serve
  abbrev pub faulted_in : (v : Abs P) (p g : Ptr) → P.State → Abs P
  faulted_in v p g s =
      let u = faulting v p in
      record (brought_in_async u p g s) {
        info =
            put (put u.info p (served (swapped_in g (u.info g).virtual_offset (u.info p)))) g
              (kept p (u.info p).virtual_offset (u.info g));
      }

  -- On a machine that keeps to the laws, a fault on a page on the storage that no thread handles,
  -- that the prefetcher does not have and that is not the third in a row, is served without a
  -- failing assertion if a frame is free and if the prefetch that follows changes nothing: the
  -- page gets the frame that is free the longest, is marked as in use and can be read again, and
  -- all other pages hold what they held. But the page holds what the thread's buffer held before
  -- the fault, or zeros if there was none, and not what is on the storage, which stays as it was.
  pub missing_fault-stale :
      Lawful P
      → (v : Abs P) (p g : Ptr) → Returnable v p g
      → (v.info p).migrating ≡ false
      → must_prefetch v.prev_faults (v.info p).va ≡ false
      → (v.info p).swapped_out ≡ true
      → Runs (prefetcher.handle_page_fault_with_prefetch p) (faulting v p) false (faulting v p)
      → ((u : Abs P) → Runs (prefetcher.prefetch_pointer_of p) u tt u)
      → (n : ℕ)
      → (s : P.State) × Runs (handle_missing_fault prefetcher (suc n) p) v tt (faulted_in v p g s)
        × (P.mapped (v.info p).va s ≡ true)
        × (P.memory (v.info p).va s ≡ allocated P v.buffer)
        × SameMemory P (v.info p).va v.state s
        × SameDisk P v.state s
  unfolding swap_in
  missing_fault-stale laws v p g r still alone away missed follows n =
      let u : Abs P = faulting v p in
      let (s, ran, there, held, mem, dsk) =
        swapin_external_async-stale laws u p g (faulting-Returnable v p g r) n in
      let va : (u.info p).va ≡ (v.info p).va = ap (λ (d : PageData). d.va) (put-here _ _ _) in
      let now : (brought_in_async u p g s).info p
          ≡ swapped_in g (u.info g).virtual_offset (u.info p) =
        put-there _ _ r.apart (put-here _ _ _) in
      (
        s,
        begins v p r.nz still away (suc n) u (faulted_in v p g s) false missed (
            Runs-bind _
              (Runs-bind _ ran (
                Runs-bind _ (Runs-info_of r.nz now) (
                  Runs-bind _ (Runs-assert _ (rw va (==_refl (v.info p).va))) (
                    Runs-bind _
                      (Runs-assert _ (rw va (ap not (==_ne (v.info p).va 0 r.fits.in_use.nz))))
                      (Runs-bind _ (Runs-assert _ (rw va r.fits.in_use.aligned)) (
                        Runs-bind _ (Runs-inner _ _ _ _ r.nz r.apart refl) (
                          Runs-bind _ (Runs-info_of r.nz (put-there _ _ r.apart (put-here _ _ _)))
                            (Runs-bind _ (follows _) (Runs-count _)))))))))
              (Runs-else _ _ _ alone Runs-pure)),
        subst (λ a. P.mapped a s ≡ true) va there,
        subst (λ a. P.memory a s ≡ allocated P v.buffer) va held,
        subst (λ a. SameMemory P a v.state s) va mem,
        dsk,
      )
