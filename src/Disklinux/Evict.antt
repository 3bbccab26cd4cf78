-- ===== src/Disklinux/Evict.antt =====
-- What the eviction worker does with a page, with a place on the storage kept for it or without.
use swap_prefetch.Common.{
  ℕ, ◌≡◌, ◌≢◌, refl, sym, ap, ◌∙◌, Bool, true, false, not, ◌||◌, some, last_or, ==_refl, ==_ne,
  arith,
}
use swap_prefetch.Memory.{Ptr, null, PageData}
use swap_prefetch.Core.Bits.{InUse, wp-Runs, bits-Runs}
use swap_prefetch.Core.Down.{CanGoDown, moved_down, write_back, downdisk-Runs}
use swap_prefetch.System.{Platform}
use swap_prefetch.System.View.{Abs, put, put-here, put-there}
use swap_prefetch.System.Runs.{
  Runs, Runs-bind, Runs-pure, Runs-assert, Runs-info_of, Runs-set_info, Runs-again, Runs-inner,
  Runs-collapse, Runs-enqueue, Runs-dequeue,
}
use swap_prefetch.Disklinux.{
  begin_eviction, lrudisk_migrate_down, evict_to_reserve, evict_with_reserve, evict_without_reserve,
  end_eviction, take_frame, dram_free_list, disk_free_list, disk_active_list, disk_reserve_list,
}
use swap_prefetch.Disklinux.Lists.{queued, taken_off, taken_last, take_off-Runs}

-- what the victim says in the end, and what the descriptor says that had its place on the storage
abbrev pub evicted : ℕ → PageData → PageData
evicted offset d = record (moved_down offset d) {
  has_reserve = false;
  reserve = null;
  migrating = false;
}

abbrev pub evicted_first : ℕ → PageData → PageData
evicted_first offset d = record (moved_down offset d) { migrating = false }

abbrev pub freed : ℕ → PageData → PageData
freed offset d = record (take_frame offset d) { has_reserve = false; reserve = null }

module _ {P : Platform} where
  pub begin-Runs :
      (v : Abs P) (p : Ptr) (d : PageData) (s : P.State)
      → p ≢ null
      → v.info p ≡ d
      → InUse d
      → P.protect d.va v.state ≡ some s
      → Runs
          (begin_eviction p)
          v
          (P.dirty d.va s || not d.has_reserve)
          (record v { info = put v.info p (record d { migrating = true }); state = s })
  unfolding begin_eviction
  begin-Runs v p d s pz e u ok = Runs-bind _ (Runs-set_info _ pz e) (
      Runs-bind _
        (wp-Runs _ p (record d { migrating = true }) s pz (put-here _ _ _)
          (record { nz = u.nz; aligned = u.aligned }) ok)
        (Runs-bind _
          (bits-Runs _ p (record d { migrating = true }) pz (put-here _ _ _)
            (record { nz = u.nz; aligned = u.aligned }))
          (Runs-bind _ (Runs-info_of pz (put-here _ _ _)) Runs-pure)))

  pub migrate_down-Runs :
      (v : Abs P) (p : Ptr) (h : Ptr → PageData) (d : PageData) (offset : ℕ) (writeback : Bool)
      (s : P.State)
      → p ≢ null
      → v.info ≡ put h p d
      → CanGoDown P d offset
      → P.drop d.va (write_back P writeback offset d.va v.state) ≡ some s
      → Runs
          (lrudisk_migrate_down p offset false writeback)
          v
          tt
          (record v { info = put h p (moved_down offset d); state = s })
  unfolding lrudisk_migrate_down
  migrate_down-Runs v p h d offset writeback s pz e c dropped =
      Runs-bind _ (Runs-again _ h d pz e) (
        Runs-bind _ Runs-pure (
          Runs-collapse h p (record d { migrating = true }) _ refl
            (downdisk-Runs _ p (record d { migrating = true }) offset false writeback s pz
              (put-here _ _ _)
              (record {
                in_dram = c.in_dram;
                swapped_out = c.swapped_out;
                pt = c.pt;
                from = c.from;
                from_lt = c.from_lt;
                to = c.to;
                to_lt = c.to_lt;
              })
              dropped)))

  module _ (v : Abs P) (p : Ptr) (h : Ptr → PageData) (d : PageData) (writeback : Bool)
      (s : P.State) (pz : p ≢ null) (e : v.info ≡ put h p d) (loose : v.list p ≡ null)
      (moving : d.migrating ≡ true) where
    -- The victim `p` takes the place of its reserve on the storage, and the reserve takes the
    -- frame.
    pub evict_to_reserve-Runs :
        d.reserve ≢ null
        → d.reserve ≢ p
        → (h d.reserve).reserve ≡ p
        → v.list d.reserve ≡ disk_reserve_list
        → CanGoDown P d (h d.reserve).virtual_offset
        → P.drop d.va (write_back P writeback (h d.reserve).virtual_offset d.va v.state) ≡ some s
        → Runs
            (evict_to_reserve p writeback)
            v
            d.reserve
            (record (taken_off disk_reserve_list d.reserve v) {
              info =
                  put
                    (put h p (record (moved_down (h d.reserve).virtual_offset d) {
                      has_reserve = false;
                      reserve = null;
                    }))
                    d.reserve
                    (freed d.virtual_offset (h d.reserve));
              state = s;
            })
    unfolding evict_to_reserve
    evict_to_reserve-Runs qz qp back on c dropped =
        Runs-bind _ (Runs-info_of pz (ap (λ f. f p) e ∙ put-here _ _ _)) (
          Runs-bind _ (Runs-assert _ (rw (==_ne d.reserve null qz))) (
            Runs-bind _ (Runs-info_of qz (ap (λ f. f d.reserve) e ∙ put-there _ _ qp refl)) (
              Runs-bind _ (Runs-assert _ (rw back (==_refl p))) (
                Runs-bind _ (take_off-Runs _ disk_reserve_list d.reserve (ground arith) qz on) (
                  Runs-bind _ (migrate_down-Runs _ p h d _ writeback s pz e c dropped) (
                    Runs-bind _ (Runs-set_info _ qz (put-there _ _ qp refl))
                      (Runs-bind _ (Runs-inner _ _ _ _ pz (λ z. qp (sym z)) refl) Runs-pure)))))))

    -- the same, and both on their lists, as the eviction worker leaves them
    pub evict_with_reserve-Runs :
        d.reserve ≢ null
        → d.reserve ≢ p
        → (h d.reserve).reserve ≡ p
        → v.list d.reserve ≡ disk_reserve_list
        → CanGoDown P d (h d.reserve).virtual_offset
        → P.drop d.va (write_back P writeback (h d.reserve).virtual_offset d.va v.state) ≡ some s
        → Runs (evict_with_reserve p writeback) v tt (
            queued disk_active_list p (
              queued dram_free_list d.reserve (record (taken_off disk_reserve_list d.reserve v) {
                info =
                    put
                      (put h p (evicted (h d.reserve).virtual_offset d))
                      d.reserve
                      (freed d.virtual_offset (h d.reserve));
                state = s;
              })))
    unfolding evict_with_reserve end_eviction
    evict_with_reserve-Runs qz qp back on c dropped =
        let pq : p ≢ d.reserve = λ z. qp (sym z) in
        Runs-bind _ (evict_to_reserve-Runs qz qp back on c dropped) (
          Runs-bind _ (Runs-enqueue (ground arith) qz (put-here _ _ _)) (
            Runs-bind _ (Runs-enqueue (ground arith) pz (put-there _ _ pq (put-there _ _ pq loose)))
              (Runs-bind _ (Runs-info_of pz (put-there _ _ pq (put-here _ _ _))) (
                Runs-bind _ (Runs-assert _ refl)
                  (Runs-bind _ (Runs-assert _ refl) (Runs-inner _ _ _ _ pz pq refl))))))

    -- The victim takes the place of the oldest free page of the storage, which takes the frame.
    pub evict_without_reserve-Runs :
        (q : Ptr)
        → q ≢ null
        → q ≢ p
        → last_or null (v.contents disk_free_list) ≡ q
        → (h q).present ≡ false
        → CanGoDown P d (h q).virtual_offset
        → P.drop d.va (write_back P writeback (h q).virtual_offset d.va v.state) ≡ some s
        → Runs
            (evict_without_reserve p writeback)
            v
            tt
            (record (queued dram_free_list q
              (queued disk_active_list p (taken_last disk_free_list q v))) {
                info =
                    put
                      (put h p (evicted_first (h q).virtual_offset d))
                      q
                      (take_frame d.virtual_offset (h q));
                state = s;
              })
    unfolding evict_without_reserve end_eviction
    evict_without_reserve-Runs q qz qp oldest absent c dropped =
        let pq : p ≢ q = λ z. qp (sym z) in
        Runs-bind _ (Runs-dequeue (ground arith) oldest) (
          Runs-bind _ (Runs-assert _ (rw (==_ne q null qz))) (
            Runs-bind _ (Runs-info_of qz (ap (λ f. f q) e ∙ put-there _ _ qp refl)) (
              Runs-bind _ (Runs-assert _ (rw absent)) (
                Runs-bind _ (Runs-info_of pz (ap (λ f. f p) e ∙ put-here _ _ _)) (
                  Runs-bind _ (migrate_down-Runs _ p h d _ writeback s pz e c dropped) (
                    Runs-bind _ (Runs-enqueue (ground arith) pz (put-there _ _ pq loose)) (
                      Runs-bind _ (Runs-set_info _ qz (put-there _ _ qp refl)) (
                        Runs-bind _
                          (Runs-enqueue (ground arith) qz (put-there _ _ qp (put-here _ _ _)))
                          (Runs-bind _ (Runs-info_of pz (put-there _ _ pq (put-here _ _ _))) (
                            Runs-bind _ (Runs-assert _ refl) (
                              Runs-bind _ (Runs-assert _ refl)
                                (Runs-inner _ _ _ _ pz pq refl))))))))))))
