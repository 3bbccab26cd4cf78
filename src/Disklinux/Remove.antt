-- ===== src/Disklinux/Remove.antt =====
-- `lrudisk_remove_page`: a page is given up, in memory with or without a place on the storage kept
-- for it, or on the storage.
use swap_prefetch.Common.{ℕ, suc, ◌≡◌, ◌≢◌, refl, sym, ap, true, false, not, ==_refl, ==_ne, arith}
use swap_prefetch.Memory.{Ptr, null, PageData}
use swap_prefetch.System.{Platform}
use swap_prefetch.System.View.{Abs, put, put-here, put-there}
use swap_prefetch.System.Runs.{
  Runs, Runs-bind, Runs-pure, Runs-assert, Runs-info_of, Runs-list_of, Runs-tryremove,
  Runs-set_info, Runs-again, Runs-inner, Runs-enqueue, Runs-then, Runs-else,
}
use swap_prefetch.Disklinux.{
  lrudisk_remove_page, remove_from_list, remove_reserve, dram_free_list, disk_free_list,
  disk_reserve_list,
}
use swap_prefetch.Disklinux.Lists.{queued, taken_off, take_off-Runs}

-- what a descriptor says that stands for no page, in memory, on the storage, and of a place given
-- back
abbrev pub removed : PageData → PageData
removed d = record d { present = false; va = 0; migrating = false }

abbrev pub removed_reserve : PageData → PageData
removed_reserve d = record (removed d) { has_reserve = false; reserve = null }

abbrev pub given_back : PageData → PageData
given_back r = record r { has_reserve = false; reserve = null; present = false }

module _ {P : Platform} (v : Abs P) (p : Ptr) (pz : p ≢ null) (on : v.list p ≢ null) (n : ℕ) where
  from_list :
      (u : Abs P)
      → u.list p ≡ v.list p
      → Runs (remove_from_list (suc n) p) u tt (taken_off (v.list p) p u)
  unfolding remove_from_list
  from_list u e = Runs-bind _ (Runs-list_of pz e) (Runs-bind _ (Runs-tryremove on pz e) Runs-pure)

  -- A page in memory for which no place is kept is taken off its list, and its frame is free again.
  pub remove_page-plain :
      (v.info p).in_dram ≡ true
      → (v.info p).has_reserve ≡ false
      → Runs (lrudisk_remove_page (suc n) p) v tt (
          queued dram_free_list p
            (record (taken_off (v.list p) p v) { info = put v.info p (removed (v.info p)) }))
  unfolding lrudisk_remove_page
  remove_page-plain here none = Runs-bind _ (Runs-set_info _ pz refl) (
      Runs-bind _ (from_list _ refl) (
        Runs-bind _ (Runs-again _ _ _ pz refl) (
          Runs-bind _ (Runs-info_of pz (put-here _ _ _)) (
            Runs-bind _
              (Runs-then _ _ _ here (
                Runs-bind _ (Runs-else _ _ _ none Runs-pure)
                  (Runs-enqueue (ground arith) pz (put-here _ _ _))))
              (Runs-again _ _ _ pz refl)))))

  -- A page on the storage is taken off its list, and its place is free again.
  pub remove_page-away :
      (v.info p).in_dram ≡ false
      → (v.info p).swapped_out ≡ true
      → Runs (lrudisk_remove_page (suc n) p) v tt (
          queued disk_free_list p (record (taken_off (v.list p) p v) {
            info = put v.info p (removed_reserve (v.info p));
          }))
  unfolding lrudisk_remove_page
  remove_page-away away out = Runs-bind _ (Runs-set_info _ pz refl) (
      Runs-bind _ (from_list _ refl) (
        Runs-bind _ (Runs-again _ _ _ pz refl) (
          Runs-bind _ (Runs-info_of pz (put-here _ _ _)) (
            Runs-bind _
              (Runs-else _ _ _ away (
                Runs-bind _ (Runs-assert _ out) (
                  Runs-bind _ (Runs-again _ _ _ pz refl)
                    (Runs-enqueue (ground arith) pz (put-here _ _ _)))))
              (Runs-again _ _ _ pz refl)))))

  -- A page in memory that is on a list and for which a place on the storage is kept is taken off
  -- its list, and its frame and that place are free again, without a failing assertion.
  pub remove_page-reserved :
      (v.info p).in_dram ≡ true
      → (v.info p).has_reserve ≡ true
      → (v.info p).reserve ≢ null
      → (v.info p).reserve ≢ p
      → (v.info (v.info p).reserve).reserve ≡ p
      → v.list (v.info p).reserve ≡ disk_reserve_list
      → let q = (v.info p).reserve in
        Runs (lrudisk_remove_page (suc n) p) v tt (
          queued dram_free_list p (
            queued disk_free_list q
              (record (taken_off disk_reserve_list q (taken_off (v.list p) p v)) {
                info = put (put v.info p (removed_reserve (v.info p))) q (given_back (v.info q));
              })))
  unfolding lrudisk_remove_page remove_reserve
  remove_page-reserved here kept qz qp back listed =
      let q : Ptr = (v.info p).reserve in
      let pq : p ≢ q = λ z. qp (sym z) in
      Runs-bind _ (Runs-set_info _ pz refl) (
        Runs-bind _ (from_list _ refl) (
          Runs-bind _ (Runs-again _ _ _ pz refl) (
            Runs-bind _ (Runs-info_of pz (put-here _ _ _)) (
              Runs-bind _
                (Runs-then _ _ _ here (
                  Runs-bind _
                    (Runs-then _ _ _ kept (
                      Runs-bind _ (Runs-info_of pz (put-here _ _ _)) (
                        Runs-bind _ (Runs-assert _ (ap not (==_ne q null qz))) (
                          Runs-bind _ (Runs-info_of qz (put-there _ _ qp refl)) (
                            Runs-bind _ (Runs-assert _ (rw back (==_refl p))) (
                              Runs-bind _
                                (take_off-Runs _ disk_reserve_list q (ground arith) qz
                                  (put-there _ _ qp listed))
                                (Runs-bind _ (Runs-set_info _ qz (put-there _ _ qp refl)) (
                                  Runs-bind _ (Runs-enqueue (ground arith) qz (put-here _ _ _))
                                    (Runs-inner _ _ _ _ pz pq refl)))))))))
                    (Runs-enqueue (ground arith) pz
                      (put-there _ _ pq (put-there _ _ pq (put-here _ _ _))))))
                (Runs-inner _ _ _ _ pz pq refl)))))
