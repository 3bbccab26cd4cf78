-- ===== src/Disklinux/Lists.antt =====
-- Pages go on and off the lists of the policy.
use swap_prefetch.Common.{arith, ◌≡◌, ◌≢◌, refl, ◌∷◌, ==_refl, erase, init}
use swap_prefetch.Memory.{Ptr, null}
use swap_prefetch.System.{Platform}
use swap_prefetch.System.View.{Abs, put}
use swap_prefetch.System.Runs.{
  Runs, Runs-bind, Runs-assert, Runs-list_of, Runs-info_of, Runs-tryremove, Runs-enqueue,
}
use swap_prefetch.Disklinux.{
  take_off, dram_free_list, inactive_list, lrudisk_track_page, lrudisk_put_page_free,
}

module _ {P : Platform} where
  -- the state with a page put in front of a list, and with a page taken off a list
  abbrev pub queued : Ptr → Ptr → Abs P → Abs P
  queued q p v = record v { contents = put v.contents q (p ∷ v.contents q); list = put v.list p q }

  abbrev pub taken_off : Ptr → Ptr → Abs P → Abs P
  taken_off q p v = record v {
    contents = put v.contents q (erase p (v.contents q));
    list = put v.list p null;
  }

  -- the state with the oldest page taken off a list
  abbrev pub taken_last : Ptr → Ptr → Abs P → Abs P
  taken_last q p v = record v {
    contents = put v.contents q (init (v.contents q));
    list = put v.list p null;
  }

  pub take_off-Runs :
      (v : Abs P) (q p : Ptr)
      → q ≢ null
      → p ≢ null
      → v.list p ≡ q
      → Runs (take_off q p) v tt (taken_off q p v)
  unfolding take_off
  take_off-Runs v q p qz pz on = Runs-bind _ (Runs-list_of pz on) (
      Runs-bind _ (Runs-assert _ (==_refl q))
        (Runs-bind _ (Runs-tryremove qz pz on) (Runs-assert _ refl)))

  -- A page that is on no list is put on the list of inactive pages.
  pub track_page-Runs :
      (v : Abs P) (p : Ptr)
      → p ≢ null
      → v.list p ≡ null
      → Runs (lrudisk_track_page p) v tt (queued inactive_list p v)
  unfolding lrudisk_track_page
  track_page-Runs v p pz loose =
      Runs-bind _ (Runs-list_of pz loose)
        (Runs-bind _ (Runs-assert _ refl) (Runs-enqueue (ground arith) pz loose))

  -- A frame that is on no list and has no address becomes free.
  pub put_page_free-Runs :
      (v : Abs P) (p : Ptr)
      → p ≢ null
      → v.list p ≡ null
      → (v.info p).va ≡ 0
      → Runs (lrudisk_put_page_free p) v tt (queued dram_free_list p v)
  unfolding lrudisk_put_page_free
  put_page_free-Runs v p pz loose e = Runs-bind _ (Runs-list_of pz loose) (
      Runs-bind _ (Runs-assert _ refl) (
        Runs-bind _ (Runs-info_of pz refl)
          (Runs-bind _ (Runs-assert _ (rw e)) (Runs-enqueue (ground arith) pz loose))))
