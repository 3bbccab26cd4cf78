-- ===== src/Disklinux/Reclaim/Fetch.antt =====
-- `fetch_free_asynch`: which frame it finds.
use swap_prefetch.Common.{ℕ, suc, ◌≡◌, ◌≢◌, refl, ap, true, not, last_or, ==_ne, arith}
use swap_prefetch.Memory.{Ptr, null}
use swap_prefetch.System.{Platform}
use swap_prefetch.System.View.{Abs, put}
use swap_prefetch.System.Runs.{
  Runs, Runs-bind, Runs-pure, Runs-assert, Runs-dequeue, Runs-set_info, Runs-then,
}
use swap_prefetch.Disklinux.{dram_free_list}
use swap_prefetch.Disklinux.Lists.{taken_last}
use swap_prefetch.Disklinux.Reclaim.{find_frame, fetch_free_asynch, lrudisk_pagefault}

module _ {P : Platform} (v : Abs P) (g : Ptr) (gz : g ≢ null)
    (oldest : last_or null (v.contents dram_free_list) ≡ g) where
  -- With a frame free, the search takes the oldest one and changes nothing else.
  pub fetch_free-free :
      (n : ℕ) → Runs (fetch_free_asynch (suc n)) v g (taken_last dram_free_list g v)
  unfolding fetch_free_asynch find_frame
  fetch_free-free n = Runs-bind _ (Runs-assert _ refl) (
      Runs-bind _ (Runs-dequeue (ground arith) oldest)
        (Runs-then _ _ _ (ap not (==_ne g null gz)) Runs-pure))

  -- `lrudisk_pagefault` returns that frame, off every list and marked as migrating.
  pub pagefault-free :
      (n : ℕ)
      → Runs (lrudisk_pagefault (suc n)) v g (record (taken_last dram_free_list g v) {
        info = put v.info g (record (v.info g) { migrating = true });
      })
  unfolding lrudisk_pagefault
  pagefault-free n = Runs-bind _ (fetch_free-free n) (
      Runs-bind _ (Runs-assert _ (rw (==_ne g null gz)))
        (Runs-bind _ (Runs-set_info _ gz refl) Runs-pure))
