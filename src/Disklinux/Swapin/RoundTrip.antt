-- ===== src/Disklinux/Swapin/RoundTrip.antt =====
-- A page is evicted and comes back: what goes to the storage, and what comes from there.
use swap_prefetch.Common.{ℕ, ◌≡◌, Bool, true, false, ◌∷◌, []}
use swap_prefetch.Memory.{Ptr}
use swap_prefetch.System.{Platform}
use swap_prefetch.System.Laws.{WentDown, CameUp, SameMemory}
use swap_prefetch.System.View.{Abs}
use swap_prefetch.System.Runs.{Runs}
use swap_prefetch.Disklinux.{dram_free_list, disk_active_list}

-- The page at the address `a` has gone to the place `o` and come back from there, in this order,
-- by a buffer that held `c`; what other pages hold stays.
pub record Restored (P : Platform) (writeback : Bool) (a o : ℕ) (c : P.Content) (s s' : P.State)
    : Type 0 where
  pub gone : P.State
  pub down : WentDown P writeback a o s gone
  pub up : CameUp P a o c gone s'
  pub memory : SameMemory P a s s'

module _ {P : Platform} where
  -- The page `p` has gone from its frame, which `q` has now, to the place `o`.
  record Gone (v : Abs P) (p : Ptr) (v1 : Abs P) (q : Ptr) (o : ℕ) : Type 0 where
    va : (v1.info p).va ≡ (v.info p).va
    place : (v1.info p).virtual_offset ≡ o
    out : (v1.info p).in_dram ≡ false
    pt : (v1.info p).pt ≡ (v.info p).pt
    listed : v1.list p ≡ disk_active_list
    frame : (v1.info q).virtual_offset ≡ (v.info p).virtual_offset
    is_frame : (v1.info q).in_dram ≡ true
    free : v1.contents dram_free_list ≡ q ∷ []
    buffer : v1.buffer ≡ v.buffer
