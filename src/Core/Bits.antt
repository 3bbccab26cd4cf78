-- ===== src/Core/Bits.antt =====
-- What the functions do that write protect a page or read and clear its bits in the page table.
use swap_prefetch.Common.{◌≡◌, ◌≢◌, ◌%◌, true, some, ◌==◌, ==_ne}
use swap_prefetch.Memory.{Ptr, null, PageData}
use swap_prefetch.Core.{page_size, extmem_wp_page, pt_get_bits, pt_clear_accessed_flag}
use swap_prefetch.System.{Platform}
use swap_prefetch.System.View.{Abs}
use swap_prefetch.System.Runs.{
  Runs, Runs-bind, Runs-pure, Runs-assert, Runs-info_of, Runs-kernel, Runs-ask,
}

-- a page that the program uses: its address is that of a page of the virtual memory
pub record InUse (d : PageData) : Type 0 where
  pub nz : d.va ≢ 0
  pub aligned : (d.va % page_size == 0) ≡ true

module _ {P : Platform} where
  pub wp-Runs :
      (v : Abs P) (p : Ptr) (d : PageData) (s : P.State)
      → p ≢ null
      → v.info p ≡ d
      → InUse d
      → P.protect d.va v.state ≡ some s
      → Runs (extmem_wp_page p true) v tt (record v { state = s })
  unfolding extmem_wp_page
  wp-Runs v p d s pz e u ok = Runs-bind _ (Runs-info_of pz e) (
      Runs-bind _ (Runs-assert _ (rw (==_ne d.va 0 u.nz)))
        (Runs-bind _ (Runs-assert _ u.aligned) (Runs-kernel _ ok)))

  pub bits-Runs :
      (v : Abs P) (p : Ptr) (d : PageData)
      → p ≢ null
      → v.info p ≡ d
      → InUse d
      → Runs (pt_get_bits p) v (P.accessed d.va v.state, P.dirty d.va v.state) v
  unfolding pt_get_bits
  bits-Runs v p d pz e u = Runs-bind _ (Runs-info_of pz e) (
      Runs-bind _ (Runs-assert _ u.aligned)
        (Runs-bind _ (Runs-ask _) (Runs-bind _ (Runs-ask _) Runs-pure)))

  pub clear-Runs :
      (v : Abs P) (p : Ptr) (d : PageData) (s : P.State)
      → p ≢ null
      → v.info p ≡ d
      → InUse d
      → P.clear_accessed d.va v.state ≡ some s
      → Runs (pt_clear_accessed_flag p) v tt (record v { state = s })
  unfolding pt_clear_accessed_flag
  clear-Runs v p d s pz e u ok =
      Runs-bind _ (Runs-info_of pz e) (Runs-bind _ (Runs-assert _ u.aligned) (Runs-kernel _ ok))
