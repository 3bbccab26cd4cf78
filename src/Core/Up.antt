-- ===== src/Core/Up.antt =====
-- A page comes back: what `extmem_migrate_updisk` does, and the two halves that stand for it when a
-- page fault is served.
use swap_prefetch.Common.{ℕ, ◌≡◌, ◌≢◌, refl, true, false, some, leb, ltb, add64}
use swap_prefetch.Memory.{Ptr, null, PageData, basep}
use swap_prefetch.Core.{
  page_size, extmem_migrate_updisk, core_migrate_up_async_start, core_migrate_up_async_finish,
}
use swap_prefetch.Core.Bits.{InUse}
use swap_prefetch.System.{Platform}
use swap_prefetch.System.View.{Abs, put}
use swap_prefetch.System.Runs.{
  allocated, Runs, Runs-bind, Runs-assert, Runs-info_of, Runs-set_info, Runs-kernel, Runs-allocate,
  Runs-buffer_space, Runs-disk_read, Runs-count,
}

-- what a page says once it is in memory
abbrev pub moved_up : ℕ → PageData → PageData
moved_up offset d = record d { virtual_offset = offset; in_dram = true }

-- what the functions ask of a page and of the frame it comes to
pub record CanComeUp (P : Platform) (d : PageData) (offset : ℕ) : Type 0 where
  pub in_use : InUse d
  pub in_dram : d.in_dram ≡ false
  pub pt : d.pt ≡ basep
  pub from : leb (add64 d.virtual_offset page_size) P.disksize ≡ true
  pub from_lt : ltb d.virtual_offset P.disksize ≡ true
  pub to : leb (add64 offset page_size) P.dramsize ≡ true
  pub to_lt : ltb offset P.dramsize ≡ true

module _ {P : Platform} where
  -- The page is read from its place into the buffer and mapped from there. No assertion fails.
  pub updisk-Runs :
      (v : Abs P) (p : Ptr) (d : PageData) (offset : ℕ) (s : P.State)
      → p ≢ null
      → v.info p ≡ d
      → CanComeUp P d offset
      → let (c, s1) = P.disk_read d.virtual_offset (allocated P v.buffer) v.state in
        P.copy_in d.va c s1 ≡ some s
        → Runs (extmem_migrate_updisk p offset) v tt (record v {
          info = put v.info p (moved_up offset d);
          state = s;
          buffer = some (P.disk_read d.virtual_offset (allocated P v.buffer) v.state).0;
        })
  unfolding extmem_migrate_updisk
  updisk-Runs v p d offset s pz e c mapped = Runs-bind _ (Runs-info_of pz e) (
      Runs-bind _ (Runs-assert _ (rw c.in_dram)) (
        Runs-bind _ Runs-allocate (
          Runs-bind _ (Runs-assert _ c.from_lt) (
            Runs-bind _ (Runs-assert _ c.to_lt) (
              Runs-bind _ (Runs-disk_read _ refl) (
                Runs-bind _ (Runs-buffer_space refl) (
                  Runs-bind _ (Runs-kernel _ mapped) (
                    Runs-bind _ (Runs-assert _ c.in_use.aligned) (
                      Runs-bind _ (Runs-count _)
                        (Runs-bind _ (Runs-set_info _ pz e) (Runs-count _)))))))))))

  pub start-Runs :
      (v : Abs P) (p : Ptr) (d : PageData) (offset : ℕ)
      → p ≢ null
      → v.info p ≡ d
      → CanComeUp P d offset
      → Runs
          (core_migrate_up_async_start p)
          v
          tt
          (record v { buffer = some (allocated P v.buffer) })
  unfolding core_migrate_up_async_start
  start-Runs v p d offset pz e c = Runs-bind _ (Runs-info_of pz e) (
      Runs-bind _ (Runs-assert _ (rw c.in_dram)) (
        Runs-bind _ Runs-allocate
          (Runs-bind _ (Runs-assert _ c.from_lt) (Runs-assert _ (rw c.pt c.from)))))

  -- The page is mapped with what the buffer holds.
  pub finish-Runs :
      (v : Abs P) (p : Ptr) (d : PageData) (offset : ℕ) (c : P.Content) (s : P.State)
      → p ≢ null
      → v.info p ≡ d
      → CanComeUp P d offset
      → v.buffer ≡ some c
      → P.copy_in d.va c v.state ≡ some s
      → Runs
          (core_migrate_up_async_finish p offset)
          v
          tt
          (record v { info = put v.info p (moved_up offset d); state = s })
  unfolding core_migrate_up_async_finish
  finish-Runs v p d offset c s pz e u there mapped = Runs-bind _ (Runs-info_of pz e) (
      Runs-bind _ (Runs-assert _ (rw u.in_dram)) (
        Runs-bind _ (Runs-buffer_space there) (
          Runs-bind _ (Runs-assert _ u.from_lt) (
            Runs-bind _ (Runs-assert _ (rw u.pt u.from)) (
              Runs-bind _ (Runs-assert _ u.to_lt) (
                Runs-bind _ (Runs-assert _ (rw u.pt u.to)) (
                  Runs-bind _ (Runs-kernel _ mapped) (
                    Runs-bind _ (Runs-assert _ u.in_use.aligned) (
                      Runs-bind _ (Runs-count _)
                        (Runs-bind _ (Runs-set_info _ pz e) (Runs-count _)))))))))))
