-- ===== src/Core/Down.antt =====
-- A page leaves memory: what `extmem_migrate_downdisk` does.
use swap_prefetch.Common.{
  ℕ, ◌≡◌, ◌≢◌, refl, Bool, true, false, some, if◌then◌else◌, leb, ltb, add64,
}
use swap_prefetch.Memory.{Ptr, null, PageData, basep, pure}
use swap_prefetch.Core.{page_size, extmem_migrate_downdisk}
use swap_prefetch.System.{Platform, disk_write_page}
use swap_prefetch.System.View.{Abs, put, put-here}
use swap_prefetch.System.Runs.{
  Runs, Runs-bind, Runs-pure, Runs-assert, Runs-info_of, Runs-set_info, Runs-kernel,
  Runs-disk_write, Runs-count, Runs-again,
}

-- the state of machine and storage once the page at `va` is on the storage
abbrev pub write_back : (P : Platform) → Bool → (offset va : ℕ) → P.State → P.State
write_back P writeback offset va s = if writeback then P.disk_write offset (P.memory va s) s else s

-- what a page says once it is on the storage
abbrev pub moved_down : ℕ → PageData → PageData
moved_down offset d = record d {
  migrating = true;
  virtual_offset = offset;
  in_dram = false;
  swapped_out = true;
}

-- what `extmem_migrate_downdisk` asks of a page and of the place it goes to
pub record CanGoDown (P : Platform) (d : PageData) (offset : ℕ) : Type 0 where
  pub in_dram : d.in_dram ≡ true
  pub swapped_out : d.swapped_out ≡ false
  pub pt : d.pt ≡ basep
  pub from : leb (add64 d.virtual_offset page_size) P.dramsize ≡ true
  pub from_lt : ltb d.virtual_offset P.dramsize ≡ true
  pub to : leb (add64 offset page_size) P.disksize ≡ true
  pub to_lt : ltb offset P.disksize ≡ true

module _ {P : Platform} where
  writes :
      (v : Abs P) (b : Bool) (o a : ℕ)
      → Runs
          (if b then disk_write_page o a else pure tt)
          v
          tt
          (record v { state = write_back P b o a v.state })
  writes v true o a = Runs-disk_write o a
  writes v false o a = Runs-pure

  -- The page goes to a place on the storage, and its memory is given up. No assertion fails.
  pub downdisk-Runs :
      (v : Abs P) (p : Ptr) (d : PageData) (offset : ℕ) (wp writeback : Bool) (s : P.State)
      → p ≢ null
      → v.info p ≡ d
      → CanGoDown P d offset
      → P.drop d.va (write_back P writeback offset d.va v.state) ≡ some s
      → Runs
          (extmem_migrate_downdisk p offset wp writeback)
          v
          tt
          (record v { info = put v.info p (moved_down offset d); state = s })
  unfolding extmem_migrate_downdisk
  downdisk-Runs v p d offset wp writeback s pz e c dropped = Runs-bind _ (Runs-set_info _ pz e) (
      Runs-bind _ (Runs-info_of pz (put-here _ _ _)) (
        Runs-bind _ (Runs-assert _ c.in_dram) (
          Runs-bind _ (Runs-assert _ c.from_lt) (
            Runs-bind _ (Runs-assert _ (rw c.pt c.from)) (
              Runs-bind _ (Runs-assert _ c.to_lt) (
                Runs-bind _ (Runs-assert _ (rw c.pt c.to)) (
                  Runs-bind _ (writes _ writeback offset d.va) (
                    Runs-bind _ (Runs-kernel _ dropped) (
                      Runs-bind _ (Runs-count _) (
                        Runs-bind _ (Runs-again _ _ _ pz refl) (
                          Runs-bind _ (Runs-count _) (
                            Runs-bind _ (Runs-info_of pz (put-here _ _ _)) (
                              Runs-bind _ (Runs-assert _ (rw c.swapped_out)) (
                                Runs-bind _ (Runs-again _ _ _ pz refl) (
                                  Runs-bind _ (Runs-info_of pz (put-here _ _ _))
                                    (Runs-assert _ refl))))))))))))))))
