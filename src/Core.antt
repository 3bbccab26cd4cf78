-- ===== src/Core.antt =====
-- core.c: a page moves between memory and the swap storage. What is modelled is the build that the
-- Makefile makes, USWAP_RDMA, where a read and a write of the storage return when they are done.
pub mod Bits
pub mod Down
pub mod Up
use swap_prefetch.Common.{
  ℕ, ◌+◌, ◌≤◌, ◌%◌, Bool, true, false, not, ◌==◌, if◌then◌else◌, ltb, leb, add64,
}
use swap_prefetch.Memory.{Ptr, PageType, hugep, basep, PageData, pure}
use swap_prefetch.System.{
  Platform, Stats, Sys, ◌>>=◌, ◌>>◌, info_of, set_info, kernel, ask, disk_write_page,
  allocate_buffer, buffer_space, disk_read_page, count, assert,
}

abbrev pub page_size : ℕ
page_size = 4096

abbrev pub pt_to_pagesize : PageType → ℕ
pt_to_pagesize hugep = 2097152
pt_to_pagesize basep = 4096

module _ {P : Platform} where
  pub extmem_migrate_updisk : (page : Ptr) (dram_offset : ℕ) → Sys P (Unit {0})
  extmem_migrate_updisk page dram_offset = do
    d ← info_of page
    assert (not d.in_dram)
    allocate_buffer
    assert (ltb d.virtual_offset P.disksize)
    assert (ltb dram_offset P.dramsize)
    disk_read_page d.virtual_offset
    c ← buffer_space
    kernel (P.copy_in d.va c)
    assert (d.va % page_size == 0)
    count (λ s. record s { migrations_up = add64 s.migrations_up 1 })
    set_info page (λ d. record d { virtual_offset = dram_offset; in_dram = true })
    count (λ s. record s { bytes_migrated = add64 s.bytes_migrated (pt_to_pagesize d.pt) })

  -- without io_uring this starts no read
  pub core_migrate_up_async_start : (page : Ptr) → Sys P (Unit {0})
  core_migrate_up_async_start page = do
    d ← info_of page
    assert (not d.in_dram)
    allocate_buffer
    assert (ltb d.virtual_offset P.disksize)
    assert (leb (add64 d.virtual_offset (pt_to_pagesize d.pt)) P.disksize)

  -- without io_uring this waits for no read: it maps what the buffer holds
  pub core_migrate_up_async_finish : (page : Ptr) (dram_offset : ℕ) → Sys P (Unit {0})
  core_migrate_up_async_finish page dram_offset = do
    d ← info_of page
    assert (not d.in_dram)
    c ← buffer_space
    assert (ltb d.virtual_offset P.disksize)
    assert (leb (add64 d.virtual_offset (pt_to_pagesize d.pt)) P.disksize)
    assert (ltb dram_offset P.dramsize)
    assert (leb (add64 dram_offset (pt_to_pagesize d.pt)) P.dramsize)
    kernel (P.copy_in d.va c)
    assert (d.va % page_size == 0)
    count (λ s. record s { migrations_up = add64 s.migrations_up 1 })
    set_info page (λ d. record d { virtual_offset = dram_offset; in_dram = true })
    count (λ s. record s { bytes_migrated = add64 s.bytes_migrated (pt_to_pagesize d.pt) })

  pub extmem_migrate_downdisk :
      (page : Ptr) (disk_offset : ℕ) (need_wp writeback : Bool) → Sys P (Unit {0})
  extmem_migrate_downdisk page disk_offset need_wp writeback = do
    set_info page (λ d. record d { migrating = true })
    d ← info_of page
    assert d.in_dram
    assert (ltb d.virtual_offset P.dramsize)
    assert (leb (add64 d.virtual_offset (pt_to_pagesize d.pt)) P.dramsize)
    assert (ltb disk_offset P.disksize)
    assert (leb (add64 disk_offset (pt_to_pagesize d.pt)) P.disksize)
    if writeback then disk_write_page disk_offset d.va else pure tt
    kernel (P.drop d.va)
    count (λ s. record s { migrations_down = add64 s.migrations_down 1 })
    set_info page (λ d. record d { virtual_offset = disk_offset; in_dram = false })
    count (λ s. record s { bytes_migrated = add64 s.bytes_migrated (pt_to_pagesize d.pt) })
    e ← info_of page
    assert (not e.swapped_out)
    set_info page (λ d. record d { swapped_out = true })
    f ← info_of page
    assert f.migrating

  pub extmem_wp_page : (page : Ptr) (protect : Bool) → Sys P (Unit {0})
  extmem_wp_page page protect = do
    d ← info_of page
    assert (not (d.va == 0))
    assert (d.va % page_size == 0)
    if protect then kernel (P.protect d.va) else kernel (P.unprotect d.va)

  -- observability.c: the accessed and the dirty bit of a page
  pub pt_get_bits : (page : Ptr) → Sys P (Bool × Bool)
  pt_get_bits page = do
    d ← info_of page
    assert (d.va % page_size == 0)
    accessed ← ask (P.accessed d.va)
    dirty ← ask (P.dirty d.va)
    pure (accessed, dirty)

  pub pt_clear_accessed_flag : (page : Ptr) → Sys P (Unit {0})
  pt_clear_accessed_flag page = do
    d ← info_of page
    assert (d.va % page_size == 0)
    kernel (P.clear_accessed d.va)
