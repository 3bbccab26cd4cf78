-- ===== src/Disklinux/Swapin.antt =====
-- policies/disklinux.c: a page comes back from the storage.
pub mod External
pub mod Stale
pub mod RoundTrip
use swap_prefetch.Common.{ℕ, Bool, true, false, ◌==◌, not, if◌then◌else◌}
use swap_prefetch.Memory.{Ptr, null, PageData, pure}
use swap_prefetch.Fifo.{page_list_remove_page}
use swap_prefetch.Core.{
  extmem_migrate_updisk, core_migrate_up_async_start, core_migrate_up_async_finish,
}
use swap_prefetch.System.{Platform, Sys, ◌>>=◌, ◌>>◌, on_mem, info_of, list_of, set_info, assert}
use swap_prefetch.Disklinux.{
  active_list, disk_active_list, disk_free_list, enqueue_page, take_off, take_place, keep_reserve,
}
use swap_prefetch.Disklinux.Reclaim.{fetch_free_asynch}

module _ {P : Platform} where
  pub lrudisk_migrate_up : (page : Ptr) (offset : ℕ) → Sys P (Unit {0})
  lrudisk_migrate_up page offset = extmem_migrate_updisk page offset

  pub lrudisk_swapin : (page freepage : Ptr) → Sys P (Unit {0})
  lrudisk_swapin page freepage = do
    f ← info_of freepage
    d ← info_of page
    assert f.in_dram
    l ← list_of freepage
    assert (l == active_list)
    on_mem (page_list_remove_page active_list freepage)
    k ← list_of page
    assert (k == disk_active_list)
    on_mem (page_list_remove_page disk_active_list page)
    lrudisk_migrate_up page f.virtual_offset
    take_place freepage d.virtual_offset
    enqueue_page active_list page
    enqueue_page disk_free_list freepage

  -- the part behind the search for a frame
  pub swapin_to : (page freepage : Ptr) (file_offset : ℕ) → Sys P (Unit {0})
  swapin_to page freepage file_offset = do
    f ← info_of freepage
    assert f.in_dram
    take_off disk_active_list page
    lrudisk_migrate_up page f.virtual_offset
    take_place freepage file_offset
    keep_reserve page freepage

  pub lrudisk_swapin_external : (rounds : ℕ) (page : Ptr) → Sys P (Unit {0})
  lrudisk_swapin_external rounds page = do
    d ← info_of page
    freepage ← fetch_free_asynch rounds
    swapin_to page freepage d.virtual_offset

  -- the part before the search for a frame, and the part behind it
  pub begin_swapin : (page : Ptr) → Sys P (Unit {0})
  begin_swapin page = do
    take_off disk_active_list page
    d ← info_of page
    if d.in_dram then set_info page (λ e. record e { in_dram = false }) else pure tt
    core_migrate_up_async_start page

  pub end_swapin : (page freepage : Ptr) (file_offset : ℕ) → Sys P (Unit {0})
  end_swapin page freepage file_offset = do
    f ← info_of freepage
    assert f.in_dram
    core_migrate_up_async_finish page f.virtual_offset
    take_place freepage file_offset
    keep_reserve page freepage

  pub lrudisk_swapin_external_async : (rounds : ℕ) (page : Ptr) → Sys P (Unit {0})
  lrudisk_swapin_external_async rounds page = do
    d ← info_of page
    begin_swapin page
    freepage ← fetch_free_asynch rounds
    end_swapin page freepage d.virtual_offset
