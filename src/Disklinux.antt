-- ===== src/Disklinux.antt =====
-- policies/disklinux.c: the lists of pages in memory and on the storage, and how a page gets from
-- one to the other. Each function runs to its end before another starts; waking kswapd is not
-- modelled, since it only signals another thread.
pub mod Reclaim
pub mod Swapin
pub mod Lists
pub mod Evict
pub mod Victim
pub mod Remove
pub mod Vector
mod Tests
use swap_prefetch.Common.{
  ℕ, zero, suc, ◌+◌, ◌-◌, ◌*◌, ◌/◌, ◌^◌, Bool, true, false, not, ◌||◌, ◌&&◌, ◌==◌, if◌then◌else◌,
  none, ltb,
}
use swap_prefetch.Memory.{Ptr, null, PageData, pure}
use swap_prefetch.Fifo.{enqueue_fifo, dequeue_fifo, page_list_tryremove_page}
use swap_prefetch.Core.{
  page_size, extmem_migrate_updisk, core_migrate_up_async_start, core_migrate_up_async_finish,
  extmem_migrate_downdisk, extmem_wp_page, pt_get_bits, pt_clear_accessed_flag,
}
use swap_prefetch.System.{
  Platform, Sys, ◌>>=◌, ◌>>◌, on_mem, info_of, list_of, numentries, set_info, is_shrinking,
  set_shrinking, assert,
}

abbrev pub active_list : Ptr
active_list = 1

abbrev pub inactive_list : Ptr
inactive_list = 2

abbrev pub disk_active_list : Ptr
disk_active_list = 3

abbrev pub dram_free_list : Ptr
dram_free_list = 4

abbrev pub disk_free_list : Ptr
disk_free_list = 5

abbrev pub disk_reserve_list : Ptr
disk_reserve_list = 6

abbrev pub eviction_list : Ptr
eviction_list = 7

abbrev pub swap_cluster_count : ℕ
swap_cluster_count = 32

-- what a page of the storage becomes once the frame of the page that takes its place is its own
abbrev pub take_frame : ℕ → PageData → PageData
take_frame old_offset d = record d { virtual_offset = old_offset; in_dram = true; present = false }

module _ {P : Platform} where
  abbrev pub enqueue_page : Ptr → Ptr → Sys P (Unit {0})
  enqueue_page queue page = on_mem (enqueue_fifo queue page)

  abbrev pub dequeue_page : Ptr → Sys P Ptr
  dequeue_page queue = on_mem (dequeue_fifo queue)

  -- a loop that has gone on for longer than its bound
  pub endless : {A : Type 0} → Sys P A
  endless w = none

  -- The loop that takes a page off the list it must be on. Its assertions leave one round; where
  -- `lrudisk_remove_page` does not assert the result, a second round would be like the first.
  pub take_off : (list page : Ptr) → Sys P (Unit {0})
  take_off list page = do
    l ← list_of page
    assert (l == list)
    ok ← on_mem (page_list_tryremove_page list page)
    assert ok

  pub lrudisk_migrate_down : (page : Ptr) (offset : ℕ) (need_wp writeback : Bool) → Sys P (Unit {0})
  lrudisk_migrate_down page offset need_wp writeback = do
    set_info page (λ d. record d { migrating = true })
    if need_wp then extmem_wp_page page true else pure tt
    extmem_migrate_downdisk page offset false writeback

  -- `victim->migrating = true`, the write protection and the choice whether to write the page back
  pub begin_eviction : (victim : Ptr) → Sys P Bool
  begin_eviction victim = do
    set_info victim (λ d. record d { migrating = true })
    extmem_wp_page victim true
    bits ← pt_get_bits victim
    d ← info_of victim
    pure (bits.1 || not d.has_reserve)

  -- the victim goes to the place on the storage that is kept for it
  pub evict_to_reserve : (victim : Ptr) (writeback : Bool) → Sys P Ptr
  evict_to_reserve victim writeback = do
    d ← info_of victim
    assert (not (d.reserve == null))
    r ← info_of d.reserve
    assert (r.reserve == victim)
    take_off disk_reserve_list d.reserve
    lrudisk_migrate_down victim r.virtual_offset false writeback
    set_info d.reserve
        (λ e. record (take_frame d.virtual_offset e) { has_reserve = false; reserve = null })
    set_info victim (λ e. record e { has_reserve = false; reserve = null })
    pure d.reserve

  -- the end of both ways of the eviction worker
  pub end_eviction : (victim : Ptr) → Sys P (Unit {0})
  end_eviction victim = do
    d ← info_of victim
    assert d.migrating
    assert d.swapped_out
    set_info victim (λ e. record e { migrating = false; swapped_out = true })

  pub evict_with_reserve : (victim : Ptr) (writeback : Bool) → Sys P (Unit {0})
  evict_with_reserve victim writeback = do
    diskpage ← evict_to_reserve victim writeback
    enqueue_page dram_free_list diskpage
    enqueue_page disk_active_list victim
    end_eviction victim

  pub evict_without_reserve : (victim : Ptr) (writeback : Bool) → Sys P (Unit {0})
  evict_without_reserve victim writeback = do
    diskpage ← dequeue_page disk_free_list
    assert (not (diskpage == null))
    e ← info_of diskpage
    assert (not e.present)
    d ← info_of victim
    lrudisk_migrate_down victim e.virtual_offset false writeback
    enqueue_page disk_active_list victim
    set_info diskpage (take_frame d.virtual_offset)
    enqueue_page dram_free_list diskpage
    end_eviction victim

  pub evict : (victim : Ptr) → Sys P (Unit {0})
  evict victim = do
    writeback ← begin_eviction victim
    d ← info_of victim
    if d.has_reserve
        then evict_with_reserve victim writeback
        else evict_without_reserve victim writeback

  -- One round of the worker: `false` if there is nothing to evict, and it sleeps.
  pub lrudisk_evictionworker : Sys P Bool
  lrudisk_evictionworker = do
    victim ← dequeue_page eviction_list
    if victim == null then pure false else (do evict victim; pure true)

  -- the descriptor of the frame that a page has come to gets the place that the page leaves
  abbrev pub take_place : (freepage : Ptr) (file_offset : ℕ) → Sys P (Unit {0})
  take_place freepage file_offset = set_info freepage (λ d. record d {
    virtual_offset = file_offset;
    in_dram = false;
    swapped_out = true;
    migrating = false;
  })

  -- that place is kept for the page
  pub keep_reserve : (page freepage : Ptr) → Sys P (Unit {0})
  keep_reserve page freepage = do
    set_info freepage (λ d. record d { reserve = page })
    set_info page (λ d. record d { reserve = freepage })
    set_info page (λ d. record d { has_reserve = true })
    set_info freepage (λ d. record d { has_reserve = true })
    enqueue_page disk_reserve_list freepage
    enqueue_page inactive_list page

  pub lrudisk_ack_swapin : (page freepage : Ptr) → Sys P (Unit {0})
  lrudisk_ack_swapin page freepage = do
    f ← info_of freepage
    d ← info_of page
    assert f.in_dram
    l ← list_of freepage
    assert (l == null)
    assert d.swapped_out
    assert d.migrating
    k ← list_of page
    assert (k == null)
    take_place freepage d.virtual_offset
    set_info page (λ e. record e { virtual_offset = f.virtual_offset })
    keep_reserve page freepage

  pub lrudisk_track_page : (page : Ptr) → Sys P (Unit {0})
  lrudisk_track_page page = do l ← list_of page; assert (l == null); enqueue_page inactive_list page

  pub lrudisk_put_page_free : (page : Ptr) → Sys P (Unit {0})
  lrudisk_put_page_free page = do
    l ← list_of page
    assert (l == null)
    d ← info_of page
    assert (d.va == 0)
    enqueue_page dram_free_list page

  pub lrudisk_detach_page : (page : Ptr) → Sys P (Unit {0})
  lrudisk_detach_page page = take_off disk_active_list page

  -- the first loop of `lrudisk_remove_page`: it waits until the page is on a list
  remove_from_list : (rounds : ℕ) (page : Ptr) → Sys P (Unit {0})
  remove_from_list zero page = endless
  remove_from_list (suc rounds) page =
      let rest = remove_from_list rounds page in
      do
        list ← list_of page
        ok ← on_mem (page_list_tryremove_page list page)
        if ok then pure tt else rest

  remove_reserve : (page : Ptr) → Sys P (Unit {0})
  remove_reserve page = do
    d ← info_of page
    assert (not (d.reserve == null))
    r ← info_of d.reserve
    assert (r.reserve == page)
    take_off disk_reserve_list d.reserve
    set_info d.reserve (λ e. record e { has_reserve = false; reserve = null; present = false })
    enqueue_page disk_free_list d.reserve
    set_info page (λ e. record e { has_reserve = false; reserve = null })

  pub lrudisk_remove_page : (rounds : ℕ) (page : Ptr) → Sys P (Unit {0})
  lrudisk_remove_page rounds page = do
    set_info page (λ d. record d { migrating = true })
    remove_from_list rounds page
    set_info page (λ d. record d { present = false; va = 0 })
    d ← info_of page
    if d.in_dram
        then (do
          if d.has_reserve then remove_reserve page else pure tt
          enqueue_page dram_free_list page)
        else (do
          assert d.swapped_out
          set_info page (λ e. record e { reserve = null; has_reserve = false })
          enqueue_page disk_free_list page)
    set_info page (λ e. record e { migrating = false })
