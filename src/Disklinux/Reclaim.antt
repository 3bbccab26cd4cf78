-- ===== src/Disklinux/Reclaim.antt =====
-- policies/disklinux.c: how the policy finds a frame for a page: the pages grow old on the active
-- and the inactive list, go from there to the eviction list, and the oldest of that is evicted.
pub mod Fetch
pub mod Frame
pub mod Active
pub mod Examine
pub mod Counts
pub mod Inactive
pub mod Direct
mod Tests
use swap_prefetch.Common.{
  ℕ, zero, suc, ◌+◌, ◌-◌, ◌*◌, ◌/◌, ◌^◌, Bool, true, false, not, ◌||◌, ◌&&◌, ◌==◌, if◌then◌else◌,
  Option, some, none, ltb, add64,
}
use swap_prefetch.Memory.{Ptr, null, PageData, pure}
use swap_prefetch.Core.{page_size, pt_get_bits, pt_clear_accessed_flag}
use swap_prefetch.System.{
  Platform, Sys, ◌>>=◌, ◌>>◌, info_of, numentries, set_info, is_shrinking, set_shrinking, assert,
}
use swap_prefetch.Disklinux.{
  active_list, inactive_list, disk_active_list, dram_free_list, disk_free_list, eviction_list,
  swap_cluster_count, enqueue_page, dequeue_page, endless, take_frame, lrudisk_migrate_down,
  begin_eviction, end_eviction, evict_to_reserve,
}

-- the bound of the two loops that follow: one round more than the tries that they allow
abbrev pub tries : ℕ → ℕ
tries nr_pages = suc (nr_pages * 100)

module _ {P : Platform} where
  -- The loop of `shrink_active_list`. `rounds` is the number of tries left, and one. Without a page
  -- it would go on for ever.
  pub demote_pages : (rounds nr_pages ret : ℕ) → Sys P ℕ
  demote_pages zero nr_pages ret = endless
  demote_pages (suc rounds) nr_pages ret =
      let rest = demote_pages rounds nr_pages in
      do
        n ← numentries active_list
        if ltb ret nr_pages && ltb 0 n && not (rounds == 0)
            then (do
              page ← dequeue_page active_list
              if page == null then endless else (do
                set_info page (λ d. record d { naccesses = 0 })
                enqueue_page inactive_list page
                rest (ret + 1)))
            else pure ret

  pub shrink_active_list : (nr_pages : ℕ) → Sys P ℕ
  shrink_active_list nr_pages = if nr_pages == 0 then pure 0 else (do
    set_shrinking true
    n ← numentries active_list
    ret ←
        (if ltb n nr_pages
          then demote_pages (tries n) n 0
          else demote_pages (tries nr_pages) nr_pages 0)
    set_shrinking false
    pure ret)

  -- what `shrink_inactive_list` does with a page; `true` if it goes to the eviction list
  pub examine_page : (page : Ptr) → Sys P Bool
  examine_page page = do
    bits ← pt_get_bits page
    if bits.0
        then (do
          set_info page (λ d. record d { naccesses = add64 d.naccesses 1 })
          pt_clear_accessed_flag page
          d ← info_of page
          if ltb 1 d.naccesses
              then (do
                set_info page (λ e. record e { naccesses = 0 })
                enqueue_page active_list page)
              else enqueue_page inactive_list page
          pure false)
        else (do
          set_info page (λ d. record d { naccesses = 0 })
          enqueue_page eviction_list page
          pure true)

  -- The loop of `shrink_inactive_list`, likewise.
  pub examine_pages : (rounds nr_pages ret : ℕ) → Sys P ℕ
  examine_pages zero nr_pages ret = endless
  examine_pages (suc rounds) nr_pages ret =
      let rest = examine_pages rounds nr_pages in
      do
        n ← numentries inactive_list
        if ltb ret nr_pages && ltb 0 n && not (rounds == 0)
            then (do
              page ← dequeue_page inactive_list
              if page == null
                  then endless
                  else (do cold ← examine_page page; rest (if cold then ret + 1 else ret)))
            else pure ret

  pub shrink_inactive_list : (nr_pages : ℕ) → Sys P ℕ
  shrink_inactive_list nr_pages = do
    n ← numentries inactive_list
    set_shrinking true
    ret ←
        (if nr_pages == 0 || ltb n nr_pages
          then examine_pages (tries n) n 0
          else examine_pages (tries nr_pages) nr_pages 0)
    set_shrinking false
    pure ret

  -- The loop of `direct_allocate_page_asynch`; each round counts `swap_cluster_count` pages.
  pub reclaim_pages :
      (rounds nr_pages to_scan_active to_scan_inactive nr_scanned_active nr_scanned_inactive
        reclaimed : ℕ)
      → Sys P ℕ
  reclaim_pages zero nr_pages to_scan_active to_scan_inactive nr_scanned_active nr_scanned_inactive
        reclaimed =
      endless
  reclaim_pages (suc rounds) nr_pages to_scan_active to_scan_inactive nr_scanned_active
        nr_scanned_inactive reclaimed =
      let rest = reclaim_pages rounds nr_pages to_scan_active to_scan_inactive in
      if ltb nr_scanned_inactive to_scan_inactive && ltb reclaimed nr_pages
      then (do
        n ← shrink_inactive_list swap_cluster_count
        if ltb nr_scanned_active to_scan_active
            then (do
              shrink_active_list swap_cluster_count
              rest (nr_scanned_active + swap_cluster_count)
                  (nr_scanned_inactive + swap_cluster_count) (reclaimed + n))
            else rest nr_scanned_active (nr_scanned_inactive + swap_cluster_count) (reclaimed + n))
      else pure reclaimed

  -- The inactive list is scanned for at most `to_scan_inactive` pages, so as many rounds are
  -- enough.
  pub direct_allocate_page_asynch : (nr_pages priority : ℕ) → Sys P ℕ
  direct_allocate_page_asynch nr_pages priority = do
    active ← numentries active_list
    inactive ← numentries inactive_list
    reclaim_pages (suc (inactive / 2 ^ priority)) nr_pages (active / 2 ^ priority)
        (inactive / 2 ^ priority) 0 0 0

  -- the victim's frame goes to the descriptor that had the place on the storage
  pub evict_for_frame : (page : Ptr) → Sys P Ptr
  evict_for_frame page = do
    writeback ← begin_eviction page
    d ← info_of page
    if d.has_reserve
        then (do
          diskpage ← evict_to_reserve page writeback
          enqueue_page disk_active_list page
          end_eviction page
          pure diskpage)
        else (do
          diskpage ← dequeue_page disk_free_list
          assert (not (diskpage == null))
          e ← info_of diskpage
          assert (not e.present)
          lrudisk_migrate_down page e.virtual_offset true writeback
          f ← info_of page
          assert f.swapped_out
          enqueue_page disk_active_list page
          set_info diskpage (take_frame d.virtual_offset)
          set_info page (λ c. record c { migrating = false })
          pure diskpage)

  -- part of a round: with no frame free, pages are scanned unless a scan is under way or few are in
  -- use; the result is the priority of the next round
  pub reclaim_round : (priority : ℕ) → Sys P ℕ
  reclaim_round priority = do
    running ← is_shrinking
    if running then pure priority else (do
      active ← numentries active_list
      inactive ← numentries inactive_list
      if ltb (P.dramsize / (page_size * 2)) (active + inactive)
          then (do direct_allocate_page_asynch swap_cluster_count priority; pure (priority - 1))
          else pure priority)

  -- The loop of `fetch_free_asynch`, which waits for other threads when there is nothing to evict.
  -- With no priority left the program stops.
  pub find_frame : (rounds priority : ℕ) → Sys P Ptr
  find_frame zero priority = endless
  find_frame (suc rounds) priority =
      let rest = find_frame rounds in
      do
        assert (ltb 0 priority)
        page ← dequeue_page dram_free_list
        if not (page == null) then pure page else (do
          next ← reclaim_round priority
          victim ← dequeue_page eviction_list
          if victim == null then rest next else evict_for_frame victim)

  pub fetch_free_asynch : (rounds : ℕ) → Sys P Ptr
  fetch_free_asynch rounds = find_frame rounds 12

  pub lrudisk_pagefault : (rounds : ℕ) → Sys P Ptr
  lrudisk_pagefault rounds = do
    page ← fetch_free_asynch rounds
    assert (not (page == null))
    set_info page (λ d. record d { migrating = true })
    pure page
