-- ===== src/Faults.antt =====
-- core.c: the handlers of page faults. A wait for another thread, `while (page->migrating);`, does
-- not end here, where no other thread runs.
pub mod Major
pub mod First
mod Tests
use swap_prefetch.Common.{
  ℕ, zero, suc, ◌+◌, ◌%◌, ◌*◌, ◌&&◌, Bool, true, false, not, ◌==◌, if◌then◌else◌, none, ltb, add64,
}
use swap_prefetch.Memory.{Ptr, null, PageData, pure}
use swap_prefetch.Core.{page_size, pt_to_pagesize}
use swap_prefetch.System.{
  Platform, Stats, Sys, ◌>>=◌, ◌>>◌, info_of, set_info, kernel, allocate_buffer, count, prev_faults,
  fault_at, assert,
}
use swap_prefetch.Disklinux.{
  endless, lrudisk_track_page, lrudisk_put_page_free, lrudisk_remove_page,
}
use swap_prefetch.Disklinux.Reclaim.{lrudisk_pagefault}
use swap_prefetch.Disklinux.Swapin.{lrudisk_swapin_external_async}

-- What the handlers use of the prefetcher: whether a page could be served from its cache, and the
-- prefetch that a page which has come in gives rise to, and the one behind a row of faults.
pub record PrefetchCalls (P : Platform) : Type 0 where
  pub handle_page_fault_with_prefetch : Ptr → Sys P Bool
  pub prefetch_pointer_of : Ptr → Sys P (Unit {0})
  pub core_try_prefetch : ℕ → Sys P (Unit {0})

-- The hash table of pages, by address: `add_page`, `remove_page` and `find_page`.
pub record Pages (P : Platform) : Type 0 where
  pub find_page : ℕ → Sys P Ptr
  pub add_page : Ptr → Sys P (Unit {0})
  pub remove_page : Ptr → Sys P (Unit {0})

-- whether a fault is the third in a row
abbrev pub must_prefetch : (faults : ℕ × ℕ) (page_boundry : ℕ) → Bool
must_prefetch faults page_boundry =
    page_boundry == add64 faults.0 page_size && page_boundry == add64 faults.1 (page_size * 2)

module _ {P : Platform} where
  -- `while (page->migrating);`
  pub wait_for : (page : Ptr) → Sys P (Unit {0})
  wait_for page = do d ← info_of page; if d.migrating then endless else pure tt

  pub count_wait : Sys P (Unit {0})
  count_wait = count (λ s. record s { migration_waits = add64 s.migration_waits 1 })

  -- the end of both ways to serve a fault
  abbrev pub serve : (page : Ptr) → Sys P (Unit {0})
  serve page = set_info page (λ d. record d { swapped_out = false; migrating = false })

  abbrev pub count_major : Sys P (Unit {0})
  count_major = count (λ s. record s { major_faults_handled = add64 s.major_faults_handled 1 })

  -- the part for a page that the prefetcher does not have
  pub swap_in : PrefetchCalls P → (rounds : ℕ) (page : Ptr) (old_va : ℕ) → Sys P (Unit {0})
  swap_in prefetcher rounds page old_va = do
    lrudisk_swapin_external_async rounds page
    d ← info_of page
    assert (d.va == old_va)
    assert (not (d.va == 0))
    assert (d.va % page_size == 0)
    serve page
    e ← info_of page
    if e.in_dram then prefetcher.prefetch_pointer_of page else pure tt
    count_major

  pub handle_missing_fault : PrefetchCalls P → (rounds : ℕ) (page : Ptr) → Sys P (Unit {0})
  handle_missing_fault prefetcher rounds page = do
    d ← info_of page
    if d.migrating
        then (do count_wait; wait_for page)
        else if not d.swapped_out
        then (do count_wait; wait_for page)
        else (do
          set_info page (λ e. record e { migrating = true })
          faults ← prev_faults
          fault_at d.va
          allocate_buffer
          hit ← prefetcher.handle_page_fault_with_prefetch page
          if hit then (do serve page; count_major) else (do
            swap_in prefetcher rounds page d.va
            if must_prefetch faults d.va then prefetcher.core_try_prefetch d.va else pure tt))

  -- the part for a page that is still untouched
  pub first_touch : Pages P → (page : Ptr) (page_boundry : ℕ) → Sys P (Unit {0})
  first_touch pages page page_boundry = do
    set_info page (λ d. record d { migrating = true; swapped_out = false })
    d ← info_of page
    assert (d.va == 0)
    set_info page (λ e. record e { va = page_boundry })
    assert (not (page_boundry == 0))
    assert (page_boundry % page_size == 0)
    pages.add_page page
    fault_at page_boundry
    assert d.in_dram
    kernel (P.copy_in page_boundry P.zeros)
    set_info page (λ e. record e { migrating = false; swapped_out = false })
    lrudisk_track_page page
    count (λ s. record s {
      first_faults_handled = add64 s.first_faults_handled 1;
      pages_allocated = add64 s.pages_allocated 1;
    })

  pub handle_first_fault : Pages P → (rounds page_boundry : ℕ) → Sys P (Unit {0})
  handle_first_fault pages rounds page_boundry = do
    assert (not (page_boundry == 0))
    newpage ← lrudisk_pagefault rounds
    assert (not (newpage == null))
    page ← pages.find_page page_boundry
    if not (page == null)
        then (do lrudisk_put_page_free newpage; wait_for page)
        else first_touch pages newpage page_boundry
