-- ===== src/Disklinux/Vector.antt =====
-- The eviction worker that the policy starts, `lrudisk_evictionworker_vector`, and the migration of
-- several pages that it calls, `extmem_migrate_downdisk_vector` of core.c.
pub mod Single
use swap_prefetch.Common.{
  ℕ, suc, Bool, true, false, not, ◌||◌, List, [], ◌∷◌, map, ◌==◌, if◌then◌else◌,
}
use swap_prefetch.Memory.{Ptr, null, PageData, pure}
use swap_prefetch.Fifo.{dequeue_fifo_vector}
use swap_prefetch.Core.{extmem_wp_page, pt_get_bits}
use swap_prefetch.System.{
  Platform, Sys, ◌>>=◌, ◌>>◌, on_mem, info_of, set_info, kernel, disk_write_page, assert,
}
use swap_prefetch.Disklinux.{
  enqueue_page, dequeue_page, take_off, take_frame, end_eviction, eviction_list, disk_free_list,
  disk_reserve_list, disk_active_list, dram_free_list,
}

abbrev pub evict_vector_size : ℕ
evict_vector_size = 8

-- one place of the worker's arrays; `old_offset` and `writeback` are filled first, then `diskpage`
pub record Eviction : Type 0 where
  pub victim : Ptr
  pub old_offset : ℕ
  pub writeback : Bool

pub record Placed : Type 0 where
  pub eviction : Eviction
  pub open eviction use *
  pub diskpage : Ptr

module _ {P : Platform} where
  -- the first loop: write protection, and whether to write back
  pub prepare_vector : List Ptr → Sys P (List Eviction)
  prepare_vector [] = pure []
  prepare_vector (victim ∷ victims) = do
    set_info victim (λ d. record d { migrating = true })
    d ← info_of victim
    extmem_wp_page victim true
    bits ← pt_get_bits victim
    f ← info_of victim
    rest ← prepare_vector victims
    pure (
        record {
          victim = victim;
          old_offset = d.virtual_offset;
          writeback = bits.1 || not f.has_reserve;
        }
        ∷ rest)

  -- the place on the storage for a victim, the one that is kept for it or the oldest free one
  pub place_of : (victim : Ptr) → Sys P Ptr
  place_of victim = do
    d ← info_of victim
    if d.has_reserve
        then (do
          assert (not (d.reserve == null))
          r ← info_of d.reserve
          assert (r.reserve == victim)
          take_off disk_reserve_list d.reserve
          pure d.reserve)
        else (do
          diskpage ← dequeue_page disk_free_list
          assert (not (diskpage == null))
          e ← info_of diskpage
          assert (not e.present)
          pure diskpage)

  -- the second loop
  pub place_vector : List Eviction → Sys P (List Placed)
  place_vector [] = pure []
  place_vector (e ∷ es) = do
    diskpage ← place_of e.victim
    rest ← place_vector es
    pure (record { eviction = e; diskpage = diskpage } ∷ rest)

  -- the three loops of `extmem_migrate_downdisk_vector`
  pub write_vector : List Placed → Sys P (Unit {0})
  write_vector [] = pure tt
  write_vector (e ∷ es) = do
    d ← info_of e.victim
    assert d.in_dram
    q ← info_of e.diskpage
    if e.writeback then disk_write_page q.virtual_offset d.va else pure tt
    write_vector es

  pub drop_vector : List Placed → Sys P (Unit {0})
  drop_vector [] = pure tt
  drop_vector (e ∷ es) = do d ← info_of e.victim; kernel (P.drop d.va); drop_vector es

  pub mark_vector : List Placed → Sys P (Unit {0})
  mark_vector [] = pure tt
  mark_vector (e ∷ es) = do
    d ← info_of e.victim
    assert (not d.swapped_out)
    set_info e.victim (λ c. record c { swapped_out = true })
    f ← info_of e.victim
    assert f.migrating
    mark_vector es

  pub extmem_migrate_downdisk_vector : List Placed → Sys P (Unit {0})
  extmem_migrate_downdisk_vector es = do write_vector es; drop_vector es; mark_vector es

  -- what the last loop does with one victim
  pub finish_one : Placed → Sys P (Unit {0})
  finish_one e = do
    d ← info_of e.victim
    if d.has_reserve
        then (do
          set_info e.diskpage
              (λ c. record (take_frame e.old_offset c) { has_reserve = false; reserve = null })
          set_info e.victim (λ c. record c { has_reserve = false; reserve = null })
          enqueue_page dram_free_list e.diskpage
          enqueue_page disk_active_list e.victim)
        else (do
          q ← info_of e.diskpage
          assert (not q.present)
          enqueue_page disk_active_list e.victim
          set_info e.diskpage (take_frame e.old_offset)
          enqueue_page dram_free_list e.diskpage)
    end_eviction e.victim

  pub finish_vector : List Placed → Sys P (Unit {0})
  finish_vector [] = pure tt
  finish_vector (e ∷ es) = do finish_one e; finish_vector es

  pub evict_vector : List Ptr → Sys P (Unit {0})
  evict_vector victims = do
    es ← prepare_vector victims
    placed ← place_vector es
    extmem_migrate_downdisk_vector placed
    finish_vector placed

  -- One round of the worker; with nothing to evict it sleeps.
  pub lrudisk_evictionworker_vector : Sys P (Unit {0})
  lrudisk_evictionworker_vector = do
    victims ← on_mem (dequeue_fifo_vector eviction_list evict_vector_size)
    evict_vector victims
