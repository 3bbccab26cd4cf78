-- ===== src/Disklinux/Reclaim/Frame.antt =====
-- `fetch_free_asynch` with no frame free: it evicts a page of the eviction list and returns its
-- frame.
use swap_prefetch.Common.{
  ℕ, suc, ◌≡◌, ◌≢◌, refl, subst, sym, ap, ◌∙◌, Bool, true, not, ◌||◌, [], last_or, ==_ne, arith,
}
use swap_prefetch.Memory.{Ptr, null, PageData}
use swap_prefetch.System.{Platform}
use swap_prefetch.System.Laws.{Lawful, WentDown, protect-drop-WentDown}
use swap_prefetch.System.View.{Abs, put, put-here, put-there}
use swap_prefetch.System.Runs.{
  Runs, Runs-bind, Runs-pure, Runs-assert, Runs-info_of, Runs-inner, Runs-enqueue, Runs-dequeue,
  Runs-is_shrinking, Runs-then, Runs-else,
}
use swap_prefetch.Disklinux.{
  disk_active_list, disk_reserve_list, dram_free_list, eviction_list, end_eviction,
}
use swap_prefetch.Disklinux.Lists.{queued, taken_off, taken_last}
use swap_prefetch.Disklinux.Evict.{begin-Runs, evicted, freed, evict_to_reserve-Runs}
use swap_prefetch.Disklinux.Victim.{written_if_dirty, going_down, Evictable, Reserved}
use swap_prefetch.Disklinux.Reclaim.{evict_for_frame, find_frame, fetch_free_asynch, reclaim_round}

module _ {P : Platform} (laws : Lawful P) where
  -- the state after the eviction of a page for its frame
  abbrev pub evicted_for : (v : Abs P) (p : Ptr) → P.State → Abs P
  evicted_for v p s =
      let d = v.info p in
      queued disk_active_list p (record (taken_off disk_reserve_list d.reserve v) {
        info =
            put (put v.info p (evicted (v.info d.reserve).virtual_offset d)) d.reserve
              (freed d.virtual_offset (v.info d.reserve));
        state = s;
      })

  evict_for_frame-Reserved :
      (v : Abs P) (p : Ptr)
      → Evictable v p
      → Reserved v p
      → (s : P.State) × Runs (evict_for_frame p) v (v.info p).reserve (evicted_for v p s)
        × WentDown P
            (P.dirty (v.info p).va v.state)
            (v.info p).va
            (v.info (v.info p).reserve).virtual_offset
            v.state
            s
  unfolding evict_for_frame end_eviction
  evict_for_frame-Reserved v p c r =
      let d : PageData = v.info p in
      let pq : p ≢ d.reserve = λ z. r.apart (sym z) in
      let (s1, ok, same) = laws.protect d.va v.state c.mapped in
      let writeback : Bool = P.dirty d.va s1 || not d.has_reserve in
      let (s, dropped, down) =
        protect-drop-WentDown laws d.va (v.info d.reserve).virtual_offset v.state s1 writeback
          c.registered ok same in
      (
        s,
        Runs-bind _ (begin-Runs v p d s1 c.nz refl c.in_use ok) (
            Runs-bind _ (Runs-info_of c.nz (put-here _ _ _)) (
              Runs-then _ _ _ r.has_reserve (
                Runs-bind _
                  (evict_to_reserve-Runs _ p v.info (record d { migrating = true }) writeback s c.nz
                    refl c.loose refl r.nz r.apart r.back r.listed (going_down v p _ c r.place)
                    dropped)
                  (Runs-bind _ (Runs-enqueue (ground arith) c.nz (put-there _ _ pq c.loose)) (
                    Runs-bind _
                      (Runs-bind _ (Runs-info_of c.nz (put-there _ _ pq (put-here _ _ _))) (
                        Runs-bind _ (Runs-assert _ refl)
                          (Runs-bind _ (Runs-assert _ refl) (Runs-inner _ _ _ _ c.nz pq refl))))
                      Runs-pure))))),
        subst (λ b. WentDown P b d.va (v.info d.reserve).virtual_offset v.state s)
            (written_if_dirty _ _ _ (same.dirty d.va) r.has_reserve) down,
      )

  -- the state once the search has found no free frame and has taken the victim off its list
  abbrev pub searched : (v : Abs P) → Ptr → Abs P
  searched v p = taken_last eviction_list p (taken_last dram_free_list null v)

  -- On a machine that keeps to the laws, with no frame free and another thread scanning the lists,
  -- the search takes the oldest page of the eviction list and, if it is mapped and in use and a
  -- place on the storage is kept for it, evicts it: no assertion fails, what the page held is
  -- written once, to that place, if the page is dirty, and else the storage is as it was; the page
  -- is no longer mapped, what other pages hold stays, and the result is the descriptor of the
  -- place, which has the frame now.
  pub fetch_free-evicts :
      (v : Abs P) (p : Ptr)
      → v.contents dram_free_list ≡ []
      → v.shrinkage_running ≡ true
      → last_or null (v.contents eviction_list) ≡ p
      → Evictable (searched v p) p
      → Reserved (searched v p) p
      → (n : ℕ)
      → (s : P.State) × Runs
          (fetch_free_asynch (suc n))
          v
          (v.info p).reserve
          (evicted_for (searched v p) p s)
        × WentDown P
            (P.dirty (v.info p).va v.state)
            (v.info p).va
            (v.info (v.info p).reserve).virtual_offset
            v.state
            s
  unfolding fetch_free_asynch find_frame reclaim_round
  fetch_free-evicts v p none_free scanning oldest c r n =
      let (s, ran, down) = evict_for_frame-Reserved (searched v p) p c r in
      (
        s,
        Runs-bind _ (Runs-assert _ refl) (
            Runs-bind _ (Runs-dequeue (ground arith) (ap (last_or null) none_free)) (
              Runs-bind _ (Runs-bind _ Runs-is_shrinking (Runs-then _ _ _ scanning Runs-pure)) (
                Runs-bind _
                  (Runs-dequeue (ground arith)
                    (ap (last_or null) (put-there _ _ (ground arith) refl) ∙ oldest))
                  (Runs-else _ _ _ (==_ne p null c.nz) ran)))),
        down,
      )
