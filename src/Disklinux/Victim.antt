-- ===== src/Disklinux/Victim.antt =====
-- The eviction of a page as a whole: what the eviction worker does with a page of the eviction
-- list.
use swap_prefetch.Common.{
  ℕ, ◌≡◌, ◌≢◌, refl, subst, ap, ◌∙◌, Bool, true, false, not, ◌||◌, last_or, leb, ltb, add64,
}
use swap_prefetch.Memory.{Ptr, null, basep}
use swap_prefetch.Core.{page_size}
use swap_prefetch.Core.Bits.{InUse}
use swap_prefetch.Core.Down.{CanGoDown}
use swap_prefetch.System.{Platform}
use swap_prefetch.System.Laws.{Lawful, WentDown, protect-drop-WentDown}
use swap_prefetch.System.View.{Abs, put, put-here}
use swap_prefetch.System.Runs.{Runs, Runs-bind, Runs-info_of, Runs-then, Runs-else}
use swap_prefetch.Disklinux.{
  evict, take_frame, dram_free_list, disk_free_list, disk_active_list, disk_reserve_list,
}
use swap_prefetch.Disklinux.Lists.{queued, taken_off, taken_last}
use swap_prefetch.Disklinux.Evict.{
  begin-Runs, evicted, evicted_first, freed, evict_with_reserve-Runs, evict_without_reserve-Runs,
}

-- a place for a page in a memory or a storage of that size
abbrev pub Fits : (size offset : ℕ) → Type 0
Fits size offset = (ltb offset size ≡ true) × (leb (add64 offset page_size) size ≡ true)

-- A page with a place is written if it is dirty, one without in any case.
pub written_if_dirty : (b dirty r : Bool) → b ≡ dirty → r ≡ true → (b || not r) ≡ dirty
written_if_dirty true dirty r e h = e
written_if_dirty false dirty r e h = ap not h ∙ e

always_written : (b r : Bool) → r ≡ false → (b || not r) ≡ true
always_written true r h = refl
always_written false r h = ap not h

module _ {P : Platform} where
  -- a page in memory that is on no list, as the worker takes it off the eviction list
  pub record Evictable (v : Abs P) (p : Ptr) : Type 0 where
    pub nz : p ≢ null
    pub loose : v.list p ≡ null
    pub in_use : InUse (v.info p)
    pub in_dram : (v.info p).in_dram ≡ true
    pub swapped_out : (v.info p).swapped_out ≡ false
    pub pt : (v.info p).pt ≡ basep
    pub frame : Fits P.dramsize (v.info p).virtual_offset
    pub mapped : P.mapped (v.info p).va v.state ≡ true
    pub registered : P.registered (v.info p).va v.state ≡ true

  -- a place on the storage is kept for the page
  pub record Reserved (v : Abs P) (p : Ptr) : Type 0 where
    pub has_reserve : (v.info p).has_reserve ≡ true
    pub nz : (v.info p).reserve ≢ null
    pub apart : (v.info p).reserve ≢ p
    pub back : (v.info (v.info p).reserve).reserve ≡ p
    pub listed : v.list (v.info p).reserve ≡ disk_reserve_list
    pub place : Fits P.disksize (v.info (v.info p).reserve).virtual_offset

  -- No place is kept for the page, and `q` is the oldest free page of the storage.
  pub record Unreserved (v : Abs P) (p q : Ptr) : Type 0 where
    pub has_reserve : (v.info p).has_reserve ≡ false
    pub nz : q ≢ null
    pub apart : q ≢ p
    pub oldest : last_or null (v.contents disk_free_list) ≡ q
    pub absent : (v.info q).present ≡ false
    pub place : Fits P.disksize (v.info q).virtual_offset

  pub going_down :
      (v : Abs P) (p : Ptr) (o : ℕ)
      → Evictable v p
      → Fits P.disksize o
      → CanGoDown P (record (v.info p) { migrating = true }) o
  going_down v p o c (lt, le) = record {
    in_dram = c.in_dram;
    swapped_out = c.swapped_out;
    pt = c.pt;
    from = c.frame.1;
    from_lt = c.frame.0;
    to = le;
    to_lt = lt;
  }

  -- the state after the eviction of a page for which a place is kept, and of one without
  abbrev pub evicted_with : (v : Abs P) (p : Ptr) → P.State → Abs P
  evicted_with v p s =
      let d = v.info p in
      let r = v.info d.reserve in
      queued disk_active_list p (
        queued dram_free_list d.reserve (record (taken_off disk_reserve_list d.reserve v) {
          info =
              put (put v.info p (evicted r.virtual_offset d)) d.reserve (freed d.virtual_offset r);
          state = s;
        }))

  abbrev pub evicted_without : (v : Abs P) (p q : Ptr) → P.State → Abs P
  evicted_without v p q s =
      record (queued dram_free_list q (queued disk_active_list p (taken_last disk_free_list q v))) {
        info =
            put (put v.info p (evicted_first (v.info q).virtual_offset (v.info p))) q
              (take_frame (v.info p).virtual_offset (v.info q));
        state = s;
      }

  module _ (laws : Lawful P) (v : Abs P) (p : Ptr) (c : Evictable v p) where
    -- On a machine that keeps to the laws, a page in memory that is mapped, in use and on no list,
    -- and for which a place on the storage is kept, is evicted to that place without a failing
    -- assertion. If it is dirty, what it held in memory is written once, to that place, and the
    -- storage is as this write leaves it; if not, the storage is as it was. The page is no longer
    -- mapped, and what other pages hold stays. The descriptor of the place gets the frame and goes
    -- on the list of free frames, the page on the list of pages on the storage.
    pub evict-Reserved :
        Reserved v p
        → (s : P.State) × Runs (evict p) v tt (evicted_with v p s)
          × WentDown P
              (P.dirty (v.info p).va v.state)
              (v.info p).va
              (v.info (v.info p).reserve).virtual_offset
              v.state
              s
    unfolding evict
    evict-Reserved r =
        let (s1, ok, same) = laws.protect (v.info p).va v.state c.mapped in
        let writeback : Bool = P.dirty (v.info p).va s1 || not (v.info p).has_reserve in
        let (s, dropped, down) =
          protect-drop-WentDown laws (v.info p).va (v.info (v.info p).reserve).virtual_offset
            v.state s1 writeback c.registered ok same in
        (
          s,
          Runs-bind _ (begin-Runs v p (v.info p) s1 c.nz refl c.in_use ok) (
              Runs-bind _ (Runs-info_of c.nz (put-here _ _ _)) (
                Runs-then _ _ _ r.has_reserve (
                  evict_with_reserve-Runs _ p v.info (record (v.info p) { migrating = true })
                    writeback s c.nz refl c.loose refl r.nz r.apart r.back r.listed
                    (going_down v p _ c r.place) dropped))),
          subst
              (λ b. WentDown P b (v.info p).va (v.info (v.info p).reserve).virtual_offset v.state s)
              (written_if_dirty _ _ _ (same.dirty (v.info p).va) r.has_reserve) down,
        )

    -- On a machine that keeps to the laws, a page in memory that is mapped, in use and on no list,
    -- and for which no place on the storage is kept, is evicted without a failing assertion to the
    -- place that is free the longest, if there is one. What it held in memory is written once, to
    -- that place, and the storage is as this write leaves it. The page is no longer mapped, and
    -- what other pages hold stays. The descriptor of the place gets the frame and goes on the list
    -- of free frames, the page on the list of pages on the storage.
    pub evict-Unreserved :
        (q : Ptr)
        → Unreserved v p q
        → (s : P.State) × Runs (evict p) v tt (evicted_without v p q s)
          × WentDown P true (v.info p).va (v.info q).virtual_offset v.state s
    unfolding evict
    evict-Unreserved q r =
        let (s1, ok, same) = laws.protect (v.info p).va v.state c.mapped in
        let writeback : Bool = P.dirty (v.info p).va s1 || not (v.info p).has_reserve in
        let (s, dropped, down) =
          protect-drop-WentDown laws (v.info p).va (v.info q).virtual_offset v.state s1 writeback
            c.registered ok same in
        (
          s,
          Runs-bind _ (begin-Runs v p (v.info p) s1 c.nz refl c.in_use ok) (
              Runs-bind _ (Runs-info_of c.nz (put-here _ _ _)) (
                Runs-else _ _ _ r.has_reserve (
                  evict_without_reserve-Runs _ p v.info (record (v.info p) { migrating = true })
                    writeback s c.nz refl c.loose refl q r.nz r.apart r.oldest r.absent
                    (going_down v p _ c r.place) dropped))),
          subst (λ b. WentDown P b (v.info p).va (v.info q).virtual_offset v.state s)
              (always_written _ _ r.has_reserve) down,
        )
