-- ===== src/Disklinux/Vector/Single.antt =====
-- The eviction worker that the policy starts, with one victim.
use swap_prefetch.Common.{
  ℕ, ◌≡◌, ◌≢◌, refl, subst, sym, ap, ◌∙◌, Bool, true, false, not, ◌||◌, [], ◌∷◌, List, some,
  if◌then◌else◌, ==_refl, ==_ne, arith,
}
use swap_prefetch.Memory.{Ptr, null, PageData, pure}
use swap_prefetch.Core.Bits.{wp-Runs, bits-Runs}
use swap_prefetch.System.{Platform, disk_write_page}
use swap_prefetch.System.Laws.{Lawful, WentDown, protect-drop-WentDown}
use swap_prefetch.System.View.{Abs, put, put-here, put-there}
use swap_prefetch.System.Runs.{
  Runs, Runs-bind, Runs-pure, Runs-assert, Runs-info_of, Runs-set_info, Runs-again, Runs-inner,
  Runs-kernel, Runs-disk_write, Runs-enqueue, Runs-then,
}
use swap_prefetch.Disklinux.{disk_active_list, disk_reserve_list, dram_free_list, end_eviction}
use swap_prefetch.Disklinux.Lists.{queued, taken_off, take_off-Runs}
use swap_prefetch.Disklinux.Evict.{freed}
use swap_prefetch.Disklinux.Victim.{written_if_dirty, Evictable, Reserved}
use swap_prefetch.Disklinux.Vector.{
  Placed, prepare_vector, place_of, place_vector, write_vector, drop_vector, mark_vector,
  extmem_migrate_downdisk_vector, finish_one, finish_vector, evict_vector,
}

-- what the victim says in the end: that it is in memory, at the offset of the frame that it has
-- lost
abbrev pub stranded : PageData → PageData
stranded d = record d { migrating = false; swapped_out = true; has_reserve = false; reserve = null }

module _ {P : Platform} (v : Abs P) (p : Ptr) (h : Ptr → PageData) (d : PageData) (writeback : Bool)
    (pz : p ≢ null) (e : v.info ≡ put h p d) (qz : d.reserve ≢ null) (qp : d.reserve ≢ p)
    (kept : d.has_reserve ≡ true) (moving : d.migrating ≡ true) where
  at_p : v.info p ≡ d
  at_p = ap (λ f. f p) e ∙ put-here _ _ _

  at_q : v.info d.reserve ≡ h d.reserve
  at_q = ap (λ f. f d.reserve) e ∙ put-there _ _ qp refl

  abbrev placed : List Placed
  placed =
      record {
        eviction = record { victim = p; old_offset = d.virtual_offset; writeback = writeback };
        diskpage = d.reserve;
      }
      ∷ []

  place-Runs :
      (h d.reserve).reserve ≡ p
      → v.list d.reserve ≡ disk_reserve_list
      → Runs
          (place_vector
            (record { victim = p; old_offset = d.virtual_offset; writeback = writeback } ∷ []))
          v
          placed
          (taken_off disk_reserve_list d.reserve v)
  unfolding place_vector place_of
  place-Runs back on =
      Runs-bind _
        (Runs-bind _ (Runs-info_of pz at_p) (
          Runs-then _ _ _ kept (
            Runs-bind _ (Runs-assert _ (ap not (==_ne d.reserve null qz))) (
              Runs-bind _ (Runs-info_of qz at_q) (
                Runs-bind _ (Runs-assert _ (rw back (==_refl p))) (
                  Runs-bind _ (take_off-Runs _ disk_reserve_list d.reserve (ground arith) qz on)
                    Runs-pure))))))
        (Runs-bind _ Runs-pure Runs-pure)

  writes :
      (b : Bool) (o a : ℕ)
      → Runs
          (if b then disk_write_page o a else pure tt)
          v
          tt
          (record v { state = if b then P.disk_write o (P.memory a v.state) v.state else v.state })
  writes true o a = Runs-disk_write o a
  writes false o a = Runs-pure

  migrate-Runs :
      (s : P.State)
      → d.in_dram ≡ true
      → d.swapped_out ≡ false
      → P.drop d.va (
          if writeback
          then P.disk_write (h d.reserve).virtual_offset (P.memory d.va v.state) v.state
          else v.state)
        ≡ some s
      → Runs
          (extmem_migrate_downdisk_vector placed)
          v
          tt
          (record v { info = put h p (record d { swapped_out = true }); state = s })
  unfolding extmem_migrate_downdisk_vector write_vector drop_vector mark_vector
  migrate-Runs s here still dropped =
      Runs-bind _
        (Runs-bind _ (Runs-info_of pz at_p) (
          Runs-bind _ (Runs-assert _ here)
            (Runs-bind _ (Runs-info_of qz at_q) (Runs-bind _ (writes writeback _ _) Runs-pure))))
        (Runs-bind _
          (Runs-bind _ (Runs-info_of pz at_p) (Runs-bind _ (Runs-kernel _ dropped) Runs-pure))
          (Runs-bind _ (Runs-info_of pz at_p) (
            Runs-bind _ (Runs-assert _ (ap not still)) (
              Runs-bind _ (Runs-again _ h d pz e) (
                Runs-bind _ (Runs-info_of pz (put-here _ _ _))
                  (Runs-bind _ (Runs-assert _ moving) Runs-pure))))))

  finish-Runs :
      v.list p ≡ null
      → v.list d.reserve ≡ null
      → d.swapped_out ≡ true
      → Runs (finish_vector placed) v tt (
          queued disk_active_list p (
            queued dram_free_list d.reserve (record v {
              info = put (put h p (stranded d)) d.reserve (freed d.virtual_offset (h d.reserve));
            })))
  unfolding finish_vector finish_one end_eviction
  finish-Runs loose_p loose_q out =
      let pq : p ≢ d.reserve = λ z. qp (sym z) in
      Runs-bind _
        (Runs-bind _ (Runs-info_of pz at_p) (
          Runs-bind _
            (Runs-then _ _ _ kept (
              Runs-bind _ (Runs-set_info _ qz at_q) (
                Runs-bind _
                  (Runs-inner _ h d _ pz pq
                    (ap (λ f. put f d.reserve (freed d.virtual_offset (h d.reserve))) e))
                  (Runs-bind _ (Runs-enqueue (ground arith) qz loose_q)
                    (Runs-enqueue (ground arith) pz (put-there _ _ pq loose_p))))))
            (Runs-bind _ (Runs-info_of pz (put-there _ _ pq (put-here _ _ _))) (
              Runs-bind _ (Runs-assert _ moving)
                (Runs-bind _ (Runs-assert _ out) (Runs-inner _ _ _ _ pz pq refl))))))
        Runs-pure

module _ {P : Platform} (laws : Lawful P) (v : Abs P) (p : Ptr) (c : Evictable v p)
    (r : Reserved v p) where
  abbrev pub stranded_at : P.State → Abs P
  stranded_at s =
      let q = (v.info p).reserve in
      queued disk_active_list p (
        queued dram_free_list q (record (taken_off disk_reserve_list q v) {
          info =
              put (put v.info p (stranded (v.info p))) q
                (freed (v.info p).virtual_offset (v.info q));
          state = s;
        }))

  -- On a machine that keeps to the laws, the worker for several pages, given one page in memory
  -- that is mapped, in use and on no list, and for which a place on the storage is kept, runs
  -- without a failing assertion. If the page is dirty, what it held is written once, to that
  -- place; if not, the storage is as it was. The page is no longer mapped, and what other pages
  -- hold stays. But unlike after `lrudisk_evictionworker` the page still says
  -- that it is in memory, at the offset of the frame, which the other descriptor has now as well:
  -- nothing records the place on the storage any more.
  pub evict_vector-Reserved :
      (s : P.State) × Runs (evict_vector (p ∷ [])) v tt (stranded_at s)
      × WentDown P
          (P.dirty (v.info p).va v.state)
          (v.info p).va
          (v.info (v.info p).reserve).virtual_offset
          v.state
          s
  unfolding evict_vector prepare_vector
  evict_vector-Reserved =
      let d : PageData = v.info p in
      let d1 : PageData = record d { migrating = true } in
      let (s1, ok, same) = laws.protect d.va v.state c.mapped in
      let writeback : Bool = P.dirty d.va s1 || not d.has_reserve in
      let (s, dropped, down) =
        protect-drop-WentDown laws d.va (v.info d.reserve).virtual_offset v.state s1 writeback
          c.registered ok same in
      (
        s,
        Runs-bind _
            (Runs-bind _ (Runs-set_info _ c.nz refl) (
              Runs-bind _ (Runs-info_of c.nz (put-here _ _ _)) (
                Runs-bind _
                  (wp-Runs _ p d1 s1 c.nz (put-here _ _ _)
                    (record { nz = c.in_use.nz; aligned = c.in_use.aligned }) ok)
                  (Runs-bind _
                    (bits-Runs _ p d1 c.nz (put-here _ _ _)
                      (record { nz = c.in_use.nz; aligned = c.in_use.aligned }))
                    (Runs-bind _ (Runs-info_of c.nz (put-here _ _ _))
                      (Runs-bind _ Runs-pure Runs-pure))))))
            (Runs-bind _
              (place-Runs _ p v.info d1 writeback c.nz refl r.nz r.apart r.has_reserve refl r.back
                r.listed)
              (Runs-bind _
                (migrate-Runs _ p v.info d1 writeback c.nz refl r.nz r.apart r.has_reserve refl s
                  c.in_dram c.swapped_out dropped)
                (finish-Runs _ p v.info (record d1 { swapped_out = true }) writeback c.nz refl r.nz
                  r.apart r.has_reserve refl (put-there _ _ (λ z. r.apart (sym z)) c.loose)
                  (put-here _ _ _) refl))),
        subst (λ b. WentDown P b d.va (v.info d.reserve).virtual_offset v.state s)
            (written_if_dirty _ _ _ (same.dirty d.va) r.has_reserve) down,
      )
