-- ===== src/Disklinux/Swapin/External.antt =====
-- A page comes back from the storage with `lrudisk_swapin_external`.
use swap_prefetch.Common.{ℕ, suc, ◌≡◌, ◌≢◌, refl, sym, ◌∙◌, true, false, some, last_or, arith}
use swap_prefetch.Memory.{Ptr, null, PageData}
use swap_prefetch.Core.Up.{CanComeUp, moved_up, updisk-Runs}
use swap_prefetch.System.{Platform}
use swap_prefetch.System.Laws.{Lawful, CameUp}
use swap_prefetch.System.View.{Abs, put, put-here, put-there}
use swap_prefetch.System.Runs.{
  allocated, Runs, Runs-bind, Runs-assert, Runs-info_of, Runs-set_info, Runs-again, Runs-inner,
  Runs-enqueue,
}
use swap_prefetch.Disklinux.{
  keep_reserve, disk_active_list, disk_reserve_list, dram_free_list, inactive_list,
}
use swap_prefetch.Disklinux.Lists.{queued, taken_off, taken_last, take_off-Runs}
use swap_prefetch.Disklinux.Reclaim.Fetch.{fetch_free-free}
use swap_prefetch.Disklinux.Swapin.{lrudisk_migrate_up, swapin_to, lrudisk_swapin_external}

-- what a page says that has come up, and what the descriptor says whose frame it has
abbrev pub swapped_in : (freepage : Ptr) (offset : ℕ) → PageData → PageData
swapped_in freepage offset d = record (moved_up offset d) { reserve = freepage; has_reserve = true }

abbrev pub kept : (page : Ptr) (offset : ℕ) → PageData → PageData
kept page offset f = record f {
  virtual_offset = offset;
  in_dram = false;
  swapped_out = true;
  migrating = false;
  reserve = page;
  has_reserve = true;
}

module _ {P : Platform} where
  pub keep_reserve-Runs :
      (v : Abs P) (p g : Ptr) (h : Ptr → PageData) (d f : PageData)
      → p ≢ null
      → g ≢ null
      → p ≢ g
      → v.info ≡ put (put h p d) g f
      → v.list p ≡ null
      → v.list g ≡ null
      → Runs (keep_reserve p g) v tt (
          queued inactive_list p (
            queued disk_reserve_list g (record v {
              info =
                  put
                    (put h p (record d { reserve = g; has_reserve = true }))
                    g
                    (record f { reserve = p; has_reserve = true });
            })))
  unfolding keep_reserve
  keep_reserve-Runs v p g h d f pz gz pg e lp lg = Runs-bind _ (Runs-again _ (put h p d) f gz e) (
      Runs-bind _ (Runs-inner _ _ _ _ pz pg refl) (
        Runs-bind _ (Runs-inner _ _ _ _ pz pg refl) (
          Runs-bind _ (Runs-again _ _ _ gz refl) (
            Runs-bind _ (Runs-enqueue (ground arith) gz lg)
              (Runs-enqueue (ground arith) pz (put-there _ _ pg lp))))))

  pub swapin_to-Runs :
      (v : Abs P) (p g : Ptr) (s : P.State)
      → p ≢ null
      → g ≢ null
      → p ≢ g
      → v.list p ≡ disk_active_list
      → v.list g ≡ null
      → (v.info g).in_dram ≡ true
      → CanComeUp P (v.info p) (v.info g).virtual_offset
      → let (c, s1) = P.disk_read (v.info p).virtual_offset (allocated P v.buffer) v.state in
        P.copy_in (v.info p).va c s1 ≡ some s
        → Runs (swapin_to p g (v.info p).virtual_offset) v tt (
            queued inactive_list p (
              queued disk_reserve_list g (record (taken_off disk_active_list p v) {
                info =
                    put
                      (put v.info p (swapped_in g (v.info g).virtual_offset (v.info p)))
                      g
                      (kept p (v.info p).virtual_offset (v.info g));
                state = s;
                buffer =
                    some (P.disk_read (v.info p).virtual_offset (allocated P v.buffer) v.state).0;
              })))
  unfolding swapin_to lrudisk_migrate_up
  swapin_to-Runs v p g s pz gz pg lp lg frame c mapped = Runs-bind _ (Runs-info_of gz refl) (
      Runs-bind _ (Runs-assert _ frame) (
        Runs-bind _ (take_off-Runs _ disk_active_list p (ground arith) pz lp) (
          Runs-bind _ (updisk-Runs _ p (v.info p) _ s pz refl c mapped) (
            Runs-bind _ (Runs-set_info _ gz (put-there _ _ (λ z. pg (sym z)) refl)) (
              keep_reserve-Runs _ p g v.info _ _ pz gz pg refl (put-here _ _ _)
                (put-there _ _ (λ z. pg (sym z)) lg))))))

  -- a page on the storage, and the frame `g` that is free the longest
  pub record Returnable (v : Abs P) (p g : Ptr) : Type 0 where
    pub nz : p ≢ null
    pub frame_nz : g ≢ null
    pub apart : p ≢ g
    pub listed : v.list p ≡ disk_active_list
    pub oldest : last_or null (v.contents dram_free_list) ≡ g
    pub frame : (v.info g).in_dram ≡ true
    pub fits : CanComeUp P (v.info p) (v.info g).virtual_offset
    pub mapped : P.mapped (v.info p).va v.state ≡ false
    pub registered : P.registered (v.info p).va v.state ≡ true

  -- the state after the swap-in
  abbrev pub brought_in : (v : Abs P) (p g : Ptr) (c : P.Content) → P.State → Abs P
  brought_in v p g c s = queued inactive_list p (
      queued disk_reserve_list g
        (record (taken_off disk_active_list p (taken_last dram_free_list g v)) {
          info =
              put (put v.info p (swapped_in g (v.info g).virtual_offset (v.info p))) g
                (kept p (v.info p).virtual_offset (v.info g));
          state = s;
          buffer = some c;
        }))

  -- On a machine that keeps to the laws, a page on the list of pages on the storage, registered
  -- and not mapped, comes back without a failing assertion to the frame that is free the longest,
  -- if there is one. It is mapped, and memory holds what the storage gives for its place; what
  -- other pages hold stays, the storage is as the one read of the place leaves it, and the place
  -- is kept for the page under the descriptor of the frame.
  pub swapin_external-CameUp :
      Lawful P
      → (v : Abs P) (p g : Ptr) → Returnable v p g
      → (n : ℕ)
      → (s : P.State) × Runs (lrudisk_swapin_external (suc n) p) v tt (
          brought_in v p g
            (P.disk_read (v.info p).virtual_offset (allocated P v.buffer) v.state).0
            s)
        × CameUp P (v.info p).va (v.info p).virtual_offset (allocated P v.buffer) v.state s
  unfolding lrudisk_swapin_external
  swapin_external-CameUp laws v p g r n =
      let (c, s1) = P.disk_read (v.info p).virtual_offset (allocated P v.buffer) v.state in
      let kept_pages =
        laws.disk_read_memory (v.info p).virtual_offset (allocated P v.buffer) v.state in
      let (s, ok, there, held, mem, dsk) =
        laws.copy_in (v.info p).va c s1 (kept_pages.registered _ ∙ r.registered)
          (kept_pages.mapped _ ∙ r.mapped) in
      (
        s,
        Runs-bind _ (Runs-info_of r.nz refl) (
            Runs-bind _ (fetch_free-free v g r.frame_nz r.oldest n) (
              swapin_to-Runs (taken_last dram_free_list g v) p g s r.nz r.frame_nz r.apart
                (put-there _ _ r.apart r.listed) (put-here _ _ _) r.frame r.fits ok)),
        record {
          mapped_in = ok;
          content = held;
          mapped = there;
          memory = record {
            memory = λ b far. mem.memory b far ∙ kept_pages.memory b;
            mapped = λ b far. mem.mapped b far ∙ kept_pages.mapped b;
            registered = λ b. mem.registered b ∙ kept_pages.registered b;
          };
          disk = dsk;
        },
      )
