-- ===== src/RdmaStorage/Fresh.antt =====
-- What `rdma_write_page` does to a page that the storage does not know.
use swap_prefetch.Common.{
  ℕ, ◌+◌, ◌≡◌, ◌≢◌, ◌<◌, refl, sym, ap, ◌∙◌, subst, Bool, true, none, some, add64, word, length,
  arith, ◌⊎◌, inl, inr,
}
use swap_prefetch.RdmaSim.Errno.{Errno, enomem, ok, err}
use swap_prefetch.RdmaSim.Allocator.{Allocator, remote_base, round_up, rdma_sim_allocate}
use swap_prefetch.RdmaSim.Allocator.Correct.{
  IsHeap, FitsSize, NoRoom, round_up_lem, Allocated, rdma_sim_allocate_lem, allocate-backed,
}
use swap_prefetch.RdmaSim.Requests.{op_allocate, World}
use swap_prefetch.RdmaSim.Requests.Exchange.{InRemote}
use swap_prefetch.RdmaSim.Requests.Ring.{length-set}
use swap_prefetch.RdmaSim.Requests.Ask.{
  Ready, replied, replied-Ready, allocated, request_id-new_request, Ready-server, after_denied,
  InRemote-moved,
}
use swap_prefetch.PointerPrefetch.{page_size}
use swap_prefetch.AddressTranslation.{Translator, register_address_region}
use swap_prefetch.RdmaStorage.{
  RemoteRegion, Storage, Outside, region_at, find_remote_region, first_unused, make_remote_region,
  locate, count_miss, write_region, resized, minus, rdma_write_page,
}
use swap_prefetch.RdmaStorage.Table.{region_at-set_same}
use swap_prefetch.RdmaStorage.Lookup.{IsTable, find-none, find-Holds, Holds-set_same}
use swap_prefetch.RdmaStorage.Allocate.{InSlot, set-InSlot, allocate-unused}
use swap_prefetch.RdmaStorage.Given.{
  served, with_region, after_allocated, request_region-given, request_region-denied,
}
use swap_prefetch.RdmaStorage.Stored.{Home}
use swap_prefetch.RdmaStorage.Written.{
  Wrote, registered, resized-same, write-run, write_region-Wrote,
}

-- What an allocation of a page relies on: a server whose heap is valid and that has the memory
-- where the segment says, a client that can ask, and a valid table with an unused slot.
pub record Roomy (i : ℕ) (s : Storage) : Type 0 where
  pub running : s.rdma_initialized ≡ true
  pub ready : Ready s.world
  pub heap : IsHeap s.world.server
  pub base : s.world.shm.remote_memory_base ≡ remote_base
  pub table : IsTable s.num_remote_regions s.remote_regions
  pub unused_slot : first_unused s.remote_regions ≡ some i
  pub in_table : i < length s.remote_regions

page_fits : FitsSize page_size
page_fits = omega arith

-- the storage once slot `i` has the region that the server gave for the page at `off`
abbrev placed : Outside → (off i addr : ℕ) → Allocator → Storage → Storage
placed o off i addr a s =
    let s1 : Storage =
      with_region i (make_remote_region off page_size addr o.time)
        (after_allocated o.timestamp page_size addr a s.world) s in
    record s1 { rdma_misses = add64 s1.rdma_misses 1 }

locate-new :
    (malloc : Bool) (o : Outside) (off i addr : ℕ) (a : Allocator) (s : Storage)
    → Roomy i s
    → find_remote_region off s.num_remote_regions s.remote_regions ≡ none
    → rdma_sim_allocate true malloc page_size s.world.server ≡ (ok addr, a)
    → addr ≢ 0
    → locate (served malloc o) off page_size s ≡ (some i, placed o off i addr a s)
unfolding locate count_miss
locate-new malloc o off i addr a s h missing e nz =
    simp
      (
        locate,
        missing,
        allocate-unused (served malloc o) off page_size i s h.unused_slot,
        request_region-given malloc o off page_size i addr a s h.ready e nz,
      )
      refl

placed-InSlot :
    (o : Outside) (off i addr : ℕ) (a : Allocator) (s : Storage)
    → Roomy i s
    → find_remote_region off s.num_remote_regions s.remote_regions ≡ none
    → let s' = placed o off i addr a s in
      InSlot i
        (make_remote_region off page_size addr o.time)
        s.num_remote_regions
        s.remote_regions
        s'.num_remote_regions
        s'.remote_regions
unfolding make_remote_region
placed-InSlot o off i addr a s h missing =
    set-InSlot s.num_remote_regions i s.remote_regions
      (make_remote_region off page_size addr o.time) h.in_table h.table
      (find-none off s.num_remote_regions s.remote_regions h.table missing) refl

placed-Home :
    (malloc : Bool) (o : Outside) (off i addr : ℕ) (a : Allocator) (s : Storage)
    → Roomy i s
    → find_remote_region off s.num_remote_regions s.remote_regions ≡ none
    → s.world.request_id_counter + 1 < word
    → a.backed ≡ true
    → InRemote addr page_size s.world
    → Home off i (placed o off i addr a s)
unfolding make_remote_region
placed-Home malloc o off i addr a s h missing room b range =
    let r : RemoteRegion = make_remote_region off page_size addr o.time in
    let s' : Storage = placed o off i addr a s in
    let w : World = s.world in
    record {
      running = h.running;
      ready = Ready-server (replied (allocated o.timestamp page_size addr w) w) a b (
          replied-Ready (allocated o.timestamp page_size addr w) w h.ready room
            (request_id-new_request op_allocate 0 0 page_size w.request_id_counter o.timestamp));
      found =
          find-Holds off i s'.num_remote_regions s'.remote_regions
            (placed-InSlot o off i addr a s h missing).valid
            (Holds-set_same s.num_remote_regions i s.remote_regions r h.in_table off refl refl);
      in_table = rw (length-set s.remote_regions i r) h.in_table;
      range =
          rw (region_at-set_same s.remote_regions i r h.in_table)
            (InRemote-moved addr page_size w s'.world refl range);
    }

-- the translator once the page at `off` is registered for the region at `addr`
abbrev pub registered_at : Outside → (off addr : ℕ) → Translator → Translator
registered_at o off addr t = (register_address_region o.region_malloc off page_size addr t).1

given_range :
    (size addr : ℕ) (a : Allocator) (w : World)
    → w.shm.remote_memory_base ≡ remote_base
    → Allocated w.server addr (round_up page_size) a
    → InRemote addr page_size w
given_range size addr a w base g =
    let (large, _, _) = round_up_lem page_size page_fits in
    record {
      above = omega (arith, base, g.in_range);
      below = omega (arith, base, g.in_range, large);
      page = omega arith;
      fits = omega (arith, base);
    }

counted_write :
    (i : ℕ) (s : Storage) → Roomy i s → Roomy i (record s { rdma_writes = add64 s.rdma_writes 1 })
counted_write i s h = record {
  running = h.running;
  ready = h.ready;
  heap = h.heap;
  base = h.base;
  table = h.table;
  unused_slot = h.unused_slot;
  in_table = h.in_table;
}

pub page_write :
    (o : ℕ → Outside) (off src i addr buffer : ℕ) (a : Allocator) (s : Storage)
    → Roomy i s
    → find_remote_region off s.num_remote_regions s.remote_regions ≡ none
    → s.world.request_id_counter + 3 < word
    → (o 2).buffer ≡ some buffer
    → rdma_sim_allocate true true page_size s.world.server ≡ (ok addr, a)
    → Allocated s.world.server addr (round_up page_size) a
    → let (result, s') = rdma_write_page (λ k. served true (o k)) off src page_size s in
      Wrote off src i (registered_at (o 2) off addr s.translator) a s result s'
unfolding make_remote_region
page_write o off src i addr buffer a s h missing room b e g =
    let s1 : Storage = record s { rdma_writes = add64 s.rdma_writes 1 } in
    let roomy : Roomy i s1 = counted_write i s h in
    let s2 : Storage = placed (o 0) off i addr a s1 in
    let r : RemoteRegion = make_remote_region off page_size addr (o 0).time in
    let here : region_at s2.remote_regions i ≡ r =
      region_at-set_same s.remote_regions i r h.in_table in
    let backed : a.backed ≡ true =
      sym (ap (λ x. x.1.backed) e)
      ∙ allocate-backed true page_size s.world.server
      ∙ h.ready.idle.backed in
    let home =
      placed-Home true (o 0) off i addr a s1 roomy missing (omega arith) backed
        (given_range page_size addr a s.world h.base g) in
    let w = write_region-Wrote true (o 2) off src i buffer s2 home (omega arith) b in
    let (result, s') = write_region (served true (o 2)) off src page_size (some i, s2) in
    let same : registered (o 2) off i s2 ≡ registered_at (o 2) off addr s.translator =
      ap (λ (x : RemoteRegion). registered_at (o 2) off x.remote_addr s.translator) here in
    rw
      (
        write-run (λ k. served true (o k)) off src page_size s h.running,
        locate-new true (o 0) off i addr a s1 roomy missing e (omega (arith, g.in_range)),
        resized-same (served true (o 1)) off page_size i s2 (ap (λ x. x.size) here),
      )
      (subst (λ t. Wrote off src i t a s result s') same
        (record {
          succeeds = w.succeeds;
          stored = w.stored;
          translator = w.translator;
          server = w.server;
          memory = w.memory;
          ids_left = w.ids_left;
          elsewhere = w.elsewhere;
        }))

locate-denied :
    (malloc : Bool) (o : Outside) (off i : ℕ) (e : Errno) (a : Allocator) (s : Storage)
    → Roomy i s
    → find_remote_region off s.num_remote_regions s.remote_regions ≡ none
    → rdma_sim_allocate true malloc page_size s.world.server ≡ (err e, a)
    → locate (served malloc o) off page_size s
      ≡ (none, record s { world = after_denied o.timestamp page_size e a s.world })
unfolding locate count_miss
locate-denied malloc o off i e a s h missing r =
    simp
      (
        locate,
        missing,
        allocate-unused (served malloc o) off page_size i s h.unused_slot,
        request_region-denied malloc o off page_size i e a s h.ready r,
      )
      refl

write_denied :
    (o : ℕ → Outside) (off src i : ℕ) (e : Errno) (a : Allocator) (s : Storage)
    → Roomy i s
    → find_remote_region off s.num_remote_regions s.remote_regions ≡ none
    → rdma_sim_allocate true true page_size s.world.server ≡ (err e, a)
    → rdma_write_page (λ k. served true (o k)) off src page_size s ≡ (
      minus enomem,
      record s {
        rdma_writes = add64 s.rdma_writes 1;
        world = after_denied (o 0).timestamp page_size e a s.world;
      },
    )
unfolding write_region resized
write_denied o off src i e a s h missing r =
    let s1 : Storage = record s { rdma_writes = add64 s.rdma_writes 1 } in
    rw
      (
        write-run (λ k. served true (o k)) off src page_size s h.running,
        locate-denied true (o 0) off i e a s1 (counted_write i s h) missing r,
      )
      refl

-- what a failing write leaves as it is
pub record Untouched (before after : Storage) : Type 0 where
  pub regions : after.remote_regions ≡ before.remote_regions
  pub count : after.num_remote_regions ≡ before.num_remote_regions
  pub server : after.world.server ≡ before.world.server
  pub translator : after.translator ≡ before.translator
  pub memory : after.world.memory ≡ before.world.memory
  pub remote_memory : after.world.remote_memory ≡ before.world.remote_memory

-- Writing a page that a valid table does not know, while it has an unused slot, to a server that
-- answers in time and whose heap is valid, when the client's `malloc` of the copy of the page and
-- the server's `malloc` of a block both succeed and the ids of requests do not wrap: if the heap
-- has room for a page, the write succeeds; the page is then stored as the conversion makes it, in
-- memory that the heap had not given to anyone, the translator is as the call that registers the
-- range leaves it, and the client's memory is unchanged, and so is all other remote memory.
-- Otherwise the heap has no free block of the size of a page, the write fails with ENOMEM, and the
-- table, the heap, the translator and both memories are unchanged.
pub rdma_write_page-new :
    (o : ℕ → Outside) (off src i buffer : ℕ) (s : Storage)
    → Roomy i s
    → find_remote_region off s.num_remote_regions s.remote_regions ≡ none
    → s.world.request_id_counter + 3 < word
    → (o 2).buffer ≡ some buffer
    → let (result, s') = rdma_write_page (λ k. served true (o k)) off src page_size s in
      ((addr : ℕ) × (a : Allocator) × Allocated s.world.server addr (round_up page_size) a
        × Wrote off src i (registered_at (o 2) off addr s.translator) a s result s')
      ⊎ (NoRoom (round_up page_size) s.world.server.blocks
          × (result ≡ minus enomem)
          × Untouched s s')
rdma_write_page-new o off src i buffer s h missing room b =
    let (_, a) = rdma_sim_allocate true true page_size s.world.server in
    elim (rdma_sim_allocate_lem s.world.server page_size h.heap page_fits) [
      | inl (addr, e, g) ↦ inl (
        addr,
        a,
        g,
        page_write o off src i addr buffer a s h missing room b (ap (λ r. (r, a)) e) g,
      )
      | inr (r, same, n) ↦ rw (write_denied o off src i enomem a s h missing (ap (λ r. (r, a)) r)) (
          inr (
            n,
            refl,
            record {
              regions = refl;
              count = refl;
              server = same;
              translator = refl;
              memory = refl;
              remote_memory = refl;
            },
          ))
    ]

-- what is known of memory that the heap gives
pub page_given :
    (i addr : ℕ) (a : Allocator) (s : Storage)
    → Roomy i s
    → rdma_sim_allocate true true page_size s.world.server ≡ (ok addr, a)
    → Allocated s.world.server addr (round_up page_size) a
page_given i addr a s h e = elim (rdma_sim_allocate_lem s.world.server page_size h.heap page_fits) [
  | inl (x, r, g) ↦
      let here : x ≡ addr = ok_inj x addr (sym r ∙ ap (λ y. y.0) e) in
      subst (λ z. Allocated s.world.server z (round_up page_size) a) here
        (subst (λ z. Allocated s.world.server x (round_up page_size) z) (ap (λ y. y.1) e) g)
  | inr (r, _, _) ↦ cc (r, e)
]
  where
    ok_inj : (x y : ℕ) → ok x ≡ ok y → x ≡ y
    ok_inj x y e = cc
