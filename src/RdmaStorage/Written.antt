-- ===== src/RdmaStorage/Written.antt =====
-- What `rdma_write_page` does to a page that the storage has a region for.
use swap_prefetch.Common.{
  ℕ, ◌+◌, ◌-◌, ◌≡◌, ◌≤◌, ◌<◌, refl, ap, ◌∙◌, subst, Bool, true, some, add64, word, arith, ◌⊎◌,
  ==_refl,
}
use swap_prefetch.RdmaSim.Allocator.{Allocator}
use swap_prefetch.RdmaSim.Requests.{op_write, World, memcpy}
use swap_prefetch.RdmaSim.Requests.Ring.{length-set}
use swap_prefetch.RdmaSim.Requests.RoundTrip.{memcpy-start, memcpy-out}
use swap_prefetch.RdmaSim.Requests.Ask.{
  replied, replied-Ready, written, request_id-new_request, Ready-contents, InRemote-moved,
}
use swap_prefetch.PointerPrefetch.{page_size}
use swap_prefetch.AddressTranslation.{Translator, register_address_region}
use swap_prefetch.RdmaStorage.{
  RemoteRegion, Storage, Outside, Return, success, region_at, find_remote_region, on_region, locate,
  resize, resized, write_region, store, send, convert_for, rdma_write_page,
}
use swap_prefetch.RdmaStorage.Table.{region_at-set_same}
use swap_prefetch.RdmaStorage.Given.{served, send-run}
use swap_prefetch.RdmaStorage.Stored.{Home, Stored, find-touched}

-- the bytes of the page at `src`
abbrev pub page_at : (src : ℕ) → Storage → ℕ → ℕ
page_at src s k = s.world.memory (src + k)

-- the translator once the page at `off`, in slot `i`, is registered
abbrev pub registered : Outside → (off i : ℕ) → Storage → Translator
registered o off i s =
    (register_address_region o.region_malloc off page_size
      (region_at s.remote_regions i).remote_addr s.translator).1

store-run :
    (o : Outside) (off src i buffer : ℕ) (s : Storage)
    → o.buffer ≡ some buffer
    → store o off src page_size i s
      ≡ send o buffer
          (region_at s.remote_regions i).remote_addr
          page_size
          (convert_for (registered o off i s) (page_at src s))
          (record s { translator = registered o off i s })
unfolding store
store-run o off src i buffer s b = simp (store, b) refl

-- a write of a whole page that goes through
pub record Wrote (off src i : ℕ) (t : Translator) (a : Allocator) (before : Storage)
    (result : Return) (after : Storage) : Type 0 where
  pub succeeds : result ≡ success
  pub stored : Stored off i (convert_for t (page_at src before)) after
  pub translator : after.translator ≡ t
  pub server : after.world.server ≡ a
  pub memory : after.world.memory ≡ before.world.memory
  pub ids_left : after.world.request_id_counter + 1 < word
  pub elsewhere :
      (a : ℕ)
      → let at =
          (region_at after.remote_regions i).remote_addr - before.world.shm.remote_memory_base in
        (a < at) ⊎ (at + page_size ≤ a) → after.world.remote_memory a ≡ before.world.remote_memory a

pub kept_bytes :
    (remote buffer bytes : ℕ → ℕ) (at k : ℕ)
    → k < page_size
    → memcpy remote at (memcpy buffer 0 bytes 0 page_size) 0 page_size (at + k) ≡ bytes k
kept_bytes remote buffer bytes at k low =
    memcpy-start remote at (memcpy buffer 0 bytes 0 page_size) page_size k low
    ∙ ap (memcpy buffer 0 bytes 0 page_size) (plus_zero k)
    ∙ memcpy-start buffer 0 bytes page_size k low
  where
    plus_zero : (x : ℕ) → x ≡ 0 + x
    plus_zero x = omega arith

store-Wrote :
    (malloc : Bool) (o : Outside) (off src i buffer : ℕ) (s : Storage)
    → Home off i s
    → s.world.request_id_counter + 2 < word
    → o.buffer ≡ some buffer
    → let (result, s') = store (served malloc o) off src page_size i s in
      Wrote off src i (registered o off i s) s.world.server s result s'
store-Wrote malloc o off src i buffer s h room b =
    let addr : ℕ = (region_at s.remote_regions i).remote_addr in
    let t : Translator = registered o off i s in
    let bytes : ℕ → ℕ = convert_for t (page_at src s) in
    let w : World = s.world in
    let at : ℕ = addr - w.shm.remote_memory_base in
    let moved : ℕ → ℕ = memcpy w.shm.page_buffer 0 bytes 0 page_size in
    rw
      (
        store-run (served malloc o) off src i buffer s b,
        send-run malloc o buffer addr page_size bytes (record s { translator = t }) h.ready h.range,
      )
      (record {
        succeeds = refl;
        stored = record {
          home = record {
            running = h.running;
            ready =
                Ready-contents (replied (written o.timestamp buffer addr page_size w) w) w.memory
                  (memcpy w.remote_memory at moved 0 page_size) moved page_size
                  (replied-Ready (written o.timestamp buffer addr page_size w) w h.ready
                    (omega arith)
                    (request_id-new_request op_write buffer addr page_size w.request_id_counter
                      o.timestamp));
            found = h.found;
            in_table = h.in_table;
            range = InRemote-moved addr page_size w _ refl h.range;
          };
          content = kept_bytes w.remote_memory w.shm.page_buffer bytes at;
        };
        translator = refl;
        server = refl;
        memory = refl;
        ids_left = omega arith;
        elsewhere = λ a out. memcpy-out w.remote_memory at moved 0 page_size a out;
      })

-- the storage as a write of slot `i` leaves it before the page is copied
abbrev marked : (time i : ℕ) → Storage → Storage
marked time i s = on_region i (λ r. record r { last_access = time; dirty = true }) s

marked-region :
    (time off i : ℕ) (s : Storage)
    → Home off i s
    → region_at (marked time i s).remote_regions i
      ≡ record (region_at s.remote_regions i) { last_access = time; dirty = true }
marked-region time off i s h =
    region_at-set_same s.remote_regions i
      (record (region_at s.remote_regions i) { last_access = time; dirty = true }) h.in_table

marked-Home : (time off i : ℕ) (s : Storage) → Home off i s → Home off i (marked time i s)
marked-Home time off i s h =
    let r : RemoteRegion = record (region_at s.remote_regions i) {
      last_access = time;
      dirty = true;
    } in
    record {
      running = h.running;
      ready = h.ready;
      found = find-touched off s.num_remote_regions i s.remote_regions r refl refl ∙ h.found;
      in_table = rw (length-set s.remote_regions i r) h.in_table;
      range = rw (marked-region time off i s h) h.range;
    }

pub write_region-Wrote :
    (malloc : Bool) (o : Outside) (off src i buffer : ℕ) (s : Storage)
    → Home off i s
    → s.world.request_id_counter + 2 < word
    → o.buffer ≡ some buffer
    → let (result, s') = write_region (served malloc o) off src page_size (some i, s) in
      Wrote off src i (registered o off i s) s.world.server s result s'
unfolding write_region
write_region-Wrote malloc o off src i buffer s h room b =
    let s1 : Storage = marked o.time i s in
    let w = store-Wrote malloc o off src i buffer s1 (marked-Home o.time off i s h) room b in
    let (result, s') = store (served malloc o) off src page_size i s1 in
    let same : registered o off i s1 ≡ registered o off i s =
      ap
        (λ (r : RemoteRegion).
          (register_address_region o.region_malloc off page_size r.remote_addr s.translator).1)
        (marked-region o.time off i s h) in
    subst (λ t. Wrote off src i t s.world.server s result s') same
      (record {
        succeeds = w.succeeds;
        stored = w.stored;
        translator = w.translator;
        server = w.server;
        memory = w.memory;
        ids_left = w.ids_left;
        elsewhere = w.elsewhere;
      })

locate-found :
    (o : Outside) (off size i : ℕ) (s : Storage)
    → find_remote_region off s.num_remote_regions s.remote_regions ≡ some i
    → locate o off size s ≡ (some i, record s { rdma_hits = add64 s.rdma_hits 1 })
unfolding locate
locate-found o off size i s f = simp (locate, f) refl

pub resized-same :
    (o : Outside) (off size i : ℕ) (s : Storage)
    → (region_at s.remote_regions i).size ≡ size
    → resized o off size (some i, s) ≡ (some i, s)
unfolding resized resize
resized-same o off size i s e = simp (resize, e, ==_refl size) refl

pub write-run :
    (o : ℕ → Outside) (off src size : ℕ) (s : Storage)
    → s.rdma_initialized ≡ true
    → rdma_write_page o off src size s
      ≡ write_region (o 2) off src size (
          resized
            (o 1)
            off
            size
            (locate (o 0) off size (record s { rdma_writes = add64 s.rdma_writes 1 })))
unfolding rdma_write_page
write-run o off src size s h = simp (rdma_write_page, h) refl

-- Writing a page that the storage has a region of the size of a page for, with a server that
-- answers, succeeds: the page is then stored as the conversion makes it, the range is registered
-- with the translator, the client's memory is unchanged, and so is all other remote memory.
pub rdma_write_page-known :
    (malloc : Bool) (o : ℕ → Outside) (off src i buffer : ℕ) (s : Storage)
    → Home off i s
    → (region_at s.remote_regions i).size ≡ page_size
    → s.world.request_id_counter + 2 < word
    → (o 2).buffer ≡ some buffer
    → let (result, s') = rdma_write_page (λ k. served malloc (o k)) off src page_size s in
      Wrote off src i (registered (o 2) off i s) s.world.server s result s'
rdma_write_page-known malloc o off src i buffer s h e room b =
    let s1 : Storage = record s {
      rdma_writes = add64 s.rdma_writes 1;
      rdma_hits = add64 s.rdma_hits 1;
    } in
    let home : Home off i s1 = record {
      running = h.running;
      ready = h.ready;
      found = h.found;
      in_table = h.in_table;
      range = h.range;
    } in
    let w = write_region-Wrote malloc (o 2) off src i buffer s1 home room b in
    rw
      (
        write-run (λ k. served malloc (o k)) off src page_size s h.running,
        locate-found (served malloc (o 0)) off page_size i
            (record s { rdma_writes = add64 s.rdma_writes 1 }) h.found,
        resized-same (served malloc (o 1)) off page_size i s1 e,
      )
      (record {
        succeeds = w.succeeds;
        stored = w.stored;
        translator = w.translator;
        server = w.server;
        memory = w.memory;
        ids_left = w.ids_left;
        elsewhere = w.elsewhere;
      })
