-- ===== src/RdmaStorage/Given.antt =====
-- The requests of the storage, on a server that answers each by a pass of its loop.
use swap_prefetch.Common.{
  ℕ, zero, suc, ◌+◌, ◌-◌, ◌≡◌, ◌≢◌, ◌<◌, refl, ap, ◌∙◌, Bool, true, false, Option, none, some, List,
  [], ◌∷◌, ◌==◌, leb, if◌then◌else◌, add64, length, set, arith, ==_ne, ==_refl,
}
use swap_prefetch.RdmaSim.Errno.{Errno, ok, err}
use swap_prefetch.RdmaSim.Allocator.{Allocator, rdma_sim_allocate}
use swap_prefetch.RdmaSim.Requests.{
  op_read, op_write, op_allocate, Request, World, rdma_submit_request, rdma_wait_request,
  server_pass, memcpy,
}
use swap_prefetch.RdmaSim.Requests.Exchange.{InRemote, Fresh}
use swap_prefetch.RdmaSim.Requests.Ask.{
  Ready, IdsBelow-Fresh, replied, allocated, ask_allocate, after_written, ask_write, after_read,
  ask_read, after_denied, ask_denied, request_id-new_request,
}
use swap_prefetch.RdmaStorage.{
  RemoteRegion, Storage, Outside, success, wait_request, allocated_addr, make_remote_region,
  request_region, free_remote, send, fetch, convert_from, page_size,
}

-- what comes from outside, with the server's pass as its answer
abbrev pub served : Bool → Outside → Outside
served malloc o = record o { answer = server_pass malloc }

pub wait_request-run :
    (answer : World → World) (id : ℕ) (w v : World) (b : Bool) (e : Option Errno) (m : ℕ → ℕ)
    → answer w ≡ v
    → rdma_wait_request id (λ k. (answer w).shm) (answer w) ≡ (b, e, m)
    → wait_request answer id w ≡ (b, record v { memory = m })
unfolding wait_request
wait_request-run answer id w v b e m p q = rw q (ap (λ (x : World). (b, record x { memory = m })) p)

allocated_addr-set :
    (id : ℕ) (l : List Request) (j : ℕ) (r : Request)
    → Fresh id l
    → j < length l
    → r.request_id ≡ id
    → allocated_addr id (set l j r) ≡ r.remote_addr
unfolding allocated_addr
allocated_addr-set id [] j r f h e = absurd (omega arith)
allocated_addr-set id (x ∷ l) zero r f h e = simp (e, ==_refl id) refl
allocated_addr-set id (x ∷ l) (suc j) r f h e =
    simp (==_ne x.request_id id f.0) (allocated_addr-set id l j r f.1 (omega arith) e)

-- the storage with a region in slot `i` that the server gave
abbrev pub with_region : (i : ℕ) → RemoteRegion → World → Storage → Storage
with_region i r v s = record s {
  world = v;
  remote_regions = set s.remote_regions i r;
  num_remote_regions = if leb s.num_remote_regions i then i + 1 else s.num_remote_regions;
  rdma_allocations = add64 s.rdma_allocations 1;
}

request_region-run :
    (o : Outside) (key size i addr : ℕ) (s : Storage) (v : World)
    → let (id, w) = rdma_submit_request o.timestamp op_allocate 0 0 size none s.world in
      id ≢ 0
      → wait_request o.answer id w ≡ (true, v)
      → allocated_addr id v.shm.requests ≡ addr
      → addr ≢ 0
      → request_region o key size i s
        ≡ (some i, with_region i (make_remote_region key size addr o.time) v s)
unfolding request_region
request_region-run o key size i addr s v nz waited found live =
    let (id, w) = rdma_submit_request o.timestamp op_allocate 0 0 size none s.world in
    simp (request_region, ==_ne id 0 nz, waited, found, ==_ne addr 0 live) refl

-- the world once the server gave memory
abbrev pub after_allocated : (now size addr : ℕ) → Allocator → World → World
after_allocated now size addr a w = record (replied (allocated now size addr w) w) { server = a }

pub request_region-given :
    (malloc : Bool) (o : Outside) (key size i addr : ℕ) (a : Allocator) (s : Storage)
    → Ready s.world
    → rdma_sim_allocate true malloc size s.world.server ≡ (ok addr, a)
    → addr ≢ 0
    → request_region (served malloc o) key size i s ≡ (
      some i,
      with_region i
          (make_remote_region key size addr o.time)
          (after_allocated o.timestamp size addr a s.world)
          s,
    )
request_region-given malloc o key size i addr a s h e nz =
    let (id, answer, waited) = ask_allocate malloc o.timestamp size addr a s.world h e in
    let (_, w) = rdma_submit_request o.timestamp op_allocate 0 0 size none s.world in
    request_region-run (served malloc o) key size i addr s
      (after_allocated o.timestamp size addr a s.world) (λ z. omega (arith, h.live, id, z))
      (wait_request-run (server_pass malloc) _ w (after_allocated o.timestamp size addr a s.world)
        true none s.world.memory answer waited)
      (ap (λ n. allocated_addr n (after_allocated o.timestamp size addr a s.world).shm.requests) id
        ∙ allocated_addr-set s.world.request_id_counter s.world.shm.requests s.world.shm.head
            (allocated o.timestamp size addr s.world)
            (IdsBelow-Fresh s.world.request_id_counter s.world.shm.requests h.ids)
            (omega (arith, h.idle.ring.slots, h.idle.ring.head_in))
            (request_id-new_request op_allocate 0 0 size s.world.request_id_counter o.timestamp))
      nz

request_region-failed :
    (o : Outside) (key size i : ℕ) (s : Storage) (v : World)
    → let (id, w) = rdma_submit_request o.timestamp op_allocate 0 0 size none s.world in
      id ≢ 0
      → wait_request o.answer id w ≡ (false, v)
      → request_region o key size i s ≡ (none, record s { world = v })
unfolding request_region
request_region-failed o key size i s v nz waited =
    let (id, w) = rdma_submit_request o.timestamp op_allocate 0 0 size none s.world in
    simp (request_region, ==_ne id 0 nz, waited) refl

pub request_region-denied :
    (malloc : Bool) (o : Outside) (key size i : ℕ) (e : Errno) (a : Allocator) (s : Storage)
    → Ready s.world
    → rdma_sim_allocate true malloc size s.world.server ≡ (err e, a)
    → request_region (served malloc o) key size i s
      ≡ (none, record s { world = after_denied o.timestamp size e a s.world })
request_region-denied malloc o key size i e a s h r =
    let (id, answer, waited) = ask_denied malloc o.timestamp size e a s.world h r in
    let (_, w) = rdma_submit_request o.timestamp op_allocate 0 0 size none s.world in
    request_region-failed (served malloc o) key size i s (after_denied o.timestamp size e a s.world)
      (λ z. omega (arith, h.live, id, z))
      (wait_request-run (server_pass malloc) _ w (after_denied o.timestamp size e a s.world) false
        (some e) s.world.memory answer waited)

-- A write of up to a page into the remote memory is answered with success, and the bytes are there.
pub send-run :
    (malloc : Bool) (o : Outside) (buffer addr size : ℕ) (bytes : ℕ → ℕ) (s : Storage)
    → Ready s.world
    → InRemote addr size s.world
    → send (served malloc o) buffer addr size bytes s
      ≡ (success, record s { world = after_written o.timestamp buffer addr size bytes s.world })
unfolding send
send-run malloc o buffer addr size bytes s h k =
    let (id, answer, waited) = ask_write malloc o.timestamp buffer addr size bytes s.world h k in
    let (n, w) = rdma_submit_request o.timestamp op_write buffer addr size (some bytes) s.world in
    simp
      (
        send,
        ==_ne n 0 (λ z. omega (arith, h.live, id, z)),
        wait_request-run (server_pass malloc) _ w
            (after_written o.timestamp buffer addr size bytes s.world) true none s.world.memory
            answer waited,
      )
      refl

-- the bytes that a read brings into the page buffer
abbrev pub fetched : (addr size : ℕ) → World → ℕ → ℕ
fetched addr size w =
    memcpy w.shm.page_buffer 0 w.remote_memory (addr - w.shm.remote_memory_base) size

-- A read of up to a page of the remote memory is answered with success. The bytes are copied twice:
-- by the wait, and again by the storage.
pub fetch-run :
    (malloc : Bool) (o : Outside) (addr dest size : ℕ) (s : Storage)
    → Ready s.world
    → InRemote addr size s.world
    → dest ≢ 0
    → let b = fetched addr size s.world in
      let copied = memcpy (memcpy s.world.memory dest b 0 size) dest b 0 size in
      fetch (served malloc o) addr dest size s ≡ (
        success,
        record s {
          world = record (after_read o.timestamp dest addr size s.world) {
            memory = if size == page_size then convert_from s.translator dest copied else copied;
          };
        },
      )
unfolding fetch
fetch-run malloc o addr dest size s h k nz =
    let (id, answer, waited) = ask_read malloc o.timestamp dest addr size s.world h k nz in
    let (_, w) = rdma_submit_request o.timestamp op_read dest addr size none s.world in
    simp
      (
        fetch,
        wait_request-run (server_pass malloc) _ w (after_read o.timestamp dest addr size s.world)
            true none (memcpy s.world.memory dest (fetched addr size s.world) 0 size) answer waited,
        h.idle.connected,
      )
      refl

-- Giving up memory in the client touches neither the segment nor a memory.
pub free_remote-World :
    (addr : ℕ) (s : Storage)
    → ((free_remote addr s).world.shm ≡ s.world.shm)
      × ((free_remote addr s).world.memory ≡ s.world.memory)
      × ((free_remote addr s).world.remote_memory ≡ s.world.remote_memory)
unfolding free_remote
free_remote-World addr s = (refl, refl, refl)
