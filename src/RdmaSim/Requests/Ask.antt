-- ===== src/RdmaSim/Requests/Ask.antt =====
-- One request of the client, from its submission to the end of the wait, answered by a pass of the
-- server.
use swap_prefetch.Common.{
  ℕ, zero, suc, ◌+◌, ◌-◌, ◌%◌, ◌≡◌, ◌≢◌, ◌<◌, refl, ap, ◌∙◌, Bool, true, false, Option, none, some,
  List, [], ◌∷◌, ◌==◌, leb, add64, sub64, word, set, arith, ==_ne,
}
use swap_prefetch.RdmaSim.Errno.{Errno, ok, err}
use swap_prefetch.RdmaSim.Allocator.{Allocator, rdma_sim_allocate}
use swap_prefetch.RdmaSim.Requests.{
  OpType, op_read, op_write, op_init, op_allocate, pending, completed, failed, Request, World,
  new_request, payload, enqueue, rdma_submit_request, max_rdma_requests, rdma_page_buffer_size,
  handle_op, on_allocated, rdma_server_handle_request, needs_memory, finish, counted, is_pending,
  advance, process_head, drain, server_pass, rdma_wait_request, find_request, memcpy, poll,
  on_found, on_status, returned,
}
use swap_prefetch.RdmaSim.Requests.Ring.{slot-set_same, length-set}
use swap_prefetch.RdmaSim.Requests.Submit.{submit-none, submit-some}
use swap_prefetch.RdmaSim.Requests.Exchange.{
  Idle, InRemote, Fresh, find_request-set, set-set, serve_read, in_range,
}
use swap_prefetch.RdmaSim.Requests.Waiting.{rdma_wait_request_lem}

-- each slot holds an id that was given out before
abbrev pub IdsBelow : ℕ → List Request → Type 0
IdsBelow n [] = Unit
IdsBelow n (r ∷ rs) = (r.request_id < n) × IdsBelow n rs

-- a client that can ask, and a server that awaits its request
pub record Ready (w : World) : Type 0 where
  pub idle : Idle w
  pub ids : IdsBelow w.request_id_counter w.shm.requests
  pub live : 0 < w.request_id_counter

pub IdsBelow-Fresh : (n : ℕ) (l : List Request) → IdsBelow n l → Fresh n l
IdsBelow-Fresh n [] h = tt
IdsBelow-Fresh n (r ∷ rs) h = ((λ e. omega arith), IdsBelow-Fresh n rs h.1)

IdsBelow-suc : (n m : ℕ) (l : List Request) → m ≡ n + 1 → IdsBelow n l → IdsBelow m l
IdsBelow-suc n m [] e h = tt
IdsBelow-suc n m (r ∷ rs) e h = (omega arith, IdsBelow-suc n m rs e h.1)

IdsBelow-set :
    (n : ℕ) (l : List Request) (j : ℕ) (r : Request)
    → IdsBelow n l
    → r.request_id < n
    → IdsBelow n (set l j r)
IdsBelow-set n [] j r h b = tt
IdsBelow-set n (x ∷ l) zero r h b = (b, h.1)
IdsBelow-set n (x ∷ l) (suc j) r h b = (h.0, IdsBelow-set n l j r h.1 b)

-- the world once the server answered one request, `r` as it stands then
abbrev pub replied : Request → World → World
replied r w = record w {
  request_id_counter = add64 w.request_id_counter 1;
  shm = record w.shm {
    requests = set w.shm.requests w.shm.head r;
    head = (w.shm.head + 1) % max_rdma_requests;
    tail = (w.shm.head + 1) % max_rdma_requests;
    count = 0;
    shutdown_requested = false;
    total_requests = add64 w.shm.total_requests 1;
    completed_requests = add64 w.shm.completed_requests 1;
  };
}

pub replied-Ready :
    (r : Request) (w : World)
    → Ready w
    → w.request_id_counter + 1 < word
    → r.request_id ≡ w.request_id_counter
    → Ready (replied r w)
replied-Ready r w h low e =
    let next : add64 w.request_id_counter 1 ≡ w.request_id_counter + 1 = omega arith in
    record {
      idle = record {
        connected = h.idle.connected;
        backed = h.idle.backed;
        going = refl;
        ring = record {
          slots = length-set w.shm.requests w.shm.head r ∙ h.idle.ring.slots;
          head_in = omega arith;
          count_in = omega arith;
          tail_at = omega arith;
        };
        empty = refl;
      };
      ids =
          IdsBelow-set (add64 w.request_id_counter 1) w.shm.requests w.shm.head r
            (IdsBelow-suc w.request_id_counter (add64 w.request_id_counter 1) w.shm.requests next
              h.ids)
            (omega arith);
      live = omega (arith, h.live);
    }

-- the request for memory, as the server answers it
abbrev pub allocated : (now size addr : ℕ) → World → Request
allocated now size addr w = record (new_request op_allocate 0 0 size w.request_id_counter now) {
  remote_addr = addr;
  status = completed;
}

serve_allocate :
    (malloc : Bool) (now size addr : ℕ) (a : Allocator) (w : World)
    → Idle w
    → rdma_sim_allocate true malloc size w.server ≡ (ok addr, a)
    → server_pass malloc (rdma_submit_request now op_allocate 0 0 size none w).1
      ≡ record (replied (allocated now size addr w) w) { server = a }
unfolding server_pass drain process_head enqueue payload rdma_server_handle_request needs_memory
    handle_op on_allocated finish counted is_pending advance new_request
serve_allocate malloc now size addr a w h e =
    let tail_at : w.shm.tail ≡ w.shm.head =
      omega (arith, h.ring.tail_at, h.ring.head_in, h.empty) in
    let asked : Request = new_request op_allocate 0 0 size w.request_id_counter now in
    let first =
      slot-set_same w.shm.requests w.shm.head asked (omega (arith, h.ring.slots, h.ring.head_in)) in
    rw (submit-none now op_allocate 0 0 size none w h.connected (omega (arith, h.empty)) refl) (
      simp
        (
          h.going,
          h.backed,
          h.empty,
          tail_at,
          first,
          e,
          set-set w.shm.requests w.shm.head asked (allocated now size addr w),
        )
        refl)

-- a wait for a request that the server answered, on the slot that it stands in
wait-answered :
    (r : Request) (w v : World) (b : Bool) (e : Option Errno) (result : ℕ → ℕ)
    → Ready w
    → r.request_id ≡ w.request_id_counter
    → is_pending r.status ≡ false
    → v.connected ≡ true
    → v.shm.requests ≡ set w.shm.requests w.shm.head r
    → on_status r.status r v.shm v.memory ≡ returned b e result
    → rdma_wait_request w.request_id_counter (λ k. v.shm) v ≡ (b, e, result)
unfolding poll on_found
wait-answered r w v b e result h i p c l s =
    rdma_wait_request_lem w.request_id_counter 0 (λ k. v.shm) v b e result c
      (λ z. omega (arith, h.live, z)) (omega arith) (λ k low. absurd (omega arith))
      (ap (λ f. on_found f 0 v.shm v.memory)
          (ap (find_request w.request_id_counter) l
            ∙ find_request-set w.request_id_counter w.shm.requests w.shm.head r
                (IdsBelow-Fresh w.request_id_counter w.shm.requests h.ids)
                (omega (arith, h.idle.ring.slots, h.idle.ring.head_in)) i p)
        ∙ s)

no_payload : (size : ℕ) → payload op_allocate size none ≡ none
unfolding payload
no_payload size = refl

-- What a client gets that asks for memory, when the allocator has some: success, and the slot of
-- its request holds the address.
pub ask_allocate :
    (malloc : Bool) (now size addr : ℕ) (a : Allocator) (w : World)
    → Ready w
    → rdma_sim_allocate true malloc size w.server ≡ (ok addr, a)
    → let (id, w') = rdma_submit_request now op_allocate 0 0 size none w in
      let v = server_pass malloc w' in
      (id ≡ w.request_id_counter)
      × (v ≡ record (replied (allocated now size addr w) w) { server = a })
      × (rdma_wait_request id (λ k. v.shm) v ≡ (true, none, w.memory))
unfolding on_status new_request is_pending
ask_allocate malloc now size addr a w h e =
    let sent =
      submit-none now op_allocate 0 0 size none w h.idle.connected (omega (arith, h.idle.empty))
        (no_payload size) in
    rw (serve_allocate malloc now size addr a w h.idle e, sent)
      (
        refl,
        refl,
        wait-answered (allocated now size addr w) w
            (record (replied (allocated now size addr w) w) { server = a }) true none w.memory h
            refl refl h.idle.connected refl refl,
      )

-- the request of a write, as the server answers it
abbrev pub written : (now buffer addr size : ℕ) → World → Request
written now buffer addr size w =
    record (new_request op_write buffer addr size w.request_id_counter now) {
      data_in_shm_buffer = true;
      status = completed;
    }

-- the world once a write was answered
abbrev pub after_written : (now buffer addr size : ℕ) → (ℕ → ℕ) → World → World
after_written now buffer addr size bytes w =
    let moved : ℕ → ℕ = memcpy w.shm.page_buffer 0 bytes 0 size in
    let v : World = replied (written now buffer addr size w) w in
    record v {
      shm = record v.shm { page_buffer = moved; page_buffer_used = size };
      remote_memory = memcpy w.remote_memory (addr - w.shm.remote_memory_base) moved 0 size;
    }

serve_written :
    (malloc : Bool) (now buffer addr size : ℕ) (bytes : ℕ → ℕ) (w : World)
    → Idle w
    → InRemote addr size w
    → let (id, w') = rdma_submit_request now op_write buffer addr size (some bytes) w in
      (id ≡ w.request_id_counter)
      × (server_pass malloc w' ≡ after_written now buffer addr size bytes w)
unfolding server_pass drain process_head enqueue payload rdma_server_handle_request needs_memory
    handle_op finish counted is_pending advance new_request
serve_written malloc now buffer addr size bytes w h k =
    let tail_at : w.shm.tail ≡ w.shm.head =
      omega (arith, h.ring.tail_at, h.ring.head_in, h.empty) in
    let offset : sub64 addr w.shm.remote_memory_base ≡ addr - w.shm.remote_memory_base =
      omega (arith, k.above, k.below, k.fits) in
    let full : (size == 0) ≡ false = ==_ne size 0 (omega (arith, k.page)) in
    let asked : Request = record (written now buffer addr size w) { status = pending } in
    let first =
      slot-set_same w.shm.requests w.shm.head asked (omega (arith, h.ring.slots, h.ring.head_in)) in
    rw
      (submit-some now op_write buffer addr size (some bytes) bytes w h.connected
        (omega (arith, h.empty)) (simp full) k.page.1)
      (
        refl,
        simp
            (
              h.going,
              h.backed,
              h.empty,
              tail_at,
              first,
              full,
              offset,
              in_range addr size w k,
              set-set w.shm.requests w.shm.head asked (written now buffer addr size w),
            )
            refl,
      )

-- What a client gets that writes up to a page into the remote memory: success, and the bytes are
-- there.
pub ask_write :
    (malloc : Bool) (now buffer addr size : ℕ) (bytes : ℕ → ℕ) (w : World)
    → Ready w
    → InRemote addr size w
    → let (id, w') = rdma_submit_request now op_write buffer addr size (some bytes) w in
      let v = server_pass malloc w' in
      (id ≡ w.request_id_counter)
      × (v ≡ after_written now buffer addr size bytes w)
      × (rdma_wait_request id (λ k. v.shm) v ≡ (true, none, w.memory))
unfolding on_status new_request is_pending
ask_write malloc now buffer addr size bytes w h k =
    let (id, served) = serve_written malloc now buffer addr size bytes w h.idle k in
    rw (served, id)
      (
        refl,
        refl,
        wait-answered (written now buffer addr size w) w
            (after_written now buffer addr size bytes w) true none w.memory h refl refl
            h.idle.connected refl refl,
      )

-- the request of a read, as the server answers it
abbrev pub read_done : (now dest addr size : ℕ) → World → Request
read_done now dest addr size w =
    record (new_request op_read dest addr size w.request_id_counter now) { status = completed }

-- the world once a read was answered
abbrev pub after_read : (now dest addr size : ℕ) → World → World
after_read now dest addr size w =
    let v : World = replied (read_done now dest addr size w) w in
    record v {
      shm = record v.shm {
        page_buffer =
            memcpy w.shm.page_buffer 0 w.remote_memory (addr - w.shm.remote_memory_base) size;
      };
    }

serve_read_done :
    (malloc : Bool) (now dest addr size : ℕ) (w : World)
    → Idle w
    → InRemote addr size w
    → let (id, w') = rdma_submit_request now op_read dest addr size none w in
      (id ≡ w.request_id_counter) × (server_pass malloc w' ≡ after_read now dest addr size w)
unfolding payload new_request
serve_read_done malloc now dest addr size w h k =
    rw
      (
        serve_read malloc now dest addr size w h k,
        submit-none now op_read dest addr size none w h.connected (omega (arith, h.empty)) refl,
        set-set w.shm.requests w.shm.head
            (record (read_done now dest addr size w) { status = pending })
            (read_done now dest addr size w),
      )
      (refl, refl)

-- What a client gets that reads up to a page of the remote memory to an address other than NULL:
-- success, and the bytes are there.
pub ask_read :
    (malloc : Bool) (now dest addr size : ℕ) (w : World)
    → Ready w
    → InRemote addr size w
    → dest ≢ 0
    → let (id, w') = rdma_submit_request now op_read dest addr size none w in
      let v = server_pass malloc w' in
      let moved =
        memcpy w.shm.page_buffer 0 w.remote_memory (addr - w.shm.remote_memory_base) size in
      (id ≡ w.request_id_counter)
      × (v ≡ after_read now dest addr size w)
      × (rdma_wait_request id (λ k. v.shm) v ≡ (true, none, memcpy w.memory dest moved 0 size))
unfolding on_status new_request is_pending
ask_read malloc now dest addr size w h k nz =
    let (id, served) = serve_read_done malloc now dest addr size w h.idle k in
    let full : (size == 0) ≡ false = ==_ne size 0 (omega (arith, k.page)) in
    let fits : leb size (sub64 rdma_page_buffer_size 0) ≡ true = ground (arith, k.page) in
    let moved : ℕ → ℕ =
      memcpy w.shm.page_buffer 0 w.remote_memory (addr - w.shm.remote_memory_base) size in
    rw (served, id)
      (
        refl,
        refl,
        wait-answered (read_done now dest addr size w) w (after_read now dest addr size w) true none
            (memcpy w.memory dest moved 0 size) h refl refl h.idle.connected refl
            (simp (full, fits, ==_ne dest 0 nz) refl),
      )

pub request_id-new_request :
    (op : OpType) (local_addr remote_addr size id now : ℕ)
    → (new_request op local_addr remote_addr size id now).request_id ≡ id
unfolding new_request
request_id-new_request op local_addr remote_addr size id now = refl

-- Being ready does not depend on the contents of the memories and of the page buffer.
pub Ready-contents :
    (w : World) (memory remote_memory buffer : ℕ → ℕ) (used : ℕ)
    → Ready w
    → Ready (record w {
      memory = memory;
      remote_memory = remote_memory;
      shm = record w.shm { page_buffer = buffer; page_buffer_used = used };
    })
Ready-contents w memory remote_memory buffer used h = record {
  idle = record {
    connected = h.idle.connected;
    backed = h.idle.backed;
    going = h.idle.going;
    ring = record {
      slots = h.idle.ring.slots;
      head_in = h.idle.ring.head_in;
      count_in = h.idle.ring.count_in;
      tail_at = h.idle.ring.tail_at;
    };
    empty = h.idle.empty;
  };
  ids = h.ids;
  live = h.live;
}

pub Ready-server :
    (w : World) (a : Allocator) → a.backed ≡ true → Ready w → Ready (record w { server = a })
Ready-server w a b h = record {
  idle = record {
    connected = h.idle.connected;
    backed = b;
    going = h.idle.going;
    ring = h.idle.ring;
    empty = h.idle.empty;
  };
  ids = h.ids;
  live = h.live;
}

-- A range in the remote memory depends on where the remote memory begins.
pub InRemote-moved :
    (addr size : ℕ) (w v : World)
    → v.shm.remote_memory_base ≡ w.shm.remote_memory_base
    → InRemote addr size w
    → InRemote addr size v
InRemote-moved addr size w v e h = record {
  above = omega (arith, e, h.above);
  below = omega (arith, e, h.below);
  page = h.page;
  fits = omega (arith, e, h.fits);
}

-- the request for memory, as the server answers it that has none
abbrev pub denied : (now size : ℕ) → Errno → World → Request
denied now size e w = record (new_request op_allocate 0 0 size w.request_id_counter now) {
  status = failed;
  error_code = some e;
}

-- the world once the server gave no memory
abbrev pub after_denied : (now size : ℕ) → Errno → Allocator → World → World
after_denied now size e a w =
    let v : World = replied (denied now size e w) w in
    record v {
      server = a;
      shm = record v.shm {
        completed_requests = w.shm.completed_requests;
        failed_requests = add64 w.shm.failed_requests 1;
      };
    }

serve_denied :
    (malloc : Bool) (now size : ℕ) (e : Errno) (a : Allocator) (w : World)
    → Idle w
    → rdma_sim_allocate true malloc size w.server ≡ (err e, a)
    → server_pass malloc (rdma_submit_request now op_allocate 0 0 size none w).1
      ≡ after_denied now size e a w
unfolding server_pass drain process_head enqueue payload rdma_server_handle_request needs_memory
    handle_op on_allocated finish counted is_pending advance new_request
serve_denied malloc now size e a w h r =
    let tail_at : w.shm.tail ≡ w.shm.head =
      omega (arith, h.ring.tail_at, h.ring.head_in, h.empty) in
    let asked : Request = new_request op_allocate 0 0 size w.request_id_counter now in
    let first =
      slot-set_same w.shm.requests w.shm.head asked (omega (arith, h.ring.slots, h.ring.head_in)) in
    rw (submit-none now op_allocate 0 0 size none w h.connected (omega (arith, h.empty)) refl) (
      simp
        (
          h.going,
          h.backed,
          h.empty,
          tail_at,
          first,
          r,
          set-set w.shm.requests w.shm.head asked (denied now size e w),
        )
        refl)

-- What a client gets that asks for memory, when the allocator has none: failure, and its error.
pub ask_denied :
    (malloc : Bool) (now size : ℕ) (e : Errno) (a : Allocator) (w : World)
    → Ready w
    → rdma_sim_allocate true malloc size w.server ≡ (err e, a)
    → let (id, w') = rdma_submit_request now op_allocate 0 0 size none w in
      let v = server_pass malloc w' in
      (id ≡ w.request_id_counter)
      × (v ≡ after_denied now size e a w)
      × (rdma_wait_request id (λ k. v.shm) v ≡ (false, some e, w.memory))
unfolding on_status new_request is_pending
ask_denied malloc now size e a w h r =
    let sent =
      submit-none now op_allocate 0 0 size none w h.idle.connected (omega (arith, h.idle.empty))
        (no_payload size) in
    rw (serve_denied malloc now size e a w h.idle r, sent)
      (
        refl,
        refl,
        wait-answered (denied now size e w) w (after_denied now size e a w) false (some e) w.memory
            h refl refl h.idle.connected refl refl,
      )

-- the first request of a client, as the server answers it
abbrev pub greeted : (now : ℕ) → World → Request
greeted now w = record (new_request op_init 0 0 0 w.request_id_counter now) { status = completed }

serve_greeted :
    (malloc : Bool) (now : ℕ) (w : World)
    → Idle w
    → server_pass malloc (rdma_submit_request now op_init 0 0 0 none w).1
      ≡ replied (greeted now w) w
unfolding server_pass drain process_head enqueue payload rdma_server_handle_request needs_memory
    handle_op finish counted is_pending advance new_request
serve_greeted malloc now w h =
    let tail_at : w.shm.tail ≡ w.shm.head =
      omega (arith, h.ring.tail_at, h.ring.head_in, h.empty) in
    let asked : Request = new_request op_init 0 0 0 w.request_id_counter now in
    let first =
      slot-set_same w.shm.requests w.shm.head asked (omega (arith, h.ring.slots, h.ring.head_in)) in
    rw (submit-none now op_init 0 0 0 none w h.connected (omega (arith, h.empty)) refl) (
      simp
        (
          h.going,
          h.backed,
          h.empty,
          tail_at,
          first,
          set-set w.shm.requests w.shm.head asked (greeted now w),
        )
        refl)

-- What a client gets that greets the server: success.
pub ask_init :
    (malloc : Bool) (now : ℕ) (w : World)
    → Ready w
    → let (id, w') = rdma_submit_request now op_init 0 0 0 none w in
      let v = server_pass malloc w' in
      (id ≡ w.request_id_counter)
      × (v ≡ replied (greeted now w) w)
      × (rdma_wait_request id (λ k. v.shm) v ≡ (true, none, w.memory))
unfolding on_status new_request is_pending payload
ask_init malloc now w h =
    let sent =
      submit-none now op_init 0 0 0 none w h.idle.connected (omega (arith, h.idle.empty)) refl in
    rw (serve_greeted malloc now w h.idle, sent)
      (
        refl,
        refl,
        wait-answered (greeted now w) w (replied (greeted now w) w) true none w.memory h refl refl
            h.idle.connected refl refl,
      )
