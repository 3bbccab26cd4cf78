-- ===== src/RdmaSim/Requests/Exchange.antt =====
-- A write and a read through the shared page buffer, one request at a time.
use swap_prefetch.Common.{
  ℕ, zero, suc, ◌+◌, ◌-◌, ◌%◌, ◌≡◌, ◌≢◌, ◌≤◌, ◌<◌, refl, ap, ◌∙◌, Bool, true, false, none, some,
  List, [], ◌∷◌, ◌==◌, ltb, add64, sub64, word, length, set, arith, ==_ne, ==_refl,
}
use swap_prefetch.RdmaSim.Allocator.{remote_memory_size}
use swap_prefetch.RdmaSim.Requests.{
  op_read, op_write, pending, completed, Request, World, new_request, payload, enqueue,
  rdma_submit_request, max_rdma_requests, rdma_page_buffer_size, handle_op,
  rdma_server_handle_request, out_of_memory, needs_memory, finish, counted, is_pending, advance,
  process_head, drain, server_pass, memcpy, find_request,
}
use swap_prefetch.RdmaSim.Requests.Ring.{IsRing, slot-set_same, length-set}
use swap_prefetch.RdmaSim.Requests.Submit.{submit-some, submit-none}

-- a client that is connected to a server with memory, a valid ring, and no request in it
pub record Idle (w : World) : Type 0 where
  pub connected : w.connected ≡ true
  pub backed : w.server.backed ≡ true
  pub going : w.shm.shutdown_requested ≡ false
  pub ring : IsRing w.shm
  pub empty : w.shm.count ≡ 0

-- the range of a request lies in the remote memory
pub record InRemote (addr size : ℕ) (w : World) : Type 0 where
  pub above : w.shm.remote_memory_base ≤ addr
  pub below : addr + size ≤ w.shm.remote_memory_base + remote_memory_size
  pub page : (0 < size) × (size ≤ rdma_page_buffer_size)
  pub fits : w.shm.remote_memory_base + remote_memory_size < word

-- the world after the server answered one request
abbrev pub answered : Request → World → World
answered r w = record w {
  request_id_counter = add64 w.request_id_counter 1;
  shm = record w.shm {
    requests = set (set w.shm.requests w.shm.head (record r { status = pending })) w.shm.head r;
    head = (w.shm.head + 1) % max_rdma_requests;
    tail = (w.shm.head + 1) % max_rdma_requests;
    count = 0;
    shutdown_requested = false;
    total_requests = add64 w.shm.total_requests 1;
    completed_requests = add64 w.shm.completed_requests 1;
  };
}

pub in_range :
    (addr size : ℕ) (w : World)
    → InRemote addr size w
    → out_of_memory w.shm.remote_memory_base addr size ≡ false
unfolding out_of_memory
in_range addr size w h = ground (arith, h.above, h.below, h.page, h.fits)

abbrev pub write_request : ℕ → ℕ → ℕ → World → Request
write_request now addr size w = record (new_request op_write 0 addr size w.request_id_counter now) {
  data_in_shm_buffer = true;
}

abbrev pub write_data : (ℕ → ℕ) → ℕ → World → World
write_data bytes size w = record w {
  shm = record w.shm {
    page_buffer = memcpy w.shm.page_buffer 0 bytes 0 size;
    page_buffer_used = size;
  };
}

pub serve_write :
    (malloc : Bool) (now addr size : ℕ) (bytes : ℕ → ℕ) (w : World)
    → Idle w
    → InRemote addr size w
    → server_pass malloc (rdma_submit_request now op_write 0 addr size (some bytes) w).1
      ≡ record (answered
          (record (write_request now addr size w) { status = completed })
          (write_data bytes size w)) {
            remote_memory =
                memcpy w.remote_memory
                  (addr - w.shm.remote_memory_base)
                  (memcpy w.shm.page_buffer 0 bytes 0 size)
                  0
                  size;
          }
unfolding server_pass drain process_head enqueue payload rdma_server_handle_request needs_memory
    handle_op finish counted is_pending advance new_request
serve_write malloc now addr size bytes w h k =
    let tail_at : w.shm.tail ≡ w.shm.head =
      omega (arith, h.ring.tail_at, h.ring.head_in, h.empty) in
    let offset : sub64 addr w.shm.remote_memory_base ≡ addr - w.shm.remote_memory_base =
      omega (arith, k.above, k.below, k.fits) in
    let full : (size == 0) ≡ false = ==_ne size 0 (omega (arith, k.page)) in
    let first =
      slot-set_same w.shm.requests w.shm.head (write_request now addr size w)
        (omega (arith, h.ring.slots, h.ring.head_in)) in
    rw
      (submit-some now op_write 0 addr size (some bytes) bytes w h.connected
        (omega (arith, h.empty)) (simp full) k.page.1)
      (simp (h.going, h.backed, h.empty, tail_at, first, full, offset, in_range addr size w k) refl)

abbrev pub read_request : ℕ → ℕ → ℕ → ℕ → World → Request
read_request now local addr size w = new_request op_read local addr size w.request_id_counter now

abbrev pub read_data : ℕ → ℕ → World → World
read_data addr size w = record w {
  shm = record w.shm {
    page_buffer = memcpy w.shm.page_buffer 0 w.remote_memory (addr - w.shm.remote_memory_base) size;
  };
}

pub serve_read :
    (malloc : Bool) (now local addr size : ℕ) (w : World)
    → Idle w
    → InRemote addr size w
    → server_pass malloc (rdma_submit_request now op_read local addr size none w).1
      ≡ answered
          (record (read_request now local addr size w) { status = completed })
          (read_data addr size w)
unfolding server_pass drain process_head enqueue payload rdma_server_handle_request needs_memory
    handle_op finish counted is_pending advance new_request
serve_read malloc now local addr size w h k =
    let tail_at : w.shm.tail ≡ w.shm.head =
      omega (arith, h.ring.tail_at, h.ring.head_in, h.empty) in
    let offset : sub64 addr w.shm.remote_memory_base ≡ addr - w.shm.remote_memory_base =
      omega (arith, k.above, k.below, k.fits) in
    let full : (size == 0) ≡ false = ==_ne size 0 (omega (arith, k.page)) in
    let fits : ltb (sub64 rdma_page_buffer_size 0) size ≡ false = ground (arith, k.page) in
    let first =
      slot-set_same w.shm.requests w.shm.head (read_request now local addr size w)
        (omega (arith, h.ring.slots, h.ring.head_in)) in
    rw (submit-none now op_read local addr size none w h.connected (omega (arith, h.empty)) refl) (
      simp (h.going, h.backed, h.empty, tail_at, first, full, fits, offset, in_range addr size w k)
        refl)

pub answered-Idle : (r : Request) (w : World) → Idle w → Idle (answered r w)
answered-Idle r w h = record {
  connected = h.connected;
  backed = h.backed;
  going = refl;
  ring = record {
    slots =
        length-set (set w.shm.requests w.shm.head (record r { status = pending })) w.shm.head r
        ∙ length-set w.shm.requests w.shm.head (record r { status = pending })
        ∙ h.ring.slots;
    head_in = omega arith;
    count_in = omega arith;
    tail_at = omega arith;
  };
  empty = refl;
}

-- no slot has the id
abbrev pub Fresh : ℕ → List Request → Type 0
Fresh id [] = Unit
Fresh id (r ∷ rs) = (r.request_id ≢ id) × Fresh id rs

pub Fresh-set :
    (id : ℕ) (l : List Request) (j : ℕ) (r : Request)
    → Fresh id l
    → r.request_id ≢ id
    → Fresh id (set l j r)
Fresh-set id [] j r f n = tt
Fresh-set id (x ∷ l) zero r f n = (n, f.1)
Fresh-set id (x ∷ l) (suc j) r f n = (f.0, Fresh-set id l j r f.1 n)

pub set-set : (l : List Request) (j : ℕ) (a b : Request) → set (set l j a) j b ≡ set l j b
set-set [] j a b = refl
set-set (x ∷ l) zero a b = refl
set-set (x ∷ l) (suc j) a b = ap (λ m. x ∷ m) (set-set l j a b)

pub find_request-set :
    (id : ℕ) (l : List Request) (j : ℕ) (r : Request)
    → Fresh id l
    → j < length l
    → r.request_id ≡ id
    → is_pending r.status ≡ false
    → find_request id (set l j r) ≡ some r
unfolding find_request
find_request-set id [] j r f h e s = absurd (omega arith)
find_request-set id (x ∷ l) zero r f h e s = simp (e, s, ==_refl id) refl
find_request-set id (x ∷ l) (suc j) r f h e s =
    simp (==_ne x.request_id id f.0) (find_request-set id l j r f.1 (omega arith) e s)
