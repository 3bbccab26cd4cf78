-- ===== src/RdmaSim/Requests/Server.antt =====
-- The server's loop takes from the front of the queue until it is empty.
use swap_prefetch.Common.{
  ℕ, zero, suc, ◌+◌, ◌-◌, ◌%◌, ◌≡◌, refl, subst, sym, ap, ap₂, ◌∙◌, Bool, true, false, Option, none,
  some, List, [], ◌∷◌, ◌==◌, ◌&&◌, ◌||◌, not, ltb, sub64, word, set, arith, inl, inr, Bool-cases,
  ==_ne,
}
use swap_prefetch.RdmaSim.Errno.{Errno, Result, ok, err}
use swap_prefetch.RdmaSim.Allocator.{rdma_sim_allocate}
use swap_prefetch.RdmaSim.Requests.{
  OpType, op_read, op_write, op_init, op_shutdown, op_allocate, op_free, pending, Request, Segment,
  World, slot, max_rdma_requests, rdma_page_buffer_size, handle_op, on_allocated,
  rdma_server_handle_request, out_of_memory, finish, counted, is_pending, needs_memory, processing,
  advance, process_head, drain, server_pass, memcpy,
}
use swap_prefetch.RdmaSim.Requests.Ring.{queued, queue, IsRing, length-set, queued-set}

-- what the handler leaves as it is
pub record Frame (s s' : Segment) : Type 0 where
  pub requests : s'.requests ≡ s.requests
  pub head : s'.head ≡ s.head
  pub tail : s'.tail ≡ s.tail
  pub count : s'.count ≡ s.count
  pub total : s'.total_requests ≡ s.total_requests
  pub completed : s'.completed_requests ≡ s.completed_requests
  pub failed : s'.failed_requests ≡ s.failed_requests

abbrev same : (s : Segment) → Frame s s
same s = record {
  requests = refl;
  head = refl;
  tail = refl;
  count = refl;
  total = refl;
  completed = refl;
  failed = refl;
}

other_fields :
    (s : Segment) (b : ℕ → ℕ) (stop : Bool)
    → Frame s (record s { page_buffer = b; shutdown_requested = stop })
other_fields s b stop = record {
  requests = refl;
  head = refl;
  tail = refl;
  count = refl;
  total = refl;
  completed = refl;
  failed = refl;
}

on_allocated-Frame :
    (r : Result ℕ) (req : Request) (w : World) → Frame w.shm (on_allocated r req w).2.shm
unfolding on_allocated
on_allocated-Frame (ok a) req w = same w.shm
on_allocated-Frame (err e) req w = same w.shm

handle_op-Frame :
    (malloc : Bool) (op : OpType) (req : Request) (w : World)
    → Frame w.shm (handle_op malloc op req w).2.shm
unfolding handle_op
handle_op-Frame malloc op_init req w = same w.shm
handle_op-Frame malloc op_read req w =
    elim (Bool-cases
      (req.size == 0 || ltb (sub64 rdma_page_buffer_size req.buffer_offset) req.size)) [
        | inl y ↦ simp y (same w.shm)
        | inr n ↦
            elim (Bool-cases (out_of_memory w.shm.remote_memory_base req.remote_addr req.size)) [
              | inl y ↦ simp (n, y) (same w.shm)
              | inr m ↦
                  simp (n, m)
                    (other_fields w.shm
                      (memcpy w.shm.page_buffer req.buffer_offset w.remote_memory
                        (sub64 req.remote_addr w.shm.remote_memory_base) req.size)
                      w.shm.shutdown_requested)
            ]
      ]
handle_op-Frame malloc op_write req w =
    elim (Bool-cases (not req.data_in_shm_buffer || req.size == 0)) [
      | inl y ↦ simp y (same w.shm)
      | inr n ↦
          elim (Bool-cases (out_of_memory w.shm.remote_memory_base req.remote_addr req.size)) [
            | inl y ↦ simp (n, y) (same w.shm)
            | inr m ↦ simp (n, m) (same w.shm)
          ]
    ]
handle_op-Frame malloc op_allocate req w =
    let (r, a) = rdma_sim_allocate true malloc req.size w.server in
    on_allocated-Frame r req (record w { server = a })
handle_op-Frame malloc op_free req w = same w.shm
handle_op-Frame malloc op_shutdown req w = other_fields w.shm w.shm.page_buffer true

handle-Frame :
    (malloc : Bool) (req : Request) (w : World)
    → Frame w.shm (rdma_server_handle_request malloc req w).2.shm
unfolding rdma_server_handle_request
handle-Frame malloc req w = elim (Bool-cases (not w.server.backed && needs_memory req.op_type)) [
  | inl y ↦ simp y (same w.shm)
  | inr n ↦ simp n (handle_op-Frame malloc req.op_type req w)
]

abbrev pub AllPending : List Request → Type 0
AllPending [] = Unit
AllPending (r ∷ rs) = (r.status ≡ pending) × AllPending rs

-- The invariant of the segment: a valid ring, whose queued requests all await the server, and
-- statistics that add up, modulo the width of the counters.
pub record IsQueue (s : Segment) : Type 0 where
  pub ring : IsRing s
  pub all_pending : AllPending (queue s)
  pub balance :
      s.total_requests % word ≡ (s.completed_requests + s.failed_requests + s.count) % word

counted-sum :
    (e : Option Errno) (s : Segment)
    → ((counted e s).completed_requests + (counted e s).failed_requests) % word
      ≡ (s.completed_requests + s.failed_requests + 1) % word
unfolding counted
counted-sum none s = omega arith
counted-sum (some e) s = omega arith

counted-Ring :
    (e : Option Errno) (s : Segment)
    → ((counted e s).requests ≡ s.requests)
      × ((counted e s).head ≡ s.head)
      × ((counted e s).tail ≡ s.tail)
      × ((counted e s).count ≡ s.count)
      × ((counted e s).total_requests ≡ s.total_requests)
unfolding counted
counted-Ring none s = (refl, refl, refl, refl, refl)
counted-Ring (some e) s = (refl, refl, refl, refl, refl)

abbrev pub at_head : World → Request
at_head w = record (slot w.shm.requests w.shm.head) { status = processing; error_code = none }

pub process_head-run :
    (malloc : Bool) (w : World)
    → (slot w.shm.requests w.shm.head).status ≡ pending
    → let (e, r, v) = rdma_server_handle_request malloc (at_head w) w in
      process_head malloc w ≡ record v {
        shm =
            advance
              (counted e (record v.shm { requests = set v.shm.requests w.shm.head (finish e r) }));
      }
unfolding process_head is_pending
process_head-run malloc w h = simp h

-- a segment in which the request at the front was handled, before `head` and `count` move
pub record Handled (s s' : Segment) (q : Request) : Type 0 where
  pub requests : s'.requests ≡ set s.requests s.head q
  pub head : s'.head ≡ s.head
  pub tail : s'.tail ≡ s.tail
  pub count : s'.count ≡ s.count
  pub total : s'.total_requests ≡ s.total_requests
  pub sum :
      (s'.completed_requests + s'.failed_requests) % word
      ≡ (s.completed_requests + s.failed_requests + 1) % word

-- What the end of a pass makes of the queue: the front leaves it, the others stay in their order.
pub record Passed (s s' : Segment) : Type 0 where
  pub valid : IsQueue s'
  pub front : queue s ≡ slot s.requests s.head ∷ queue s'
  pub count : s.count ≡ suc s'.count

advance-Passed :
    (s s' : Segment) (q : Request) (n : ℕ)
    → IsQueue s
    → Handled s s' q
    → s.count ≡ suc n
    → Passed s (advance s')
unfolding advance
advance-Passed s s' q n h d more =
    let next : ℕ = (s.head + 1) % max_rdma_requests in
    let split : queue s ≡ slot s.requests s.head ∷ queued s.requests next n = rw more refl in
    let waiting = subst AllPending split h.all_pending in
    let left : s'.count - 1 ≡ n = omega (arith, d.count) in
    let at : (s'.head + 1) % max_rdma_requests ≡ next = rw d.head refl in
    let rest : queue (advance s') ≡ queued s.requests next n =
      rw (d.requests, left, at)
        (queued-set s.requests next n s.head q (omega arith) h.ring.head_in
          (omega (arith, h.ring.count_in, h.ring.head_in))
          (omega (arith, h.ring.count_in, h.ring.head_in))) in
    record {
      valid = record {
        ring = record {
          slots = rw d.requests (length-set s.requests s.head q ∙ h.ring.slots);
          head_in = omega arith;
          count_in = omega (arith, h.ring.count_in, d.count);
          tail_at = omega (arith, h.ring.tail_at, d.tail, d.head, d.count);
        };
        all_pending = rw rest waiting.1;
        balance = omega (arith, d.total, d.count, d.sum, h.balance);
      };
      front = split ∙ ap (λ l. slot s.requests s.head ∷ l) (sym rest);
      count = omega (arith, left);
    }

pub process_head-Handled :
    (malloc : Bool) (w : World)
    → let (e, r, v) = rdma_server_handle_request malloc (at_head w) w in
      Handled w.shm
        (counted e (record v.shm { requests = set v.shm.requests w.shm.head (finish e r) }))
        (finish e r)
process_head-Handled malloc w =
    let (e, r, v) = rdma_server_handle_request malloc (at_head w) w in
    let frame = handle-Frame malloc (at_head w) w in
    let written : Segment = record v.shm {
      requests = set v.shm.requests w.shm.head (finish e r);
    } in
    let (requests, head, tail, count, total) = counted-Ring e written in
    record {
      requests = requests ∙ ap (λ l. set l w.shm.head (finish e r)) frame.requests;
      head = head ∙ frame.head;
      tail = tail ∙ frame.tail;
      count = count ∙ frame.count;
      total = total ∙ frame.total;
      sum = counted-sum e written ∙ ap₂ (λ a b. (a + b + 1) % word) frame.completed frame.failed;
    }

pub process_head-Passed :
    (malloc : Bool) (w : World) (n : ℕ)
    → w.shm.count ≡ suc n
    → IsQueue w.shm
    → Passed w.shm (process_head malloc w).shm
process_head-Passed malloc w n more h =
    let split : queue w.shm
        ≡ slot w.shm.requests w.shm.head
          ∷ queued w.shm.requests ((w.shm.head + 1) % max_rdma_requests) n =
      rw more refl in
    let waiting = subst AllPending split h.all_pending in
    let (e, r, v) = rdma_server_handle_request malloc (at_head w) w in
    rw (process_head-run malloc w waiting.0) (
      advance-Passed w.shm
        (counted e (record v.shm { requests = set v.shm.requests w.shm.head (finish e r) }))
        (finish e r) n h (process_head-Handled malloc w) more)

drain-IsQueue :
    (malloc : Bool) (n : ℕ) (w : World)
    → w.shm.count ≡ n
    → IsQueue w.shm
    → IsQueue (drain malloc n w).shm × ((drain malloc n w).shm.count ≡ 0)
unfolding drain
drain-IsQueue malloc zero w e h = (h, e)
drain-IsQueue malloc (suc n) w e h =
    let p = process_head-Passed malloc w n e h in
    simp (==_ne w.shm.count 0 (omega arith))
      (drain-IsQueue malloc n (process_head malloc w) (omega (arith, p.count)) p.valid)

-- A pass of the server that has not been told to shut down keeps the segment valid and empties the
-- queue, and the counters of completed and failed requests make up for those that were in it.
pub server_pass-IsQueue :
    (malloc : Bool) (w : World)
    → w.shm.shutdown_requested ≡ false
    → IsQueue w.shm
    → let s = (server_pass malloc w).shm in
      IsQueue s
      × (s.count ≡ 0)
      × (s.total_requests % word ≡ (s.completed_requests + s.failed_requests) % word)
unfolding server_pass
server_pass-IsQueue malloc w going h =
    let (valid, empty) = drain-IsQueue malloc w.shm.count w refl h in
    simp going (valid, empty, omega (arith, valid.balance, empty))
