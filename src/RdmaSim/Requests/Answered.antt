-- ===== src/RdmaSim/Requests/Answered.antt =====
-- What a pass of the server makes of each request in the queue, rdma_sim.c.
use swap_prefetch.Common.{ℕ, ◌+◌, ◌%◌, ◌≡◌, ◌≢◌, ◌<◌, ◌⊎◌, refl, none, some, set}
use swap_prefetch.RdmaSim.Errno.{Errno}
use swap_prefetch.RdmaSim.Requests.{completed, failed, Request, World, slot, max_rdma_requests}

-- what the handler keeps of a request
record Kept (q r : Request) : Type 0 where
  request_id : r.request_id ≡ q.request_id
  op_type : r.op_type ≡ q.op_type
  error_code : r.error_code ≡ q.error_code

abbrev same : (q : Request) → Kept q q
same q = record { request_id = refl; op_type = refl; error_code = refl }

-- The slot of a request holds the answer to it: the same request, completed without an error code,
-- or failed with one.
pub record Answer (q r : Request) : Type 0 where
  pub request_id : r.request_id ≡ q.request_id
  pub op_type : r.op_type ≡ q.op_type
  pub done :
      ((r.status ≡ completed) × (r.error_code ≡ none))
      ⊎ ((r.status ≡ failed) × (e : Errno) × (r.error_code ≡ some e))

-- what a pass of the loop does to the slots
record Stepped (w v : World) : Type 0 where
  answer : Request
  requests : v.shm.requests ≡ set w.shm.requests w.shm.head answer
  head : v.shm.head ≡ (w.shm.head + 1) % max_rdma_requests
  answers : Answer (slot w.shm.requests w.shm.head) answer

-- What the loop makes of the queue of `n` requests from slot `i` on: each is answered, and no other
-- slot changes.
record Drained (n : ℕ) (w v : World) : Type 0 where
  all :
      (k : ℕ)
      → k < n
      → let i = (w.shm.head + k) % max_rdma_requests in
        Answer (slot w.shm.requests i) (slot v.shm.requests i)
  rest :
      (i : ℕ)
      → ((k : ℕ) → k < n → (w.shm.head + k) % max_rdma_requests ≢ i)
      → slot v.shm.requests i ≡ slot w.shm.requests i
