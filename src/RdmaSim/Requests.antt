-- ===== src/RdmaSim/Requests.antt =====
-- The queue of requests in the shared segment: the client's `rdma_submit_request` and
-- `rdma_wait_request`, the server's loop and `rdma_server_handle_request`, rdma_sim.c.
--
-- Byte buffers are functions from offsets to bytes. An access to `requests` outside the array is
-- undefined in C and yields the blank request here; `Requests.Ring` shows that there is none.
pub mod Ring
pub mod Submit
pub mod Answered
pub mod Server
pub mod Exchange
pub mod Waiting
pub mod Settled
pub mod RoundTrip
pub mod Ask
pub mod Invariant
mod Tests
use swap_prefetch.Common.{
  ℕ, zero, suc, ◌+◌, ◌-◌, ◌%◌, ◌≡◌, Bool, true, false, not, ◌&&◌, ◌||◌, Option, none, some, List,
  [], ◌∷◌, ◌==◌, ltb, leb, if◌then◌else◌, add64, sub64, word, get_elem?, set,
}
use swap_prefetch.RdmaSim.Errno.{
  Errno, einval, enotconn, enomem, efault, enosys, enoent, etimedout, emsgsize, Result, ok, err,
}
use swap_prefetch.RdmaSim.Allocator.{Allocator, rdma_sim_allocate, remote_memory_size}

abbrev pub max_rdma_requests : ℕ
max_rdma_requests = 128

abbrev pub rdma_page_buffer_size : ℕ
rdma_page_buffer_size = 4096

-- `rdma_op_type_e`
pub data OpType : Type 0 where
  op_read op_write op_init op_shutdown op_allocate op_free : OpType

-- `rdma_req_status_e`
pub data Status : Type 0 where
  pending processing completed failed : Status

-- `rdma_request_t`; `error_code` is none for 0
pub record Request : Type 0 where
  pub request_id : ℕ
  pub op_type : OpType
  pub local_addr : ℕ
  pub remote_addr : ℕ
  pub size : ℕ
  pub status : Status
  pub error_code : Option Errno
  pub data_in_shm_buffer : Bool
  pub buffer_offset : ℕ
  pub timestamp : ℕ

-- a slot of the segment after `memset` to 0
abbrev pub blank : Request
blank = record {
  request_id = 0;
  op_type = op_read;
  local_addr = 0;
  remote_addr = 0;
  size = 0;
  status = pending;
  error_code = none;
  data_in_shm_buffer = false;
  buffer_offset = 0;
  timestamp = 0;
}

-- `rdma_shm_t` without its mutex, and without `initialized`, which is a flag of each process below
pub record Segment : Type 0 where
  pub requests : List Request
  pub head : ℕ
  pub tail : ℕ
  pub count : ℕ
  pub shutdown_requested : Bool
  pub page_buffer : ℕ → ℕ
  pub remote_memory_base : ℕ
  pub total_requests : ℕ
  pub completed_requests : ℕ
  pub failed_requests : ℕ
  pub page_buffer_used : ℕ

-- The segment with the state of the processes: of the client whether it is connected, its
-- `request_id_counter` and its memory; of the server its allocator and the bytes at
-- `sim_remote_memory_ptr`.
pub record World : Type 0 where
  pub shm : Segment
  pub connected : Bool
  pub request_id_counter : ℕ
  pub memory : ℕ → ℕ
  pub server : Allocator
  pub remote_memory : ℕ → ℕ

-- `memcpy (dst + d, src + s, n)`
pub memcpy : (dst : ℕ → ℕ) (d : ℕ) (src : ℕ → ℕ) (s n : ℕ) → ℕ → ℕ
memcpy dst d src s n i = if leb d i && ltb i (d + n) then src (s + (i - d)) else dst i

pub slot : List Request → ℕ → Request
slot l i = elim (get_elem? l i) [ none ↦ blank | some r ↦ r ]

-- the request that `rdma_submit_request` writes
pub new_request : OpType → ℕ → ℕ → ℕ → ℕ → ℕ → Request
new_request op local_addr remote_addr size id now = record {
  request_id = id;
  op_type = op;
  local_addr = local_addr;
  remote_addr = remote_addr;
  size = size;
  status = pending;
  error_code = none;
  data_in_shm_buffer = false;
  buffer_offset = 0;
  timestamp = now;
}

-- the bytes that `op_write` puts into the page buffer: none when `data` is NULL or `size` is 0
pub payload : OpType → ℕ → Option (ℕ → ℕ) → Option (ℕ → ℕ)
payload op_write size (some bytes) = if size == 0 then none else some bytes
payload op_write size none = none
payload op_read size d = none
payload op_init size d = none
payload op_shutdown size d = none
payload op_allocate size d = none
payload op_free size d = none

-- the last part of `rdma_submit_request`: the new request is in the ring
pub enqueue : Segment → Segment
enqueue s = record s {
  tail = (s.tail + 1) % max_rdma_requests;
  count = s.count + 1;
  total_requests = add64 s.total_requests 1;
}

-- `now` is `rdma_get_timestamp()`. The result is the id of the request, or 0.
pub rdma_submit_request : (now : ℕ) → OpType → ℕ → ℕ → ℕ → Option (ℕ → ℕ) → World → ℕ × World
rdma_submit_request now op local_addr remote_addr size bytes w =
    if not w.connected
    then (0, w)
    else if leb max_rdma_requests w.shm.count
    then (0, w)
    else let id : ℕ = w.request_id_counter in
      let req : Request = new_request op local_addr remote_addr size id now in
      let counted : World = record w { request_id_counter = add64 id 1 } in
      elim (payload op size bytes) [
        | none ↦ (
          id,
          record counted {
            shm = enqueue (record w.shm { requests = set w.shm.requests w.shm.tail req });
          },
        )
        | some b ↦
            if leb size rdma_page_buffer_size
            then (
              id,
              record counted {
                shm = enqueue (record w.shm {
                  requests =
                      set w.shm.requests w.shm.tail (record req { data_in_shm_buffer = true });
                  page_buffer = memcpy w.shm.page_buffer 0 b 0 size;
                  page_buffer_used = size;
                });
              },
            )
            else (
              0,
              record counted {
                shm = record w.shm { requests = set w.shm.requests w.shm.tail req };
              },
            )
      ]

-- the test of `op_read` and `op_write` on the range of remote addresses
pub out_of_memory : (base addr size : ℕ) → Bool
out_of_memory base addr size =
    ltb addr base || ltb remote_memory_size (add64 (sub64 addr base) size)

-- the result of an allocation, with the request that asked for it
pub on_allocated : Result ℕ → Request → World → Option Errno × Request × World
on_allocated (ok addr) req w = (none, record req { remote_addr = addr }, w)
on_allocated (err e) req w = (some e, req, w)

-- What `rdma_server_handle_request` makes of a request: the value it returns, the request, as
-- `op_allocate` writes an address into it, and the world. `malloc` is what the allocator's gives.
pub handle_op : (malloc : Bool) → OpType → Request → World → Option Errno × Request × World
handle_op malloc op_init req w = (none, req, w)
handle_op malloc op_read req w =
    if req.size == 0 || ltb (sub64 rdma_page_buffer_size req.buffer_offset) req.size
    then (some einval, req, w)
    else if out_of_memory w.shm.remote_memory_base req.remote_addr req.size
    then (some efault, req, w)
    else (
      none,
      req,
      record w {
        shm = record w.shm {
          page_buffer =
              memcpy w.shm.page_buffer req.buffer_offset w.remote_memory
                (sub64 req.remote_addr w.shm.remote_memory_base) req.size;
        };
      },
    )
handle_op malloc op_write req w =
    if not req.data_in_shm_buffer || req.size == 0
    then (some einval, req, w)
    else if out_of_memory w.shm.remote_memory_base req.remote_addr req.size
    then (some efault, req, w)
    else (
      none,
      req,
      record w {
        remote_memory =
            memcpy w.remote_memory (sub64 req.remote_addr w.shm.remote_memory_base)
              w.shm.page_buffer req.buffer_offset req.size;
      },
    )
handle_op malloc op_allocate req w =
    let (r, a) = rdma_sim_allocate true malloc req.size w.server in
    on_allocated r req (record w { server = a })
handle_op malloc op_free req w = (some enosys, req, w)
handle_op malloc op_shutdown req w =
    (none, req, record w { shm = record w.shm { shutdown_requested = true } })

-- the operations that need the remote memory
pub needs_memory : OpType → Bool
needs_memory op_init = false
needs_memory op_shutdown = false
needs_memory op_read = true
needs_memory op_write = true
needs_memory op_allocate = true
needs_memory op_free = true

pub rdma_server_handle_request : (malloc : Bool) → Request → World → Option Errno × Request × World
rdma_server_handle_request malloc req w =
    if not w.server.backed && needs_memory req.op_type
    then (some efault, req, w)
    else handle_op malloc req.op_type req w

-- the status, the error code and the statistics after a request was handled
pub finish : Option Errno → Request → Request
finish none req = record req { status = completed }
finish (some e) req = record req { status = failed; error_code = some e }

pub counted : Option Errno → Segment → Segment
counted none s = record s { completed_requests = add64 s.completed_requests 1 }
counted (some e) s = record s { failed_requests = add64 s.failed_requests 1 }

-- the exchange of `pending` for `processing`: does it succeed
pub is_pending : Status → Bool
is_pending pending = true
is_pending processing = false
is_pending completed = false
is_pending failed = false

pub advance : Segment → Segment
advance s = record s { head = (s.head + 1) % max_rdma_requests; count = s.count - 1 }

-- one pass of the server's inner loop, which the loop makes only if `count` is not 0
pub process_head : (malloc : Bool) → World → World
process_head malloc w =
    let index : ℕ = w.shm.head in
    let req : Request = slot w.shm.requests index in
    let (e, r, v) =
      rdma_server_handle_request malloc (record req { status = processing; error_code = none }) w in
    if is_pending req.status
    then record v {
      shm = advance (counted e (record v.shm { requests = set v.shm.requests index (finish e r) }));
    }
    else record w { shm = advance w.shm }

-- The inner loop. It takes one request in each pass, so `count` passes are enough.
pub drain : (malloc : Bool) → ℕ → World → World
drain malloc zero w = w
drain malloc (suc n) w =
    let rest = drain malloc n (process_head malloc w) in if w.shm.count == 0 then w else rest

-- one pass of the outer loop of `rdma_server_process_requests`, when it holds the mutex and has
-- not been told to shut down
pub server_pass : (malloc : Bool) → World → World
server_pass malloc w = if w.shm.shutdown_requested then w else drain malloc w.shm.count w

-- the search of `rdma_wait_request`
pub find_request : ℕ → List Request → Option Request
find_request id [] = none
find_request id (r ∷ rs) =
    let rest = find_request id rs in
    if (r.request_id == id) && not (is_pending r.status) then some r else rest

-- What a poll of `rdma_wait_request` finds: the return value 0 or -1, `*error_code`, and the
-- client's memory; or that it polls again.
pub data Poll : Type 0 where
  returned : (success : Bool) → Option Errno → (ℕ → ℕ) → Poll
  again : Poll

pub on_status : Status → Request → Segment → (ℕ → ℕ) → Poll
on_status completed r s memory =
    if is_read r.op_type && (not (r.local_addr == 0)) && not (r.size == 0)
    then if leb r.size (sub64 rdma_page_buffer_size r.buffer_offset)
      then returned true r.error_code
          (memcpy memory r.local_addr s.page_buffer r.buffer_offset r.size)
      else returned false (elim r.error_code [ none ↦ some emsgsize | some e ↦ some e ]) memory
    else returned true r.error_code memory
  where
    is_read : OpType → Bool
    is_read op_read = true
    is_read op_write = false
    is_read op_init = false
    is_read op_shutdown = false
    is_read op_allocate = false
    is_read op_free = false
on_status failed r s memory = returned false r.error_code memory
on_status pending r s memory = again
on_status processing r s memory = again

abbrev pub attempts : ℕ
attempts = 10000

pub on_found : Option Request → ℕ → Segment → (ℕ → ℕ) → Poll
on_found none k s memory = if ltb 5000 k then returned false (some enoent) memory else again
on_found (some r) k s memory = on_status r.status r s memory

pub poll : (id k : ℕ) → Segment → (ℕ → ℕ) → Poll
poll id k s memory = on_found (find_request id s.requests) k s memory

-- the end of a poll: return, or go on with the rest
pub on_poll : Poll → Bool × Option Errno × (ℕ → ℕ) → Bool × Option Errno × (ℕ → ℕ)
on_poll (returned b e m) rest = (b, e, m)
on_poll again rest = rest

-- The polls from `k` on, `n` at most. `seen k` is the segment as poll `k` finds it, since the
-- server goes on in the meantime.
pub poll_from : (id n k : ℕ) → (ℕ → Segment) → (ℕ → ℕ) → Bool × Option Errno × (ℕ → ℕ)
poll_from id zero k seen memory = (false, some etimedout, memory)
poll_from id (suc n) k seen memory =
    let rest = poll_from id n (suc k) seen memory in on_poll (poll id k (seen k) memory) rest

pub rdma_wait_request : ℕ → (ℕ → Segment) → World → Bool × Option Errno × (ℕ → ℕ)
rdma_wait_request id seen w =
    if not w.connected
    then (false, some enotconn, w.memory)
    else if id == 0
    then (false, some einval, w.memory)
    else poll_from id attempts 0 seen w.memory
