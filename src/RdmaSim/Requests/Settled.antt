-- ===== src/RdmaSim/Requests/Settled.antt =====
-- What `rdma_wait_request` gives for a request that the server has answered, rdma_sim.c.
use swap_prefetch.Common.{
  ℕ, ◌+◌, ◌≡◌, ◌≢◌, ◌≤◌, ◌<◌, ◌⊎◌, Bool, true, false, Option, none, some, List, ◌∷◌, ◌++◌, sub64,
}
use swap_prefetch.RdmaSim.Errno.{Errno, emsgsize}
use swap_prefetch.RdmaSim.Requests.{
  op_read, pending, processing, completed, failed, Request, Segment, rdma_page_buffer_size,
  returned, on_status,
}
use swap_prefetch.RdmaSim.Requests.Waiting.{OnlyPending}

-- The search of a poll comes upon `r`: it has the id and is not pending, and each slot before it
-- that has the id is pending.
pub record Found (id : ℕ) (r : Request) (l : List Request) : Type 0 where
  pub before : List Request
  pub after : List Request
  pub split : l ≡ before ++ r ∷ after
  pub skipped : OnlyPending id before
  pub request_id : r.request_id ≡ id
  pub status : r.status ≢ pending

-- Poll `k` sees the request unanswered: the server is at it, or each slot that has its id is
-- pending and half of the polls are not over.
abbrev pub Unanswered : (id k : ℕ) → Segment → Type 0
Unanswered id k s =
    ((r : Request) × Found id r s.requests × (r.status ≡ processing))
    ⊎ ((k ≤ 5000) × OnlyPending id s.requests)

-- an answer that brings bytes into the client's memory
abbrev pub Brings : Request → Type 0
Brings r = (r.op_type ≡ op_read) × (r.local_addr ≢ 0) × (r.size ≢ 0)

-- the value, the error code and the memory that an answered request is to give
abbrev pub Outcome : Request → Segment → (memory : ℕ → ℕ) → Bool → Option Errno → (ℕ → ℕ) → Type 0
Outcome r s memory success error_code result =
    ((r.status ≡ failed) × (success ≡ false) × (error_code ≡ r.error_code) × (result ≡ memory))
    ⊎ ((r.status ≡ completed)
        × (¬ Brings r)
        × (success ≡ true)
        × (error_code ≡ r.error_code)
        × (result ≡ memory))
    ⊎ ((r.status ≡ completed)
        × Brings r
        × (r.size ≤ sub64 rdma_page_buffer_size r.buffer_offset)
        × (success ≡ true)
        × (error_code ≡ r.error_code)
        × ((k : ℕ) → k < r.size → result (r.local_addr + k) ≡ s.page_buffer (r.buffer_offset + k))
        × ((a : ℕ) → (a < r.local_addr) ⊎ (r.local_addr + r.size ≤ a) → result a ≡ memory a))
    ⊎ ((r.status ≡ completed)
        × Brings r
        × (sub64 rdma_page_buffer_size r.buffer_offset < r.size)
        × (success ≡ false)
        × (error_code ≡ elim r.error_code [ none ↦ some emsgsize | some e ↦ some e ])
        × (result ≡ memory))

-- the poll that sees the answer
abbrev Decides : Request → Segment → (ℕ → ℕ) → Type 0
Decides r s memory =
    (b : Bool) × (e : Option Errno) × (result : ℕ → ℕ) × (on_status r.status r s memory
      ≡ returned b e result)
    × Outcome r s memory b e result
