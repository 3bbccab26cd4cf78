-- ===== src/RdmaSim/Setup.antt =====
-- The set-up of the shared segment by the server and the client, and its clean-up, rdma_sim.c.
--
-- One segment has the key. `connected` of a process is that it is attached and that the segment is
-- initialised; the arguments say which calls of the system succeed.
pub mod Established
mod Tests
use swap_prefetch.Common.{
  ℕ, zero, suc, Bool, true, false, not, ◌&&◌, ◌||◌, List, [], ◌∷◌, if◌then◌else◌,
}
use swap_prefetch.RdmaSim.Allocator.{Block, Allocator, remote_base, init_allocator}
use swap_prefetch.RdmaSim.Requests.{Request, blank, Segment, World, max_rdma_requests}

abbrev pub replicate {ℓ} : {A : Type ℓ} → ℕ → A → List A
replicate zero x = []
replicate (suc n) x = x ∷ replicate n x

-- the segment after `memset` and the initialisation of its fields
pub new_segment : (base : ℕ) → Segment
new_segment base = record {
  requests = replicate max_rdma_requests blank;
  head = 0;
  tail = 0;
  count = 0;
  shutdown_requested = false;
  page_buffer = λ _. 0;
  remote_memory_base = base;
  total_requests = 0;
  completed_requests = 0;
  failed_requests = 0;
  page_buffer_used = 0;
}

-- Whether the allocator was not initialised before. Only then does it set the base in the segment.
pub is_new : List Block → Bool
is_new [] = true
is_new (b ∷ bs) = false

-- `rdma_sim_init (true)`; `memory` and `block` say whether each `malloc` succeeds.
pub rdma_sim_init_server : (shmget shmat memory block : Bool) → World → Bool × World
rdma_sim_init_server shmget shmat memory block w =
    let (done, a) = init_allocator memory block true (record w.server { used = 0 }) in
    let base : ℕ = if is_new w.server.blocks && done then remote_base else 0 in
    if w.server.connected
    then (true, w)
    else if not shmget || not shmat
    then (false, w)
    else if done
    then (
      true,
      record w {
        shm = new_segment base;
        server = record a { connected = true };
        remote_memory = if is_new w.server.blocks then (λ _. 0) else w.remote_memory;
      },
    )
    else (false, record w { shm = new_segment base; server = a; connected = false })

-- the polls of a client, `n` at most: `seen k` is `initialized` of the segment at poll `k`
pub wait_initialized : (n k : ℕ) → (ℕ → Bool) → Bool
wait_initialized zero k seen = false
wait_initialized (suc n) k seen = if seen k then true else wait_initialized n (suc k) seen

abbrev pub init_timeout : ℕ
init_timeout = 200

-- `rdma_sim_init (false)`
pub rdma_sim_init_client : (shmget shmat : Bool) (seen : ℕ → Bool) → World → Bool × World
rdma_sim_init_client shmget shmat seen w =
    let ready : Bool = wait_initialized init_timeout 0 seen in
    if w.connected
    then (true, w)
    else if not shmget || not shmat
    then (false, w)
    else (ready, record w { connected = ready })

-- `rdma_sim_cleanup (false)`
pub rdma_sim_cleanup_client : World → World
rdma_sim_cleanup_client w = record w { connected = false }

-- `rdma_sim_cleanup (true)`. The memory is freed, the list of its blocks is not.
pub rdma_sim_cleanup_server : World → World
rdma_sim_cleanup_server w = record w {
  shm = record w.shm { shutdown_requested = w.server.connected || w.shm.shutdown_requested };
  server = record w.server { connected = false; backed = false };
}
