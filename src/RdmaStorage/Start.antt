-- ===== src/RdmaStorage/Start.antt =====
-- The start and the end of the storage, storage_rdma.c: the search for the server's program, its
-- start, and `rdma_storage_init` and `rdma_storage_shutdown`.
pub mod Established
pub mod FirstPage
use Prim.Native.String.{String}
use swap_prefetch.Common.{
  ℕ, zero, suc, Bool, true, false, not, Option, none, some, List, [], ◌∷◌, if◌then◌else◌,
}
use swap_prefetch.RdmaSim.Requests.{op_init, op_shutdown, World, rdma_submit_request}
use swap_prefetch.RdmaSim.Setup.{replicate, rdma_sim_init_client, rdma_sim_cleanup_client}
use swap_prefetch.RdmaStorage.{Storage, unused, max_remote_regions, wait_request}

abbrev pub rdma_process_paths : List String
rdma_process_paths = "./rdma_process" ∷ "../bin/rdma_process" ∷ "/usr/local/bin/rdma_process" ∷ []

-- the loop over the paths; `executable` is `access(path, X_OK) == 0`
pub first_executable : (executable : String → Bool) → List String → Option String
first_executable executable [] = none
first_executable executable (p ∷ ps) =
    let rest = first_executable executable ps in if executable p then some p else rest

-- `env_path` is the value of `EXTMEM_RDMA_PROCESS_PATH`, if it is set.
pub find_rdma_process : (env_path : Option String) (executable : String → Bool) → Option String
find_rdma_process none executable = first_executable executable rdma_process_paths
find_rdma_process (some p) executable =
    if executable p then some p else first_executable executable rdma_process_paths

-- What the start of the server's process meets: the path that is set, the files that can be run,
-- whether the process is spawned, and in each round what the server does before it, whether the
-- process is gone, and how the client's `rdma_sim_init` fares.
pub record Spawn : Type 0 where
  pub env_path : Option String
  pub executable : String → Bool
  pub spawned : String → Bool
  pub meanwhile : ℕ → World → World
  pub gone : ℕ → Bool
  pub shmget : ℕ → Bool
  pub shmat : ℕ → Bool
  pub seen : ℕ → ℕ → Bool

-- the rounds of `start_rdma_process` from `i` on, `n` at most
pub join_process : (n i : ℕ) → Spawn → World → Bool × World
join_process zero i p w = (false, w)
join_process (suc n) i p w =
    let v : World = p.meanwhile i w in
    let (joined, u) = rdma_sim_init_client (p.shmget i) (p.shmat i) (p.seen i) v in
    let rest = join_process n (suc i) p u in
    if p.gone i then (false, v) else if joined then (true, u) else rest

abbrev pub start_rounds : ℕ
start_rounds = 10

pub spawn_at : Option String → Spawn → World → Bool × World
spawn_at none p w = (false, w)
spawn_at (some path) p w = if p.spawned path then join_process start_rounds 0 p w else (false, w)

pub start_rdma_process : Spawn → World → Bool × World
start_rdma_process p w = spawn_at (find_rdma_process p.env_path p.executable) p w

-- What the start of the storage meets: how the first `rdma_sim_init` fares, the start of the
-- process, `rdma_get_timestamp()`, and the server's step in each wait.
pub record Startup : Type 0 where
  pub shmget : Bool
  pub shmat : Bool
  pub seen : ℕ → Bool
  pub spawn : Spawn
  pub timestamp : ℕ
  pub answer : ℕ → World → World

-- the client joins a server that runs, or else one that it starts
pub connect : Startup → World → Bool × World
connect c w =
    let (joined, v) = rdma_sim_init_client c.shmget c.shmat c.seen w in
    if joined then (true, v) else start_rdma_process c.spawn v

-- the waits for the answer to the first request, `n` at most
pub wait_init : (n i : ℕ) → (ℕ → World → World) → ℕ → World → Bool × World
wait_init zero i answer id w = (false, w)
wait_init (suc n) i answer id w =
    let (done, v) = wait_request (answer i) id w in
    let rest = wait_init n (suc i) answer id v in if done then (true, v) else rest

abbrev pub init_waits : ℕ
init_waits = 5

-- the table after `memset`
pub new_table : Storage → Storage
new_table s = record s {
  remote_regions = replicate max_remote_regions unused;
  num_remote_regions = 0;
}

pub started : Storage → Storage
started s = record s {
  rdma_initialized = true;
  rdma_reads = 0;
  rdma_writes = 0;
  rdma_hits = 0;
  rdma_misses = 0;
  rdma_allocations = 0;
  rdma_frees = 0;
}

-- the part of `rdma_storage_init` from the first request on
pub greet : Startup → Storage → Bool × Storage
greet c s =
    let (id, w) = rdma_submit_request c.timestamp op_init 0 0 0 none s.world in
    let (done, v) = wait_init init_waits 0 c.answer id w in
    if done
    then (true, started (record s { world = v }))
    else (false, record s { world = rdma_sim_cleanup_client v })

-- `true` is the return value 0.
pub rdma_storage_init : Startup → Storage → Bool × Storage
rdma_storage_init c s =
    if s.rdma_initialized
    then (true, s)
    else let (joined, w) = connect c s.world in
      let s1 : Storage = record (new_table s) { world = w } in
      let greeted = greet c s1 in if joined then greeted else (false, s1)

pub rdma_storage_shutdown : (answer : World → World) (timestamp : ℕ) → Storage → Storage
rdma_storage_shutdown answer timestamp s =
    let (id, w) = rdma_submit_request timestamp op_shutdown 0 0 0 none s.world in
    let (_, v) = wait_request answer id w in
    if not s.rdma_initialized
    then s
    else record s { world = rdma_sim_cleanup_client v; rdma_initialized = false }
