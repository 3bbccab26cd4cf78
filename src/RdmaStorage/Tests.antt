-- ===== src/RdmaStorage/Tests.antt =====
-- A storage on a server that was just set up, and a page of 4096 bytes without a pointer.
use swap_prefetch.Common.{
  ℕ, ◌+◌, ◌%◌, ◌≡◌, refl, Bool, true, false, none, some, List, [], ◌∷◌, ltb, if◌then◌else◌, arith,
  ◌⊎◌, add64,
}
use swap_prefetch.RdmaSim.Errno.{efault, enomem}
use swap_prefetch.RdmaSim.Allocator.{Allocator, remote_base, round_up}
use swap_prefetch.RdmaSim.Allocator.Correct.{NoRoom, Allocated}
use swap_prefetch.RdmaSim.Requests.{World, Segment}
use swap_prefetch.RdmaSim.Setup.{rdma_sim_init_server}
use swap_prefetch.RdmaSim.Setup.Established.{Established, set_up, set_up-Established}
use swap_prefetch.AddressTranslation.{Translator}
use swap_prefetch.PointerPrefetch.{page_size}
use swap_prefetch.PointerPrefetch.Conversion.{for_remote-zero, from_remote-zero}
use swap_prefetch.RdmaStorage.{
  RemoteRegion, unused, Storage, Outside, success, failure, minus, region_at, find_remote_region,
  first_unused, uint64_max, load_word, last_word, allocate_remote_region, rdma_allocate_page_offset,
  rdma_read_page, rdma_write_page,
}
use swap_prefetch.RdmaStorage.Word.{IsBytes}
use swap_prefetch.RdmaStorage.Table.{Holds}
use swap_prefetch.RdmaStorage.Allocate.{Allocation, allocate_remote_region_lem}
use swap_prefetch.RdmaStorage.Given.{served}
use swap_prefetch.RdmaStorage.Stored.{Home}
use swap_prefetch.RdmaStorage.Written.{Wrote, page_at, registered}
use swap_prefetch.RdmaStorage.Fresh.{Roomy, Untouched, registered_at, rdma_write_page-new}
use swap_prefetch.RdmaStorage.RoundTrip.{Converts, Returned, read-write_known}
use swap_prefetch.RdmaStorage.Invariant.{
  Valid, unread, rdma_write_page-Valid, rdma_read_page_lem, rdma_allocate_page_offset_lem,
}
use swap_prefetch.RdmaStorage.Start.{Spawn, Startup, rdma_storage_init}
use swap_prefetch.RdmaStorage.Start.Established.{
  served_by, replicate-IsTable, rdma_storage_init-Roomy,
}
use swap_prefetch.RdmaStorage.Start.FirstPage.{first_page}
use swap_prefetch.RdmaSim.Setup.{replicate}

-- the client's memory: the page at 0x10000 has bytes in its first half
abbrev bytes : ℕ → ℕ
bytes i = if ltb i 0x10800 then i % 256 else 0

bytes-IsBytes : IsBytes bytes
bytes-IsBytes i = ground arith

abbrev no_segment : Segment
no_segment = record {
  requests = [];
  head = 0;
  tail = 0;
  count = 0;
  shutdown_requested = false;
  page_buffer = λ _. 0;
  remote_memory_base = 0;
  total_requests = 0;
  completed_requests = 0;
  failed_requests = 0;
  page_buffer_used = 0;
}

-- no process has run
abbrev before : World
before = record {
  shm = no_segment;
  connected = false;
  request_id_counter = 1;
  memory = bytes;
  server = record { blocks = []; backed = false; connected = false; used = 0 };
  remote_memory = λ _. 0;
}

-- the server was set up and the client has joined it
abbrev joined : World
joined = record (set_up before) { connected = true }

joined-Established : Established joined
joined-Established = set_up-Established before (omega arith)

abbrev no_translator : Translator
no_translator = record {
  regions = [];
  local_heap_base = 0;
  local_heap_end = 0;
  remote_heap_base = 0;
  remote_heap_end = 0;
  initialized = false;
}

abbrev with_table : World → List RemoteRegion → ℕ → Bool → Storage
with_table w l n running = record {
  world = w;
  client_blocks = [];
  translator = no_translator;
  remote_regions = l;
  num_remote_regions = n;
  rdma_reads = 0;
  rdma_writes = 0;
  rdma_hits = 0;
  rdma_misses = 0;
  rdma_allocations = 0;
  rdma_frees = 0;
  rdma_initialized = running;
}

-- two slots, none in use
abbrev empty : Storage
empty = with_table joined (replicate 2 unused) 0 true

abbrev outside : ℕ → Outside
outside k = record {
  answer = λ w. w;
  timestamp = k;
  time = 7 + k;
  buffer = some 0x9000;
  region_malloc = true;
}

-- one page, in the first slot, at the start of the remote memory
abbrev one_region : RemoteRegion
one_region = record {
  virtual_offset = 0x5000;
  remote_addr = remote_base;
  size = 4096;
  in_use = true;
  last_access = 3;
  dirty = true;
}

abbrev one_page : Storage
one_page = with_table joined (one_region ∷ unused ∷ []) 1 true

one_page-Home : Home 0x5000 0 one_page
unfolding find_remote_region region_at
one_page-Home = record {
  running = refl;
  ready = joined-Established.ready;
  found = refl;
  in_table = omega arith;
  range = record {
    above = omega (arith, joined-Established.base);
    below = omega (arith, joined-Established.base);
    page = (omega arith, omega arith);
    fits = omega (arith, joined-Established.base);
  };
}

empty-Roomy : Roomy 0 empty
unfolding first_unused
empty-Roomy = record {
  running = refl;
  ready = joined-Established.ready;
  heap = joined-Established.heap;
  base = joined-Established.base;
  table = replicate-IsTable 2;
  unused_slot = refl;
  in_table = omega arith;
}

no_pointer : load_word (page_at 0x10000 empty) last_word ≡ 0
unfolding load_word
no_pointer = refl

zero-Converts : (t : Translator) → Converts t (page_at 0x10000 empty) 0 0
zero-Converts t = record {
  there = (true, rw no_pointer (for_remote-zero t));
  back = (true, from_remote-zero t);
}

read-write_known_example :
    let (wrote, s1) =
      rdma_write_page (λ k. served true (outside k)) 0x5000 0x10000 page_size one_page in
    let (read, s2) = rdma_read_page (served true (outside 3)) 0x5000 0x20000 page_size s1 in
    (wrote ≡ success) × (read ≡ success) × Returned 0x10000 0x20000 0 one_page s2
unfolding region_at
read-write_known_example =
    read-write_known true outside (outside 3) 0x5000 0x10000 0x20000 0 0 0 0x9000 one_page
      one_page-Home refl (omega arith) refl bytes-IsBytes (λ h. omega (arith, h))
      (zero-Converts (registered (outside 2) 0x5000 0 one_page))

nothing_known : find_remote_region 0x5000 empty.num_remote_regions empty.remote_regions ≡ none
unfolding find_remote_region
nothing_known = refl

nothing_at_0 : find_remote_region 0 empty.num_remote_regions empty.remote_regions ≡ none
unfolding find_remote_region
nothing_at_0 = refl

allocate_remote_region_lem_example :
    Allocation 0x5000 4096 8 0
      (replicate 2 unused)
      (allocate_remote_region (outside 1) 0x5000 4096 empty)
allocate_remote_region_lem_example =
    allocate_remote_region_lem (outside 1) 0x5000 4096 empty (replicate-IsTable 2) nothing_known

rdma_write_page-new_example :
    let (result, s') =
      rdma_write_page (λ k. served true (outside k)) 0x5000 0x10000 page_size empty in
    ((addr : ℕ) × (a : Allocator) × Allocated empty.world.server addr (round_up page_size) a
      × Wrote 0x5000 0x10000 0
          (registered_at (outside 2) 0x5000 addr no_translator)
          a
          empty
          result
          s')
    ⊎ (NoRoom (round_up page_size) empty.world.server.blocks
        × (result ≡ minus enomem)
        × Untouched empty s')
rdma_write_page-new_example =
    rdma_write_page-new outside 0x5000 0x10000 0 0x9000 empty empty-Roomy nothing_known
      (omega arith) refl

rdma_write_page-Valid_example : Valid (rdma_write_page outside 0x5000 0x10000 100 empty).1
rdma_write_page-Valid_example =
    rdma_write_page-Valid outside 0x5000 0x10000 100 empty (replicate-IsTable 2)

rdma_read_page_lem_example :
    let (result, s') = rdma_read_page (outside 1) 0x5000 0x20000 page_size empty in
    Valid s'
    × (((true ≡ false) × (result ≡ failure) × (s' ≡ empty))
        ⊎ ((true ≡ true)
            × ((i : ℕ) → ¬ Holds 0x5000 i (replicate 2 unused))
            × (result ≡ minus efault)
            × (s' ≡ unread empty))
        ⊎ ((true ≡ true)
            × (i : ℕ) × Holds 0x5000 i (replicate 2 unused)
            × (s'.rdma_reads ≡ add64 0 1)
            × (s'.rdma_hits ≡ add64 0 1)
            × (s'.rdma_misses ≡ 0)))
rdma_read_page_lem_example =
    rdma_read_page_lem (outside 1) 0x5000 0x20000 page_size empty (replicate-IsTable 2)

rdma_allocate_page_offset_lem_example :
    let (offset, s') = rdma_allocate_page_offset (outside 1) 4096 empty in
    Valid s' × ((offset ≡ uint64_max) ⊎ ((offset ≡ 0) × (i : ℕ) × Holds 0 i s'.remote_regions))
rdma_allocate_page_offset_lem_example =
    rdma_allocate_page_offset_lem (outside 1) 4096 empty (replicate-IsTable 2) nothing_at_0

abbrev no_spawn : Spawn
no_spawn = record {
  env_path = none;
  executable = λ _. false;
  spawned = λ _. false;
  meanwhile = λ _ w. w;
  gone = λ _. false;
  shmget = λ _. false;
  shmat = λ _. false;
  seen = λ _ _. false;
}

-- the third poll sees the segment
abbrev startup : Startup
startup = record {
  shmget = true;
  shmat = true;
  seen = λ k. ltb 1 k;
  spawn = no_spawn;
  timestamp = 5;
  answer = λ _ w. w;
}

-- a storage that has not been started, on a server that was set up
abbrev waiting : Storage
waiting = with_table (set_up before) [] 0 false

rdma_storage_init-Roomy_example :
    let (begun, s') = rdma_storage_init (served_by true startup) waiting in
    (begun ≡ true)
    × Roomy 0 s'
    × ((o : ℕ) → find_remote_region o s'.num_remote_regions s'.remote_regions ≡ none)
    × (s'.rdma_reads ≡ 0)
    × (s'.rdma_writes ≡ 0)
    × (s'.rdma_hits ≡ 0)
    × (s'.rdma_misses ≡ 0)
    × (s'.rdma_allocations ≡ 0)
    × (s'.rdma_frees ≡ 0)
    × (s'.world.request_id_counter ≡ add64 1 1)
rdma_storage_init-Roomy_example =
    rdma_storage_init-Roomy true startup 2 waiting refl refl joined-Established (omega arith)
      (omega arith) refl

abbrev not_started : Storage
not_started = with_table before [] 0 false

first_page_example :
    let (up, w) = rdma_sim_init_server true true true true before in
    let (begun, s0) =
      rdma_storage_init (served_by true startup) (record not_started { world = w }) in
    let (wrote, s1) = rdma_write_page (λ k. served true (outside k)) 0x5000 0x10000 page_size s0 in
    let (read, s2) = rdma_read_page (served true (outside 3)) 0x5000 0x20000 page_size s1 in
    (up ≡ true)
    × (begun ≡ true)
    × (wrote ≡ success)
    × (read ≡ success)
    × Returned 0x10000 0x20000 0 not_started s2
first_page_example =
    first_page startup outside (outside 3) 2 0x5000 0x10000 0x20000 0 0 0x9000 not_started refl refl
      refl refl (omega arith) (omega arith) (omega arith) refl refl bytes-IsBytes
      (λ h. omega (arith, h))
      (zero-Converts (registered_at (outside 2) 0x5000 remote_base no_translator))
