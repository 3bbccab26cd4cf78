-- ===== src/Prefetch/Tests.antt =====
-- A client on a server that was just set up, with a page whose prefetch is complete.
use swap_prefetch.Common.{
  ℕ, ◌+◌, ◌-◌, ◌≡◌, ◌<◌, refl, true, false, ◌||◌, some, [], ◌∷◌, arith, ◌⊎◌, add64,
}
use swap_prefetch.Memory.{PageData, basep, null}
use swap_prefetch.RdmaSim.Allocator.{remote_base}
use swap_prefetch.RdmaSim.Requests.{World}
use swap_prefetch.RdmaSim.Requests.Exchange.{InRemote}
use swap_prefetch.RdmaSim.Setup.Established.{Established, set_up, set_up-Established}
use swap_prefetch.AddressTranslation.{Translator}
use swap_prefetch.PointerPrefetch.{
  PrefetchRecord, prefetch_completed, zero_stats, page_size, convert_pointers_from_remote_storage,
  find_prefetch_record, found_running,
}
use swap_prefetch.PointerPrefetch.Records.{find-hit}
use swap_prefetch.PointerPrefetch.Conversion.{from_remote-zero}
use swap_prefetch.RdmaStorage.{RemoteRegion, Storage, Outside, load_word, last_word, rdma_read_page}
use swap_prefetch.RdmaStorage.Given.{served}
use swap_prefetch.RdmaStorage.Stored.{Stored, first-Stored}
use swap_prefetch.RdmaStorage.Word.{load_word-zero}
use swap_prefetch.Prefetch.{
  Prefetching, is_present, count_failed, async_prefetch_page, transfer_to_prefetch_buffer,
  retrieve_prefetched_data_to_local_buffer, handle_page_fault_with_prefetch,
}
use swap_prefetch.Prefetch.Client.{attempted, async_prefetch_page-client}
use swap_prefetch.Prefetch.Retrieve.{fault-async_prefetch}
use swap_prefetch.Prefetch.Transfer.{retrieve-transfer}

abbrev before : World
before = record {
  shm = record {
    requests = [];
    head = 0;
    tail = 0;
    count = 0;
    shutdown_requested = false;
    page_buffer = λ _. 0;
    remote_memory_base = 0;
    total_requests = 0;
    completed_requests = 0;
    failed_requests = 0;
    page_buffer_used = 0;
  };
  connected = false;
  request_id_counter = 1;
  memory = λ _. 0;
  server = record { blocks = []; backed = false; connected = false; used = 0 };
  remote_memory = λ _. 0;
}

abbrev joined : World
joined = record (set_up before) { connected = true }

joined-Established : Established joined
joined-Established = set_up-Established before (omega arith)

abbrev no_translator : Translator
no_translator = record {
  regions = [];
  local_heap_base = 0;
  local_heap_end = 0;
  remote_heap_base = 0;
  remote_heap_end = 0;
  initialized = false;
}

abbrev one_region : RemoteRegion
one_region = record {
  virtual_offset = 0x5000;
  remote_addr = remote_base;
  size = 4096;
  in_use = true;
  last_access = 3;
  dirty = true;
}

-- one page is stored, at the start of the remote memory
abbrev storage : Storage
storage = record {
  world = joined;
  client_blocks = [];
  translator = no_translator;
  remote_regions = one_region ∷ [];
  num_remote_regions = 1;
  rdma_reads = 0;
  rdma_writes = 0;
  rdma_hits = 0;
  rdma_misses = 0;
  rdma_allocations = 0;
  rdma_frees = 0;
  rdma_initialized = true;
}

-- the prefetch of the page at 0x5000 is complete, in the second page of the remote memory
abbrev prefetched : PrefetchRecord
prefetched = record {
  source_va = 0x4000;
  target_va = 0x5000;
  pointer_value = 0x5000;
  remote_addr = remote_base + 4096;
  rdma_request_id = 1;
  status = prefetch_completed;
  timestamp = 0;
}

abbrev state : Prefetching
state = record {
  prefetcher = record {
    records = prefetched ∷ [];
    stats = zero_stats;
    initialized = true;
    max_prefetch_distance = 0x1000000;
    pointer_validation_threshold = 4096;
  };
  storage = storage;
}

abbrev swapped_page : PageData
swapped_page = record {
  va = 0x5000;
  virtual_offset = 0x5000;
  in_dram = false;
  swapped_out = true;
  pt = basep;
  migrating = false;
  has_reserve = false;
  present = true;
  naccesses = 0;
  reserve = null;
}

abbrev outside : ℕ → Outside
outside k = record {
  answer = λ w. w;
  timestamp = k;
  time = 7 + k;
  buffer = some 0x9000;
  region_malloc = true;
}

buffer-InRemote : InRemote (remote_base + 4096) page_size joined
buffer-InRemote = record {
  above = omega (arith, joined-Established.base);
  below = omega (arith, joined-Established.base);
  page = (omega arith, omega arith);
  fits = omega (arith, joined-Established.base);
}

zeros-Stored : Stored 0x5000 0 (λ _. 0) storage
zeros-Stored =
    first-Stored one_region [] (λ _. 0) storage refl joined-Established.ready refl (omega arith)
      refl
      (record {
        above = omega (arith, joined-Established.base);
        below = omega (arith, joined-Established.base);
        page = (omega arith, omega arith);
        fits = omega (arith, joined-Established.base);
      })
      (λ k low. refl)

zero_word :
    convert_pointers_from_remote_storage (some (load_word (λ _. 0) last_word)) no_translator
    ≡ (true, some 0)
zero_word = rw (load_word-zero last_word) (from_remote-zero no_translator)

found : find_prefetch_record 0x5000 (prefetched ∷ []) ≡ some prefetched
found = find-hit 0x5000 prefetched [] refl

async_prefetch_page-client_example :
    let (started, s') =
      async_prefetch_page outside true true 0x6000 0x4000 (some swapped_page) state in
    let served_already =
      is_present (some swapped_page)
      || found_running (find_prefetch_record 0x6000 (prefetched ∷ [])) in
    (s'.storage ≡ storage)
    × (((served_already ≡ true) × (started ≡ true) × (s'.prefetcher ≡ attempted state.prefetcher))
        ⊎ ((served_already ≡ false)
            × (started ≡ false)
            × (s'.prefetcher ≡ count_failed (attempted state.prefetcher))))
async_prefetch_page-client_example =
    async_prefetch_page-client outside true true 0x6000 0x4000 (some swapped_page) state refl

fault-async_prefetch_example :
    let (hit, page', s') =
      handle_page_fault_with_prefetch
        (λ k. served true (outside k))
        true
        0x8000
        swapped_page
        state in
    (hit ≡ true)
    × (page' ≡ record swapped_page { in_dram = true; swapped_out = false; migrating = false })
    × ((k : ℕ)
        → k < page_size
        → s'.storage.world.memory (0x5000 + k)
          ≡ joined.remote_memory (remote_base + 4096 - joined.shm.remote_memory_base + k))
    × (s'.prefetcher.stats.cache_hits ≡ add64 0 1)
    × (find_prefetch_record 0x5000 s'.prefetcher.records
        ≡ some (record prefetched { remote_addr = 0 }))
    × (async_prefetch_page outside true true 0x5000 0x4000 (some swapped_page) s'
        ≡ (true, record s' { prefetcher = attempted s'.prefetcher }))
fault-async_prefetch_example =
    fault-async_prefetch true outside outside 0x8000 swapped_page prefetched state true true 0x4000
      (some swapped_page) refl found refl joined-Established.ready buffer-InRemote
      (λ h. omega (arith, h))

retrieve-transfer_example :
    let (_, read) = rdma_read_page (served true (outside 0)) 0x5000 0x9000 page_size storage in
    let (started, r1, s1) =
      transfer_to_prefetch_buffer
        (λ k. served true (outside k))
        0x5000
        (remote_base + 4096)
        prefetched
        storage in
    let (retrieved, r2, s2) =
      retrieve_prefetched_data_to_local_buffer (λ k. served true (outside k)) 0x8000 r1 s1 in
    (started ≡ true)
    × (retrieved ≡ true)
    × (r2.status ≡ prefetch_completed)
    × (r2.remote_addr ≡ 0)
    × ((k : ℕ) → k < page_size → s2.world.memory (0x8000 + k) ≡ read.world.memory (0x9000 + k))
retrieve-transfer_example =
    retrieve-transfer true outside outside 0x5000 0 0 0x9000 0x8000 true (λ _. 0) prefetched storage
      zeros-Stored (omega arith) zero_word (omega arith) buffer-InRemote refl
      (λ h. omega (arith, h)) (λ h. omega (arith, h))
