-- ===== src/RdmaSim/Setup/Tests.antt =====
-- A server and a client that have not run before.
use swap_prefetch.Common.{ℕ, ◌*◌, ◌≡◌, ◌<◌, refl, Bool, true, false, [], ltb, arith, ◌⊎◌}
use swap_prefetch.RdmaSim.Allocator.{remote_base}
use swap_prefetch.RdmaSim.Allocator.Correct.{whole_block}
use swap_prefetch.RdmaSim.Requests.{World, Segment}
use swap_prefetch.RdmaSim.Setup.{
  init_timeout, rdma_sim_init_server, rdma_sim_init_client, rdma_sim_cleanup_server,
}
use swap_prefetch.RdmaSim.Setup.Established.{
  Established, set_up, init_client-init_server, init_server-cleanup_server,
}

abbrev no_segment : Segment
no_segment = record {
  requests = [];
  head = 0;
  tail = 0;
  count = 0;
  shutdown_requested = false;
  page_buffer = λ _. 0;
  remote_memory_base = 0;
  total_requests = 0;
  completed_requests = 0;
  failed_requests = 0;
  page_buffer_used = 0;
}

abbrev before : World
before = record {
  shm = no_segment;
  connected = false;
  request_id_counter = 1;
  memory = λ _. 0;
  server = record { blocks = []; backed = false; connected = false; used = 0 };
  remote_memory = λ _. 0;
}

-- the segment is initialised from the poll 150 on
abbrev late : ℕ → Bool
late k = ltb 149 k

init_client-init_server_example :
    let (up, w1) = rdma_sim_init_server true true true true before in
    let (joined, w2) = rdma_sim_init_client true true late w1 in
    (up ≡ true)
    × (((k : ℕ) × (k < init_timeout) × (late k ≡ true) × (joined ≡ true) × Established w2)
        ⊎ (((k : ℕ) → k < init_timeout → late k ≡ false)
            × (joined ≡ false)
            × (w2.connected ≡ false)))
init_client-init_server_example = init_client-init_server late before refl refl refl (omega arith)

init_server-cleanup_server_example :
    let (up, w') =
      rdma_sim_init_server true true true true (rdma_sim_cleanup_server (set_up before)) in
    (up ≡ true)
    × (w'.server.connected ≡ true)
    × (w'.server.backed ≡ false)
    × (w'.server.blocks ≡ whole_block)
    × (w'.shm.remote_memory_base ≡ 0)
init_server-cleanup_server_example =
    init_server-cleanup_server true true
      (record { addr = remote_base; size = 1024 * 1024 * 1024; free = true }) [] (set_up before)
      refl
