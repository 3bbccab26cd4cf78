-- ===== src/RdmaSim/Requests/Tests.antt =====
-- A client that writes four bytes and reads them back.
use swap_prefetch.Common.{
  ℕ, zero, suc, ◌+◌, ◌≡◌, ◌≢◌, ◌≤◌, ◌<◌, refl, ltb, if◌then◌else◌, true, false, none, some, List,
  [], ◌∷◌, arith, ◌⊎◌,
}
use swap_prefetch.RdmaSim.Errno.{enoent}
use swap_prefetch.RdmaSim.Allocator.{remote_base, remote_memory_size}
use swap_prefetch.RdmaSim.Requests.{
  op_read, op_write, op_init, Status, Request, blank, Segment, World, new_request,
  rdma_submit_request, max_rdma_requests, rdma_page_buffer_size, server_pass, rdma_wait_request,
  slot, completed, memcpy, processing,
}
use swap_prefetch.RdmaSim.Requests.Ring.{queue, IsRing}
use swap_prefetch.RdmaSim.Requests.Submit.{Submitted, rdma_submit_request_lem}
use swap_prefetch.RdmaSim.Requests.Server.{IsQueue}
use swap_prefetch.RdmaSim.Requests.Exchange.{Idle, InRemote, Fresh}
use swap_prefetch.RdmaSim.Requests.Waiting.{OnlyPending, rdma_wait_request-pending}
use swap_prefetch.RdmaSim.Requests.Invariant.{rdma_submit_request-IsQueue}
use swap_prefetch.RdmaSim.Requests.RoundTrip.{read-write}

abbrev blanks : ℕ → List Request
blanks zero = []
blanks (suc n) = blank ∷ blanks n

abbrev fresh_segment : Segment
fresh_segment = record {
  requests = blanks 128;
  head = 0;
  tail = 0;
  count = 0;
  shutdown_requested = false;
  page_buffer = λ _. 0;
  remote_memory_base = remote_base;
  total_requests = 0;
  completed_requests = 0;
  failed_requests = 0;
  page_buffer_used = 0;
}

abbrev start : World
start = record {
  shm = fresh_segment;
  connected = true;
  request_id_counter = 1;
  memory = λ _. 0;
  server = record {
    blocks = record { addr = remote_base; size = remote_memory_size; free = true } ∷ [];
    backed = true;
    connected = true;
    used = 0;
  };
  remote_memory = λ _. 0;
}

start-IsRing : IsRing start.shm
start-IsRing = record {
  slots = refl;
  head_in = omega arith;
  count_in = omega arith;
  tail_at = refl;
}

start-Idle : Idle start
start-Idle = record {
  connected = refl;
  backed = refl;
  going = refl;
  ring = start-IsRing;
  empty = refl;
}

blanks-Fresh : (n : ℕ) → Fresh 2 (blanks n)
blanks-Fresh zero = tt
blanks-Fresh (suc n) = ((λ h. omega (arith, h)), blanks-Fresh n)

four-InRemote : InRemote (remote_base + 4096) 4 start
four-InRemote = record {
  above = omega arith;
  below = omega arith;
  page = (omega arith, omega arith);
  fits = omega arith;
}

read-write_example :
    let w' =
      server_pass true
        (rdma_submit_request 0 op_write 0 (remote_base + 4096) 4 (some (λ i. i + 7)) start).1 in
    let (id, v) = rdma_submit_request 0 op_read 0x7000 (remote_base + 4096) 4 none w' in
    let (success, error_code, memory) = rdma_wait_request id (λ k. (server_pass true v).shm) v in
    (success ≡ true)
    × (error_code ≡ none)
    × ((i : ℕ) → i < 4 → memory (0x7000 + i) ≡ i + 7)
    × ((a : ℕ) → (a < 0x7000) ⊎ (0x7000 + 4 ≤ a) → memory a ≡ 0)
read-write_example =
    read-write true 0 0 0x7000 (remote_base + 4096) 4 (λ i. i + 7) start start-Idle four-InRemote
      (λ h. omega (arith, h)) (omega arith) (blanks-Fresh 128)

abbrev counting : ℕ → ℕ
counting i = i + 7

rdma_submit_request_lem_example :
    let (id, w') = rdma_submit_request 0 op_write 0 remote_base 4 (some counting) start in
    ((max_rdma_requests ≤ start.shm.count) × (id ≡ 0) × (w' ≡ start))
    ⊎ ((start.shm.count < max_rdma_requests)
        × (op_write ≡ op_write)
        × (b : ℕ → ℕ) × (some counting ≡ some b)
        × (rdma_page_buffer_size < 4)
        × (id ≡ 0)
        × IsRing w'.shm
        × (queue w'.shm ≡ queue start.shm))
    ⊎ ((start.shm.count < max_rdma_requests)
        × (op_write ≡ op_write)
        × (b : ℕ → ℕ) × (some counting ≡ some b)
        × (0 < 4)
        × (4 ≤ rdma_page_buffer_size)
        × (id ≡ start.request_id_counter)
        × Submitted
            (record (new_request op_write 0 remote_base 4 id 0) { data_in_shm_buffer = true })
            start.shm
            w'.shm
        × (w'.shm.page_buffer ≡ memcpy start.shm.page_buffer 0 b 0 4))
    ⊎ ((start.shm.count < max_rdma_requests)
        × ((op_write ≢ op_write) ⊎ (some counting ≡ none) ⊎ (◌≡◌ {A = ℕ} 4 0))
        × (id ≡ start.request_id_counter)
        × Submitted (new_request op_write 0 remote_base 4 id 0) start.shm w'.shm
        × (w'.shm.page_buffer ≡ start.shm.page_buffer))
rdma_submit_request_lem_example =
    rdma_submit_request_lem 0 op_write 0 remote_base 4 (some counting) start refl start-IsRing

-- a read of four bytes to 0x7000
abbrev answer_of : Status → Request
answer_of status = record blank {
  request_id = 1;
  op_type = op_read;
  local_addr = 0x7000;
  size = 4;
  status = status;
}

abbrev answered_read : Segment
answered_read = record fresh_segment { requests = answer_of completed ∷ blanks 127 }

-- the third poll sees the answer, those before it a request that the server is at
abbrev third_poll : ℕ → Segment
third_poll k =
    if ltb k 2
    then record fresh_segment { requests = answer_of processing ∷ blanks 127 }
    else answered_read

blanks-OnlyPending : (n : ℕ) → OnlyPending 1 (blanks n)
blanks-OnlyPending zero = tt
blanks-OnlyPending (suc n) = ((λ _. refl), blanks-OnlyPending n)

abbrev waiting_init : Segment
waiting_init = record fresh_segment {
  requests = record blank { request_id = 1; op_type = op_init } ∷ blanks 127;
  tail = 1;
  count = 1;
  total_requests = 1;
}

rdma_wait_request-pending_example :
    rdma_wait_request 1 (λ _. waiting_init) start ≡ (false, some enoent, start.memory)
rdma_wait_request-pending_example =
    rdma_wait_request-pending 1 (λ _. waiting_init) start refl (λ h. omega (arith, h))
      (λ k low. ((λ _. refl), blanks-OnlyPending 127))

abbrev asked : World
asked = record start { shm = waiting_init }

asked-IsQueue : IsQueue asked.shm
unfolding slot
asked-IsQueue = record {
  ring = record { slots = refl; head_in = omega arith; count_in = omega arith; tail_at = refl };
  all_pending = (refl, tt);
  balance = refl;
}

rdma_submit_request-IsQueue_example : IsQueue (rdma_submit_request 0 op_init 0 0 0 none asked).1.shm
rdma_submit_request-IsQueue_example =
    rdma_submit_request-IsQueue 0 op_init 0 0 0 none asked asked-IsQueue
