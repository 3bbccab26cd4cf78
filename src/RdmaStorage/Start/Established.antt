-- ===== src/RdmaStorage/Start/Established.antt =====
-- What `rdma_storage_init` establishes.
use swap_prefetch.Common.{
  ℕ, zero, suc, ◌+◌, ◌≡◌, ◌<◌, refl, Bool, true, false, none, some, length, word, arith, inl, inr,
  add64,
}
use swap_prefetch.RdmaSim.Requests.{op_init, World, rdma_submit_request, server_pass}
use swap_prefetch.RdmaSim.Requests.Ask.{
  Ready, replied, replied-Ready, greeted, ask_init, request_id-new_request,
}
use swap_prefetch.RdmaSim.Setup.{replicate, init_timeout, wait_initialized}
use swap_prefetch.RdmaSim.Setup.Established.{
  Established, length-replicate, client-run, wait_initialized_iff,
}
use swap_prefetch.RdmaStorage.{
  Storage, unused, max_remote_regions, region_at, first_unused, find_remote_region, wait_request,
}
use swap_prefetch.RdmaStorage.Table.{Holds}
use swap_prefetch.RdmaStorage.Lookup.{IsTable, find-nothing}
use swap_prefetch.RdmaStorage.Given.{wait_request-run}
use swap_prefetch.RdmaStorage.Fresh.{Roomy}
use swap_prefetch.RdmaStorage.Start.{
  Startup, connect, wait_init, init_waits, new_table, started, greet, rdma_storage_init,
}

replicate-unused : (n i : ℕ) → (region_at (replicate n unused) i).in_use ≡ false
unfolding region_at
replicate-unused zero i = refl
replicate-unused (suc n) zero = refl
replicate-unused (suc n) (suc i) = replicate-unused n i

replicate-first : (n : ℕ) → 0 < n → first_unused (replicate n unused) ≡ some 0
unfolding first_unused
replicate-first zero h = absurd (omega arith)
replicate-first (suc n) h = refl

pub replicate-Holds : (n o i : ℕ) → ¬ Holds o i (replicate n unused)
replicate-Holds n o i h = cc (h.used, replicate-unused n i)

pub replicate-IsTable : (n : ℕ) → IsTable 0 (replicate n unused)
replicate-IsTable n = record {
  in_table = omega arith;
  behind = λ i _. replicate-unused n i;
  distinct = λ o i j hi _. absurd (replicate-Holds n o i hi);
}

wait_init-first :
    (n : ℕ) (answer : ℕ → World → World) (id : ℕ) (w v : World)
    → wait_request (answer 0) id w ≡ (true, v)
    → 0 < n
    → wait_init n 0 answer id w ≡ (true, v)
unfolding wait_init
wait_init-first zero answer id w v e h = absurd (omega arith)
wait_init-first (suc n) answer id w v e h = rw e refl

-- the start of a storage on a server that answers, with the client's first attempt
abbrev pub served_by : Bool → Startup → Startup
served_by malloc c = record c { shmget = true; shmat = true; answer = λ _. server_pass malloc }

pub greet-run :
    (malloc : Bool) (c : Startup) (s : Storage)
    → Ready s.world
    → greet (served_by malloc c) s
      ≡ (true, started (record s { world = replied (greeted c.timestamp s.world) s.world }))
unfolding greet
greet-run malloc c s h =
    let (id, answer, waited) = ask_init malloc c.timestamp s.world h in
    let (n, w) = rdma_submit_request c.timestamp op_init 0 0 0 none s.world in
    rw
      (wait_init-first init_waits (λ _. server_pass malloc) n w
        (replied (greeted c.timestamp s.world) s.world)
        (wait_request-run (server_pass malloc) n w (replied (greeted c.timestamp s.world) s.world)
          true none s.world.memory answer waited)
        (omega arith))
      refl

pub storage_init-run :
    (malloc : Bool) (c : Startup) (s : Storage)
    → s.rdma_initialized ≡ false
    → s.world.connected ≡ false
    → wait_initialized init_timeout 0 c.seen ≡ true
    → rdma_storage_init (served_by malloc c) s
      ≡ greet
          (served_by malloc c)
          (record (new_table s) { world = record s.world { connected = true } })
unfolding rdma_storage_init connect
storage_init-run malloc c s off w seen =
    simp (rdma_storage_init, off, client-run c.seen s.world w, seen) refl

-- the storage once it was started by the client of `w`
abbrev pub at_start : (now : ℕ) → World → Storage → Storage
at_start now w s = started (record (new_table s) { world = replied (greeted now w) w })

pub at_start-Roomy :
    (now : ℕ) (w : World) (s : Storage)
    → Established w
    → w.request_id_counter + 1 < word
    → Roomy 0 (at_start now w s)
      × ((o : ℕ)
          → find_remote_region o
              (at_start now w s).num_remote_regions
              (at_start now w s).remote_regions
            ≡ none)
unfolding new_table started
at_start-Roomy now w s h room =
    let slots : length (replicate max_remote_regions unused) ≡ max_remote_regions =
      length-replicate max_remote_regions unused in
    (
      record {
        running = refl;
        ready =
            replied-Ready (greeted now w) w h.ready room
              (request_id-new_request op_init 0 0 0 w.request_id_counter now);
        heap = h.heap;
        base = h.base;
        table = replicate-IsTable max_remote_regions;
        unused_slot = replicate-first max_remote_regions (omega arith);
        in_table = omega (arith, slots);
      },
      λ o.
          find-nothing o 0 (replicate max_remote_regions unused)
            (replicate-Holds max_remote_regions o),
    )

pub seen-initialized :
    (k : ℕ) (seen : ℕ → Bool)
    → k < init_timeout
    → seen k ≡ true
    → wait_initialized init_timeout 0 seen ≡ true
seen-initialized k seen low sees = elim (wait_initialized_iff init_timeout 0 seen) [
  | inl (y, _, _, _, _) ↦ y
  | inr (_, never) ↦ cc (sees, never k (omega arith) (omega arith))
]

-- `rdma_storage_init` of a storage that has not been started, in a client that is not connected, on
-- a server that was set up, when one of the client's first 200 polls sees the segment initialised
-- and the server answers, and the ids of requests do not wrap: it returns 0, and all that a write
-- of a page relies on holds, with an empty table in which no offset is known. All six statistics
-- start at 0, and one request id is used up.
pub rdma_storage_init-Roomy :
    (malloc : Bool) (c : Startup) (k : ℕ) (s : Storage)
    → s.rdma_initialized ≡ false
    → s.world.connected ≡ false
    → Established (record s.world { connected = true })
    → s.world.request_id_counter + 1 < word
    → k < init_timeout
    → c.seen k ≡ true
    → let (done, s') = rdma_storage_init (served_by malloc c) s in
      (done ≡ true)
      × Roomy 0 s'
      × ((o : ℕ) → find_remote_region o s'.num_remote_regions s'.remote_regions ≡ none)
      × (s'.rdma_reads ≡ 0)
      × (s'.rdma_writes ≡ 0)
      × (s'.rdma_hits ≡ 0)
      × (s'.rdma_misses ≡ 0)
      × (s'.rdma_allocations ≡ 0)
      × (s'.rdma_frees ≡ 0)
      × (s'.world.request_id_counter ≡ add64 s.world.request_id_counter 1)
unfolding new_table started
rdma_storage_init-Roomy malloc c k s off w h room low sees =
    let v : World = record s.world { connected = true } in
    let (roomy, unknown) = at_start-Roomy c.timestamp v s h room in
    rw
      (
        storage_init-run malloc c s off w (seen-initialized k c.seen low sees),
        greet-run malloc c (record (new_table s) { world = v }) h.ready,
      )
      (refl, roomy, unknown, refl, refl, refl, refl, refl, refl, refl)
