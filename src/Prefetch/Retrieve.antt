-- ===== src/Prefetch/Retrieve.antt =====
-- A page that was copied to a buffer in the remote memory, and a fault that is served from there.
use swap_prefetch.Common.{
  ℕ, ◌+◌, ◌-◌, ◌≡◌, ◌≢◌, ◌<◌, refl, sym, ap, ◌∙◌, Bool, true, false, ◌||◌, Option, none, some,
  if◌then◌else◌, add64, arith, ==_ne,
}
use swap_prefetch.Memory.{PageData}
use swap_prefetch.RdmaSim.Requests.{
  op_read, World, rdma_submit_request, rdma_wait_request, server_pass, memcpy,
}
use swap_prefetch.RdmaSim.Requests.Exchange.{InRemote}
use swap_prefetch.RdmaSim.Requests.RoundTrip.{memcpy-in, memcpy-start}
use swap_prefetch.RdmaSim.Requests.Ask.{Ready, after_read, ask_read}
use swap_prefetch.PointerPrefetch.Records.{find-target, find-overwrite}
use swap_prefetch.Prefetch.Client.{attempted, async-running}
use swap_prefetch.PointerPrefetch.{
  prefetch_completed, PrefetchRecord, page_size, find_prefetch_record, overwrite_record,
}
use swap_prefetch.RdmaStorage.{Storage, Outside, free_remote}
use swap_prefetch.RdmaStorage.Given.{served, fetched, free_remote-World}
use swap_prefetch.Prefetch.{
  Prefetching, is_in_progress, is_completed, succeeded, wait_success, await, read_buffer,
  retrieve_prefetched_data_to_local_buffer, running_record, uffdio_copy, store_back, count_hit,
  on_retrieved, async_prefetch_page, handle_page_fault_with_prefetch,
}

pub wait_success-run :
    (answer : World → World) (id : ℕ) (w v : World) (m : ℕ → ℕ)
    → answer w ≡ v
    → rdma_wait_request id (λ k. (answer w).shm) (answer w) ≡ (true, none, m)
    → wait_success answer id w ≡ (true, record v { memory = m })
unfolding wait_success succeeded
wait_success-run answer id w v m p q = rw q (ap (λ (x : World). (true, record x { memory = m })) p)

-- the storage once a page was read from the buffer at `addr` to `local`
abbrev pub after_buffer : (o : Outside) (addr local : ℕ) → Storage → Storage
after_buffer o addr local s = record s {
  world = record (after_read o.timestamp local addr page_size s.world) {
    memory = memcpy s.world.memory local (fetched addr page_size s.world) 0 page_size;
  };
}

pub read_buffer-run :
    (malloc : Bool) (o : Outside) (local : ℕ) (r : PrefetchRecord) (s : Storage)
    → Ready s.world
    → InRemote r.remote_addr page_size s.world
    → local ≢ 0
    → read_buffer (served malloc o) local r s ≡ (
      true,
      record r { remote_addr = 0 },
      free_remote r.remote_addr (after_buffer o r.remote_addr local s),
    )
unfolding read_buffer
read_buffer-run malloc o local r s h k nz =
    let (id, answer, waited) =
      ask_read malloc o.timestamp local r.remote_addr page_size s.world h k nz in
    let (n, w) =
      rdma_submit_request o.timestamp op_read local r.remote_addr page_size none s.world in
    simp
      (
        read_buffer,
        ==_ne n 0 (λ z. omega (arith, h.live, id, z)),
        wait_success-run (server_pass malloc) n w
            (after_read o.timestamp local r.remote_addr page_size s.world)
            (memcpy s.world.memory local (fetched r.remote_addr page_size s.world) 0 page_size)
            answer waited,
      )
      refl

pub buffer-content :
    (o : Outside) (addr local k : ℕ) (s : Storage)
    → k < page_size
    → (free_remote addr (after_buffer o addr local s)).world.memory (local + k)
      ≡ s.world.remote_memory (addr - s.world.shm.remote_memory_base + k)
buffer-content o addr local k s low =
    let w : World = s.world in
    let (_, m, _) = free_remote-World addr (after_buffer o addr local s) in
    ap (λ f. f (local + k)) m
    ∙ memcpy-start w.memory local (fetched addr page_size w) page_size k low
    ∙ ap (fetched addr page_size w) (plus_zero k)
    ∙ memcpy-in w.shm.page_buffer 0 w.remote_memory (addr - w.shm.remote_memory_base) page_size k
        low
  where
    plus_zero : (x : ℕ) → x ≡ 0 + x
    plus_zero x = omega arith

await-completed :
    (o : Outside) (r : PrefetchRecord) (s : Storage)
    → r.status ≡ prefetch_completed
    → await o r s ≡ (r, s)
unfolding await is_in_progress
await-completed o r s e = simp (await, e) refl

pub completed : (r : PrefetchRecord) → r.status ≡ prefetch_completed → is_completed r.status ≡ true
unfolding is_completed
completed r e = ap is_completed e

pub retrieve-completed :
    (malloc : Bool) (o : ℕ → Outside) (local : ℕ) (r : PrefetchRecord) (s : Storage)
    → r.status ≡ prefetch_completed
    → Ready s.world
    → InRemote r.remote_addr page_size s.world
    → local ≢ 0
    → retrieve_prefetched_data_to_local_buffer (λ k. served malloc (o k)) local r s ≡ (
      true,
      record r { remote_addr = 0 },
      free_remote r.remote_addr (after_buffer (o 1) r.remote_addr local s),
    )
unfolding retrieve_prefetched_data_to_local_buffer
retrieve-completed malloc o local r s e h k nz = rw (await-completed (served malloc (o 0)) r s e) (
    ap (λ b. if b then read_buffer (served malloc (o 1)) local r s else (false, r, s))
      (completed r e)
    ∙ read_buffer-run malloc (o 1) local r s h k nz)

running-completed :
    (r : PrefetchRecord) → r.status ≡ prefetch_completed → running_record (some r) ≡ some r
unfolding running_record is_in_progress is_completed
running-completed r e = ap (λ t. if is_in_progress t || is_completed t then some r else none) e

fault-run :
    (malloc : Bool) (o : ℕ → Outside) (buffer : ℕ) (page : PageData) (r : PrefetchRecord)
    (s : Prefetching)
    → s.prefetcher.initialized ≡ true
    → find_prefetch_record page.va s.prefetcher.records ≡ some r
    → r.status ≡ prefetch_completed
    → Ready s.storage.world
    → InRemote r.remote_addr page_size s.storage.world
    → buffer ≢ 0
    → handle_page_fault_with_prefetch (λ k. served malloc (o k)) true buffer page s ≡ (
      true,
      record page { in_dram = true; swapped_out = false; migrating = false },
      record {
        prefetcher = count_hit (store_back (record r { remote_addr = 0 }) s.prefetcher);
        storage =
            uffdio_copy page.va buffer
              (free_remote r.remote_addr (after_buffer (o 1) r.remote_addr buffer s.storage));
      },
    )
unfolding handle_page_fault_with_prefetch on_retrieved
fault-run malloc o buffer page r s i f e h k nz =
    simp
      (
        handle_page_fault_with_prefetch,
        i,
        ap running_record f ∙ running-completed r e,
        retrieve-completed malloc o buffer r s.storage e h k nz,
      )
      refl

-- A fault on a page whose prefetch is complete, with an initialised prefetcher, a server that
-- answers in time, a kernel that copies, a local buffer other than NULL, and a remote buffer in the
-- remote memory, is served from the remote buffer: the page is in memory and at its address stand
-- the bytes of the remote buffer, and a hit is counted. The record stays complete, without its
-- buffer, and is else as it was. When the page is to be prefetched again, `async_prefetch_page`
-- therefore returns 0 and does nothing but count an attempt, whatever the state of the page.
pub fault-async_prefetch :
    (malloc : Bool) (o o' : ℕ → Outside) (buffer : ℕ) (page : PageData) (r : PrefetchRecord)
    (s : Prefetching) (block_malloc record_malloc : Bool) (source_va : ℕ) (again : Option PageData)
    → s.prefetcher.initialized ≡ true
    → find_prefetch_record page.va s.prefetcher.records ≡ some r
    → r.status ≡ prefetch_completed
    → Ready s.storage.world
    → InRemote r.remote_addr page_size s.storage.world
    → buffer ≢ 0
    → let (hit, page', s') =
        handle_page_fault_with_prefetch (λ k. served malloc (o k)) true buffer page s in
      let w = s.storage.world in
      (hit ≡ true)
      × (page' ≡ record page { in_dram = true; swapped_out = false; migrating = false })
      × ((k : ℕ)
          → k < page_size
          → s'.storage.world.memory (page.va + k)
            ≡ w.remote_memory (r.remote_addr - w.shm.remote_memory_base + k))
      × (s'.prefetcher.stats.cache_hits ≡ add64 s.prefetcher.stats.cache_hits 1)
      × (find_prefetch_record page.va s'.prefetcher.records ≡ some (record r { remote_addr = 0 }))
      × (async_prefetch_page o' block_malloc record_malloc page.va source_va again s'
          ≡ (true, record s' { prefetcher = attempted s'.prefetcher }))
unfolding uffdio_copy
fault-async_prefetch malloc o o' buffer page r s bm rm source again i f e h k nz =
    let s1 : Storage = after_buffer (o 1) r.remote_addr buffer s.storage in
    let m : ℕ → ℕ = (free_remote r.remote_addr s1).world.memory in
    let q : PrefetchRecord = record r { remote_addr = 0 } in
    let at : r.target_va ≡ page.va = find-target page.va r s.prefetcher.records f in
    let found : find_prefetch_record page.va (overwrite_record q s.prefetcher.records) ≡ some q =
      ap (λ x. find_prefetch_record x (overwrite_record q s.prefetcher.records)) (sym at)
      ∙ find-overwrite q r s.prefetcher.records
          (ap (λ x. find_prefetch_record x s.prefetcher.records) at ∙ f) in
    rw (fault-run malloc o buffer page r s i f e h k nz) (
      refl,
      refl,
      λ j low.
          memcpy-in m page.va m buffer page_size j low
          ∙ buffer-content (o 1) r.remote_addr buffer j s.storage low,
      refl,
      found,
      async-running o' bm rm page.va source again _ q found e,
    )
