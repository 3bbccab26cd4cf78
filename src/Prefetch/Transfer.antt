-- ===== src/Prefetch/Transfer.antt =====
-- A page on the storage that is transferred to a buffer in the remote memory and retrieved from it.
use swap_prefetch.Common.{
  ℕ, ◌+◌, ◌-◌, ◌≡◌, ◌≢◌, ◌<◌, refl, ap, ◌∙◌, Bool, true, some, word, arith, ==_ne,
}
use swap_prefetch.RdmaSim.Requests.{op_write, World, rdma_submit_request, server_pass, memcpy}
use swap_prefetch.RdmaSim.Requests.Exchange.{InRemote}
use swap_prefetch.RdmaSim.Requests.Ask.{
  Ready, replied, replied-Ready, written, after_written, ask_write, request_id-new_request,
  Ready-contents, InRemote-moved,
}
use swap_prefetch.PointerPrefetch.{
  prefetch_in_progress, prefetch_completed, PrefetchRecord, page_size,
  convert_pointers_from_remote_storage,
}
use swap_prefetch.RdmaStorage.{
  Storage, Outside, success, load_word, last_word, rdma_read_page, free_remote,
}
use swap_prefetch.RdmaStorage.Given.{served}
use swap_prefetch.RdmaStorage.Written.{kept_bytes}
use swap_prefetch.RdmaStorage.Stored.{Stored, rdma_read_page-Stored}
use swap_prefetch.Prefetch.{
  is_success, is_in_progress, await, transfer_to_prefetch_buffer,
  retrieve_prefetched_data_to_local_buffer, is_completed,
}
use swap_prefetch.Prefetch.Retrieve.{
  wait_success-run, read_buffer-run, buffer-content, after_buffer,
}

-- the request that writes the page at `temp` to the buffer at `dest`
abbrev submitted : Outside → (dest temp : ℕ) → Storage → ℕ × World
submitted o dest temp s =
    rdma_submit_request o.timestamp op_write 0 dest page_size
      (some (λ k. s.world.memory (temp + k))) s.world

-- the record once the transfer has begun
abbrev begun : ℕ → PrefetchRecord → PrefetchRecord
begun id r = record r { rdma_request_id = id; status = prefetch_in_progress }

transfer-run :
    (o : ℕ → Outside) (off dest temp : ℕ) (r : PrefetchRecord) (s : Storage)
    → (o 0).buffer ≡ some temp
    → let (read, s1) = rdma_read_page (o 0) off temp page_size s in
      let (id, w) = submitted (o 1) dest temp s1 in
      read ≡ success
      → id ≢ 0
      → transfer_to_prefetch_buffer o off dest r s ≡ (true, begun id r, record s1 { world = w })
unfolding transfer_to_prefetch_buffer is_success
transfer-run o off dest temp r s b e nz =
    let (read, s1) = rdma_read_page (o 0) off temp page_size s in
    let (id, w) = submitted (o 1) dest temp s1 in
    simp (transfer_to_prefetch_buffer, b, ap is_success e, ==_ne id 0 nz) refl

await-begun :
    (malloc : Bool) (o o' : Outside) (dest temp : ℕ) (r : PrefetchRecord) (s : Storage)
    → Ready s.world
    → InRemote dest page_size s.world
    → let (id, w) = submitted o dest temp s in
      await (served malloc o') (begun id r) (record s { world = w }) ≡ (
        record (begun id r) { status = prefetch_completed },
        record s {
          world =
              after_written o.timestamp 0 dest page_size (λ k. s.world.memory (temp + k)) s.world;
        },
      )
unfolding await is_in_progress
await-begun malloc o o' dest temp r s h k =
    let bytes : ℕ → ℕ = λ k. s.world.memory (temp + k) in
    let (_, answer, waited) = ask_write malloc o.timestamp 0 dest page_size bytes s.world h k in
    let (id, w) = submitted o dest temp s in
    simp
      (
        await,
        wait_success-run (server_pass malloc) id w
            (after_written o.timestamp 0 dest page_size bytes s.world) s.world.memory answer waited,
      )
      refl

-- the storage once the write of the page at `temp` to the buffer of a record was answered
abbrev in_buffer : Outside → (temp : ℕ) → PrefetchRecord → Storage → Storage
in_buffer o temp r s = record s {
  world =
      after_written o.timestamp 0 r.remote_addr page_size (λ k. s.world.memory (temp + k)) s.world;
}

in_buffer-Ready :
    (o : Outside) (temp : ℕ) (r : PrefetchRecord) (s : Storage)
    → Ready s.world
    → s.world.request_id_counter + 1 < word
    → Ready (in_buffer o temp r s).world
in_buffer-Ready o temp r s h room =
    let w : World = s.world in
    let bytes : ℕ → ℕ = λ k. w.memory (temp + k) in
    let moved : ℕ → ℕ = memcpy w.shm.page_buffer 0 bytes 0 page_size in
    Ready-contents (replied (written o.timestamp 0 r.remote_addr page_size w) w) w.memory
      (memcpy w.remote_memory (r.remote_addr - w.shm.remote_memory_base) moved 0 page_size) moved
      page_size
      (replied-Ready (written o.timestamp 0 r.remote_addr page_size w) w h room (
        request_id-new_request op_write 0 r.remote_addr page_size w.request_id_counter o.timestamp))

retrieve-begun :
    (malloc : Bool) (o : Outside) (o' : ℕ → Outside) (temp local : ℕ) (r : PrefetchRecord)
    (s : Storage)
    → Ready s.world
    → s.world.request_id_counter + 1 < word
    → InRemote r.remote_addr page_size s.world
    → local ≢ 0
    → let (id, w) = submitted o r.remote_addr temp s in
      retrieve_prefetched_data_to_local_buffer
        (λ k. served malloc (o' k))
        local
        (begun id r)
        (record s { world = w })
      ≡ (
        true,
        record (begun id r) { status = prefetch_completed; remote_addr = 0 },
        free_remote r.remote_addr (after_buffer (o' 1) r.remote_addr local (in_buffer o temp r s)),
      )
unfolding retrieve_prefetched_data_to_local_buffer is_completed
retrieve-begun malloc o o' temp local r s h room k nz =
    let (id, w) = submitted o r.remote_addr temp s in
    rw (await-begun malloc o (o' 0) r.remote_addr temp r s h k) (
      read_buffer-run malloc (o' 1) local (record (begun id r) { status = prefetch_completed })
        (in_buffer o temp r s) (in_buffer-Ready o temp r s h room)
        (InRemote-moved r.remote_addr page_size s.world (in_buffer o temp r s).world refl k) nz)

retrieved-content :
    (o o' : Outside) (temp local k : ℕ) (r : PrefetchRecord) (s : Storage)
    → k < page_size
    → (free_remote r.remote_addr
          (after_buffer o' r.remote_addr local (in_buffer o temp r s))).world.memory
        (local + k)
      ≡ s.world.memory (temp + k)
retrieved-content o o' temp local k r s low =
    buffer-content o' r.remote_addr local k (in_buffer o temp r s) low
    ∙ kept_bytes s.world.remote_memory s.world.shm.page_buffer (λ j. s.world.memory (temp + j))
        (r.remote_addr - s.world.shm.remote_memory_base) k low

-- A page that the storage holds is transferred to a buffer in the remote memory and then retrieved
-- to an address of this process other than NULL. If the `malloc` of the temporary page of the
-- transfer succeeds, the server answers each request in time, and the ids of requests do not wrap,
-- the transfer begins, the retrieval succeeds, and at the address stand, byte for byte, what
-- `rdma_read_page` brings of the page. The record is complete, without its buffer.
pub retrieve-transfer :
    (malloc : Bool) (o o' : ℕ → Outside) (off i p temp local : ℕ) (ok : Bool) (bytes : ℕ → ℕ)
    (r : PrefetchRecord) (s : Storage)
    → Stored off i bytes s
    → s.world.request_id_counter + 2 < word
    → convert_pointers_from_remote_storage (some (load_word bytes last_word)) s.translator
      ≡ (ok, some p)
    → p < word
    → InRemote r.remote_addr page_size s.world
    → (o 0).buffer ≡ some temp
    → temp ≢ 0
    → local ≢ 0
    → let (_, read) = rdma_read_page (served malloc (o 0)) off temp page_size s in
      let (started, r1, s1) =
        transfer_to_prefetch_buffer (λ k. served malloc (o k)) off r.remote_addr r s in
      let (retrieved, r2, s2) =
        retrieve_prefetched_data_to_local_buffer (λ k. served malloc (o' k)) local r1 s1 in
      (started ≡ true)
      × (retrieved ≡ true)
      × (r2.status ≡ prefetch_completed)
      × (r2.remote_addr ≡ 0)
      × ((k : ℕ) → k < page_size → s2.world.memory (local + k) ≡ read.world.memory (temp + k))
retrieve-transfer malloc o o' off i p temp local ok bytes r s h room c low range b nz nz' =
    let (reads, _, stored, _, _, _, base, ids) =
      rdma_read_page-Stored malloc (o 0) off temp i p ok bytes s h (omega arith) nz c low in
    let (_, s1) = rdma_read_page (served malloc (o 0)) off temp page_size s in
    let (id, w) = submitted (o 1) r.remote_addr temp s1 in
    let there : InRemote r.remote_addr page_size s1.world =
      InRemote-moved r.remote_addr page_size s.world s1.world base range in
    let (own, _, _) =
      ask_write malloc (o 1).timestamp 0 r.remote_addr page_size (λ k. s1.world.memory (temp + k))
        s1.world stored.ready there in
    rw
      (
        transfer-run (λ k. served malloc (o k)) off r.remote_addr temp r s b reads
            (λ z. omega (arith, stored.ready.live, own, z)),
        retrieve-begun malloc (o 1) o' temp local r s1 stored.ready (omega arith) there nz',
      )
      (refl, refl, refl, refl, λ k low'. retrieved-content (o 1) (o' 1) temp local k r s1 low')
