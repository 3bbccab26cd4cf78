-- ===== src/Prefetch.antt =====
-- The prefetches of pointer_prefetch.c: a page on the storage is copied to a buffer in the remote
-- memory, and a fault on it is served from there.
--
-- The page that `get_user_page` finds, if any, is an argument; a record is looked up and, when it
-- has changed, written over its old state. `Outside` gives what comes from outside for a request.
mod Tests
pub mod Client
pub mod Retrieve
pub mod Transfer
use swap_prefetch.Common.{
  ℕ, zero, suc, ◌+◌, ◌%◌, ◌-◌, Bool, true, false, not, ◌&&◌, ◌||◌, Option, none, some, List, [],
  ◌∷◌, ◌==◌, if◌then◌else◌, add64,
}
use swap_prefetch.Memory.{PageData}
use swap_prefetch.RdmaSim.Errno.{Errno, Result, ok, err}
use swap_prefetch.RdmaSim.Allocator.{Allocator, rdma_sim_allocate}
use swap_prefetch.RdmaSim.Requests.{
  op_read, op_write, World, rdma_submit_request, rdma_wait_request, memcpy,
}
use swap_prefetch.PointerPrefetch.{
  PrefetchStatus, prefetch_none, prefetch_requested, prefetch_in_progress, prefetch_completed,
  prefetch_failed, PrefetchRecord, Prefetcher, page_size, find_prefetch_record, add_prefetch_record,
  overwrite_record, found_running, read_page_end_pointer, validate_pointer,
}
use swap_prefetch.RdmaStorage.{
  Storage, Outside, Return, success, failure, minus, free_remote, load_word, rdma_read_page,
}

-- the static variables of pointer_prefetch.c and those of the storage
pub record Prefetching : Type 0 where
  pub prefetcher : Prefetcher
  pub storage : Storage

-- `rdma_sim_allocate` in the client's process
pub allocate_local : (malloc : Bool) → ℕ → Storage → Result ℕ × Storage
allocate_local malloc size s =
    let (r, a) = rdma_sim_allocate true malloc size (record {
      blocks = s.client_blocks;
      backed = false;
      connected = s.world.connected;
      used = s.world.server.used;
    }) in
    (
      r,
      record s {
        client_blocks = a.blocks;
        world = record s.world { server = record s.world.server { used = a.used } };
      },
    )

pub is_success : Return → Bool
is_success success = true
is_success failure = false
is_success (minus e) = false

pub is_in_progress : PrefetchStatus → Bool
is_in_progress prefetch_in_progress = true
is_in_progress prefetch_completed = false
is_in_progress prefetch_none = false
is_in_progress prefetch_requested = false
is_in_progress prefetch_failed = false

pub is_completed : PrefetchStatus → Bool
is_completed prefetch_completed = true
is_completed prefetch_in_progress = false
is_completed prefetch_none = false
is_completed prefetch_requested = false
is_completed prefetch_failed = false

-- `rdma_wait_request` returns 0 and leaves 0 in `error_code`
pub succeeded : Bool × Option Errno × (ℕ → ℕ) → Bool
succeeded (done, none, m) = done
succeeded (done, some e, m) = false

-- the wait for a request, while which the server makes its step
pub wait_success : (answer : World → World) → ℕ → World → Bool × World
wait_success answer id w =
    let v : World = answer w in
    let waited = rdma_wait_request id (λ _. v.shm) v in
    (succeeded waited, record v { memory = waited.2 })

-- The page is read to the buffer that `malloc` gives, and from there written to `dest`.
pub transfer_to_prefetch_buffer :
    (o : ℕ → Outside) (virtual_offset dest : ℕ)
    → PrefetchRecord
    → Storage
    → Bool × PrefetchRecord × Storage
transfer_to_prefetch_buffer o virtual_offset dest r s = elim (o 0).buffer [
  | none ↦ (false, r, s)
  | some temp ↦
      let (read, s1) = rdma_read_page (o 0) virtual_offset temp page_size s in
      if not (is_success read)
      then (false, r, s1)
      else let page : ℕ → ℕ = λ k. s1.world.memory (temp + k) in
        let (id, w) =
          rdma_submit_request (o 1).timestamp op_write 0 dest page_size (some page) s1.world in
        if id == 0 then (false, record r { rdma_request_id = id }, record s1 { world = w }) else (
          true,
          record r { rdma_request_id = id; status = prefetch_in_progress },
          record s1 { world = w },
        )
]

-- a transfer that fails
pub on_transfer : Bool × PrefetchRecord × Storage → PrefetchRecord × Storage
on_transfer (true, r, s) = (r, s)
on_transfer (false, r, s) = (record r { status = prefetch_failed }, s)

-- a record whose page cannot be prefetched
pub give_up : PrefetchRecord → Storage → PrefetchRecord × Storage
give_up r s = (record r { status = prefetch_failed; remote_addr = 0 }, free_remote r.remote_addr s)

-- what becomes of the record, by the state of the page
pub start_transfer :
    (o : ℕ → Outside) → Option PageData → PrefetchRecord → Storage → PrefetchRecord × Storage
start_transfer o none r s = give_up r s
start_transfer o (some page) r s =
    if page.swapped_out
    then on_transfer (transfer_to_prefetch_buffer o page.virtual_offset r.remote_addr r s)
    else give_up r s

abbrev pub count_failed : Prefetcher → Prefetcher
count_failed p = record p {
  stats = record p.stats { failed_prefetch = add64 p.stats.failed_prefetch 1 };
}

abbrev pub count_started : Prefetcher → Prefetcher
count_started p = record p {
  stats = record p.stats { successful_prefetch = add64 p.stats.successful_prefetch 1 };
}

-- the record as it is at last, and the statistics
pub finish_prefetch : Prefetcher → PrefetchRecord × Storage → Bool × Prefetching
finish_prefetch p (r, s) =
    let q : Prefetcher = record p { records = overwrite_record r p.records } in
    if is_in_progress r.status
    then (true, record { prefetcher = count_started q; storage = s })
    else (false, record { prefetcher = count_failed q; storage = s })

-- the prefetch of a page to the buffer at `addr`, with the record of the page, if it was found
pub prefetch_into :
    (o : ℕ → Outside) (addr : ℕ)
    → Option PageData
    → Option PrefetchRecord
    → Prefetcher
    → Storage
    → Bool × Prefetching
prefetch_into o addr page none p s =
    (false, record { prefetcher = count_failed p; storage = free_remote addr s })
prefetch_into o addr page (some r) p s =
    finish_prefetch p
      (start_transfer o page (record r { remote_addr = addr; status = prefetch_requested }) s)

-- the record of the page, added if there is none
pub ensure_record :
    (malloc : Bool) (now target_va source_va : ℕ)
    → Option PrefetchRecord
    → Prefetcher
    → Option PrefetchRecord × Prefetcher
ensure_record malloc now target_va source_va (some r) p = (some r, p)
ensure_record malloc now target_va source_va none p =
    let (added, q) = add_prefetch_record malloc now source_va target_va target_va p in
    if added then (find_prefetch_record target_va q.records, q) else (none, q)

-- the tests for a page that needs no prefetch
pub is_present : Option PageData → Bool
is_present none = false
is_present (some page) = (not page.swapped_out && page.in_dram) || page.migrating

-- the step after the allocation of the buffer
pub on_buffer :
    (o : ℕ → Outside) (record_malloc : Bool) (target_va source_va : ℕ)
    → Option PageData
    → Prefetcher
    → Result ℕ × Storage
    → Bool × Prefetching
on_buffer o m target_va source_va page p (err e, s) =
    (false, record { prefetcher = count_failed p; storage = s })
on_buffer o m target_va source_va page p (ok addr, s) =
    let (r, q) =
      ensure_record m (o 0).timestamp target_va source_va (find_prefetch_record target_va p.records)
        p in
    prefetch_into o addr page r q s

-- `true` is the return value 0. The flags say whether each `malloc` of a block and of a record
-- succeeds.
pub async_prefetch_page :
    (o : ℕ → Outside) (block_malloc record_malloc : Bool) (target_va source_va : ℕ)
    → Option PageData
    → Prefetching
    → Bool × Prefetching
async_prefetch_page o block_malloc record_malloc target_va source_va page s =
    let p : Prefetcher = record s.prefetcher {
      stats = record s.prefetcher.stats {
        total_attempts = add64 s.prefetcher.stats.total_attempts 1;
      };
    } in
    if is_present page || found_running (find_prefetch_record target_va p.records)
    then (true, record s { prefetcher = p })
    else on_buffer o record_malloc target_va source_va page p
        (allocate_local block_malloc page_size s.storage)

-- the wait for the write to the buffer, if it is on its way
pub await : Outside → PrefetchRecord → Storage → PrefetchRecord × Storage
await o r s =
    if is_in_progress r.status
    then (let (done, w) = wait_success o.answer r.rdma_request_id s.world in
        (
          record r { status = if done then prefetch_completed else prefetch_failed },
          record s { world = w },
        ))
    else (r, s)

-- the read from the buffer, once it is complete
pub read_buffer :
    Outside → (local_buffer : ℕ) → PrefetchRecord → Storage → Bool × PrefetchRecord × Storage
read_buffer o local_buffer r s =
    let (id, w) =
      rdma_submit_request o.timestamp op_read local_buffer r.remote_addr page_size none s.world in
    if id == 0
    then (false, record r { status = prefetch_failed }, record s { world = w })
    else let (done, v) = wait_success o.answer id w in
      if done
      then (true, record r { remote_addr = 0 }, free_remote r.remote_addr (record s { world = v }))
      else (false, record r { status = prefetch_failed }, record s { world = v })

pub retrieve_prefetched_data_to_local_buffer :
    (o : ℕ → Outside) (local_buffer : ℕ)
    → PrefetchRecord
    → Storage
    → Bool × PrefetchRecord × Storage
retrieve_prefetched_data_to_local_buffer o local_buffer r s =
    let (q, s1) = await (o 0) r s in
    if is_completed q.status then read_buffer (o 1) local_buffer q s1 else (false, q, s1)

-- `UFFDIO_COPY` of a page from `buffer`, when the kernel carries it out
pub uffdio_copy : (va buffer : ℕ) → Storage → Storage
uffdio_copy va buffer s = record s {
  world = record s.world { memory = memcpy s.world.memory va s.world.memory buffer page_size };
}

abbrev pub count_hit : Prefetcher → Prefetcher
count_hit p = record p { stats = record p.stats { cache_hits = add64 p.stats.cache_hits 1 } }

abbrev pub store_back : PrefetchRecord → Prefetcher → Prefetcher
store_back r p = record p { records = overwrite_record r p.records }

-- the end of a fault on a page, after the retrieval; `copied` says whether the kernel copies
pub on_retrieved :
    (copied : Bool) (buffer : ℕ)
    → PageData
    → Prefetcher
    → Bool × PrefetchRecord × Storage
    → Bool × PageData × Prefetching
on_retrieved copied buffer page p (false, r, s) =
    (false, page, record { prefetcher = count_failed (store_back r p); storage = s })
on_retrieved false buffer page p (true, r, s) = (
  false,
  page,
  record {
    prefetcher = count_failed (store_back (record r { status = prefetch_failed }) p);
    storage = s;
  },
)
on_retrieved true buffer page p (true, r, s) = (
  true,
  record page { in_dram = true; swapped_out = false; migrating = false },
  record { prefetcher = count_hit (store_back r p); storage = uffdio_copy page.va buffer s },
)

-- the record of a page, if it may be served from a buffer
pub running_record : Option PrefetchRecord → Option PrefetchRecord
running_record none = none
running_record (some r) = if is_in_progress r.status || is_completed r.status then some r else none

-- `true` is the return value 0; `buffer` is `buffer_space`, which is not NULL.
pub handle_page_fault_with_prefetch :
    (o : ℕ → Outside) (copied : Bool) (buffer : ℕ)
    → PageData
    → Prefetching
    → Bool × PageData × Prefetching
handle_page_fault_with_prefetch o copied buffer page s =
    if not s.prefetcher.initialized
    then (false, page, s)
    else elim (running_record (find_prefetch_record page.va s.prefetcher.records)) [
      | none ↦ (false, page, s)
      | some r ↦
          on_retrieved copied buffer page s.prefetcher
            (retrieve_prefetched_data_to_local_buffer o buffer r s.storage)
    ]

-- core.c: what `handle_missing_fault` starts for the pointer at the end of a page that has come in;
-- `get_user_page` finds the page for an address.
pub prefetch_pointer_of :
    (o : ℕ → Outside) (block_malloc record_malloc : Bool) (get_user_page : ℕ → Option PageData)
    → PageData
    → (page_boundry : ℕ) → Prefetching
    → Prefetching
prefetch_pointer_of o block_malloc record_malloc get_user_page page page_boundry s =
    let t = s.storage.translator in
    let (pointer_value, p) =
      read_page_end_pointer (some page) (load_word s.storage.world.memory) t s.prefetcher in
    let (valid, q) = validate_pointer pointer_value page_boundry p in
    let target_va : ℕ = pointer_value - pointer_value % page_size in
    let (_, s1) =
      async_prefetch_page o block_malloc record_malloc target_va page_boundry
        (get_user_page target_va) (record s { prefetcher = q }) in
    if not page.in_dram
    then s
    else if pointer_value == 0
    then record s { prefetcher = p }
    else if valid
    then s1
    else record s { prefetcher = q }
