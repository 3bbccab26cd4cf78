-- ===== src/RdmaStorage.antt =====
-- The storage of pages in the remote memory, storage_rdma.c: its table of regions, and the reads
-- and writes of pages, which go through the shared segment.
--
-- `remote_regions` is a list, and a pointer into it is an index; its length is the number of slots.
-- The client waits for each request that it submits, so what the server does in that time is one
-- step, `answer`; RdmaSim.Requests has the server's own, `server_pass`.
pub mod Word
pub mod Start
pub mod Invariant
pub mod RoundTrip
pub mod Fresh
pub mod Written
pub mod Stored
pub mod Given
pub mod Allocate
pub mod Lookup
pub mod Table
mod Tests
use swap_prefetch.Common.{
  ℕ, zero, suc, ◌+◌, ◌-◌, ◌*◌, ◌/◌, ◌%◌, ◌^◌, Bool, true, false, not, ◌&&◌, ◌||◌, Option, none,
  some, List, [], ◌∷◌, ◌==◌, ltb, leb, if◌then◌else◌, add64, word, get_elem?, set,
}
use swap_prefetch.RdmaSim.Errno.{Errno, efault, enomem}
use swap_prefetch.RdmaSim.Allocator.{Block, Allocator, rdma_sim_free}
use swap_prefetch.RdmaSim.Requests.{
  OpType, op_read, op_write, op_allocate, Request, World, rdma_submit_request, rdma_wait_request,
  memcpy,
}
use swap_prefetch.AddressTranslation.{Translator, register_address_region}
use swap_prefetch.PointerPrefetch.{
  page_size, pointer_offset_from_end, convert_pointers_for_remote_storage,
  convert_pointers_from_remote_storage,
}

abbrev pub max_remote_regions : ℕ
max_remote_regions = 65536

-- `remote_region_t`
pub record RemoteRegion : Type 0 where
  pub virtual_offset : ℕ
  pub remote_addr : ℕ
  pub size : ℕ
  pub in_use : Bool
  pub last_access : ℕ
  pub dirty : Bool

-- a slot after `memset` to 0
abbrev pub unused : RemoteRegion
unused = record {
  virtual_offset = 0;
  remote_addr = 0;
  size = 0;
  in_use = false;
  last_access = 0;
  dirty = false;
}

-- The static variables of storage_rdma.c, with the segment and the client's memory, the client's
-- translator, and `sim_remote_memory_blocks` as the client has it.
pub record Storage : Type 0 where
  pub world : World
  pub client_blocks : List Block
  pub translator : Translator
  pub remote_regions : List RemoteRegion
  pub num_remote_regions : ℕ
  pub rdma_reads : ℕ
  pub rdma_writes : ℕ
  pub rdma_hits : ℕ
  pub rdma_misses : ℕ
  pub rdma_allocations : ℕ
  pub rdma_frees : ℕ
  pub rdma_initialized : Bool

-- What comes from outside: the server's step while the client waits, `rdma_get_timestamp()`,
-- `time(NULL)`, the result of the `malloc` of a buffer, and whether that of an address region
-- succeeds.
pub record Outside : Type 0 where
  pub answer : World → World
  pub timestamp : ℕ
  pub time : ℕ
  pub buffer : Option ℕ
  pub region_malloc : Bool

-- the values that the operations return: 0, -1, and the negated numbers of errors
pub data Return : Type 0 where
  success failure : Return
  minus : Errno → Return

pub region_at : List RemoteRegion → ℕ → RemoteRegion
region_at l i = elim (get_elem? l i) [ none ↦ unused | some r ↦ r ]

-- one further, for an index into the rest of a list
abbrev pub next_index : Option ℕ → Option ℕ
next_index none = none
next_index (some i) = some (suc i)

-- The loop of `find_remote_region` over the first `n` slots.
pub find_remote_region : (virtual_offset n : ℕ) → List RemoteRegion → Option ℕ
find_remote_region o zero l = none
find_remote_region o (suc n) [] = none
find_remote_region o (suc n) (r ∷ rs) =
    let rest = find_remote_region o n rs in
    if r.in_use && (r.virtual_offset == o) then some 0 else next_index rest

-- the first loop of `allocate_remote_region`
pub first_unused : List RemoteRegion → Option ℕ
first_unused [] = none
first_unused (r ∷ rs) = let rest = first_unused rs in if r.in_use then next_index rest else some 0

-- The second loop, from slot `i` on over `n` slots, with `oldest_time` and `oldest_index`.
pub oldest : (i n oldest_time : ℕ) (oldest_index : Option ℕ) → List RemoteRegion → Option ℕ
oldest i zero time index l = index
oldest i (suc n) time index [] = index
oldest i (suc n) time index (r ∷ rs) =
    if r.in_use && ltb r.last_access time
    then oldest (suc i) n r.last_access (some i) rs
    else oldest (suc i) n time index rs

abbrev pub uint64_max : ℕ
uint64_max = word - 1

-- `rdma_sim_free` in the client's process: its list of blocks, the counter of the segment
pub free_remote : ℕ → Storage → Storage
free_remote addr s =
    let (_, a) = rdma_sim_free addr (record {
      blocks = s.client_blocks;
      backed = false;
      connected = s.world.connected;
      used = s.world.server.used;
    }) in
    record s {
      client_blocks = a.blocks;
      world = record s.world { server = record s.world.server { used = a.used } };
    }

-- `rdma_wait_request`, while which the server makes its step
pub wait_request : (answer : World → World) → ℕ → World → Bool × World
wait_request answer id w =
    let v : World = answer w in
    let (ok, _, memory) = rdma_wait_request id (λ _. v.shm) v in (ok, record v { memory = memory })

-- the loop over the slots of the segment, for the address that the server wrote
pub allocated_addr : ℕ → List Request → ℕ
allocated_addr id [] = 0
allocated_addr id (r ∷ rs) =
    let rest = allocated_addr id rs in if r.request_id == id then r.remote_addr else rest

-- the region that `allocate_remote_region` writes
pub make_remote_region : (key size addr time : ℕ) → RemoteRegion
make_remote_region key size addr time = record {
  virtual_offset = key;
  remote_addr = addr;
  size = size;
  in_use = true;
  last_access = time;
  dirty = false;
}

-- the second half of `allocate_remote_region`, from the request on, for the slot `i`
pub request_region : Outside → (key size i : ℕ) → Storage → Option ℕ × Storage
request_region o key size i s =
    let (id, w) = rdma_submit_request o.timestamp op_allocate 0 0 size none s.world in
    if id == 0
    then (none, record s { world = w })
    else let (ok, v) = wait_request o.answer id w in
      let addr : ℕ = allocated_addr id v.shm.requests in
      if not ok || (addr == 0) then (none, record s { world = v }) else (
        some i,
        record s {
          world = v;
          remote_regions = set s.remote_regions i (make_remote_region key size addr o.time);
          num_remote_regions = if leb s.num_remote_regions i then i + 1 else s.num_remote_regions;
          rdma_allocations = add64 s.rdma_allocations 1;
        },
      )

pub allocate_remote_region : Outside → (key size : ℕ) → Storage → Option ℕ × Storage
allocate_remote_region o key size s = elim (first_unused s.remote_regions) [
  | some i ↦ request_region o key size i s
  | none ↦ elim (oldest 0 s.num_remote_regions uint64_max none s.remote_regions) [
    | none ↦ (none, s)
    | some i ↦
        let freed : Storage = free_remote (region_at s.remote_regions i).remote_addr s in
        request_region o key size i (record freed { rdma_frees = add64 freed.rdma_frees 1 })
  ]
]

-- the offset of the region that was allocated
pub offset_of : Option ℕ × Storage → ℕ × Storage
offset_of (none, s) = (uint64_max, s)
offset_of (some i, s) = ((region_at s.remote_regions i).virtual_offset, s)

pub rdma_allocate_page_offset : Outside → (size : ℕ) → Storage → ℕ × Storage
rdma_allocate_page_offset o size s =
    if not s.rdma_initialized
    then (uint64_max, s)
    else offset_of (allocate_remote_region o 0 size s)

-- the eight bytes from `a` on, as the number that they stand for in little-endian order
pub load_word : (memory : ℕ → ℕ) (a : ℕ) → ℕ
load_word m a =
    m a
    + 2 ^ 8 * m (a + 1)
    + 2 ^ 16 * m (a + 2)
    + 2 ^ 24 * m (a + 3)
    + 2 ^ 32 * m (a + 4)
    + 2 ^ 40 * m (a + 5)
    + 2 ^ 48 * m (a + 6)
    + 2 ^ 56 * m (a + 7)

-- byte `k` of a number
pub byte : (v k : ℕ) → ℕ
byte v k = v / 2 ^ (8 * k) % 2 ^ 8

pub store_word : (memory : ℕ → ℕ) (a v : ℕ) → ℕ → ℕ
store_word m a v = memcpy m a (byte v) 0 8

-- where the word that holds the pointer stands in a page
abbrev pub last_word : ℕ
last_word = page_size - pointer_offset_from_end

-- what a conversion makes of the bytes of a page, given what it makes of the last word
pub convert_page : Bool × Option ℕ → (ℕ → ℕ) → (a : ℕ) → ℕ → ℕ
convert_page (_, none) m a = m
convert_page (_, some v) m a = store_word m (a + last_word) v

pub convert_from : Translator → (page : ℕ) → (ℕ → ℕ) → ℕ → ℕ
convert_from t page m =
    if page == 0
    then m
    else convert_page
        (convert_pointers_from_remote_storage (some (load_word m (page + last_word))) t) m page

pub convert_for : Translator → (ℕ → ℕ) → ℕ → ℕ
convert_for t bytes =
    convert_page (convert_pointers_for_remote_storage (some (load_word bytes last_word)) t) bytes 0

-- the part of `rdma_read_page` from the request on, for a region at `addr`
pub fetch : Outside → (addr dest size : ℕ) → Storage → Return × Storage
fetch o addr dest size s =
    let (id, w) = rdma_submit_request o.timestamp op_read dest addr size none s.world in
    let (ok, v) = wait_request o.answer id w in
    if not ok
    then (failure, record s { world = v })
    else let copied : ℕ → ℕ =
        if v.connected then memcpy v.memory dest v.shm.page_buffer 0 size else v.memory in
      (
        success,
        record s {
          world = record v {
            memory = if size == page_size then convert_from s.translator dest copied else copied;
          };
        },
      )

abbrev pub on_region : ℕ → (RemoteRegion → RemoteRegion) → Storage → Storage
on_region i f s = record s {
  remote_regions = set s.remote_regions i (f (region_at s.remote_regions i));
}

pub rdma_read_page : Outside → (virtual_offset dest size : ℕ) → Storage → Return × Storage
rdma_read_page o virtual_offset dest size s =
    if not s.rdma_initialized
    then (failure, s)
    else let c : Storage = record s { rdma_reads = add64 s.rdma_reads 1 } in
      elim (find_remote_region virtual_offset s.num_remote_regions s.remote_regions) [
        | none ↦ (minus efault, record c { rdma_misses = add64 s.rdma_misses 1 })
        | some i ↦ fetch o (region_at s.remote_regions i).remote_addr dest size (
            on_region i (λ r. record r { last_access = o.time })
              (record c { rdma_hits = add64 s.rdma_hits 1 }))
      ]

-- the region for a write: the one that is found, or a new one
pub count_miss : Option ℕ × Storage → Option ℕ × Storage
count_miss (none, s) = (none, s)
count_miss (some i, s) = (some i, record s { rdma_misses = add64 s.rdma_misses 1 })

pub locate : Outside → (virtual_offset size : ℕ) → Storage → Option ℕ × Storage
locate o virtual_offset size s =
    elim (find_remote_region virtual_offset s.num_remote_regions s.remote_regions) [
      | none ↦ count_miss (allocate_remote_region o virtual_offset size s)
      | some i ↦ (some i, record s { rdma_hits = add64 s.rdma_hits 1 })
    ]

-- the new region in place of one of another size
pub resize : Outside → (virtual_offset size i : ℕ) → Storage → Option ℕ × Storage
resize o virtual_offset size i s =
    let r : RemoteRegion = region_at s.remote_regions i in
    if r.size == size
    then (some i, s)
    else let freed : Storage = free_remote r.remote_addr s in
      allocate_remote_region o virtual_offset size (
        on_region i (λ r. record r { in_use = false })
          (record freed { rdma_frees = add64 freed.rdma_frees 1 }))

-- The request of a write and what follows; `buffer` holds `bytes`.
pub send : Outside → (buffer addr size : ℕ) → (ℕ → ℕ) → Storage → Return × Storage
send o buffer addr size bytes s =
    let (id, w) = rdma_submit_request o.timestamp op_write buffer addr size (some bytes) s.world in
    if id == 0
    then (failure, record s { world = w })
    else let (ok, v) = wait_request o.answer id w in
      (if ok then success else failure, record s { world = v })

-- The part of `rdma_write_page` behind the lock: the copy of the page, registered and converted if
-- it has the size of a page, and its request.
pub store : Outside → (virtual_offset src size i : ℕ) → Storage → Return × Storage
store o virtual_offset src size i s = elim o.buffer [
  | none ↦ (minus enomem, s)
  | some buffer ↦
      let addr : ℕ = (region_at s.remote_regions i).remote_addr in
      let page : ℕ → ℕ = λ k. s.world.memory (src + k) in
      let (_, t) = register_address_region o.region_malloc virtual_offset size addr s.translator in
      if size == page_size
      then send o buffer addr size (convert_for t page) (record s { translator = t })
      else send o buffer addr size page s
]

-- the rest of `rdma_write_page`, once there is a region of the size, or none
pub write_region : Outside → (virtual_offset src size : ℕ) → Option ℕ × Storage → Return × Storage
write_region o virtual_offset src size (none, s) = (minus enomem, s)
write_region o virtual_offset src size (some i, s) =
    store o virtual_offset src size i
      (on_region i (λ r. record r { last_access = o.time; dirty = true }) s)

pub resized : Outside → (virtual_offset size : ℕ) → Option ℕ × Storage → Option ℕ × Storage
resized o virtual_offset size (none, s) = (none, s)
resized o virtual_offset size (some i, s) = resize o virtual_offset size i s

-- `o` gives what comes from outside for the first allocation, for the second, and for the write.
pub rdma_write_page : (o : ℕ → Outside) → (virtual_offset src size : ℕ) → Storage → Return × Storage
rdma_write_page o virtual_offset src size s =
    if not s.rdma_initialized
    then (failure, s)
    else write_region (o 2) virtual_offset src size (
        resized (o 1) virtual_offset size
          (locate (o 0) virtual_offset size (record s { rdma_writes = add64 s.rdma_writes 1 })))

pub rdma_get_storage_stats : Storage → ℕ × ℕ × ℕ × ℕ
rdma_get_storage_stats s = (s.rdma_reads, s.rdma_writes, s.rdma_hits, s.rdma_misses)
