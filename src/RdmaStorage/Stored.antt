-- ===== src/RdmaStorage/Stored.antt =====
-- A page that the storage holds, and what `rdma_read_page` gives for it.
use swap_prefetch.Common.{
  ℕ, zero, suc, ◌+◌, ◌-◌, ◌≡◌, ◌≢◌, ◌≤◌, ◌<◌, refl, ap, ◌∙◌, Bool, true, ◌&&◌, some, List, [], ◌∷◌,
  ◌==◌, if◌then◌else◌, add64, word, length, set, arith, ◌⊎◌, inl, ==_ne, ==_refl,
}
use swap_prefetch.RdmaSim.Requests.{op_read, World, memcpy}
use swap_prefetch.RdmaSim.Requests.Exchange.{InRemote}
use swap_prefetch.RdmaSim.Requests.RoundTrip.{memcpy-in, memcpy-start, memcpy-out}
use swap_prefetch.RdmaSim.Requests.Ask.{
  Ready, replied-Ready, read_done, request_id-new_request, replied, Ready-contents, InRemote-moved,
}
use swap_prefetch.RdmaSim.Requests.Ring.{length-set}
use swap_prefetch.PointerPrefetch.{
  page_size, pointer_offset_from_end, convert_pointers_from_remote_storage,
}
use swap_prefetch.AddressTranslation.{Translator}
use swap_prefetch.RdmaStorage.{
  RemoteRegion, Storage, Outside, success, region_at, find_remote_region, on_region, next_index,
  byte, load_word, last_word, convert_page, convert_from, fetch, rdma_read_page,
}
use swap_prefetch.RdmaStorage.Word.{
  store_word-in, store_word-out, load_word-cong, load_word-store_word,
}
use swap_prefetch.RdmaStorage.Table.{region_at-set_same}
use swap_prefetch.RdmaStorage.Given.{served, fetched, fetch-run}

-- The storage runs, its client can ask, and it has a region for the page at `o`, in slot `i`.
pub record Home (o i : ℕ) (s : Storage) : Type 0 where
  pub running : s.rdma_initialized ≡ true
  pub ready : Ready s.world
  pub found : find_remote_region o s.num_remote_regions s.remote_regions ≡ some i
  pub in_table : i < length s.remote_regions
  pub range : InRemote (region_at s.remote_regions i).remote_addr page_size s.world

-- The storage, and the server behind it, hold `bytes` for the page at `o`, in slot `i`.
pub record Stored (o i : ℕ) (bytes : ℕ → ℕ) (s : Storage) : Type 0 where
  pub home : Home o i s
  pub open home use *
  pub content :
      (k : ℕ)
      → k < page_size
      → s.world.remote_memory
          ((region_at s.remote_regions i).remote_addr - s.world.shm.remote_memory_base + k)
        ≡ bytes k

-- the memory once `page` stands at `dest`, and what stood elsewhere still does
pub record Brought (dest p : ℕ) (bytes before after : ℕ → ℕ) : Type 0 where
  pub body : (k : ℕ) → k < last_word → after (dest + k) ≡ bytes k
  pub pointer : load_word after (dest + last_word) ≡ p
  pub last_bytes : (k : ℕ) → k < pointer_offset_from_end → after (dest + last_word + k) ≡ byte p k
  pub elsewhere : (a : ℕ) → (a < dest) ⊎ (dest + page_size ≤ a) → after a ≡ before a

pub find-touched :
    (o n i : ℕ) (l : List RemoteRegion) (r : RemoteRegion)
    → r.in_use ≡ (region_at l i).in_use
    → r.virtual_offset ≡ (region_at l i).virtual_offset
    → find_remote_region o n (set l i r) ≡ find_remote_region o n l
unfolding find_remote_region region_at
find-touched o zero i l r u v = refl
find-touched o (suc n) i [] r u v = refl
find-touched o (suc n) zero (x ∷ l) r u v = simp (u, v) refl
find-touched o (suc n) (suc i) (x ∷ l) r u v =
    ap (λ f. if x.in_use && (x.virtual_offset == o) then some 0 else next_index f)
      (find-touched o n i l r u v)

copied-Brought :
    (dest : ℕ) (bytes before moved : ℕ → ℕ)
    → ((k : ℕ) → k < page_size → moved k ≡ bytes k)
    → let copied = memcpy (memcpy before dest moved 0 page_size) dest moved 0 page_size in
      ((k : ℕ) → k < page_size → copied (dest + k) ≡ bytes k)
      × ((a : ℕ) → (a < dest) ⊎ (dest + page_size ≤ a) → copied a ≡ before a)
copied-Brought dest bytes before moved h = (
  λ k low. memcpy-start (memcpy before dest moved 0 page_size) dest moved page_size k low ∙ h k low,
  λ a out.
      memcpy-out (memcpy before dest moved 0 page_size) dest moved 0 page_size a out
      ∙ memcpy-out before dest moved 0 page_size a out,
)

-- the conversion of a page in memory whose last word is `q`
convert_from-Brought :
    (t : Translator) (dest q p : ℕ) (ok : Bool) (bytes before copied : ℕ → ℕ)
    → dest ≢ 0
    → load_word bytes last_word ≡ q
    → convert_pointers_from_remote_storage (some q) t ≡ (ok, some p)
    → p < word
    → ((k : ℕ) → k < page_size → copied (dest + k) ≡ bytes k)
    → ((a : ℕ) → (a < dest) ⊎ (dest + page_size ≤ a) → copied a ≡ before a)
    → Brought dest p bytes before (convert_from t dest copied)
unfolding convert_from convert_page
convert_from-Brought t dest q p ok bytes before copied nz e c low body out =
    let here : load_word copied (dest + last_word) ≡ q =
      load_word-cong copied bytes (dest + last_word) last_word
        (λ k h. ap copied (plus_assoc dest last_word k) ∙ body (last_word + k) (omega arith))
      ∙ e in
    simp (==_ne dest 0 nz, here, c)
      (record {
        body = λ k h.
            store_word-out copied (dest + last_word) p (dest + k) (inl (omega arith))
            ∙ body k (omega arith);
        pointer = load_word-store_word copied (dest + last_word) p low;
        last_bytes = λ k h. store_word-in copied (dest + last_word) p k h;
        elsewhere =
            λ a h. store_word-out copied (dest + last_word) p a (ground (arith, h)) ∙ out a h;
      })
  where
    plus_assoc : (x y z : ℕ) → x + y + z ≡ x + (y + z)
    plus_assoc x y z = omega arith

-- the storage as a read of slot `i` leaves it before its request
abbrev pub touched : (time i : ℕ) → Storage → Storage
touched time i s =
    on_region i (λ r. record r { last_access = time })
      (record s { rdma_reads = add64 s.rdma_reads 1; rdma_hits = add64 s.rdma_hits 1 })

pub read-found :
    (o : Outside) (off dest size i : ℕ) (s : Storage)
    → s.rdma_initialized ≡ true
    → find_remote_region off s.num_remote_regions s.remote_regions ≡ some i
    → rdma_read_page o off dest size s
      ≡ fetch o (region_at s.remote_regions i).remote_addr dest size (touched o.time i s)
unfolding rdma_read_page
read-found o off dest size i s h f = simp (rdma_read_page, h, f) refl

fetched-content :
    (o i : ℕ) (bytes : ℕ → ℕ) (s : Storage)
    → Stored o i bytes s
    → (k : ℕ) → k < page_size
    → fetched (region_at s.remote_regions i).remote_addr page_size s.world k ≡ bytes k
fetched-content o i bytes s h k low =
    let w : World = s.world in
    let at : ℕ = (region_at s.remote_regions i).remote_addr - w.shm.remote_memory_base in
    ap (fetched (region_at s.remote_regions i).remote_addr page_size w) (plus_zero k)
    ∙ memcpy-in w.shm.page_buffer 0 w.remote_memory at page_size k low
    ∙ h.content k low
  where
    plus_zero : (x : ℕ) → x ≡ 0 + x
    plus_zero x = omega arith

-- Reading a page that is stored, with a server that answers, to an address other than NULL
-- succeeds: the page's bytes stand there, its last word converted to `p`, and no other byte of the
-- memory is changed. The page is still stored, the read is counted as a hit, and the translator
-- stays.
pub rdma_read_page-Stored :
    (malloc : Bool) (o : Outside) (off dest i p : ℕ) (ok : Bool) (bytes : ℕ → ℕ) (s : Storage)
    → Stored off i bytes s
    → s.world.request_id_counter + 1 < word
    → dest ≢ 0
    → convert_pointers_from_remote_storage (some (load_word bytes last_word)) s.translator
      ≡ (ok, some p)
    → p < word
    → let (result, s') = rdma_read_page (served malloc o) off dest page_size s in
      (result ≡ success)
      × Brought dest p bytes s.world.memory s'.world.memory
      × Stored off i bytes s'
      × (s'.translator ≡ s.translator)
      × (s'.rdma_reads ≡ add64 s.rdma_reads 1)
      × (s'.rdma_hits ≡ add64 s.rdma_hits 1)
      × (s'.world.shm.remote_memory_base ≡ s.world.shm.remote_memory_base)
      × (s'.world.request_id_counter ≡ add64 s.world.request_id_counter 1)
rdma_read_page-Stored malloc o off dest i p ok bytes s h room nz c low =
    let r : RemoteRegion = region_at s.remote_regions i in
    let s1 : Storage = touched o.time i s in
    let moved : ℕ → ℕ = fetched r.remote_addr page_size s.world in
    let (body, out) =
      copied-Brought dest bytes s.world.memory moved (fetched-content off i bytes s h) in
    let same : region_at s1.remote_regions i ≡ record r { last_access = o.time } =
      region_at-set_same s.remote_regions i (record r { last_access = o.time }) h.in_table in
    rw
      (
        read-found (served malloc o) off dest page_size i s h.running h.found,
        fetch-run malloc o r.remote_addr dest page_size s1 h.ready h.range nz,
      )
      (
        refl,
        convert_from-Brought s.translator dest (load_word bytes last_word) p ok bytes s.world.memory
            (memcpy (memcpy s.world.memory dest moved 0 page_size) dest moved 0 page_size) nz refl c
            low body out,
        record {
          home = record {
            running = h.running;
            ready =
                Ready-contents
                  (replied (read_done o.timestamp dest r.remote_addr page_size s.world) s.world)
                  (convert_from s.translator dest
                    (memcpy (memcpy s.world.memory dest moved 0 page_size) dest moved 0 page_size))
                  s.world.remote_memory moved s.world.shm.page_buffer_used
                  (replied-Ready (read_done o.timestamp dest r.remote_addr page_size s.world)
                    s.world h.ready room
                    (request_id-new_request op_read dest r.remote_addr page_size
                      s.world.request_id_counter o.timestamp));
            found =
                find-touched off s.num_remote_regions i s.remote_regions
                  (record r { last_access = o.time }) refl refl
                ∙ h.found;
            in_table =
                rw (length-set s.remote_regions i (record r { last_access = o.time })) h.in_table;
            range = rw same (InRemote-moved r.remote_addr page_size s.world _ refl h.range);
          };
          content = rw same h.content;
        },
        refl,
        refl,
        refl,
        refl,
        refl,
      )

find-first :
    (n : ℕ) (r : RemoteRegion) (rs : List RemoteRegion)
    → 0 < n
    → r.in_use ≡ true
    → find_remote_region r.virtual_offset n (r ∷ rs) ≡ some 0
unfolding find_remote_region
find-first zero r rs h u = absurd (omega arith)
find-first (suc n) r rs h u = simp (u, ==_refl r.virtual_offset) refl

-- The page whose region is in the first slot.
pub first-Stored :
    (r : RemoteRegion) (rs : List RemoteRegion) (bytes : ℕ → ℕ) (s : Storage)
    → s.rdma_initialized ≡ true
    → Ready s.world
    → s.remote_regions ≡ r ∷ rs
    → 0 < s.num_remote_regions
    → r.in_use ≡ true
    → InRemote r.remote_addr page_size s.world
    → ((k : ℕ)
        → k < page_size
        → s.world.remote_memory (r.remote_addr - s.world.shm.remote_memory_base + k) ≡ bytes k)
    → Stored r.virtual_offset 0 bytes s
unfolding region_at
first-Stored r rs bytes s h ready e n u range content = record {
  home = record {
    running = h;
    ready = ready;
    found =
        ap (find_remote_region r.virtual_offset s.num_remote_regions) e
        ∙ find-first s.num_remote_regions r rs n u;
    in_table = rw e (omega arith);
    range = rw e range;
  };
  content = rw e content;
}
