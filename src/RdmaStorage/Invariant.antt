-- ===== src/RdmaStorage/Invariant.antt =====
-- The table of regions stays valid, whatever the server does, and the ways in which the operations
-- fail.
use swap_prefetch.Common.{
  ℕ, ◌+◌, ◌≡◌, ◌<◌, refl, sym, ap, ◌∙◌, subst, true, false, Option, none, some, List, ◌==◌, add64,
  length, set, ◌⊎◌, inl, inr, Bool-cases, Option-cases,
}
use swap_prefetch.RdmaSim.Errno.{efault}
use swap_prefetch.RdmaSim.Requests.{op_read, op_write, rdma_submit_request}
use swap_prefetch.AddressTranslation.{Translator, register_address_region}
use swap_prefetch.PointerPrefetch.{page_size}
use swap_prefetch.RdmaStorage.{
  make_remote_region, RemoteRegion, Storage, Outside, failure, minus, region_at, find_remote_region,
  on_region, free_remote, wait_request, allocate_remote_region, locate, count_miss, resize, resized,
  write_region, store, send, fetch, convert_for, uint64_max, rdma_allocate_page_offset, offset_of,
  rdma_read_page, rdma_write_page,
}
use swap_prefetch.RdmaStorage.Table.{Holds, used-in, find-cases}
use swap_prefetch.RdmaStorage.Lookup.{
  IsTable, find-none, find-nothing, clear-IsTable, touch-IsTable, Holds-set_inv, Holds-low,
}
use swap_prefetch.RdmaStorage.Stored.{touched, read-found}
use swap_prefetch.RdmaStorage.Written.{write-run}
use swap_prefetch.RdmaStorage.Allocate.{Allocation, allocate_remote_region_lem}

-- the table of a storage is valid
abbrev pub Valid : Storage → Type 0
Valid s = IsTable s.num_remote_regions s.remote_regions

-- a storage with the same table and statistics of reads
record SameBooks (s s' : Storage) : Type 0 where
  regions : s'.remote_regions ≡ s.remote_regions
  count : s'.num_remote_regions ≡ s.num_remote_regions
  reads : s'.rdma_reads ≡ s.rdma_reads
  hits : s'.rdma_hits ≡ s.rdma_hits
  misses : s'.rdma_misses ≡ s.rdma_misses

SameBooks-Valid : (s s' : Storage) → SameBooks s s' → Valid s → Valid s'
SameBooks-Valid s s' e t = rw (e.regions, e.count) t

-- what an operation has that may write through a slot: none, or the one that holds the offset
abbrev Usable : (off : ℕ) → Option ℕ × Storage → Type 0
Usable off (none, s) = Valid s
Usable off (some i, s) = Valid s × Holds off i s.remote_regions

Usable-none : (off : ℕ) (r : Option ℕ) (s : Storage) → r ≡ none → Valid s → Usable off (r, s)
Usable-none off r s e t = subst (λ x. Usable off (x, s)) (sym e) t

Usable-some :
    (off i : ℕ) (r : Option ℕ) (s : Storage)
    → r ≡ some i
    → Valid s
    → Holds off i s.remote_regions
    → Usable off (r, s)
Usable-some off i r s e t h = subst (λ x. Usable off (x, s)) (sym e) (t, h)

allocate-Usable :
    (o : Outside) (key size : ℕ) (s : Storage)
    → Valid s
    → find_remote_region key s.num_remote_regions s.remote_regions ≡ none
    → Usable key (allocate_remote_region o key size s)
unfolding make_remote_region
allocate-Usable o key size s t missing =
    let (r, s') = allocate_remote_region o key size s in
    elim (allocate_remote_region_lem o key size s t missing) [
      | inl (e, l, n) ↦ Usable-none key r s' e (rw (l, n) t)
      | inr (i, addr, _, e, _, p) ↦
          Usable-some key i r s' e p.valid (record {
            used = ap (λ x. x.in_use) p.here;
            offset = ap (λ x. x.virtual_offset) p.here;
          })
    ]

count_miss-Usable : (off : ℕ) (p : Option ℕ × Storage) → Usable off p → Usable off (count_miss p)
unfolding count_miss
count_miss-Usable off (none, s) h = h
count_miss-Usable off (some i, s) h = h

locate-Usable :
    (o : Outside) (off size : ℕ) (s : Storage) → Valid s → Usable off (locate o off size s)
unfolding locate
locate-Usable o off size s t = elim (find-cases off s.num_remote_regions s.remote_regions) [
  | inl (i, e, _, h) ↦ simp (locate, e) (t, h)
  | inr (e, _) ↦
      simp (locate, e)
        (count_miss-Usable off (allocate_remote_region o off size s)
          (allocate-Usable o off size s t e))
]

-- the storage once the region in slot `i` is given up for one of another size
abbrev dropped : ℕ → Storage → Storage
dropped i s =
    let r : RemoteRegion = region_at s.remote_regions i in
    let freed : Storage = free_remote r.remote_addr s in
    on_region i (λ r. record r { in_use = false })
      (record freed { rdma_frees = add64 freed.rdma_frees 1 })

resize-Usable :
    (o : Outside) (off size i : ℕ) (s : Storage)
    → Valid s
    → Holds off i s.remote_regions
    → Usable off (resize o off size i s)
unfolding resize free_remote
resize-Usable o off size i s t h =
    let r : RemoteRegion = region_at s.remote_regions i in
    let gone : RemoteRegion = record r { in_use = false } in
    let low : i < length s.remote_regions = used-in s.remote_regions i h.used in
    elim (Bool-cases (r.size == size)) [
      | inl y ↦ simp (resize, y) (t, h)
      | inr n ↦
          simp (resize, n)
            (allocate-Usable o off size (dropped i s)
              (clear-IsTable s.num_remote_regions i s.remote_regions gone low t
                (Holds-low off i s.num_remote_regions s.remote_regions t h) refl)
              (find-nothing off s.num_remote_regions (set s.remote_regions i gone) (λ j k.
                elim (Holds-set_inv s.num_remote_regions i s.remote_regions gone low off j k) [
                  | inl a ↦ cc a.1
                  | inr a ↦ a.0 (t.distinct off j i a.1 h)
                ])))
    ]

resized-Usable :
    (o : Outside) (off size : ℕ) (p : Option ℕ × Storage)
    → Usable off p
    → Usable off (resized o off size p)
unfolding resized
resized-Usable o off size (none, s) h = h
resized-Usable o off size (some i, s) (t, h) = resize-Usable o off size i s t h

send-SameBooks :
    (o : Outside) (buffer addr size : ℕ) (bytes : ℕ → ℕ) (s : Storage)
    → SameBooks s (send o buffer addr size bytes s).1
unfolding send
send-SameBooks o buffer addr size bytes s =
    let (id, w) = rdma_submit_request o.timestamp op_write buffer addr size (some bytes) s.world in
    elim (Bool-cases (id == 0)) [
      | inl z ↦
          simp (send, z)
            (record { regions = refl; count = refl; reads = refl; hits = refl; misses = refl })
      | inr nz ↦
          simp (send, nz)
            (record { regions = refl; count = refl; reads = refl; hits = refl; misses = refl })
    ]

store-SameBooks :
    (o : Outside) (off src size i : ℕ) (s : Storage) → SameBooks s (store o off src size i s).1
unfolding store
store-SameBooks o off src size i s = elim (Option-cases o.buffer) [
  | inl e ↦
      simp (store, e)
        (record { regions = refl; count = refl; reads = refl; hits = refl; misses = refl })
  | inr (b, e) ↦
      let addr : ℕ = (region_at s.remote_regions i).remote_addr in
      let (_, t) = register_address_region o.region_malloc off size addr s.translator in
      let page : ℕ → ℕ = λ k. s.world.memory (src + k) in
      elim (Bool-cases (size == page_size)) [
        | inl y ↦
            simp (store, e, y)
              (other t _
                (send-SameBooks o b addr size (convert_for t page) (record s { translator = t })))
        | inr n ↦ simp (store, e, n) (send-SameBooks o b addr size page s)
      ]
]
  where
    other :
        (t : Translator) (s1 : Storage)
        → SameBooks (record s { translator = t }) s1
        → SameBooks s s1
    other t s1 h = record {
      regions = h.regions;
      count = h.count;
      reads = h.reads;
      hits = h.hits;
      misses = h.misses;
    }

write_region-Valid :
    (o : Outside) (off src size : ℕ) (p : Option ℕ × Storage)
    → Usable off p
    → Valid (write_region o off src size p).1
unfolding write_region
write_region-Valid o off src size (none, s) h = h
write_region-Valid o off src size (some i, s) (t, h) =
    let r : RemoteRegion = record (region_at s.remote_regions i) {
      last_access = o.time;
      dirty = true;
    } in
    let s1 : Storage = on_region i (λ r. record r { last_access = o.time; dirty = true }) s in
    SameBooks-Valid s1 (store o off src size i s1).1 (store-SameBooks o off src size i s1) (
      touch-IsTable s.num_remote_regions i s.remote_regions r (used-in s.remote_regions i h.used) t
        refl refl)

-- A write keeps the table valid, whatever the server answers, whatever the size, and whether it
-- succeeds or not: slots behind `num_remote_regions` are unused and no offset has two regions.
pub rdma_write_page-Valid :
    (o : ℕ → Outside) (off src size : ℕ) (s : Storage)
    → Valid s
    → Valid (rdma_write_page o off src size s).1
unfolding rdma_write_page
rdma_write_page-Valid o off src size s t = elim (Bool-cases s.rdma_initialized) [
  | inr stopped ↦ simp (rdma_write_page, stopped) t
  | inl running ↦ rw (write-run o off src size s running) (
      write_region-Valid (o 2) off src size _ (
        resized-Usable (o 1) off size _
          (locate-Usable (o 0) off size (record s { rdma_writes = add64 s.rdma_writes 1 }) t)))
]

fetch-SameBooks :
    (o : Outside) (addr dest size : ℕ) (s : Storage) → SameBooks s (fetch o addr dest size s).1
unfolding fetch
fetch-SameBooks o addr dest size s =
    let (id, w) = rdma_submit_request o.timestamp op_read dest addr size none s.world in
    let (ok, v) = wait_request o.answer id w in
    elim (Bool-cases ok) [
      | inl y ↦
          simp (fetch, y)
            (record { regions = refl; count = refl; reads = refl; hits = refl; misses = refl })
      | inr n ↦
          simp (fetch, n)
            (record { regions = refl; count = refl; reads = refl; hits = refl; misses = refl })
    ]

-- a read that fails before any request: what it returns and what it counts
abbrev pub unread : Storage → Storage
unread s = record s { rdma_reads = add64 s.rdma_reads 1; rdma_misses = add64 s.rdma_misses 1 }

read-unknown :
    (o : Outside) (off dest size : ℕ) (s : Storage)
    → s.rdma_initialized ≡ true
    → find_remote_region off s.num_remote_regions s.remote_regions ≡ none
    → rdma_read_page o off dest size s ≡ (minus efault, unread s)
unfolding rdma_read_page
read-unknown o off dest size s h e = simp (rdma_read_page, h, e) refl

-- `rdma_read_page` on a valid table, whatever the server answers, whatever the size, does exactly
-- one of three things. If the storage is not initialised it returns -1 and changes nothing. If it
-- is and the table has no region for the offset, it returns -EFAULT and only counts a read and a
-- miss. If it is and there is a region, it counts a read and a hit. The table stays valid.
pub rdma_read_page_lem :
    (o : Outside) (off dest size : ℕ) (s : Storage)
    → Valid s
    → let (result, s') = rdma_read_page o off dest size s in
      Valid s'
      × (((s.rdma_initialized ≡ false) × (result ≡ failure) × (s' ≡ s))
          ⊎ ((s.rdma_initialized ≡ true)
              × ((i : ℕ) → ¬ Holds off i s.remote_regions)
              × (result ≡ minus efault)
              × (s' ≡ unread s))
          ⊎ ((s.rdma_initialized ≡ true)
              × (i : ℕ) × Holds off i s.remote_regions
              × (s'.rdma_reads ≡ add64 s.rdma_reads 1)
              × (s'.rdma_hits ≡ add64 s.rdma_hits 1)
              × (s'.rdma_misses ≡ s.rdma_misses)))
unfolding rdma_read_page
rdma_read_page_lem o off dest size s t = elim (Bool-cases s.rdma_initialized) [
  | inr stopped ↦ simp (rdma_read_page, stopped) (t, inl (refl, refl, refl))
  | inl running ↦ elim (find-cases off s.num_remote_regions s.remote_regions) [
    | inr (e, _) ↦ rw (read-unknown o off dest size s running e) (
      t,
      inr (inl (running, find-none off s.num_remote_regions s.remote_regions t e, refl, refl)),
    )
    | inl (i, e, _, h) ↦
        let r : RemoteRegion = record (region_at s.remote_regions i) { last_access = o.time } in
        let s1 : Storage = touched o.time i s in
        let same = fetch-SameBooks o (region_at s.remote_regions i).remote_addr dest size s1 in
        let t1 : Valid s1 =
          touch-IsTable s.num_remote_regions i s.remote_regions r
            (used-in s.remote_regions i h.used) t refl refl in
        rw (read-found o off dest size i s running e) (
          SameBooks-Valid s1 _ same t1,
          inr (inr (running, i, h, same.reads, same.hits, same.misses)),
        )
  ]
]

offset-running :
    (o : Outside) (size : ℕ) (s : Storage)
    → s.rdma_initialized ≡ true
    → rdma_allocate_page_offset o size s ≡ offset_of (allocate_remote_region o 0 size s)
unfolding rdma_allocate_page_offset
offset-running o size s h = simp (rdma_allocate_page_offset, h) refl

offset_of-cases :
    (r : Option ℕ) (s : Storage) (size time n : ℕ) (l : List RemoteRegion)
    → IsTable n l
    → Allocation 0 size time n l (r, s)
    → let (offset, s') = offset_of (r, s) in
      Valid s' × ((offset ≡ uint64_max) ⊎ ((offset ≡ 0) × (i : ℕ) × Holds 0 i s'.remote_regions))
unfolding offset_of make_remote_region
offset_of-cases none s size time n l t (inl (e, regions, count)) = (rw (regions, count) t, inl refl)
offset_of-cases none s size time n l t (inr (i, addr, nz, e, c, p)) = cc e
offset_of-cases (some i) s size time n l t (inl (e, regions, count)) = cc e
offset_of-cases (some i) s size time n l t (inr (j, addr, nz, e, c, p)) =
    let at : region_at s.remote_regions i ≡ make_remote_region 0 size addr time =
      ap (region_at s.remote_regions) (some_inj i j e) ∙ p.here in
    (
      p.valid,
      inr (
        ap (λ x. x.virtual_offset) at,
        i,
        record { used = ap (λ x. x.in_use) at; offset = ap (λ x. x.virtual_offset) at },
      ),
    )
  where
    some_inj : (i j : ℕ) → some i ≡ some j → i ≡ j
    some_inj i j e = cc

-- `rdma_allocate_page_offset` on a valid table without a region for the offset 0, whatever the
-- server answers: it returns `UINT64_MAX`, or it returns 0 and the table then has a region for 0;
-- no other offset is given out. The table stays valid.
pub rdma_allocate_page_offset_lem :
    (o : Outside) (size : ℕ) (s : Storage)
    → Valid s
    → find_remote_region 0 s.num_remote_regions s.remote_regions ≡ none
    → let (offset, s') = rdma_allocate_page_offset o size s in
      Valid s' × ((offset ≡ uint64_max) ⊎ ((offset ≡ 0) × (i : ℕ) × Holds 0 i s'.remote_regions))
unfolding rdma_allocate_page_offset
rdma_allocate_page_offset_lem o size s t missing = elim (Bool-cases s.rdma_initialized) [
  | inr stopped ↦ simp (rdma_allocate_page_offset, stopped) (t, inl refl)
  | inl running ↦
      let (r, s') = allocate_remote_region o 0 size s in
      rw (offset-running o size s running) (
        offset_of-cases r s' size o.time s.num_remote_regions s.remote_regions t
          (allocate_remote_region_lem o 0 size s t missing))
]
