-- ===== src/RdmaStorage/Allocate.antt =====
-- `allocate_remote_region`, whatever the server does: which slot it takes, and what the table then
-- has for each offset.
use swap_prefetch.Common.{
  ℕ, ◌+◌, ◌≡◌, ◌≢◌, ◌<◌, refl, sym, ap, ◌∙◌, true, false, not, ◌||◌, Option, none, some, List, ◌==◌,
  leb, if◌then◌else◌, add64, length, set, arith, ◌⊎◌, inl, inr, Bool-cases,
}
use swap_prefetch.RdmaSim.Requests.{op_allocate, rdma_submit_request}
use swap_prefetch.RdmaStorage.{
  RemoteRegion, Storage, Outside, region_at, find_remote_region, first_unused, oldest, uint64_max,
  free_remote, wait_request, allocated_addr, make_remote_region, request_region,
  allocate_remote_region,
}
use swap_prefetch.RdmaStorage.Table.{
  Holds, region_at-set_same, first_unused-cases, used-in, Oldest, oldest-cases,
}
use swap_prefetch.RdmaStorage.Lookup.{
  IsTable, lookup, find-none, set-IsTable, lookup-set_same, lookup-set_other, lookup-set_lost,
}

-- a table with the region `r` in slot `i`, whose offset no other slot holds
pub record InSlot (i : ℕ) (r : RemoteRegion) (n : ℕ) (l : List RemoteRegion) (n' : ℕ)
    (l' : List RemoteRegion) : Type 0 where
  pub valid : IsTable n' l'
  pub here : region_at l' i ≡ r
  pub found : lookup r.virtual_offset n' l' ≡ some r
  pub kept : (o : ℕ) → o ≢ r.virtual_offset → ¬ Holds o i l → lookup o n' l' ≡ lookup o n l
  pub lost : (o : ℕ) → o ≢ r.virtual_offset → Holds o i l → lookup o n' l' ≡ none

pub set-InSlot :
    (n i : ℕ) (l : List RemoteRegion) (r : RemoteRegion)
    → i < length l
    → IsTable n l
    → ((j : ℕ) → ¬ Holds r.virtual_offset j l)
    → r.in_use ≡ true
    → InSlot i r n l (if leb n i then i + 1 else n) (set l i r)
set-InSlot n i l r low t alone u =
    let m : ℕ = if leb n i then i + 1 else n in
    let t' : IsTable m (set l i r) = set-IsTable n i l r low t (λ j _. alone j) in
    record {
      valid = t';
      here = region_at-set_same l i r low;
      found = lookup-set_same n i l r low m t' u;
      kept = λ o ne h. lookup-set_other n i l r low o m t t' h (λ p. ne (sym p.1));
      lost = λ o ne h. lookup-set_lost n i l r low o m t h (λ p. ne (sym p.1));
    }

-- The request either gives no region, and the table stays, or the region in slot `i`.
request_region-cases :
    (o : Outside) (key size i : ℕ) (s : Storage)
    → let (result, s') = request_region o key size i s in
      ((result ≡ none)
        × (s'.remote_regions ≡ s.remote_regions)
        × (s'.num_remote_regions ≡ s.num_remote_regions))
      ⊎ ((addr : ℕ) × (addr ≢ 0)
          × (result ≡ some i)
          × (s'.remote_regions ≡ set s.remote_regions i (make_remote_region key size addr o.time))
          × (s'.num_remote_regions
              ≡ (if leb s.num_remote_regions i then i + 1 else s.num_remote_regions)))
unfolding request_region
request_region-cases o key size i s =
    let (id, w) = rdma_submit_request o.timestamp op_allocate 0 0 size none s.world in
    let (ok, v) = wait_request o.answer id w in
    elim (Bool-cases (id == 0)) [
      | inl z ↦ simp z (inl (refl, refl, refl))
      | inr nz ↦ elim (Bool-cases (not ok || (allocated_addr id v.shm.requests == 0))) [
        | inl fails ↦ simp (nz, fails) (inl (refl, refl, refl))
        | inr given ↦
            simp (nz, given)
              (inr (allocated_addr id v.shm.requests, (λ e. ground arith), refl, refl, refl))
      ]
    ]

free_remote-table :
    (addr : ℕ) (s : Storage)
    → ((free_remote addr s).remote_regions ≡ s.remote_regions)
      × ((free_remote addr s).num_remote_regions ≡ s.num_remote_regions)
unfolding free_remote
free_remote-table addr s = (refl, refl)

-- the slot that an allocation takes: an unused one, or, if there is none, the one that was used the
-- longest ago
abbrev pub Chosen : (i n : ℕ) → List RemoteRegion → Type 0
Chosen i n l =
    ((region_at l i).in_use ≡ false)
    ⊎ (((j : ℕ) → j < length l → (region_at l j).in_use ≡ true) × Oldest i n l)

-- what an allocation for `key` comes to: no region and the same table, or a region
abbrev pub Allocation : (key size time n : ℕ) → List RemoteRegion → Option ℕ × Storage → Type 0
Allocation key size time n l (result, s') =
    ((result ≡ none) × (s'.remote_regions ≡ l) × (s'.num_remote_regions ≡ n))
    ⊎ ((i : ℕ) × (addr : ℕ) × (addr ≢ 0)
        × (result ≡ some i)
        × Chosen i n l
        × InSlot i (make_remote_region key size addr time) n l s'.num_remote_regions
            s'.remote_regions)

request_region-Allocation :
    (o : Outside) (key size i : ℕ) (s : Storage)
    → IsTable s.num_remote_regions s.remote_regions
    → ((j : ℕ) → ¬ Holds key j s.remote_regions)
    → i < length s.remote_regions
    → Chosen i s.num_remote_regions s.remote_regions
    → Allocation key size o.time s.num_remote_regions s.remote_regions
        (request_region o key size i s)
unfolding make_remote_region
request_region-Allocation o key size i s t alone low c =
    elim (request_region-cases o key size i s) [
      | inl (none_given, l, n) ↦ inl (none_given, l, n)
      | inr (addr, nz, given, l, n) ↦ inr (
        i,
        addr,
        nz,
        given,
        c,
        rw (l, n)
            (set-InSlot s.num_remote_regions i s.remote_regions
              (make_remote_region key size addr o.time) low t alone refl),
      )
    ]

-- the storage once the region in slot `j` is given up
abbrev given_up : ℕ → Storage → Storage
given_up j s =
    let freed : Storage = free_remote (region_at s.remote_regions j).remote_addr s in
    record freed { rdma_frees = add64 freed.rdma_frees 1 }

pub allocate-unused :
    (o : Outside) (key size i : ℕ) (s : Storage)
    → first_unused s.remote_regions ≡ some i
    → allocate_remote_region o key size s ≡ request_region o key size i s
unfolding allocate_remote_region
allocate-unused o key size i s e = simp (allocate_remote_region, e) refl

allocate-none :
    (o : Outside) (key size : ℕ) (s : Storage)
    → first_unused s.remote_regions ≡ none
    → oldest 0 s.num_remote_regions uint64_max none s.remote_regions ≡ none
    → allocate_remote_region o key size s ≡ (none, s)
unfolding allocate_remote_region
allocate-none o key size s e f = simp (allocate_remote_region, e, f) refl

allocate-oldest :
    (o : Outside) (key size j : ℕ) (s : Storage)
    → first_unused s.remote_regions ≡ none
    → oldest 0 s.num_remote_regions uint64_max none s.remote_regions ≡ some j
    → allocate_remote_region o key size s ≡ request_region o key size j (given_up j s)
unfolding allocate_remote_region
allocate-oldest o key size j s e f = simp (allocate_remote_region, e, f) refl

-- Whatever the server does, an allocation for an offset that a valid table does not know either
-- gives no region and leaves the table as it is, or gives one with an address other than 0, in an
-- unused slot or, only if each slot is in use, in place of the region that was used the longest
-- ago. The table is then valid and has the new region for the offset; an offset that was in that
-- slot has no region any more, and each other offset keeps its region.
pub allocate_remote_region_lem :
    (o : Outside) (key size : ℕ) (s : Storage)
    → IsTable s.num_remote_regions s.remote_regions
    → find_remote_region key s.num_remote_regions s.remote_regions ≡ none
    → Allocation key size o.time s.num_remote_regions s.remote_regions
        (allocate_remote_region o key size s)
unfolding free_remote
allocate_remote_region_lem o key size s t missing =
    let alone = find-none key s.num_remote_regions s.remote_regions t missing in
    elim (first_unused-cases s.remote_regions) [
      | inl (i, e, low, free) ↦
          rw (allocate-unused o key size i s e)
            (request_region-Allocation o key size i s t alone low (inl free))
      | inr (e, all) ↦ elim (oldest-cases 0 s.num_remote_regions uint64_max none s.remote_regions) [
        | inl (f, _) ↦ rw (allocate-none o key size s e f) (inl (refl, refl, refl))
        | inr (j, f, _, h) ↦ rw (allocate-oldest o key size j s e (f ∙ ap some (zero_plus j))) (
            request_region-Allocation o key size j (given_up j s) t alone
              (used-in s.remote_regions j h.used) (inr (all, h)))
      ]
    ]
  where
    zero_plus : (j : ℕ) → 0 + j ≡ j
    zero_plus j = omega arith
