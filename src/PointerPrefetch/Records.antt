-- ===== src/PointerPrefetch/Records.antt =====
-- The records of prefetches as a finite map from addresses, and their clean-up.
use swap_prefetch.Common.{
  ℕ, ◌≡◌, ◌≢◌, ◌<◌, ◌⊎◌, sub64, refl, sym, subst, ap, ◌∙◌, true, false, not, ◌&&◌, Option, none,
  some, List, [], ◌∷◌, ◌==◌, arith, inl, inr, Bool-cases, Option-cases, eq-cases, ltb, ltb→lt,
  ==_ne, ==_refl, if◌then◌else◌,
}
use swap_prefetch.RdmaSim.Allocator.{Allocator, rdma_sim_free}
use swap_prefetch.RdmaSim.Allocator.Correct.{IsHeap, rdma_sim_free_lem}
use swap_prefetch.PointerPrefetch.{
  PrefetchStatus, prefetch_none, prefetch_requested, prefetch_in_progress, prefetch_failed,
  PrefetchRecord, Prefetcher, find_prefetch_record, requested_record, overwrite_record,
  store_record, add_prefetch_record, found_running, is_running, prefetch_completed, is_expired,
  sweep, cleanup_old_prefetch_records,
}

-- no two records have the same address
abbrev pub Distinct : List PrefetchRecord → Type 0
Distinct [] = Unit
Distinct (r ∷ rs) = (find_prefetch_record r.target_va rs ≡ none) × Distinct rs

pub find-hit :
    (va : ℕ) (r : PrefetchRecord) (rs : List PrefetchRecord)
    → r.target_va ≡ va
    → find_prefetch_record va (r ∷ rs) ≡ some r
unfolding find_prefetch_record
find-hit va r rs e = rw (e, ==_refl va)

find-miss :
    (va : ℕ) (r : PrefetchRecord) (rs : List PrefetchRecord)
    → r.target_va ≢ va
    → find_prefetch_record va (r ∷ rs) ≡ find_prefetch_record va rs
unfolding find_prefetch_record
find-miss va r rs n = rw (==_ne r.target_va va n)

overwrite-hit :
    (new r : PrefetchRecord) (rs : List PrefetchRecord)
    → r.target_va ≡ new.target_va
    → overwrite_record new (r ∷ rs) ≡ new ∷ rs
unfolding overwrite_record
overwrite-hit new r rs e =
    let at : (r.target_va == new.target_va) ≡ true = ground (arith, e) in
    ap (λ b. if b then new ∷ rs else r ∷ overwrite_record new rs) at

overwrite-miss :
    (new r : PrefetchRecord) (rs : List PrefetchRecord)
    → r.target_va ≢ new.target_va
    → overwrite_record new (r ∷ rs) ≡ r ∷ overwrite_record new rs
unfolding overwrite_record
overwrite-miss new r rs n =
    ap (λ b. if b then new ∷ rs else r ∷ overwrite_record new rs)
      (==_ne r.target_va new.target_va n)

find-overwrite_other :
    (va : ℕ) (new : PrefetchRecord) (rs : List PrefetchRecord)
    → new.target_va ≢ va
    → find_prefetch_record va (overwrite_record new rs) ≡ find_prefetch_record va rs
unfolding overwrite_record
find-overwrite_other va new [] n = refl
find-overwrite_other va new (r ∷ rs) n = elim (eq-cases r.target_va new.target_va) [
  | inl e ↦
      ap (find_prefetch_record va) (overwrite-hit new r rs e)
      ∙ find-miss va new rs n
      ∙ sym (find-miss va r rs (λ k. n (sym e ∙ k)))
  | inr ne ↦
      ap (find_prefetch_record va) (overwrite-miss new r rs ne) ∙ elim (eq-cases r.target_va va) [
        | inl at ↦ find-hit va r (overwrite_record new rs) at ∙ sym (find-hit va r rs at)
        | inr off ↦
            find-miss va r (overwrite_record new rs) off
            ∙ find-overwrite_other va new rs n
            ∙ sym (find-miss va r rs off)
      ]
]

-- a record that is found is one for the address
pub find-target :
    (va : ℕ) (r : PrefetchRecord) (rs : List PrefetchRecord)
    → find_prefetch_record va rs ≡ some r
    → r.target_va ≡ va
unfolding find_prefetch_record
find-target va r [] h = cc
find-target va r (x ∷ rs) h = elim (eq-cases x.target_va va) [
  | inl e ↦ ap (λ o. target_or va o) (sym (sym (find-hit va x rs e) ∙ h)) ∙ e
  | inr ne ↦ find-target va r rs (sym (find-miss va x rs ne) ∙ h)
]
  where
    target_or : ℕ → Option PrefetchRecord → ℕ
    target_or d none = d
    target_or d (some q) = q.target_va

pub find-overwrite :
    (new r : PrefetchRecord) (rs : List PrefetchRecord)
    → find_prefetch_record new.target_va rs ≡ some r
    → find_prefetch_record new.target_va (overwrite_record new rs) ≡ some new
unfolding overwrite_record find_prefetch_record
find-overwrite new r [] h = cc
find-overwrite new r (x ∷ rs) h = elim (eq-cases x.target_va new.target_va) [
  | inl e ↦
      ap (find_prefetch_record new.target_va) (overwrite-hit new x rs e)
      ∙ find-hit new.target_va new rs refl
  | inr ne ↦
      ap (find_prefetch_record new.target_va) (overwrite-miss new x rs ne)
      ∙ find-miss new.target_va x (overwrite_record new rs) ne
      ∙ find-overwrite new r rs (sym (find-miss new.target_va x rs ne) ∙ h)
]

overwrite-Distinct :
    (new : PrefetchRecord) (rs : List PrefetchRecord)
    → Distinct rs
    → Distinct (overwrite_record new rs)
unfolding overwrite_record
overwrite-Distinct new [] d = tt
overwrite-Distinct new (r ∷ rs) d = elim (eq-cases r.target_va new.target_va) [
  | inl e ↦
      subst Distinct (sym (overwrite-hit new r rs e))
        (subst (λ va. find_prefetch_record va rs ≡ none) e d.0, d.1)
  | inr ne ↦ subst Distinct (sym (overwrite-miss new r rs ne)) (
    find-overwrite_other r.target_va new rs (λ k. ne (sym k)) ∙ d.0,
    overwrite-Distinct new rs d.1,
  )
]

add-some :
    (now source_va target_va pointer_value : ℕ) (r : PrefetchRecord) (s : Prefetcher)
    → find_prefetch_record target_va s.records ≡ some r
    → add_prefetch_record true now source_va target_va pointer_value s ≡ (
      true,
      record s {
        records =
            overwrite_record (requested_record now source_va target_va pointer_value) s.records;
      },
    )
unfolding add_prefetch_record store_record
add-some now source_va target_va pointer_value r s found =
    ap (λ f. store_record f true (requested_record now source_va target_va pointer_value) s) found

add-none :
    (now source_va target_va pointer_value : ℕ) (s : Prefetcher)
    → find_prefetch_record target_va s.records ≡ none
    → add_prefetch_record true now source_va target_va pointer_value s ≡ (
      true,
      record s { records = requested_record now source_va target_va pointer_value ∷ s.records },
    )
unfolding add_prefetch_record store_record
add-none now source_va target_va pointer_value s gone =
    ap (λ f. store_record f true (requested_record now source_va target_va pointer_value) s) gone

-- When the record can be allocated, `add_prefetch_record` succeeds: the address then has a fresh
-- record in the state REQUESTED with no buffer and no request, the record of every other address
-- is as before, and no address has two.
pub add_prefetch_record_lem :
    (now source_va target_va pointer_value : ℕ) (s : Prefetcher)
    → Distinct s.records
    → let (ok, s') = add_prefetch_record true now source_va target_va pointer_value s in
      (ok ≡ true)
      × Distinct s'.records
      × (find_prefetch_record target_va s'.records
          ≡ some (requested_record now source_va target_va pointer_value))
      × ((va : ℕ)
          → target_va ≢ va
          → find_prefetch_record va s'.records ≡ find_prefetch_record va s.records)
unfolding requested_record
add_prefetch_record_lem now source_va target_va pointer_value s d =
    let new : PrefetchRecord = requested_record now source_va target_va pointer_value in
    elim (Option-cases (find_prefetch_record target_va s.records)) [
      | inl gone ↦ rw (add-none now source_va target_va pointer_value s gone) (
        refl,
        (gone, d),
        find-hit target_va new s.records refl,
        λ va n. find-miss va new s.records n,
      )
      | inr (r, found) ↦ rw (add-some now source_va target_va pointer_value r s found) (
        refl,
        overwrite-Distinct new s.records d,
        find-overwrite new r s.records found,
        λ va n. find-overwrite_other va new s.records n,
      )
    ]

-- what a clean-up leaves of the record of an address
abbrev pub keep : ℕ → Option PrefetchRecord → Option PrefetchRecord
keep now none = none
keep now (some r) = if is_expired now r.status r.timestamp then none else some r

-- the allocator after the walk has passed a record
abbrev freed : ℕ → PrefetchRecord → Allocator → Allocator
freed now r a =
    if is_expired now r.status r.timestamp && not (r.remote_addr == 0)
    then (rdma_sim_free r.remote_addr a).1
    else a

-- the records that the walk keeps of a list
abbrev kept_of : ℕ → PrefetchRecord → List PrefetchRecord → List PrefetchRecord
kept_of now r kept = if is_expired now r.status r.timestamp then kept else r ∷ kept

find-kept :
    (now va : ℕ) (r : PrefetchRecord) (rs kept : List PrefetchRecord)
    → find_prefetch_record r.target_va rs ≡ none
    → find_prefetch_record va kept ≡ keep now (find_prefetch_record va rs)
    → find_prefetch_record va (kept_of now r kept) ≡ keep now (find_prefetch_record va (r ∷ rs))
find-kept now va r rs kept single ih = elim (Bool-cases (is_expired now r.status r.timestamp)) [
  | inl dead ↦
      ap (λ b. find_prefetch_record va (if b then kept else r ∷ kept)) dead
      ∙ elim (eq-cases r.target_va va) [
        | inl e ↦
            ih
            ∙ ap (keep now) (subst (λ v. find_prefetch_record v rs ≡ none) e single)
            ∙ sym (ap (keep now) (find-hit va r rs e) ∙ ap (λ b. if b then none else some r) dead)
        | inr ne ↦ ih ∙ sym (ap (keep now) (find-miss va r rs ne))
      ]
  | inr alive ↦
      ap (λ b. find_prefetch_record va (if b then kept else r ∷ kept)) alive
      ∙ elim (eq-cases r.target_va va) [
        | inl e ↦
            find-hit va r kept e
            ∙ sym (ap (keep now) (find-hit va r rs e) ∙ ap (λ b. if b then none else some r) alive)
        | inr ne ↦ find-miss va r kept ne ∙ ih ∙ sym (ap (keep now) (find-miss va r rs ne))
      ]
]

find-sweep :
    (now va : ℕ) (rs : List PrefetchRecord) (a : Allocator)
    → Distinct rs
    → find_prefetch_record va (sweep now rs a).0 ≡ keep now (find_prefetch_record va rs)
unfolding sweep find_prefetch_record
find-sweep now va [] a d = refl
find-sweep now va (r ∷ rs) a d =
    find-kept now va r rs (sweep now rs (freed now r a)).0 d.0
      (find-sweep now va rs (freed now r a) d.1)

kept-Distinct :
    (now : ℕ) (r : PrefetchRecord) (kept : List PrefetchRecord)
    → find_prefetch_record r.target_va kept ≡ none
    → Distinct kept
    → Distinct (kept_of now r kept)
kept-Distinct now r kept gone d = elim (Bool-cases (is_expired now r.status r.timestamp)) [
  | inl dead ↦ subst (λ b. Distinct (if b then kept else r ∷ kept)) (sym dead) d
  | inr alive ↦ subst (λ b. Distinct (if b then kept else r ∷ kept)) (sym alive) (gone, d)
]

sweep-Distinct :
    (now : ℕ) (rs : List PrefetchRecord) (a : Allocator) → Distinct rs → Distinct (sweep now rs a).0
unfolding sweep
sweep-Distinct now [] a d = tt
sweep-Distinct now (r ∷ rs) a d =
    kept-Distinct now r (sweep now rs (freed now r a)).0
      (find-sweep now r.target_va rs (freed now r a) d.1 ∙ ap (keep now) d.0)
      (sweep-Distinct now rs (freed now r a) d.1)

pub free-IsHeap : (addr : ℕ) (a : Allocator) → IsHeap a → IsHeap (rdma_sim_free addr a).1
free-IsHeap addr a h = elim (rdma_sim_free_lem a addr h) [
  | inl (n, _, f) ↦ f.heap
  | inr (_, same, _) ↦ subst IsHeap (sym same) h
]

sweep-IsHeap :
    (now : ℕ) (rs : List PrefetchRecord) (a : Allocator) → IsHeap a → IsHeap (sweep now rs a).1
unfolding sweep
sweep-IsHeap now [] a h = h
sweep-IsHeap now (r ∷ rs) a h =
    sweep-IsHeap now rs (freed now r a)
      (elim (Bool-cases (is_expired now r.status r.timestamp && not (r.remote_addr == 0))) [
        | inl y ↦
            subst (λ b. IsHeap (if b then (rdma_sim_free r.remote_addr a).1 else a)) (sym y)
              (free-IsHeap r.remote_addr a h)
        | inr n ↦ subst (λ b. IsHeap (if b then (rdma_sim_free r.remote_addr a).1 else a)) (sym n) h
      ])

pub cleanup-keep :
    (now : ℕ) (s : Prefetcher) (a : Allocator)
    → Distinct s.records
    → IsHeap a
    → let (s', a') = cleanup_old_prefetch_records now s a in
      Distinct s'.records
      × IsHeap a'
      × ((va : ℕ)
          → find_prefetch_record va s'.records ≡ keep now (find_prefetch_record va s.records))
unfolding cleanup_old_prefetch_records
cleanup-keep now s a d h = (
  sweep-Distinct now s.records a d,
  sweep-IsHeap now s.records a h,
  λ va. find-sweep now va s.records a d,
)

-- A record that a clean-up at the time `now` is to remove, by its status and its timestamp: it has
-- failed, or it was requested or completed more than 30 seconds ago, or it is in progress for more
-- than 60. The clock is in microseconds.
abbrev pub Expired : ℕ → PrefetchStatus → ℕ → Type 0
Expired now status timestamp =
    (status ≡ prefetch_failed)
    ⊎ (((status ≡ prefetch_completed) ⊎ (status ≡ prefetch_requested))
        × (30_000_000 < sub64 now timestamp))
    ⊎ ((status ≡ prefetch_in_progress) × (60_000_000 < sub64 now timestamp))

-- what is to become of the record of an address
abbrev pub Cleaned : ℕ → (before after : Option PrefetchRecord) → Type 0
Cleaned now before after =
    ((before ≡ none) × (after ≡ none))
    ⊎ ((r : PrefetchRecord) × (before ≡ some r) × Expired now r.status r.timestamp × (after ≡ none))
    ⊎ ((r : PrefetchRecord) × (before ≡ some r)
        × (¬ Expired now r.status r.timestamp)
        × (after ≡ some r))

-- the decision on a record, by whether it is in a state of that age limit and past the limit
aged :
    (now limit : ℕ) (t : PrefetchStatus) (timestamp : ℕ)
    → (limit < sub64 now timestamp → Expired now t timestamp)
    → (Expired now t timestamp → limit < sub64 now timestamp)
    → ((ltb limit (sub64 now timestamp) ≡ true) × Expired now t timestamp)
      ⊎ ((ltb limit (sub64 now timestamp) ≡ false) × (¬ Expired now t timestamp))
aged now limit t timestamp there back = elim (Bool-cases (ltb limit (sub64 now timestamp))) [
  | inl y ↦ inl (y, there (ltb→lt limit (sub64 now timestamp) y))
  | inr n ↦ inr (n, λ x. let late = back x in ground arith)
]

is_expired_iff :
    (now : ℕ) (t : PrefetchStatus) (timestamp : ℕ)
    → ((is_expired now t timestamp ≡ true) × Expired now t timestamp)
      ⊎ ((is_expired now t timestamp ≡ false) × (¬ Expired now t timestamp))
unfolding is_expired
is_expired_iff now prefetch_none timestamp = inr (
  refl,
  λ x. elim x [
    | inl e ↦ cc
    | inr (inl (e, _)) ↦ elim e [ inl k ↦ cc | inr k ↦ cc ]
    | inr (inr (e, _)) ↦ cc
  ],
)
is_expired_iff now prefetch_requested timestamp =
    aged now 30_000_000 prefetch_requested timestamp (λ h. inr (inl (inr refl, h)))
      (λ x. elim x [ inl e ↦ cc | inr (inl (_, h)) ↦ h | inr (inr (e, _)) ↦ cc ])
is_expired_iff now prefetch_completed timestamp =
    aged now 30_000_000 prefetch_completed timestamp (λ h. inr (inl (inl refl, h)))
      (λ x. elim x [ inl e ↦ cc | inr (inl (_, h)) ↦ h | inr (inr (e, _)) ↦ cc ])
is_expired_iff now prefetch_in_progress timestamp =
    aged now 60_000_000 prefetch_in_progress timestamp (λ h. inr (inr (refl, h)))
      (λ x. elim x [
        | inl e ↦ cc
        | inr (inl (e, _)) ↦ elim e [ inl k ↦ cc | inr k ↦ cc ]
        | inr (inr (_, h)) ↦ h
      ])
is_expired_iff now prefetch_failed timestamp = inl (refl, inl refl)

keep-Cleaned : (now : ℕ) (before : Option PrefetchRecord) → Cleaned now before (keep now before)
keep-Cleaned now none = inl (refl, refl)
keep-Cleaned now (some r) = elim (is_expired_iff now r.status r.timestamp) [
  | inl (dead, x) ↦ inr (inl (r, refl, x, ap (λ b. if b then none else some r) dead))
  | inr (alive, x) ↦ inr (inr (r, refl, x, ap (λ b. if b then none else some r) alive))
]

-- `cleanup_old_prefetch_records` on records of which no two have the same address, whatever heap
-- the process has: an address that has no record gets none. The record of an address is removed if
-- it has failed, if it was requested or completed more than 30 seconds ago, or if it is in
-- progress for more than 60; it stays as it was if not. No address has two records afterwards.
pub cleanup_old_prefetch_records_lem :
    (now : ℕ) (s : Prefetcher) (a : Allocator)
    → Distinct s.records
    → let (s', _) = cleanup_old_prefetch_records now s a in
      Distinct s'.records
      × ((va : ℕ)
          → Cleaned now (find_prefetch_record va s.records) (find_prefetch_record va s'.records))
unfolding cleanup_old_prefetch_records
cleanup_old_prefetch_records_lem now s a d = (
  sweep-Distinct now s.records a d,
  λ va.
      subst (Cleaned now (find_prefetch_record va s.records))
        (sym (find-sweep now va s.records a d))
        (keep-Cleaned now (find_prefetch_record va s.records)),
)

pub found_running-completed :
    (r : PrefetchRecord) → r.status ≡ prefetch_completed → found_running (some r) ≡ true
unfolding found_running is_running
found_running-completed r e = ap is_running e
