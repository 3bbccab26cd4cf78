-- ===== src/RdmaStorage/Table.antt =====
-- The table of regions: what its three loops find, and a write to a slot.
use swap_prefetch.Common.{
  ℕ, zero, suc, ◌+◌, ◌≡◌, ◌≢◌, ◌≤◌, ◌<◌, refl, ap, ◌∙◌, Bool, true, false, ◌&&◌, Option, none, some,
  List, [], ◌∷◌, ◌==◌, ltb, length, set, arith, ◌⊎◌, inl, inr, Bool-cases, ==_refl,
}
use swap_prefetch.RdmaStorage.{RemoteRegion, region_at, find_remote_region, first_unused, oldest}

pub region_at-set_same :
    (l : List RemoteRegion) (i : ℕ) (r : RemoteRegion) → i < length l → region_at (set l i r) i ≡ r
unfolding region_at
region_at-set_same [] i r h = absurd (omega arith)
region_at-set_same (x ∷ l) zero r h = refl
region_at-set_same (x ∷ l) (suc i) r h = region_at-set_same l i r (omega arith)

pub region_at-set_other :
    (l : List RemoteRegion) (i j : ℕ) (r : RemoteRegion)
    → j ≢ i
    → region_at (set l i r) j ≡ region_at l j
unfolding region_at
region_at-set_other [] i j r h = refl
region_at-set_other (x ∷ l) zero zero r h = absurd (h refl)
region_at-set_other (x ∷ l) zero (suc j) r h = refl
region_at-set_other (x ∷ l) (suc i) zero r h = refl
region_at-set_other (x ∷ l) (suc i) (suc j) r h = region_at-set_other l i j r (λ e. h (ap suc e))

-- a slot that is in use is one of the table's
pub used-in : (l : List RemoteRegion) (i : ℕ) → (region_at l i).in_use ≡ true → i < length l
unfolding region_at
used-in [] i h = cc
used-in (x ∷ l) zero h = omega arith
used-in (x ∷ l) (suc i) h = omega (arith, used-in l i h)

-- slot `i` holds the region of an offset
pub record Holds (o i : ℕ) (l : List RemoteRegion) : Type 0 where
  pub used : (region_at l i).in_use ≡ true
  pub offset : (region_at l i).virtual_offset ≡ o

abbrev wanted : ℕ → RemoteRegion → Bool
wanted o r = r.in_use && (r.virtual_offset == o)

Holds-here :
    (o : ℕ) (r : RemoteRegion) (rs : List RemoteRegion) → wanted o r ≡ true → Holds o 0 (r ∷ rs)
unfolding region_at
Holds-here o r rs h = record { used = ground arith; offset = ground arith }

Holds-there :
    (o i : ℕ) (r : RemoteRegion) (rs : List RemoteRegion) → Holds o i rs → Holds o (suc i) (r ∷ rs)
unfolding region_at
Holds-there o i r rs h = record { used = h.used; offset = h.offset }

Holds-tail :
    (o i : ℕ) (r : RemoteRegion) (rs : List RemoteRegion) → Holds o (suc i) (r ∷ rs) → Holds o i rs
unfolding region_at
Holds-tail o i r rs h = record { used = h.used; offset = h.offset }

Holds-head :
    (o : ℕ) (r : RemoteRegion) (rs : List RemoteRegion) → Holds o 0 (r ∷ rs) → wanted o r ≡ true
unfolding region_at
Holds-head o r rs h = simp (h.used, h.offset, ==_refl o) refl

-- The search finds a slot that holds the region of the offset, or there is none in its range.
pub find-cases :
    (o n : ℕ) (l : List RemoteRegion)
    → ((i : ℕ) × (find_remote_region o n l ≡ some i) × (i < n) × Holds o i l)
      ⊎ ((find_remote_region o n l ≡ none) × ((i : ℕ) → i < n → ¬ Holds o i l))
unfolding find_remote_region
find-cases o zero l = inr (refl, λ i low h. absurd (omega arith))
find-cases o (suc n) [] = inr (refl, λ i low h. omega (arith, used-in [] i h.used))
find-cases o (suc n) (r ∷ rs) = elim (Bool-cases (wanted o r)) [
  | inl y ↦ inl (0, simp y refl, omega arith, Holds-here o r rs y)
  | inr other ↦ elim (find-cases o n rs) [
    | inl (i, e, low, h) ↦ inl (suc i, simp (other, e) refl, omega arith, Holds-there o i r rs h)
    | inr (e, out) ↦ inr (simp (other, e) refl, behind other out)
  ]
]
  where
    behind :
        wanted o r ≡ false
        → ((i : ℕ) → i < n → ¬ Holds o i rs)
        → (i : ℕ) → i < suc n
        → ¬ Holds o i (r ∷ rs)
    behind other out zero low h = cc (other, Holds-head o r rs h)
    behind other out (suc i) low h = out i (omega arith) (Holds-tail o i r rs h)

pub first_unused-cases :
    (l : List RemoteRegion)
    → ((i : ℕ) × (first_unused l ≡ some i) × (i < length l) × ((region_at l i).in_use ≡ false))
      ⊎ ((first_unused l ≡ none) × ((i : ℕ) → i < length l → (region_at l i).in_use ≡ true))
unfolding first_unused region_at
first_unused-cases [] = inr (refl, λ i low. absurd (omega arith))
first_unused-cases (r ∷ rs) = elim (Bool-cases r.in_use) [
  | inr other ↦ inl (0, simp other refl, omega arith, other)
  | inl y ↦ elim (first_unused-cases rs) [
    | inl (i, e, low, free) ↦ inl (suc i, simp (y, e) refl, omega arith, free)
    | inr (e, all) ↦ inr (simp (y, e) refl, behind y all)
  ]
]
  where
    behind :
        r.in_use ≡ true
        → ((i : ℕ) → i < length rs → (region_at rs i).in_use ≡ true)
        → (i : ℕ) → i < suc (length rs)
        → (region_at (r ∷ rs) i).in_use ≡ true
    behind y all zero low = y
    behind y all (suc i) low = all i (omega arith)

-- no region that is in use in the first `n` slots was used before `time`
abbrev pub NoneBefore : (time n : ℕ) → List RemoteRegion → Type 0
NoneBefore time n l =
    (k : ℕ) → k < n → (region_at l k).in_use ≡ true → time ≤ (region_at l k).last_access

-- slot `j`, one of the first `n`, holds the region that was used the longest ago
pub record Oldest (j n : ℕ) (l : List RemoteRegion) : Type 0 where
  pub in_range : j < n
  pub used : (region_at l j).in_use ≡ true
  pub least : NoneBefore (region_at l j).last_access n l

NoneBefore-cons :
    (time n : ℕ) (r : RemoteRegion) (rs : List RemoteRegion)
    → (r.in_use ≡ true → time ≤ r.last_access)
    → NoneBefore time n rs
    → NoneBefore time (suc n) (r ∷ rs)
unfolding region_at
NoneBefore-cons time n r rs first rest zero low u = first u
NoneBefore-cons time n r rs first rest (suc k) low u = rest k (omega arith) u

NoneBefore-nil : (time n : ℕ) → NoneBefore time n []
unfolding region_at
NoneBefore-nil time n k low u = cc

Oldest-here :
    (n : ℕ) (r : RemoteRegion) (rs : List RemoteRegion)
    → r.in_use ≡ true
    → NoneBefore r.last_access n rs
    → Oldest 0 (suc n) (r ∷ rs)
unfolding region_at
Oldest-here n r rs u h = record {
  in_range = omega arith;
  used = u;
  least = NoneBefore-cons r.last_access n r rs (λ _. omega arith) h;
}

Oldest-there :
    (j n : ℕ) (r : RemoteRegion) (rs : List RemoteRegion)
    → (r.in_use ≡ true → (region_at rs j).last_access ≤ r.last_access)
    → Oldest j n rs
    → Oldest (suc j) (suc n) (r ∷ rs)
unfolding region_at
Oldest-there j n r rs first h = record {
  in_range = omega (arith, h.in_range);
  used = h.used;
  least = NoneBefore-cons (region_at rs j).last_access n r rs first h.least;
}

-- what the search from slot `i` on gives, from a bound on the time and what was found with it
abbrev pub FoundOldest : (i n time : ℕ) → Option ℕ → List RemoteRegion → Option ℕ → Type 0
FoundOldest i n time index l result =
    ((result ≡ index) × NoneBefore time n l)
    ⊎ ((j : ℕ) × (result ≡ some (i + j)) × ((region_at l j).last_access < time) × Oldest j n l)

FoundOldest-taken :
    (i n time : ℕ) (index result : Option ℕ) (r : RemoteRegion) (rs : List RemoteRegion)
    → r.in_use ≡ true
    → r.last_access < time
    → FoundOldest (suc i) n r.last_access (some i) rs result
    → FoundOldest i (suc n) time index (r ∷ rs) result
unfolding region_at
FoundOldest-taken i n time index result r rs u early (inl (e, h)) =
    inr (0, e ∙ ap some (omega arith), early, Oldest-here n r rs u h)
FoundOldest-taken i n time index result r rs u early (inr (j, e, low, h)) =
    inr (suc j, e ∙ ap some (omega arith), omega arith, Oldest-there j n r rs (λ _. omega arith) h)

FoundOldest-passed :
    (i n time : ℕ) (index result : Option ℕ) (r : RemoteRegion) (rs : List RemoteRegion)
    → (r.in_use ≡ true → time ≤ r.last_access)
    → FoundOldest (suc i) n time index rs result
    → FoundOldest i (suc n) time index (r ∷ rs) result
unfolding region_at
FoundOldest-passed i n time index result r rs late (inl (e, h)) =
    inl (e, NoneBefore-cons time n r rs late h)
FoundOldest-passed i n time index result r rs late (inr (j, e, low, h)) =
    inr
      (suc j, e ∙ ap some (omega arith), low, Oldest-there j n r rs (λ u. omega (arith, late u)) h)

pub oldest-cases :
    (i n time : ℕ) (index : Option ℕ) (l : List RemoteRegion)
    → FoundOldest i n time index l (oldest i n time index l)
unfolding oldest
oldest-cases i zero time index l = inl (refl, λ k low u. absurd (omega arith))
oldest-cases i (suc n) time index [] = inl (refl, NoneBefore-nil time (suc n))
oldest-cases i (suc n) time index (r ∷ rs) =
    elim (Bool-cases (r.in_use && ltb r.last_access time)) [
      | inl y ↦ simp y (
          FoundOldest-taken i n time index _ r rs (ground arith) (ground arith)
            (oldest-cases (suc i) n r.last_access (some i) rs))
      | inr late ↦ simp late (
          FoundOldest-passed i n time index _ r rs (λ u. ground arith)
            (oldest-cases (suc i) n time index rs))
    ]
