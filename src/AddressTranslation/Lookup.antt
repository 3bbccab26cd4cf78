-- ===== src/AddressTranslation/Lookup.antt =====
-- The walk over the regions finds the one region that passes the test.
use swap_prefetch.Common.{
  ℕ, ◌+◌, ◌≡◌, ◌≤◌, ◌<◌, Bool, true, false, some, List, [], ◌∷◌, word, arith, subst, ◌⊎◌, inl, inr,
  Bool-cases,
}
use swap_prefetch.AddressTranslation.{Region, find_region, covers_local, covers_remote}

-- a region as a successful registration of a range that does not wrap leaves it
pub record IsRegion (r : Region) : Type 0 where
  pub active : r.active ≡ true
  pub local_end : r.local_end ≡ r.local_base + r.size
  pub local_fits : (0 < r.local_base) × (r.local_base + r.size < word)
  pub remote_fits : (0 < r.remote_base) × (r.remote_base + r.size < word)
  pub some_bytes : 0 < r.size

-- no address belongs to both ranges
abbrev pub Separate : ℕ → ℕ → ℕ → ℕ → Type 0
Separate a n b k = (a + n ≤ b) ⊎ (b + k ≤ a)

abbrev pub Disjoint : Region → Region → Type 0
Disjoint r s =
    Separate r.local_base r.size s.local_base s.size
    × Separate r.remote_base r.size s.remote_base s.size

abbrev pub DisjointAll : Region → List Region → Type 0
DisjointAll r [] = Unit
DisjointAll r (s ∷ rs) = Disjoint r s × DisjointAll r rs

abbrev pub Regular : List Region → Type 0
Regular [] = Unit
Regular (r ∷ rs) = IsRegion r × DisjointAll r rs × Regular rs

pub covers_local_iff :
    (p : ℕ) (r : Region)
    → IsRegion r
    → ((covers_local p r ≡ true) × (r.local_base ≤ p) × (p < r.local_base + r.size))
      ⊎ ((covers_local p r ≡ false) × ((p < r.local_base) ⊎ (r.local_base + r.size ≤ p)))
unfolding covers_local
covers_local_iff p r h = ground (arith, h.active, h.local_end)

pub covers_remote_iff :
    (p : ℕ) (r : Region)
    → IsRegion r
    → ((covers_remote p r ≡ true) × (r.remote_base ≤ p) × (p < r.remote_base + r.size))
      ⊎ ((covers_remote p r ≡ false) × ((p < r.remote_base) ⊎ (r.remote_base + r.size ≤ p)))
unfolding covers_remote
covers_remote_iff p r h = ground (arith, h.active, h.remote_fits)

pub find_region-cons :
    (test : Region → Bool) (x : Region) (rs : List Region) (r : Region)
    → find_region test (x ∷ rs) ≡ some r
    → ((test x ≡ true) × (x ≡ r)) ⊎ ((test x ≡ false) × (find_region test rs ≡ some r))
unfolding find_region
find_region-cons test x rs r h = elim (Bool-cases (test x)) [
  | inl y ↦ inl (y, ground (arith, y))
  | inr n ↦ inr (n, ground (arith, n))
]

pub find_region-head :
    (test : Region → Bool) (x : Region) (rs : List Region)
    → test x ≡ true
    → find_region test (x ∷ rs) ≡ some x
unfolding find_region
find_region-head test x rs h = simp h

pub find_region-tail :
    (test : Region → Bool) (x : Region) (rs : List Region)
    → test x ≡ false
    → find_region test (x ∷ rs) ≡ find_region test rs
unfolding find_region
find_region-tail test x rs h = simp h

pub found_test :
    (test : Region → Bool) (rs : List Region) (r : Region)
    → find_region test rs ≡ some r
    → test r ≡ true
unfolding find_region
found_test test [] r h = cc
found_test test (x ∷ rs) r h = elim (find_region-cons test x rs r h) [
  | inl (y, e) ↦ rw (← e) y
  | inr (n, f) ↦ found_test test rs r f
]

pub found_IsRegion :
    (test : Region → Bool) (rs : List Region) (r : Region)
    → Regular rs
    → find_region test rs ≡ some r
    → IsRegion r
unfolding find_region
found_IsRegion test [] r w h = absurd cc
found_IsRegion test (x ∷ rs) r w h = elim (find_region-cons test x rs r h) [
  | inl (y, e) ↦ subst IsRegion e w.0
  | inr (n, f) ↦ found_IsRegion test rs r w.2 f
]

pub found_Disjoint :
    (test : Region → Bool) (x : Region) (rs : List Region) (r : Region)
    → DisjointAll x rs
    → find_region test rs ≡ some r
    → Disjoint x r
unfolding find_region
found_Disjoint test x [] r d h = absurd cc
found_Disjoint test x (y ∷ rs) r d h = elim (find_region-cons test y rs r h) [
  | inl (t, e) ↦ subst (Disjoint x) e d.0
  | inr (n, f) ↦ found_Disjoint test x rs r d.1 f
]

-- a second test that holds of the region found and of no region disjoint from it finds the same
pub find_region-again :
    (test again : Region → Bool) (rs : List Region) (r : Region)
    → Regular rs
    → find_region test rs ≡ some r
    → again r ≡ true
    → ((x : Region) → IsRegion x → Disjoint x r → again x ≡ false)
    → find_region again rs ≡ some r
unfolding find_region
find_region-again test again [] r w h y no_other = absurd cc
find_region-again test again (x ∷ rs) r w h y no_other = elim (find_region-cons test x rs r h) [
  | inl (t, e) ↦ rw e (find_region-head again r rs y)
  | inr (n, f) ↦
      rw (find_region-tail again x rs (no_other x w.0 (found_Disjoint test x rs r w.1 f)))
        (find_region-again test again rs r w.2 f y no_other)
]
