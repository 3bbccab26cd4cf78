-- ===== src/PointerPrefetch/Conversion.antt =====
-- What becomes of the pointer at the end of a page that is stored remotely and comes back.
use swap_prefetch.Common.{
  ℕ, ◌+◌, ◌≡◌, ◌≢◌, ◌≤◌, ◌<◌, ◌^◌, refl, Bool, true, false, some, ◌==◌, arith, ◌⊎◌, inl, inr,
  Bool-cases, word, ==_ne,
}
use swap_prefetch.AddressTranslation.{
  Region, Translator, not_converted, is_valid_local_pointer, is_valid_remote_pointer,
  convert_local_to_remote_pointer, convert_remote_to_local_pointer,
}
use swap_prefetch.AddressTranslation.Regions.{
  IsTranslator, converted, convert_remote-convert_local, convert_local-lt, convert_remote-lt,
}
use swap_prefetch.PointerPrefetch.{
  convert_pointers_for_remote_storage, convert_pointers_from_remote_storage, Prefetcher,
  validate_pointer, distance, count_invalid,
}

for_remote :
    (p q : ℕ) (r : Region) (t : Translator)
    → p ≢ 0
    → is_valid_local_pointer p t ≡ true
    → convert_local_to_remote_pointer p t ≡ converted q r
    → convert_pointers_for_remote_storage (some p) t ≡ (true, some q)
unfolding convert_pointers_for_remote_storage
for_remote p q r t nz v c = simp (==_ne p 0 nz, v, c) refl

from_remote :
    (p q : ℕ) (r : Region) (t : Translator)
    → q ≢ 0
    → is_valid_remote_pointer q t ≡ true
    → convert_remote_to_local_pointer q t ≡ converted p r
    → convert_pointers_from_remote_storage (some q) t ≡ (true, some p)
unfolding convert_pointers_from_remote_storage
from_remote p q r t nz v c = simp (==_ne q 0 nz, v, c) refl

from_remote_kept :
    (q : ℕ) (t : Translator)
    → is_valid_remote_pointer q t ≡ false
    → convert_pointers_from_remote_storage (some q) t ≡ (true, some q)
unfolding convert_pointers_from_remote_storage
from_remote_kept q t v = elim (Bool-cases (q == 0)) [
  | inl z ↦ simp z refl
  | inr n ↦ simp (n, v) refl
]

-- On a valid translator, a page whose last word is a valid local pointer into some region is
-- stored with the converted pointer q. Read back, it holds the same local pointer again if q is a
-- valid remote pointer other than 0, and otherwise still q.
pub from_remote-for_remote :
    (p : ℕ) (t : Translator)
    → IsTranslator t
    → p ≢ 0
    → is_valid_local_pointer p t ≡ true
    → convert_local_to_remote_pointer p t ≢ not_converted
    → (q : ℕ) × (convert_pointers_for_remote_storage (some p) t ≡ (true, some q))
      × (q ≢ 0
          → is_valid_remote_pointer q t ≡ true
          → convert_pointers_from_remote_storage (some q) t ≡ (true, some p))
      × (is_valid_remote_pointer q t ≡ false
          → convert_pointers_from_remote_storage (some q) t ≡ (true, some q))
from_remote-for_remote p t h nz v covered = elim (convert_remote-convert_local p t h nz) [
  | inl gone ↦ absurd (covered gone)
  | inr (q, r, there, back) ↦ (
    q,
    for_remote p q r t nz v there,
    (λ qz w. from_remote p q r t qz w back),
    λ w. from_remote_kept q t w,
  )
]

-- A pointer passes `validate_pointer` exactly if it is not 0, not below the threshold, and not
-- farther from the current address than the limit, on either side. A pointer that fails for
-- another reason than being 0 is counted as invalid, and nothing else changes.
pub validate_pointer_lem :
    (p current : ℕ) (s : Prefetcher)
    → p < 2 ^ 64
    → current < 2 ^ 64
    → let (ok, s') = validate_pointer p current s in
      ((ok ≡ true)
        × (s' ≡ s)
        × (0 < p)
        × (s.pointer_validation_threshold ≤ p)
        × (p ≤ current + s.max_prefetch_distance)
        × (current ≤ p + s.max_prefetch_distance))
      ⊎ ((ok ≡ false) × (p ≡ 0) × (s' ≡ s))
      ⊎ ((ok ≡ false)
          × (0 < p)
          × (s' ≡ count_invalid s)
          × ((p < s.pointer_validation_threshold)
              ⊎ (current + s.max_prefetch_distance < p)
              ⊎ (p + s.max_prefetch_distance < current)))
unfolding validate_pointer distance
validate_pointer_lem p current s hp hc = ground arith

-- The conversions give words.
pub for_remote-lt :
    (p q : ℕ) (t : Translator) (b : Bool)
    → p < word
    → convert_pointers_for_remote_storage (some p) t ≡ (b, some q)
    → q < word
unfolding convert_pointers_for_remote_storage
for_remote-lt p q t b low e = ground (arith, convert_local-lt p t)

pub from_remote-lt :
    (q p : ℕ) (t : Translator) (b : Bool)
    → q < word
    → convert_pointers_from_remote_storage (some q) t ≡ (b, some p)
    → p < word
unfolding convert_pointers_from_remote_storage
from_remote-lt q p t b low e = ground (arith, convert_remote-lt q t)

-- A page without a pointer stays as it is.
pub for_remote-zero :
    (t : Translator) → convert_pointers_for_remote_storage (some 0) t ≡ (true, some 0)
unfolding convert_pointers_for_remote_storage
for_remote-zero t = refl

pub from_remote-zero :
    (t : Translator) → convert_pointers_from_remote_storage (some 0) t ≡ (true, some 0)
unfolding convert_pointers_from_remote_storage
from_remote-zero t = refl
