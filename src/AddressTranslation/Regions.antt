-- ===== src/AddressTranslation/Regions.antt =====
-- The two conversions are inverse to each other on disjoint regions.
use swap_prefetch.Common.{
  ℕ, ◌+◌, ◌-◌, ◌≡◌, ◌≢◌, ◌≤◌, ◌<◌, refl, ap, ◌∙◌, true, false, none, some, [], add64, sub64, arith,
  ◌⊎◌, inl, inr, Bool-cases, Option-cases, ==_ne, word,
}
use swap_prefetch.AddressTranslation.{
  Region, Translator, Conversion, not_converted, find_region, covers_local, covers_remote,
  convert_local_to_remote_pointer, convert_remote_to_local_pointer, is_valid_local_pointer,
  is_valid_remote_pointer, address_translator_init, address_translator_cleanup,
}
use swap_prefetch.AddressTranslation.Lookup.{
  IsRegion, Disjoint, Regular, covers_local_iff, covers_remote_iff, find_region-again, found_test,
  found_IsRegion,
}
use swap_prefetch.RdmaSim.Allocator.{remote_base}

-- The invariant of the translator: it is initialised and its regions are disjoint on both sides.
pub record IsTranslator (t : Translator) : Type 0 where
  pub initialized : t.initialized ≡ true
  pub regular : Regular t.regions

abbrev pub converted : ℕ → Region → Conversion
converted q r = record { converted_pointer = q; valid = true; region = some r }

pub local_offset :
    (p : ℕ) (r : Region)
    → IsRegion r
    → covers_local p r ≡ true
    → (r.local_base ≤ p)
      × (p < r.local_base + r.size)
      × (add64 r.remote_base (sub64 p r.local_base) ≡ r.remote_base + (p - r.local_base))
local_offset p r h y = elim (covers_local_iff p r h) [
  | inl (_, above, below) ↦ (above, below, omega (arith, h.remote_fits, h.local_fits))
  | inr (n, _) ↦ absurd (ground (arith, n))
]

pub remote_offset :
    (q : ℕ) (r : Region)
    → IsRegion r
    → covers_remote q r ≡ true
    → (r.remote_base ≤ q)
      × (q < r.remote_base + r.size)
      × (add64 r.local_base (sub64 q r.remote_base) ≡ r.local_base + (q - r.remote_base))
remote_offset q r h y = elim (covers_remote_iff q r h) [
  | inl (_, above, below) ↦ (above, below, omega (arith, h.remote_fits, h.local_fits))
  | inr (n, _) ↦ absurd (ground (arith, n))
]

pub convert_local-found :
    (p : ℕ) (t : Translator) (r : Region)
    → IsTranslator t
    → p ≢ 0
    → find_region (covers_local p) t.regions ≡ some r
    → convert_local_to_remote_pointer p t ≡ converted (r.remote_base + (p - r.local_base)) r
unfolding convert_local_to_remote_pointer
convert_local-found p t r h nz found =
    let region = found_IsRegion (covers_local p) t.regions r h.regular found in
    let (above, below, sum) =
      local_offset p r region (found_test (covers_local p) t.regions r found) in
    simp (==_ne p 0 nz, h.initialized, found) (ap (λ q. converted q r) sum)

pub convert_remote-found :
    (q : ℕ) (t : Translator) (r : Region)
    → IsTranslator t
    → q ≢ 0
    → find_region (covers_remote q) t.regions ≡ some r
    → convert_remote_to_local_pointer q t ≡ converted (r.local_base + (q - r.remote_base)) r
unfolding convert_remote_to_local_pointer
convert_remote-found q t r h nz found =
    let region = found_IsRegion (covers_remote q) t.regions r h.regular found in
    let (above, below, sum) =
      remote_offset q r region (found_test (covers_remote q) t.regions r found) in
    simp (==_ne q 0 nz, h.initialized, found) (ap (λ p. converted p r) sum)

pub convert_local-not_found :
    (p : ℕ) (t : Translator)
    → IsTranslator t
    → p ≢ 0
    → find_region (covers_local p) t.regions ≡ none
    → convert_local_to_remote_pointer p t ≡ not_converted
unfolding convert_local_to_remote_pointer
convert_local-not_found p t h nz gone = simp (==_ne p 0 nz, h.initialized, gone)

pub convert_remote-not_found :
    (q : ℕ) (t : Translator)
    → IsTranslator t
    → q ≢ 0
    → find_region (covers_remote q) t.regions ≡ none
    → convert_remote_to_local_pointer q t ≡ not_converted
unfolding convert_remote_to_local_pointer
convert_remote-not_found q t h nz gone = simp (==_ne q 0 nz, h.initialized, gone)

pub covers_remote-add :
    (p : ℕ) (r : Region)
    → IsRegion r
    → r.local_base ≤ p
    → p < r.local_base + r.size
    → covers_remote (r.remote_base + (p - r.local_base)) r ≡ true
covers_remote-add p r h above below =
    elim (covers_remote_iff (r.remote_base + (p - r.local_base)) r h) [
      | inl (y, _, _) ↦ y
      | inr (_, out) ↦ absurd (omega arith)
    ]

pub covers_remote-other :
    (q : ℕ) (r x : Region)
    → IsRegion x
    → Disjoint x r
    → r.remote_base ≤ q
    → q < r.remote_base + r.size
    → covers_remote q x ≡ false
covers_remote-other q r x h d above below = elim (covers_remote_iff q x h) [
  | inl (_, lo, hi) ↦ absurd (omega (arith, d.1))
  | inr (n, _) ↦ n
]

pub covers_local-other :
    (p : ℕ) (r x : Region)
    → IsRegion x
    → Disjoint x r
    → r.local_base ≤ p
    → p < r.local_base + r.size
    → covers_local p x ≡ false
covers_local-other p r x h d above below = elim (covers_local_iff p x h) [
  | inl (_, lo, hi) ↦ absurd (omega (arith, d.0))
  | inr (n, _) ↦ n
]

-- On a valid translator, a local pointer other than NULL either is in no region and is not
-- converted, or is converted to an address that `convert_remote_to_local_pointer` converts back to
-- the same pointer, by the same region.
pub convert_remote-convert_local :
    (p : ℕ) (t : Translator)
    → IsTranslator t
    → p ≢ 0
    → (convert_local_to_remote_pointer p t ≡ not_converted)
      ⊎ ((q : ℕ) × (r : Region) × (convert_local_to_remote_pointer p t ≡ converted q r)
          × (convert_remote_to_local_pointer q t ≡ converted p r))
convert_remote-convert_local p t h nz =
    elim (Option-cases (find_region (covers_local p) t.regions)) [
      | inl gone ↦ inl (convert_local-not_found p t h nz gone)
      | inr (r, found) ↦
          let region = found_IsRegion (covers_local p) t.regions r h.regular found in
          let (above, below, sum) =
            local_offset p r region (found_test (covers_local p) t.regions r found) in
          let q : ℕ = r.remote_base + (p - r.local_base) in
          let again =
            find_region-again (covers_local p) (covers_remote q) t.regions r h.regular found
              (covers_remote-add p r region above below)
              (λ x w d. covers_remote-other q r x w d (omega arith) (omega arith)) in
          let back : r.local_base + (q - r.remote_base) ≡ p = omega arith in
          inr (
            q,
            r,
            convert_local-found p t r h nz found,
            convert_remote-found q t r h (omega (arith, region.remote_fits)) again
                ∙ ap (λ p. converted p r) back,
          )
    ]

-- After `address_translator_init` on a translator that is not initialised, no address at or above
-- the address of the first block of the remote memory is a valid remote pointer.
pub is_valid_remote_pointer-remote_base :
    (t : Translator) (offset : ℕ)
    → t.initialized ≡ false
    → is_valid_remote_pointer (remote_base + offset) (address_translator_init t) ≡ false
unfolding is_valid_remote_pointer address_translator_init
is_valid_remote_pointer-remote_base t offset h = simp h (ground arith)

-- After `address_translator_cleanup` the translator knows no pointer but NULL: no other pointer is
-- valid on either side or converted in either direction. A later `address_translator_init` leaves
-- a valid translator without regions.
pub init-cleanup :
    (t : Translator) (p : ℕ)
    → p ≢ 0
    → let off = address_translator_cleanup t in
      (is_valid_local_pointer p off ≡ false)
      × (is_valid_remote_pointer p off ≡ false)
      × (convert_local_to_remote_pointer p off ≡ not_converted)
      × (convert_remote_to_local_pointer p off ≡ not_converted)
      × IsTranslator (address_translator_init off)
      × ((address_translator_init off).regions ≡ [])
unfolding address_translator_cleanup address_translator_init is_valid_local_pointer
    is_valid_remote_pointer convert_local_to_remote_pointer convert_remote_to_local_pointer
init-cleanup t p nz = elim (Bool-cases t.initialized) [
  | inl on ↦
      simp (on, ==_ne p 0 nz)
        (refl, refl, refl, refl, record { initialized = refl; regular = tt }, refl)
  | inr off ↦
      simp (off, ==_ne p 0 nz)
        (refl, refl, refl, refl, record { initialized = refl; regular = tt }, refl)
]

-- The conversions give words.
pub convert_local-lt :
    (p : ℕ) (t : Translator) → (convert_local_to_remote_pointer p t).converted_pointer < word
unfolding convert_local_to_remote_pointer
convert_local-lt p t = elim (Option-cases (find_region (covers_local p) t.regions)) [
  | inl gone ↦ ground (arith, gone)
  | inr (r, found) ↦ ground (arith, found)
]

pub convert_remote-lt :
    (q : ℕ) (t : Translator) → (convert_remote_to_local_pointer q t).converted_pointer < word
unfolding convert_remote_to_local_pointer
convert_remote-lt q t = elim (Option-cases (find_region (covers_remote q) t.regions)) [
  | inl gone ↦ ground (arith, gone)
  | inr (r, found) ↦ ground (arith, found)
]
