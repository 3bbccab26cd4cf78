-- ===== src/AddressTranslation/Register.antt =====
-- Registration and removal of regions.
use swap_prefetch.Common.{
  ℕ, ◌+◌, ◌-◌, ◌≡◌, ◌≢◌, ◌≤◌, ◌<◌, refl, sym, ap, ◌∙◌, subst, Bool, true, false, none, some, List,
  [], ◌∷◌, arith, ◌⊎◌, inl, inr, Option-cases, eq-cases, ==_ne,
}
use swap_prefetch.RdmaSim.Errno.{enoent, enomem, ok, err}
use swap_prefetch.AddressTranslation.{
  Region, Translator, not_converted, find_region, covers_local, make_region, remove_region,
  register_address_region, unregister_address_region, convert_local_to_remote_pointer,
}
use swap_prefetch.AddressTranslation.Lookup.{
  IsRegion, Disjoint, DisjointAll, Regular, find_region-again, found_Disjoint, found_IsRegion,
  found_test, find_region-cons, find_region-tail, covers_local_iff,
}
use swap_prefetch.AddressTranslation.Regions.{
  local_offset, IsTranslator, converted, convert_local-found, convert_local-not_found,
  covers_local-other,
}
use swap_prefetch.AddressTranslation.Update.{
  Clear, register-run, register-cases, based, found_Clear, Disjoint-sym, same_base,
}

new_found :
    (new : Region) (l : List Region)
    → Regular l
    → find_region (based new.local_base) l ≡ some new
    → IsRegion new
    → (p : ℕ) → new.local_base ≤ p
    → p < new.local_base + new.size
    → find_region (covers_local p) l ≡ some new
new_found new l w found k p above below =
    find_region-again (based new.local_base) (covers_local p) l new w found
      (inside new p k above below) (λ x v d. covers_local-other p new x v d above below)
  where
    inside :
        (new : Region) (p : ℕ)
        → IsRegion new
        → new.local_base ≤ p
        → p < new.local_base + new.size
        → covers_local p new ≡ true
    inside new p k above below = elim (covers_local_iff p new k) [
      | inl (y, _, _) ↦ y
      | inr (_, out) ↦ absurd (omega arith)
    ]

outside :
    (new : Region) (t : Translator) (s : Region) (p : ℕ)
    → IsTranslator t
    → IsRegion new
    → Clear new t.regions
    → find_region (covers_local p) t.regions ≡ some s
    → s.local_base ≢ new.local_base
    → covers_local p new ≡ false
outside new t s p h k c found other =
    let region = found_IsRegion (covers_local p) t.regions s h.regular found in
    let (above, below, _) =
      local_offset p s region (found_test (covers_local p) t.regions s found) in
    covers_local-other p s new k
      (Disjoint-sym s new (found_Clear (covers_local p) new t.regions s c found other)) above below

-- what a registration that succeeds does
pub record Registered (new : Region) (t t' : Translator) : Type 0 where
  pub valid : IsTranslator t'
  pub own :
      (p : ℕ)
      → new.local_base ≤ p
      → p < new.local_base + new.size
      → convert_local_to_remote_pointer p t'
        ≡ converted (new.remote_base + (p - new.local_base)) new
  pub others :
      (p : ℕ) (s : Region)
      → p ≢ 0
      → find_region (covers_local p) t.regions ≡ some s
      → s.local_base ≢ new.local_base
      → convert_local_to_remote_pointer p t' ≡ convert_local_to_remote_pointer p t

register_given :
    (t : Translator) (local_base size remote_base : ℕ)
    → let new = make_region local_base size remote_base in
      IsTranslator t
      → IsRegion new
      → Clear new t.regions
      → let (r, t') = register_address_region true local_base size remote_base t in
        (r ≡ ok tt) × Registered new t t'
unfolding make_region
register_given t local_base size remote_base h k c =
    let new : Region = make_region local_base size remote_base in
    let (l, run, done) = register-run t local_base size remote_base h k c in
    let after : Translator = record t { regions = l } in
    let valid : IsTranslator after = record {
      initialized = h.initialized;
      regular = done.regular;
    } in
    rw run (
      refl,
      record {
        valid = valid;
        own = λ p above below.
            convert_local-found p after new valid (omega (arith, k.local_fits))
              (new_found new l done.regular done.found k p above below);
        others = λ p s nz found other.
            convert_local-found p after s valid nz
              (done.kept (covers_local p) s (outside new t s p h k c found other) found other)
            ∙ sym (convert_local-found p t s h nz found);
      },
    )

-- Registering, with a valid translator, a range of at least one byte whose two bases are not 0 and
-- whose two ranges end below 2^64, and that is disjoint, on both sides, from every region with
-- another local base. If no region has its local base and `malloc` fails, it returns ENOMEM and
-- changes nothing. If a region has its local base, or if `malloc` succeeds, it succeeds and keeps
-- the translator valid; from then on, each local pointer in the range is converted by its offset
-- to the remote base, and each pointer that a region with another base converted is converted as
-- before.
pub register_address_region_lem :
    (malloc : Bool) (t : Translator) (local_base size remote_base : ℕ)
    → let new = make_region local_base size remote_base in
      IsTranslator t
      → IsRegion new
      → Clear new t.regions
      → let (r, t') = register_address_region malloc local_base size remote_base t in
        ((malloc ≡ false)
          × (find_region (based local_base) t.regions ≡ none)
          × (r ≡ err enomem)
          × (t' ≡ t))
        ⊎ (((malloc ≡ true) ⊎ ((s : Region) × (find_region (based local_base) t.regions ≡ some s)))
            × (r ≡ ok tt)
            × Registered new t t')
register_address_region_lem malloc t local_base size remote_base h k c =
    elim (register-cases malloc t local_base size remote_base h.initialized) [
      | inl (n, gone, run) ↦ rw run (inl (n, gone, refl, refl))
      | inr (given, run) ↦
          let (done, registered) = register_given t local_base size remote_base h k c in
          rw run (inr (given, done, registered))
    ]

remove_region-cons :
    (a : ℕ) (r : Region) (rs l : List Region)
    → remove_region a (r ∷ rs) ≡ some l
    → ((r.local_base ≡ a) × (rs ≡ l))
      ⊎ ((l' : List Region) × (r.local_base ≢ a) × (remove_region a rs ≡ some l') × (r ∷ l' ≡ l))
unfolding remove_region
remove_region-cons a r rs l h = elim (eq-cases r.local_base a) [
  | inl e ↦ inl (e, ground (arith, e))
  | inr n ↦ elim (Option-cases (remove_region a rs)) [
    | inl gone ↦ absurd (ground (arith, gone, ==_ne r.local_base a n))
    | inr (l', found) ↦ inr (l', n, found, ground (arith, found, ==_ne r.local_base a n))
  ]
]

remove_region-DisjointAll :
    (a : ℕ) (x : Region) (rs l : List Region)
    → DisjointAll x rs
    → remove_region a rs ≡ some l
    → DisjointAll x l
unfolding remove_region
remove_region-DisjointAll a x [] l d h = absurd cc
remove_region-DisjointAll a x (r ∷ rs) l d h = elim (remove_region-cons a r rs l h) [
  | inl (e, eq) ↦ subst (DisjointAll x) eq d.1
  | inr (l', ne, found, eq) ↦
      subst (DisjointAll x) eq (d.0, remove_region-DisjointAll a x rs l' d.1 found)
]

remove_region-Regular :
    (a : ℕ) (rs l : List Region) → Regular rs → remove_region a rs ≡ some l → Regular l
unfolding remove_region
remove_region-Regular a [] l w h = absurd cc
remove_region-Regular a (r ∷ rs) l w h = elim (remove_region-cons a r rs l h) [
  | inl (e, eq) ↦ subst Regular eq w.2
  | inr (l', ne, found, eq) ↦
      subst Regular eq (
        w.0,
        remove_region-DisjointAll a r rs l' w.1 found,
        remove_region-Regular a rs l' w.2 found,
      )
]

-- a test that holds of the removed region alone finds nothing any more
remove_region-gone :
    (a : ℕ) (test : Region → Bool) (r : Region) (rs l : List Region)
    → Regular rs
    → find_region test rs ≡ some r
    → r.local_base ≡ a
    → remove_region a rs ≡ some l
    → ((x : Region) → IsRegion x → Disjoint x r → test x ≡ false)
    → find_region test l ≡ none
unfolding remove_region find_region
remove_region-gone a test r [] l w found e h no_other = absurd cc
remove_region-gone a test r (x ∷ rs) l w found e h no_other = elim (remove_region-cons a x rs l h) [
  | inl (k, eq) ↦ elim (find_region-cons test x rs r found) [
    | inl (y, same) ↦ rw (← eq) (none_there rs w.2 (subst (λ z. DisjointAll z rs) same w.1))
    | inr (n, later) ↦ absurd (
        same_base x r w.0 (found_IsRegion test rs r w.2 later)
          (found_Disjoint test x rs r w.1 later) (k ∙ sym e))
  ]
  | inr (l', ne, walked, eq) ↦ elim (find_region-cons test x rs r found) [
    | inl (y, same) ↦ absurd (ne (ap (λ z. z.local_base) same ∙ e))
    | inr (n, later) ↦
        rw (← eq, find_region-tail test x l' n)
          (remove_region-gone a test r rs l' w.2 later e walked no_other)
  ]
]
  where
    none_there : (rs : List Region) → Regular rs → DisjointAll r rs → find_region test rs ≡ none
    none_there [] w d = refl
    none_there (y ∷ rs) w d =
        find_region-tail test y rs (no_other y w.0 (Disjoint-sym r y d.0)) ∙ none_there rs w.2 d.1

no_base : (a : ℕ) (rs : List Region) → remove_region a rs ≡ none → find_region (based a) rs ≡ none
unfolding remove_region find_region
no_base a [] g = refl
no_base a (x ∷ rs) g = elim (eq-cases x.local_base a) [
  | inl e ↦ absurd (ground (arith, e))
  | inr n ↦ elim (Option-cases (remove_region a rs)) [
    | inl gone ↦ simp (==_ne x.local_base a n) (no_base a rs gone)
    | inr (l, found) ↦ absurd (ground (arith, found, ==_ne x.local_base a n))
  ]
]

unregister-some :
    (t : Translator) (a : ℕ) (l : List Region)
    → IsTranslator t
    → remove_region a t.regions ≡ some l
    → unregister_address_region a t ≡ (ok tt, record t { regions = l })
unfolding unregister_address_region
unregister-some t a l h done = simp (h.initialized, done)

unregister-none :
    (t : Translator) (a : ℕ)
    → IsTranslator t
    → remove_region a t.regions ≡ none
    → unregister_address_region a t ≡ (err enoent, t)
unfolding unregister_address_region
unregister-none t a h gone = simp (h.initialized, gone)

-- Removing a range from a valid translator either removes a region with that base and keeps the
-- translator valid, and then no local pointer that this region converted is converted any more; or
-- no region has the base, and the call returns ENOENT and changes nothing.
pub unregister_address_region_lem :
    (t : Translator) (local_base : ℕ)
    → IsTranslator t
    → let (r, t') = unregister_address_region local_base t in
      ((r ≡ ok tt)
        × IsTranslator t'
        × ((p : ℕ) (s : Region)
            → p ≢ 0
            → find_region (covers_local p) t.regions ≡ some s
            → s.local_base ≡ local_base
            → convert_local_to_remote_pointer p t' ≡ not_converted))
      ⊎ ((r ≡ err enoent) × (t' ≡ t) × (find_region (based local_base) t.regions ≡ none))
unregister_address_region_lem t a h = elim (Option-cases (remove_region a t.regions)) [
  | inl gone ↦ inr (rw (unregister-none t a h gone) (refl, refl, no_base a t.regions gone))
  | inr (l, done) ↦
      let after : Translator = record t { regions = l } in
      let valid : IsTranslator after = record {
        initialized = h.initialized;
        regular = remove_region-Regular a t.regions l h.regular done;
      } in
      inl (
        rw (unregister-some t a l h done) (
          refl,
          valid,
          λ p s nz found e. convert_local-not_found p after valid nz (lost p s l done found e),
        ))
]
  where
    lost :
        (p : ℕ) (s : Region) (l : List Region)
        → remove_region a t.regions ≡ some l
        → find_region (covers_local p) t.regions ≡ some s
        → s.local_base ≡ a
        → find_region (covers_local p) l ≡ none
    lost p s l done found e =
        let region = found_IsRegion (covers_local p) t.regions s h.regular found in
        let (above, below, _) =
          local_offset p s region (found_test (covers_local p) t.regions s found) in
        remove_region-gone a (covers_local p) s t.regions l h.regular found e done
          (λ x v d. covers_local-other p s x v d above below)
