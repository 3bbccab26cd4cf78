-- ===== src/AddressTranslation/Update.antt =====
-- What the walk of `register_address_region` does to the regions.
use swap_prefetch.Common.{
  ℕ, ◌≡◌, ◌≢◌, refl, Bool-cases, sym, ap, ◌∙◌, subst, Bool, true, false, none, some, List, [], ◌∷◌,
  ◌==◌, arith, ◌⊎◌, inl, inr, Option-cases, eq-cases, ==_ne, ==_refl,
}
use swap_prefetch.RdmaSim.Errno.{enomem, ok, err}
use swap_prefetch.AddressTranslation.{
  Region, Translator, find_region, make_region, update_region, register_address_region,
}
use swap_prefetch.AddressTranslation.Lookup.{
  IsRegion, Disjoint, DisjointAll, Regular, find_region-cons, find_region-head, find_region-tail,
}
use swap_prefetch.AddressTranslation.Regions.{IsTranslator}

-- every region with another base is disjoint from the new one
abbrev pub Clear : Region → List Region → Type 0
Clear new [] = Unit
Clear new (r ∷ rs) = (r.local_base ≢ new.local_base → Disjoint r new) × Clear new rs

abbrev pub based : ℕ → Region → Bool
based a r = r.local_base == a

update_region-cons :
    (new r : Region) (rs l : List Region)
    → update_region new (r ∷ rs) ≡ some l
    → ((r.local_base ≡ new.local_base) × (new ∷ rs ≡ l))
      ⊎ ((l' : List Region) × (r.local_base ≢ new.local_base)
          × (update_region new rs ≡ some l')
          × (r ∷ l' ≡ l))
unfolding update_region
update_region-cons new r rs l h = elim (eq-cases r.local_base new.local_base) [
  | inl e ↦ inl (e, ground (arith, e))
  | inr n ↦ elim (Option-cases (update_region new rs)) [
    | inl gone ↦ absurd (ground (arith, gone, ==_ne r.local_base new.local_base n))
    | inr (l', found) ↦
        inr (l', n, found, ground (arith, found, ==_ne r.local_base new.local_base n))
  ]
]

pub Disjoint-sym : (r s : Region) → Disjoint r s → Disjoint s r
Disjoint-sym r s d = (omega (arith, d.0), omega (arith, d.1))

-- regions that share a base are not disjoint
pub same_base :
    (r s : Region) → IsRegion r → IsRegion s → Disjoint r s → r.local_base ≢ s.local_base
same_base r s h k d = λ e. omega (arith, h.some_bytes, k.some_bytes, d.0)

pub found_Clear :
    (test : Region → Bool) (new : Region) (rs : List Region) (r : Region)
    → Clear new rs
    → find_region test rs ≡ some r
    → r.local_base ≢ new.local_base
    → Disjoint r new
unfolding find_region
found_Clear test new [] r c h other = absurd cc
found_Clear test new (x ∷ rs) r c h other = elim (find_region-cons test x rs r h) [
  | inl (y, e) ↦
      subst (λ z. Disjoint z new) e (c.0 (λ k. other (ap (λ z. z.local_base) (sym e) ∙ k)))
  | inr (n, later) ↦ found_Clear test new rs r c.1 later other
]

update_region-none :
    (new : Region) (rs : List Region)
    → update_region new rs ≡ none
    → Clear new rs
    → DisjointAll new rs
unfolding update_region
update_region-none new [] h c = tt
update_region-none new (r ∷ rs) h c =
    let miss : r.local_base ≢ new.local_base = λ e. ground (arith, e) in
    (Disjoint-sym r new (c.0 miss), update_region-none new rs (ground arith) c.1)

-- behind a region with the same base, all are disjoint from the new one
behind :
    (new r : Region) (rs : List Region)
    → IsRegion r
    → r.local_base ≡ new.local_base
    → Regular rs
    → DisjointAll r rs
    → Clear new rs
    → DisjointAll new rs
behind new r [] h e w d c = tt
behind new r (s ∷ rs) h e w d c =
    let apart : s.local_base ≢ new.local_base = λ k. same_base r s h w.0 d.0 (e ∙ sym k) in
    (Disjoint-sym s new (c.0 apart), behind new r rs h e w.2 d.1 c.1)

update_region-DisjointAll :
    (x new : Region) (rs l : List Region)
    → DisjointAll x rs
    → Disjoint x new
    → update_region new rs ≡ some l
    → DisjointAll x l
unfolding update_region
update_region-DisjointAll x new [] l d n h = absurd cc
update_region-DisjointAll x new (r ∷ rs) l d n h = elim (update_region-cons new r rs l h) [
  | inl (e, eq) ↦ subst (DisjointAll x) eq (n, d.1)
  | inr (l', ne, found, eq) ↦
      subst (DisjointAll x) eq (d.0, update_region-DisjointAll x new rs l' d.1 n found)
]

update_region-Regular :
    (new : Region) (rs l : List Region)
    → IsRegion new
    → Regular rs
    → Clear new rs
    → update_region new rs ≡ some l
    → Regular l
unfolding update_region
update_region-Regular new [] l k w c h = absurd cc
update_region-Regular new (r ∷ rs) l k w c h = elim (update_region-cons new r rs l h) [
  | inl (e, eq) ↦ subst Regular eq (k, behind new r rs w.0 e w.2 w.1 c.1, w.2)
  | inr (l', ne, found, eq) ↦ subst Regular eq (
    w.0,
    update_region-DisjointAll r new rs l' w.1 (c.0 ne) found,
    update_region-Regular new rs l' k w.2 c.1 found,
  )
]

update_region-found :
    (new : Region) (rs l : List Region)
    → update_region new rs ≡ some l
    → find_region (based new.local_base) l ≡ some new
unfolding update_region
update_region-found new [] l h = absurd cc
update_region-found new (r ∷ rs) l h = elim (update_region-cons new r rs l h) [
  | inl (e, eq) ↦
      rw (← eq) (find_region-head (based new.local_base) new rs (==_refl new.local_base))
  | inr (l', ne, found, eq) ↦
      rw (← eq, find_region-tail (based new.local_base) r l' (==_ne r.local_base new.local_base ne))
        (update_region-found new rs l' found)
]

update_region-keep :
    (test : Region → Bool) (new r : Region) (rs l : List Region)
    → test new ≡ false
    → find_region test rs ≡ some r
    → r.local_base ≢ new.local_base
    → update_region new rs ≡ some l
    → find_region test l ≡ some r
unfolding update_region find_region
update_region-keep test new r [] l n found other h = absurd cc
update_region-keep test new r (x ∷ rs) l n found other h = elim (update_region-cons new x rs l h) [
  | inl (e, eq) ↦ elim (find_region-cons test x rs r found) [
    | inl (_, same) ↦ absurd (other (ap (λ z. z.local_base) (sym same) ∙ e))
    | inr (_, later) ↦ rw (← eq, find_region-tail test new rs n) later
  ]
  | inr (l', ne, walked, eq) ↦ elim (find_region-cons test x rs r found) [
    | inl (y, same) ↦ rw (← eq, find_region-head test x l' y) (ap (λ z. some z) same)
    | inr (no_match, later) ↦
        rw (← eq, find_region-tail test x l' no_match)
          (update_region-keep test new r rs l' n later other walked)
  ]
]

-- what holds of the list of regions after the registration of `new`
pub record Registered (new : Region) (before after : List Region) : Type 0 where
  pub regular : Regular after
  pub found : find_region (based new.local_base) after ≡ some new
  pub kept :
      (test : Region → Bool) (r : Region)
      → test new ≡ false
      → find_region test before ≡ some r
      → r.local_base ≢ new.local_base
      → find_region test after ≡ some r

pub register-run :
    (t : Translator) (local_base size remote_base : ℕ)
    → let new = make_region local_base size remote_base in
      IsTranslator t
      → IsRegion new
      → Clear new t.regions
      → (l : List Region) × (register_address_region true local_base size remote_base t
          ≡ (ok tt, record t { regions = l }))
        × Registered new t.regions l
unfolding register_address_region
register-run t local_base size remote_base h k c =
    let new : Region = make_region local_base size remote_base in
    elim (Option-cases (update_region new t.regions)) [
      | inl gone ↦ (
        new ∷ t.regions,
        simp (h.initialized, gone),
        record {
          regular = (k, update_region-none new t.regions gone c, h.regular);
          found = find_region-head (based new.local_base) new t.regions (==_refl new.local_base);
          kept = λ test r n found other. find_region-tail test new t.regions n ∙ found;
        },
      )
      | inr (l, done) ↦ (
        l,
        simp (h.initialized, done),
        record {
          regular = update_region-Regular new t.regions l k h.regular c done;
          found = update_region-found new t.regions l done;
          kept =
              λ test r n found other. update_region-keep test new r t.regions l n found other done;
        },
      )
    ]

-- the walk finds a region to overwrite exactly if one has the base
update_region-based :
    (new : Region) (rs : List Region)
    → ((update_region new rs ≡ none) × (find_region (based new.local_base) rs ≡ none))
      ⊎ ((l : List Region) × (s : Region) × (update_region new rs ≡ some l)
          × (find_region (based new.local_base) rs ≡ some s))
unfolding update_region find_region
update_region-based new [] = inl (refl, refl)
update_region-based new (r ∷ rs) = elim (eq-cases r.local_base new.local_base) [
  | inl e ↦
      let at : based new.local_base r ≡ true = ground (arith, e) in
      inr (new ∷ rs, r, simp at refl, simp at refl)
  | inr ne ↦
      let at : based new.local_base r ≡ false = ==_ne r.local_base new.local_base ne in
      elim (update_region-based new rs) [
        | inl (gone, lost) ↦ inl (simp (at, gone) refl, simp (at, lost) refl)
        | inr (l, s, found, there) ↦ inr (r ∷ l, s, simp (at, found) refl, simp (at, there) refl)
      ]
]

-- A registration without memory for a new region fails if it needs one, and else needs none.
pub register-cases :
    (malloc : Bool) (t : Translator) (local_base size remote_base : ℕ)
    → t.initialized ≡ true
    → ((malloc ≡ false)
        × (find_region (based local_base) t.regions ≡ none)
        × (register_address_region malloc local_base size remote_base t ≡ (err enomem, t)))
      ⊎ (((malloc ≡ true) ⊎ ((s : Region) × (find_region (based local_base) t.regions ≡ some s)))
          × (register_address_region malloc local_base size remote_base t
              ≡ register_address_region true local_base size remote_base t))
unfolding register_address_region make_region
register-cases malloc t local_base size remote_base on = elim (Bool-cases malloc) [
  | inl y ↦ inr (inl y, ap (λ m. register_address_region m local_base size remote_base t) y)
  | inr n ↦ elim (update_region-based (make_region local_base size remote_base) t.regions) [
    | inl (gone, lost) ↦ inl (n, lost, simp (on, gone, n) refl)
    | inr (l, s, found, there) ↦ inr (inr (s, there), simp (on, found) refl)
  ]
]
