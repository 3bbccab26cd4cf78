-- ===== src/RdmaStorage/Lookup.antt =====
-- The table of regions as a map from offsets to regions.
use swap_prefetch.Common.{
  ℕ, ◌+◌, ◌≡◌, ◌≢◌, ◌≤◌, ◌<◌, refl, sym, ap, ◌∙◌, subst, true, false, Option, none, some, List, leb,
  if◌then◌else◌, length, set, arith, ◌⊎◌, inl, inr, Bool-cases, eq-cases,
}
use swap_prefetch.RdmaSim.Requests.Ring.{length-set}
use swap_prefetch.RdmaStorage.{RemoteRegion, region_at, find_remote_region}
use swap_prefetch.RdmaStorage.Table.{region_at-set_same, region_at-set_other, Holds, find-cases}

-- The invariant of the table with `num_remote_regions` at `n`: the slots from `n` on are unused,
-- and no two slots hold a region for the same offset.
pub record IsTable (n : ℕ) (l : List RemoteRegion) : Type 0 where
  pub in_table : n ≤ length l
  pub behind : (i : ℕ) → n ≤ i → (region_at l i).in_use ≡ false
  pub distinct : (o i j : ℕ) → Holds o i l → Holds o j l → i ≡ j

-- the region that the table has for an offset
abbrev pub region_of : Option ℕ → List RemoteRegion → Option RemoteRegion
region_of none l = none
region_of (some i) l = some (region_at l i)

abbrev pub lookup : ℕ → ℕ → List RemoteRegion → Option RemoteRegion
lookup o n l = region_of (find_remote_region o n l) l

pub Holds-low : (o i n : ℕ) (l : List RemoteRegion) → IsTable n l → Holds o i l → i < n
Holds-low o i n l t h = elim (Bool-cases (leb n i)) [
  | inl high ↦ cc (h.used, t.behind i (ground arith))
  | inr low ↦ ground arith
]

pub find-Holds :
    (o i n : ℕ) (l : List RemoteRegion)
    → IsTable n l
    → Holds o i l
    → find_remote_region o n l ≡ some i
find-Holds o i n l t h = elim (find-cases o n l) [
  | inl (j, e, _, k) ↦ e ∙ ap some (t.distinct o j i k h)
  | inr (_, out) ↦ absurd (out i (Holds-low o i n l t h) h)
]

pub find-nothing :
    (o n : ℕ) (l : List RemoteRegion) → ((i : ℕ) → ¬ Holds o i l) → find_remote_region o n l ≡ none
find-nothing o n l out = elim (find-cases o n l) [
  | inl (j, _, _, k) ↦ absurd (out j k)
  | inr (e, _) ↦ e
]

pub find-none :
    (o n : ℕ) (l : List RemoteRegion)
    → IsTable n l
    → find_remote_region o n l ≡ none
    → (i : ℕ) → ¬ Holds o i l
find-none o n l t e i h = cc (e, find-Holds o i n l t h)

module _ (n i : ℕ) (l : List RemoteRegion) (r : RemoteRegion) (low : i < length l) where
  pub Holds-set_same : (o : ℕ) → r.in_use ≡ true → r.virtual_offset ≡ o → Holds o i (set l i r)
  Holds-set_same o u e = record {
    used = rw (region_at-set_same l i r low) u;
    offset = rw (region_at-set_same l i r low) e;
  }

  Holds-set_other : (o j : ℕ) → j ≢ i → Holds o j l → Holds o j (set l i r)
  Holds-set_other o j ne h = record {
    used = rw (region_at-set_other l i j r ne) h.used;
    offset = rw (region_at-set_other l i j r ne) h.offset;
  }

  -- what holds an offset after a write to slot `i`
  pub Holds-set_inv :
      (o j : ℕ)
      → Holds o j (set l i r)
      → ((j ≡ i) × (r.in_use ≡ true) × (r.virtual_offset ≡ o)) ⊎ ((j ≢ i) × Holds o j l)
  Holds-set_inv o j h = elim (eq-cases j i) [
    | inl e ↦
        let at : region_at (set l i r) j ≡ r =
          ap (region_at (set l i r)) e ∙ region_at-set_same l i r low in
        inl
          (e, sym (ap (λ x. x.in_use) at) ∙ h.used, sym (ap (λ x. x.virtual_offset) at) ∙ h.offset)
    | inr ne ↦
        let at = region_at-set_other l i j r ne in
        inr (
          ne,
          record {
            used = sym (ap (λ x. x.in_use) at) ∙ h.used;
            offset = sym (ap (λ x. x.virtual_offset) at) ∙ h.offset;
          },
        )
  ]

  -- A region written to a slot, for an offset that no other slot holds, leaves the table valid.
  pub set-IsTable :
      IsTable n l
      → ((j : ℕ) → j ≢ i → ¬ Holds r.virtual_offset j l)
      → IsTable (if leb n i then i + 1 else n) (set l i r)
  set-IsTable t alone = record {
    in_table = rw (length-set l i r) (ground (arith, t.in_table));
    behind =
        λ j high. rw (region_at-set_other l i j r (λ e. ground arith)) (t.behind j (ground arith));
    distinct = λ o j k hj hk. elim (Holds-set_inv o j hj) [
      | inl a ↦ elim (Holds-set_inv o k hk) [
        | inl b ↦ a.0 ∙ sym b.0
        | inr b ↦ absurd (alone k b.0 (subst (λ x. Holds x k l) (sym a.2) b.1))
      ]
      | inr a ↦ elim (Holds-set_inv o k hk) [
        | inl b ↦ absurd (alone j a.0 (subst (λ x. Holds x j l) (sym b.2) a.1))
        | inr b ↦ t.distinct o j k a.1 b.1
      ]
    ];
  }

  -- A region that is no longer in use leaves the table valid.
  pub clear-IsTable : IsTable n l → i < n → r.in_use ≡ false → IsTable n (set l i r)
  clear-IsTable t first u = record {
    in_table = rw (length-set l i r) t.in_table;
    behind = λ j high. rw (region_at-set_other l i j r (λ e. ground arith)) (t.behind j high);
    distinct = λ o j k hj hk. elim (Holds-set_inv o j hj) [
      | inl a ↦ cc (u, a.1)
      | inr a ↦ elim (Holds-set_inv o k hk) [
        | inl b ↦ cc (u, b.1)
        | inr b ↦ t.distinct o j k a.1 b.1
      ]
    ];
  }

  -- A region that is written over with its use and its offset kept leaves the table valid.
  pub touch-IsTable :
      IsTable n l
      → r.in_use ≡ (region_at l i).in_use
      → r.virtual_offset ≡ (region_at l i).virtual_offset
      → IsTable n (set l i r)
  touch-IsTable t u v = record {
    in_table = rw (length-set l i r) t.in_table;
    behind = λ j high. elim (eq-cases j i) [
      | inl e ↦
          ap (λ x. (region_at (set l i r) x).in_use) e
          ∙ ap (λ x. x.in_use) (region_at-set_same l i r low)
          ∙ u
          ∙ t.behind i (omega arith)
      | inr ne ↦ rw (region_at-set_other l i j r ne) (t.behind j high)
    ];
    distinct = λ o j k hj hk. t.distinct o j k (before o j hj) (before o k hk);
  }
    where
      before : (o j : ℕ) → Holds o j (set l i r) → Holds o j l
      before o j h = elim (Holds-set_inv o j h) [
        | inl a ↦
            subst (λ x. Holds o x l) (sym a.0) (record { used = sym u ∙ a.1; offset = sym v ∙ a.2 })
        | inr a ↦ a.1
      ]

  pub lookup-set_same :
      (m : ℕ)
      → IsTable m (set l i r)
      → r.in_use ≡ true
      → lookup r.virtual_offset m (set l i r) ≡ some r
  lookup-set_same m t u =
      ap (λ f. region_of f (set l i r))
        (find-Holds r.virtual_offset i m (set l i r) t (Holds-set_same r.virtual_offset u refl))
      ∙ ap some (region_at-set_same l i r low)

  -- An offset that slot `i` neither held nor holds has the region that it had.
  pub lookup-set_other :
      (o m : ℕ)
      → IsTable n l
      → IsTable m (set l i r)
      → ¬ Holds o i l
      → ¬ ((r.in_use ≡ true) × (r.virtual_offset ≡ o))
      → lookup o m (set l i r) ≡ lookup o n l
  lookup-set_other o m t t' before after = elim (find-cases o n l) [
    | inl (j, e, _, h) ↦
        let ne : j ≢ i = λ z. before (subst (λ x. Holds o x l) z h) in
        ap (λ f. region_of f (set l i r))
          (find-Holds o j m (set l i r) t' (Holds-set_other o j ne h))
        ∙ ap some (region_at-set_other l i j r ne)
        ∙ sym (ap (λ f. region_of f l) e)
    | inr (e, out) ↦
        ap (λ f. region_of f (set l i r))
          (find-nothing o m (set l i r) (λ j h. elim (Holds-set_inv o j h) [
            | inl a ↦ after (a.1, a.2)
            | inr a ↦ find-none o n l t e j a.1
          ]))
        ∙ sym (ap (λ f. region_of f l) e)
  ]

  -- An offset that slot `i` held and no longer holds has no region.
  pub lookup-set_lost :
      (o m : ℕ)
      → IsTable n l
      → Holds o i l
      → ¬ ((r.in_use ≡ true) × (r.virtual_offset ≡ o))
      → lookup o m (set l i r) ≡ none
  lookup-set_lost o m t before after =
      ap (λ f. region_of f (set l i r))
        (find-nothing o m (set l i r) (λ j h. elim (Holds-set_inv o j h) [
          | inl a ↦ after (a.1, a.2)
          | inr a ↦ a.0 (t.distinct o j i a.1 before)
        ]))
