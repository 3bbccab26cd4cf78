-- ===== src/RdmaSim/Allocator/Release.antt =====
-- Freeing a region keeps the tiling, and merges so that no two free blocks are neighbours.
use swap_prefetch.Common.{
  ℕ, ◌+◌, ◌≡◌, ◌<◌, refl, ◌∙◌, true, false, not, ◌&&◌, Option, some, List, [], ◌∷◌, ◌==◌, word,
  add64, arith, ◌⊎◌, inl, inr, Bool-cases, Option-cases,
}
use native.Mathlib.Nat.{add_assoc}
use swap_prefetch.RdmaSim.Allocator.{Block, join_next, join_prev, with_prev, release}
use swap_prefetch.RdmaSim.Allocator.Tiling.{Tiled, Merged, starts_free, in_use, Tiled-le}

-- what a successful walk found at this block, or behind it
pub release-cons :
    (addr : ℕ) (prev : Option Block) (b : Block) (bs : List Block) (n : ℕ) (l : List Block)
    → release addr prev (b ∷ bs) ≡ some (n, l)
    → ((b.free ≡ false)
        × (b.addr ≡ addr)
        × (n ≡ b.size)
        × (l ≡ join_prev prev (join_next (record b { free = true }) bs)))
      ⊎ ((l' : List Block) × (release addr (some b) bs ≡ some (n, l')) × (l ≡ with_prev prev l'))
unfolding release
release-cons addr prev b bs n l h = elim (Bool-cases (not b.free && (b.addr == addr))) [
  | inl hit ↦ inl (ground arith)
  | inr miss ↦ elim (Option-cases (release addr (some b) bs)) [
    | inl gone ↦ ground arith
    | inr ((k, l'), found) ↦ inr (l', ground arith, ground arith)
  ]
]

-- what freeing a region keeps of the blocks `old`
pub record Released (a e n : ℕ) (old l : List Block) : Type 0 where
  pub tiled : Tiled a e l
  pub merged : Merged l
  pub usage : in_use l + n ≡ in_use old

pub join_next-cons :
    (b : Block) (bs : List Block)
    → (c : Block) × (cs : List Block) × (join_next b bs ≡ c ∷ cs) × (c.free ≡ b.free)
unfolding join_next
join_next-cons b [] = (b, [], refl, refl)
join_next-cons b (c ∷ cs) = elim (Bool-cases (c.free && (add64 b.addr b.size == c.addr))) [
  | inl h ↦ (record b { size = add64 b.size c.size }, cs, rw h, refl)
  | inr h ↦ (b, c ∷ cs, rw h, refl)
]

touch_lem : (a n c : ℕ) → c ≡ a + n → a + n < word → (add64 a n == c) ≡ true
touch_lem a n c h lt = ground arith

module _ (e : ℕ) (fits : e < word) where
  pub join_next-Released :
      (a : ℕ) (b : Block) (bs : List Block)
      → b.free ≡ false
      → Tiled a e (b ∷ bs)
      → Merged (b ∷ bs)
      → Released a e b.size (b ∷ bs) (join_next (record b { free = true }) bs)
  unfolding join_next
  join_next-Released a b [] used t mg = ground arith
  join_next-Released a b (c ∷ cs) used t mg =
      let room = Tiled-le (a + b.size + c.size) e cs t.3.3 in
      let touch : (add64 b.addr b.size == c.addr) ≡ true =
        touch_lem b.addr b.size c.addr (omega arith) (omega arith) in
      let sum : add64 b.size c.size ≡ b.size + c.size = omega arith in
      elim (Bool-cases c.free) [
        | inl f ↦
            rw (f, touch, sum)
              (record {
                tiled = (t.0, omega arith, omega arith, rw add_assoc at t.3.3);
                merged = (λ _. mg.1.0 f, mg.1.1);
                usage = rw used (omega arith);
              })
        | inr f ↦
            simp f (record { tiled = t; merged = (λ _. f, mg.1); usage = rw used (omega arith) })
      ]

  join_prev-Released :
      (a : ℕ) (p b : Block) (bs : List Block)
      → Tiled a e (p ∷ b ∷ bs)
      → Merged (b ∷ bs)
      → b.free ≡ true
      → Released a e 0 (p ∷ b ∷ bs) (join_prev (some p) (b ∷ bs))
        × (starts_free (join_prev (some p) (b ∷ bs)) ≡ p.free)
  unfolding join_prev
  join_prev-Released a p b bs t mg h = ground (arith, Tiled-le (a + p.size + b.size) e bs t.3.3)

  -- The outcome of a walk with the block `p` behind it starts like `p`.
  pub release-some :
      (a addr n : ℕ) (p : Block) (bs l : List Block)
      → release addr (some p) bs ≡ some (n, l)
      → Tiled a e (p ∷ bs)
      → Merged (p ∷ bs)
      → Released a e n (p ∷ bs) l × (starts_free l ≡ p.free)
  unfolding release
  release-some a addr n p [] l h t mg = cc
  release-some a addr n p (b ∷ bs) l h t mg = elim (release-cons addr (some p) b bs n l h) [
    | inl (used, at, size, eq) ↦
        let (c, cs, shape, f) = join_next-cons (record b { free = true }) bs in
        let r : Released (a + p.size) e b.size (b ∷ bs) (c ∷ cs) =
          rw shape at (join_next-Released (a + p.size) b bs used t.3 mg.1) in
        let (r', same) = join_prev-Released a p c cs (t.0, t.1, t.2, r.tiled) r.merged f in
        rw (eq, shape)
          (
            record {
              tiled = r'.tiled;
              merged = r'.merged;
              usage = omega (arith, r'.usage, r.usage, size);
            },
            same,
          )
    | inr (l', found, eq) ↦
        let (r, same) = release-some (a + p.size) addr n b bs l' found t.3 mg.1 in
        rw eq (
          record {
            tiled = (t.0, t.1, t.2, r.tiled);
            merged = (λ f. same ∙ mg.0 f, r.merged);
            usage = omega (arith, r.usage);
          },
          refl,
        )
  ]
