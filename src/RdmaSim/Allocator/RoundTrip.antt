-- ===== src/RdmaSim/Allocator/RoundTrip.antt =====
-- Freeing what was just allocated restores the list of blocks, and with nothing held one block is
-- left.
use swap_prefetch.Common.{
  ℕ, ◌+◌, ◌-◌, ◌%◌, ◌≡◌, ◌≤◌, ◌<◌, refl, true, false, Option, none, some, List, [], ◌∷◌, ltb, word,
  add64, arith, inl, inr, ==_ne, Bool-cases,
}
use swap_prefetch.RdmaSim.Allocator.{
  Block, remote_memory_align, take_block, first_fit, join_next, join_prev, with_prev, release,
}
use swap_prefetch.RdmaSim.Allocator.Tiling.{
  Tiled, Tiled-le, Merged, starts_free, live, first_fit-cons, first_fit-Tiled,
}

-- the block behind the walk does not merge with the first block
abbrev Keeps : Option Block → List Block → Type 0
Keeps none bs = Unit
Keeps (some p) bs = p.free ≡ true → starts_free bs ≡ false

module _ (e size : ℕ) (fits : e < word) (pos : 0 < size)
    (whole : size % remote_memory_align ≡ 0) where
  join_prev-Keeps :
      (prev : Option Block) (b : Block) (bs : List Block)
      → Keeps prev (b ∷ bs)
      → b.free ≡ true
      → join_prev prev (b ∷ bs) ≡ with_prev prev (b ∷ bs)
  unfolding join_prev
  join_prev-Keeps none b bs k f = refl
  join_prev-Keeps (some p) b bs k f = ground arith

  join_next-split :
      (b : Block) (bs : List Block)
      → b.free ≡ true
      → size ≤ b.size
      → b.size < word
      → starts_free bs ≡ false
      → (l : List Block)
      → take_block true size b bs ≡ record { addr = b.addr; size = size; free = false } ∷ l
      → join_next (record { addr = b.addr; size = size; free = true }) l ≡ b ∷ bs
  unfolding join_next take_block
  join_next-split b [] f le lt sf l h = ground arith
  join_next-split b (c ∷ cs) f le lt sf l h = ground arith

  take_block-cons :
      (b : Block) (bs : List Block)
      → (l : List Block) × (take_block true size b bs
          ≡ record { addr = b.addr; size = size; free = false } ∷ l)
  unfolding take_block
  take_block-cons b bs = elim (Bool-cases (ltb size b.size)) [
    | inl h ↦ (record { addr = add64 b.addr size; size = b.size - size; free = true } ∷ bs, rw h)
    | inr h ↦ (bs, rw h)
  ]

  pub release-first_fit :
      (prev : Option Block) (a : ℕ) (bs : List Block) (addr : ℕ) (l : List Block)
      → Keeps prev bs
      → Tiled a e bs
      → Merged bs
      → first_fit true size bs ≡ some (addr, l)
      → release addr prev l ≡ some (size, with_prev prev bs)
  unfolding first_fit release
  release-first_fit prev a [] addr l k t mg h = cc
  release-first_fit prev a (b ∷ bs) addr l k t mg h =
      elim (first_fit-cons true size b bs addr l h) [
        | inl (free, le, at, eq) ↦
            let (l2, shape) = take_block-cons b bs in
            let joined =
              join_next-split b bs free le (omega (arith, Tiled-le (a + b.size) e bs t.3))
                (mg.0 free) l2 shape in
            rw (eq, shape, at) (ground (arith, joined, join_prev-Keeps prev b bs k free))
        | inr (l', found, eq) ↦
            let above =
              (first_fit-Tiled e size fits pos whole (a + b.size) bs addr l' t.3 found).1 in
            let ih = release-first_fit (some b) (a + b.size) bs addr l' mg.0 t.3 mg.1 found in
            rw (eq, ==_ne b.addr addr (omega (arith, t.0)), ih) (ground arith)
      ]

-- With nothing held the memory is one free block.
pub one_block :
    (e a : ℕ) (bs : List Block)
    → Tiled a e bs
    → Merged bs
    → live bs ≡ []
    → a < e
    → bs ≡ record { addr = a; size = e - a; free = true } ∷ []
one_block e a [] t mg h lt = absurd (omega arith)
one_block e a (b ∷ []) t mg h lt = ground arith
one_block e a (b ∷ c ∷ cs) t mg h lt = absurd (ground arith)
