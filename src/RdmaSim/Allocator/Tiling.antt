-- ===== src/RdmaSim/Allocator/Tiling.antt =====
-- The invariant of the list of blocks: it tiles the remote memory, no two free blocks are
-- neighbours, and every block is a whole number of pages.
use swap_prefetch.Common.{
  ℕ, ◌+◌, ◌%◌, ◌≡◌, ◌≤◌, ◌<◌, Bool, true, false, ◌&&◌, some, List, [], ◌∷◌, leb, if◌then◌else◌,
  word, arith, ◌⊎◌, inl, inr, Bool-cases, Option-cases,
}
use swap_prefetch.RdmaSim.Allocator.{Block, remote_memory_align, take_block, first_fit}

-- From the address `a` on the blocks follow one another up to `e`.
abbrev pub Tiled : ℕ → ℕ → List Block → Type 0
Tiled a e [] = a ≡ e
Tiled a e (b ∷ bs) =
    (b.addr ≡ a) × (0 < b.size) × (b.size % remote_memory_align ≡ 0) × Tiled (a + b.size) e bs

abbrev pub starts_free : List Block → Bool
starts_free [] = false
starts_free (b ∷ bs) = b.free

abbrev pub Merged : List Block → Type 0
Merged [] = Unit
Merged (b ∷ bs) = (b.free ≡ true → starts_free bs ≡ false) × Merged bs

-- the bytes in use
abbrev pub in_use : List Block → ℕ
in_use [] = 0
in_use (b ∷ bs) = (if b.free then 0 else b.size) + in_use bs

-- the regions that are allocated, by address
abbrev pub live : List Block → List (ℕ × ℕ)
live [] = []
live (b ∷ bs) = if b.free then live bs else (b.addr, b.size) ∷ live bs

pub Tiled-le : (a e : ℕ) (bs : List Block) → Tiled a e bs → a + in_use bs ≤ e
Tiled-le a e [] t = omega arith
Tiled-le a e (b ∷ bs) t = ground (arith, Tiled-le (a + b.size) e bs t.3)

-- what a successful search found at this block, or behind it
pub first_fit-cons :
    (malloc : Bool) (size : ℕ) (b : Block) (bs : List Block) (addr : ℕ) (l : List Block)
    → first_fit malloc size (b ∷ bs) ≡ some (addr, l)
    → ((b.free ≡ true) × (size ≤ b.size) × (addr ≡ b.addr) × (l ≡ take_block malloc size b bs))
      ⊎ ((l' : List Block) × (first_fit malloc size bs ≡ some (addr, l')) × (l ≡ b ∷ l'))
unfolding first_fit
first_fit-cons malloc size b bs addr l h = elim (Bool-cases (b.free && leb size b.size)) [
  | inl hit ↦ inl (ground arith)
  | inr miss ↦ elim (Option-cases (first_fit malloc size bs)) [
    | inl miss' ↦ ground arith
    | inr ((a, l'), found) ↦ inr (l', ground arith, ground arith)
  ]
]

module _ (e size : ℕ) (fits : e < word) (pos : 0 < size)
    (whole : size % remote_memory_align ≡ 0) where
  pub first_fit-Tiled :
      (a : ℕ) (bs : List Block) (addr : ℕ) (l : List Block)
      → Tiled a e bs
      → first_fit true size bs ≡ some (addr, l)
      → Tiled a e l × (a ≤ addr) × (addr + size ≤ e)
  unfolding first_fit take_block
  first_fit-Tiled a [] addr l t h = cc
  first_fit-Tiled a (b ∷ bs) addr l t h = elim (first_fit-cons true size b bs addr l h) [
    | inl (free, le, at, eq) ↦ rw eq (ground (arith, Tiled-le (a + b.size) e bs t.3))
    | inr (l', found, eq) ↦
        rw eq (ground (arith, first_fit-Tiled (a + b.size) bs addr l' t.3 found))
  ]

  pub first_fit-Merged :
      (bs : List Block) (addr : ℕ) (l : List Block)
      → Merged bs
      → first_fit true size bs ≡ some (addr, l)
      → Merged l × (starts_free bs ≡ false → starts_free l ≡ false)
  unfolding first_fit take_block
  first_fit-Merged [] addr l mg h = cc
  first_fit-Merged (b ∷ bs) addr l mg h = elim (first_fit-cons true size b bs addr l h) [
    | inl (free, le, at, eq) ↦ rw eq (ground arith)
    | inr (l', found, eq) ↦ rw eq (ground (arith, first_fit-Merged bs addr l' mg.1 found))
  ]

  pub first_fit-in_use :
      (bs : List Block) (addr : ℕ) (l : List Block)
      → first_fit true size bs ≡ some (addr, l)
      → in_use l ≡ in_use bs + size
  unfolding first_fit take_block
  first_fit-in_use [] addr l h = cc
  first_fit-in_use (b ∷ bs) addr l h = elim (first_fit-cons true size b bs addr l h) [
    | inl (free, le, at, eq) ↦ rw eq (ground arith)
    | inr (l', found, eq) ↦ rw eq (ground (arith, first_fit-in_use bs addr l' found))
  ]
