-- ===== src/RdmaSim/Allocator/Live.antt =====
-- The regions that clients hold: what an allocation adds to them, and what a release takes away.
use swap_prefetch.Common.{
  ℕ, ◌+◌, ◌%◌, ◌≡◌, ◌≤◌, ◌<◌, refl, sym, ap, ◌∙◌, Bool, true, false, ◌||◌, Option, none, some, List,
  [], ◌∷◌, ◌++◌, ◌==◌, word, arith, ◌⊎◌, inl, inr, Bool-cases,
}
use swap_prefetch.RdmaSim.Allocator.{
  Block, remote_memory_align, take_block, first_fit, join_next, join_prev, with_prev, release,
}
use swap_prefetch.RdmaSim.Allocator.Tiling.{Tiled, live, first_fit-cons, first_fit-Tiled}
use swap_prefetch.RdmaSim.Allocator.Release.{release-cons, join_next-cons}

-- whether a region is held at an address
abbrev pub held : ℕ → List (ℕ × ℕ) → Bool
held a [] = false
held a ((c, _) ∷ rs) = (c == a) || held a rs

-- no byte of the regions is among the `n` bytes at `a`
abbrev pub Apart : ℕ → ℕ → List (ℕ × ℕ) → Type 0
Apart a n [] = Unit
Apart a n ((c, k) ∷ rs) = ((c + k ≤ a) ⊎ (a + n ≤ c)) × Apart a n rs

-- `after` is `before` with the region `r` put in
pub record Inserted (r : ℕ × ℕ) (before after : List (ℕ × ℕ)) : Type 0 where
  pub low : List (ℕ × ℕ)
  pub high : List (ℕ × ℕ)
  pub old : before ≡ low ++ high
  pub new : after ≡ low ++ r ∷ high

Inserted-cons :
    {r s : ℕ × ℕ} {xs ys : List (ℕ × ℕ)} → Inserted r xs ys → Inserted r (s ∷ xs) (s ∷ ys)
Inserted-cons {s} i = record {
  low = s ∷ i.low;
  high = i.high;
  old = ap (λ l. s ∷ l) i.old;
  new = ap (λ l. s ∷ l) i.new;
}

live-Inserted :
    {r : ℕ × ℕ} (b : Block) (xs ys : List Block)
    → Inserted r (live xs) (live ys)
    → Inserted r (live (b ∷ xs)) (live (b ∷ ys))
live-Inserted b xs ys i = elim (Bool-cases b.free) [
  | inl f ↦ simp f i
  | inr f ↦ simp f (Inserted-cons i)
]

pub first_fit-live :
    (malloc : Bool) (size : ℕ) (bs : List Block) (addr : ℕ) (l : List Block)
    → first_fit malloc size bs ≡ some (addr, l)
    → Inserted (addr, size) (live bs) (live l)
unfolding first_fit take_block
first_fit-live malloc size [] addr l h = cc
first_fit-live malloc size (b ∷ bs) addr l h = elim (first_fit-cons malloc size b bs addr l h) [
  | inl (free, le, at, eq) ↦ record {
    low = [];
    high = live bs;
    old = rw free;
    new = rw (eq, at) (ground arith);
  }
  | inr (l', found, eq) ↦
      rw eq (live-Inserted b bs l' (first_fit-live malloc size bs addr l' found))
]

Apart-below :
    (a e addr n : ℕ) (bs : List Block) → Tiled a e bs → addr + n ≤ a → Apart addr n (live bs)
Apart-below a e addr n [] t h = tt
Apart-below a e addr n (b ∷ bs) t h = ground (arith, Apart-below (a + b.size) e addr n bs t.3)

-- A region that is handed out has no byte in common with one that is held.
pub first_fit-Apart :
    (e size : ℕ)
    → e < word
    → 0 < size
    → size % remote_memory_align ≡ 0
    → (a : ℕ) (bs : List Block) (addr : ℕ) (l : List Block) → Tiled a e bs
    → first_fit true size bs ≡ some (addr, l)
    → Apart addr size (live bs)
unfolding first_fit
first_fit-Apart e size fits pos whole a [] addr l t h = cc
first_fit-Apart e size fits pos whole a (b ∷ bs) addr l t h =
    elim (first_fit-cons true size b bs addr l h) [
      | inl (free, le, at, eq) ↦
          rw free (Apart-below (a + b.size) e addr size bs t.3 (omega (arith, t.0)))
      | inr (l', found, eq) ↦
          let rest = first_fit-Apart e size fits pos whole (a + b.size) bs addr l' t.3 found in
          let above = (first_fit-Tiled e size fits pos whole (a + b.size) bs addr l' t.3 found).1 in
          elim (Bool-cases b.free) [
            | inl f ↦ rw f rest
            | inr f ↦ rw f (inl (omega (arith, t.0)), rest)
          ]
    ]

live-join_next : (b : Block) (bs : List Block) → b.free ≡ true → live (join_next b bs) ≡ live bs
unfolding join_next
live-join_next b [] f = ground arith
live-join_next b (c ∷ cs) f = ground arith

live-join_prev :
    (prev : Option Block) (c : Block) (cs : List Block)
    → c.free ≡ true
    → live (join_prev prev (c ∷ cs)) ≡ live (with_prev prev (c ∷ cs))
unfolding join_prev
live-join_prev none c cs f = refl
live-join_prev (some p) c cs f = ground arith

with_prev-Inserted :
    {r : ℕ × ℕ} (prev : Option Block) (xs ys : List Block)
    → Inserted r (live xs) (live ys)
    → Inserted r (live (with_prev prev xs)) (live (with_prev prev ys))
with_prev-Inserted none xs ys i = i
with_prev-Inserted (some p) xs ys i = live-Inserted p xs ys i

-- The walk takes the region at the address away, and no other.
pub release-live :
    (addr : ℕ) (prev : Option Block) (bs : List Block) (n : ℕ) (l : List Block)
    → release addr prev bs ≡ some (n, l)
    → Inserted (addr, n) (live l) (live (with_prev prev bs))
unfolding release
release-live addr prev [] n l h = cc
release-live addr prev (b ∷ bs) n l h = elim (release-cons addr prev b bs n l h) [
  | inl (used, at, size, eq) ↦
      let (c, cs, shape, f) = join_next-cons (record b { free = true }) bs in
      let same : live (c ∷ cs) ≡ live bs =
        ap live (sym shape) ∙ live-join_next (record b { free = true }) bs refl in
      rw (eq, shape, live-join_prev prev c cs f)
        (with_prev-Inserted prev (c ∷ cs) (b ∷ bs)
          (record { low = []; high = live bs; old = same; new = rw (used, at, size) }))
  | inr (l', found, eq) ↦
      rw eq (with_prev-Inserted prev l' (b ∷ bs) (release-live addr (some b) bs n l' found))
]

-- It fails only if no region is held at the address.
pub release-none :
    (addr : ℕ) (prev : Option Block) (bs : List Block)
    → release addr prev bs ≡ none
    → held addr (live bs) ≡ false
unfolding release
release-none addr prev [] h = refl
release-none addr prev (b ∷ bs) h = ground (arith, release-none addr (some b) bs)
