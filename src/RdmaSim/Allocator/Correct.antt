-- ===== src/RdmaSim/Allocator/Correct.antt =====
-- What clients of the allocator rely on: `rdma_sim_allocate` and `rdma_sim_free` in every case.
use swap_prefetch.Common.{
  ℕ, ◌+◌, ◌%◌, ◌≡◌, ◌≤◌, ◌<◌, refl, sym, ◌∙◌, Bool, true, false, none, some, List, [], ◌∷◌, word,
  add64, sub64, arith, ◌⊎◌, inl, inr, Option-cases, ==_ne, Bool-cases, ◌==◌,
}
use swap_prefetch.RdmaSim.Errno.{Errno, einval, enomem, enotconn, Result, ok, err}
use swap_prefetch.RdmaSim.Allocator.{
  Block, Allocator, join_next, join_prev, remote_memory_align, remote_base, remote_memory_size,
  init_allocator, round_up, first_fit, take_block, release, rdma_sim_allocate, rdma_sim_free,
}
use swap_prefetch.RdmaSim.Allocator.Tiling.{
  Tiled, Tiled-le, Merged, in_use, live, first_fit-Tiled, first_fit-Merged, first_fit-in_use,
}
use swap_prefetch.RdmaSim.Allocator.Release.{
  Released, release-cons, join_next-Released, release-some,
}
use swap_prefetch.RdmaSim.Allocator.Live.{
  Inserted, Apart, held, first_fit-live, first_fit-Apart, release-live, release-none,
}
use swap_prefetch.RdmaSim.Allocator.RoundTrip.{release-first_fit, one_block}

abbrev pub remote_end : ℕ
remote_end = remote_base + remote_memory_size

-- The invariant of the server's allocator.
pub record IsHeap (a : Allocator) : Type 0 where
  pub connected : a.connected ≡ true
  pub tiled : Tiled remote_base remote_end a.blocks
  pub merged : Merged a.blocks
  pub used : a.used ≡ in_use a.blocks

-- sizes that `round_up` does not wrap
abbrev pub FitsSize : ℕ → Type 0
FitsSize size = (0 < size) × (size + remote_memory_align ≤ word)

pub round_up_lem :
    (size : ℕ)
    → FitsSize size
    → (size ≤ round_up size)
      × (round_up size < size + remote_memory_align)
      × (round_up size % remote_memory_align ≡ 0)
unfolding round_up
round_up_lem size f = omega arith

-- no block is free and large enough
abbrev pub NoRoom : ℕ → List Block → Type 0
NoRoom n [] = Unit
NoRoom n (b ∷ bs) = (b.free ≡ true → b.size < n) × NoRoom n bs

first_fit-none :
    (malloc : Bool) (n : ℕ) (bs : List Block) → first_fit malloc n bs ≡ none → NoRoom n bs
unfolding first_fit
first_fit-none malloc n [] h = tt
first_fit-none malloc n (b ∷ bs) h = ground (arith, first_fit-none malloc n bs)

release-Released :
    (addr n : ℕ) (bs l : List Block)
    → release addr none bs ≡ some (n, l)
    → Tiled remote_base remote_end bs
    → Merged bs
    → Released remote_base remote_end n bs l
unfolding release join_prev join_next
release-Released addr n [] l h t mg = cc
release-Released addr n (b ∷ bs) l h t mg = elim (release-cons addr none b bs n l h) [
  | inl (used, at, size, eq) ↦
      rw (eq, size) (join_next-Released remote_end (omega arith) remote_base b bs used t mg)
  | inr (l', found, eq) ↦
      rw eq (release-some remote_end (omega arith) remote_base addr n b bs l' found t mg).0
]

-- the state after `size` bytes were handed out at `addr`
pub record Allocated (a : Allocator) (addr size : ℕ) (a' : Allocator) : Type 0 where
  pub heap : IsHeap a'
  pub in_range : (remote_base ≤ addr) × (addr + size ≤ remote_end)
  pub apart : Apart addr size (live a.blocks)
  pub held : Inserted (addr, size) (live a.blocks) (live a'.blocks)
  pub used : a'.used ≡ a.used + size

allocate-none :
    (a : Allocator) (size : ℕ)
    → IsHeap a
    → FitsSize size
    → first_fit true (round_up size) a.blocks ≡ none
    → rdma_sim_allocate true true size a ≡ (err enomem, a)
unfolding rdma_sim_allocate
allocate-none a size h f gone = simp (==_ne size 0 (omega arith), h.connected, gone)

abbrev after_allocate : Allocator → ℕ → List Block → Allocator
after_allocate a n l = record a { blocks = l; used = add64 a.used n }

allocate-some :
    (a : Allocator) (size : ℕ)
    → IsHeap a
    → FitsSize size
    → (addr : ℕ) (l : List Block) → first_fit true (round_up size) a.blocks ≡ some (addr, l)
    → rdma_sim_allocate true true size a ≡ (ok addr, after_allocate a (round_up size) l)
unfolding rdma_sim_allocate
allocate-some a size h f addr l found = simp (==_ne size 0 (omega arith), h.connected, found)

Allocated-lem :
    (a : Allocator) (size : ℕ)
    → IsHeap a
    → FitsSize size
    → (addr : ℕ) (l : List Block) → first_fit true (round_up size) a.blocks ≡ some (addr, l)
    → Allocated a addr (round_up size) (after_allocate a (round_up size) l)
Allocated-lem a size h f addr l found =
    let (le, lt, whole) = round_up_lem size f in
    let pos : 0 < round_up size = omega arith in
    let end_fits : remote_end < word = omega arith in
    let (tiled, above, below) =
      first_fit-Tiled remote_end (round_up size) end_fits pos whole remote_base a.blocks addr l
        h.tiled found in
    let bytes =
      first_fit-in_use remote_end (round_up size) end_fits pos whole a.blocks addr l found in
    let room = Tiled-le remote_base remote_end l tiled in
    let sum : add64 a.used (round_up size) ≡ a.used + round_up size = omega (arith, h.used) in
    record {
      heap = record {
        connected = h.connected;
        tiled = tiled;
        merged =
            (first_fit-Merged remote_end (round_up size) end_fits pos whole a.blocks addr l h.merged
              found).0;
        used = omega (arith, sum, h.used, bytes);
      };
      in_range = (above, below);
      apart =
          first_fit-Apart remote_end (round_up size) end_fits pos whole remote_base a.blocks addr l
            h.tiled found;
      held = first_fit-live true (round_up size) a.blocks addr l found;
      used = sum;
    }

-- `rdma_sim_allocate` on a valid heap, when `malloc` succeeds and the size can be rounded up to
-- whole pages: either it hands out a region of that many bytes inside the remote memory that has
-- no byte in common with a region that is held, adds exactly this region to those held and to the
-- bytes used, and keeps the heap valid; or it returns ENOMEM, changes nothing, and no free block
-- is large enough.
pub rdma_sim_allocate_lem :
    (a : Allocator) (size : ℕ)
    → IsHeap a
    → FitsSize size
    → let (r, a') = rdma_sim_allocate true true size a in
      ((addr : ℕ) × (r ≡ ok addr) × Allocated a addr (round_up size) a')
      ⊎ ((r ≡ err enomem) × (a' ≡ a) × NoRoom (round_up size) a.blocks)
rdma_sim_allocate_lem a size h f = elim (Option-cases (first_fit true (round_up size) a.blocks)) [
  | inl gone ↦ inr (
      rw (allocate-none a size h f gone)
        (refl, refl, first_fit-none true (round_up size) a.blocks gone))
  | inr ((addr, l), found) ↦ inl (
    addr,
    rw (allocate-some a size h f addr l found),
    rw (allocate-some a size h f addr l found) (Allocated-lem a size h f addr l found),
  )
]

-- the state after the region of `n` bytes at `addr` was taken back
pub record Freed (a : Allocator) (addr n : ℕ) (a' : Allocator) : Type 0 where
  pub heap : IsHeap a'
  pub held : Inserted (addr, n) (live a'.blocks) (live a.blocks)
  pub used : a'.used + n ≡ a.used

abbrev after_free : Allocator → ℕ → List Block → Allocator
after_free a n l = record a { blocks = l; used = sub64 a.used n }

free-some :
    (a : Allocator) (addr n : ℕ) (l : List Block)
    → IsHeap a
    → release addr none a.blocks ≡ some (n, l)
    → rdma_sim_free addr a ≡ (ok tt, after_free a n l)
unfolding rdma_sim_free
free-some a addr n l h found = simp (h.connected, found)

free-none :
    (a : Allocator) (addr : ℕ)
    → IsHeap a
    → release addr none a.blocks ≡ none
    → rdma_sim_free addr a ≡ (err einval, a)
unfolding rdma_sim_free
free-none a addr h gone = simp (h.connected, gone)

Freed-lem :
    (a : Allocator) (addr n : ℕ) (l : List Block)
    → IsHeap a
    → release addr none a.blocks ≡ some (n, l)
    → Freed a addr n (after_free a n l)
Freed-lem a addr n l h found =
    let r = release-Released addr n a.blocks l found h.tiled h.merged in
    let room = Tiled-le remote_base remote_end a.blocks h.tiled in
    let diff : sub64 a.used n + n ≡ a.used = omega (arith, h.used, r.usage) in
    record {
      heap = record {
        connected = h.connected;
        tiled = r.tiled;
        merged = r.merged;
        used = omega (arith, diff, h.used, r.usage);
      };
      held = release-live addr none a.blocks n l found;
      used = diff;
    }

-- `rdma_sim_free` on a valid heap: either it takes back the region that is held at the address,
-- that one only, takes its size off the bytes used, and keeps the heap valid, with no two free
-- blocks side by side; or no region is held at the address, it returns EINVAL and changes nothing.
pub rdma_sim_free_lem :
    (a : Allocator) (addr : ℕ)
    → IsHeap a
    → let (r, a') = rdma_sim_free addr a in
      ((n : ℕ) × (r ≡ ok tt) × Freed a addr n a')
      ⊎ ((r ≡ err einval) × (a' ≡ a) × (held addr (live a.blocks) ≡ false))
rdma_sim_free_lem a addr h = elim (Option-cases (release addr none a.blocks)) [
  | inl gone ↦ inr (rw (free-none a addr h gone) (refl, refl, release-none addr none a.blocks gone))
  | inr ((n, l), found) ↦ inl (
    n,
    rw (free-some a addr n l h found),
    rw (free-some a addr n l h found) (Freed-lem a addr n l h found),
  )
]

ok-eq :
    {n k : ℕ} {a b : Allocator}
    → ◌≡◌ {A = Result ℕ × Allocator} (ok n, a) (ok k, b)
    → (n ≡ k) × (a ≡ b)
ok-eq h = ground arith

free-after_allocate :
    (a : Allocator) (size : ℕ)
    → IsHeap a
    → FitsSize size
    → (addr : ℕ) (l : List Block) → first_fit true (round_up size) a.blocks ≡ some (addr, l)
    → rdma_sim_free addr (after_allocate a (round_up size) l) ≡ (ok tt, a)
unfolding rdma_sim_free
free-after_allocate a size h f addr l found =
    let (le, lt, whole) = round_up_lem size f in
    let back =
      release-first_fit remote_end (round_up size) (omega arith) (omega arith) whole none
        remote_base a.blocks addr l tt h.tiled h.merged found in
    let room = Tiled-le remote_base remote_end a.blocks h.tiled in
    let low : a.used < word = omega (arith, h.used) in
    let sum : sub64 (add64 a.used (round_up size)) (round_up size) ≡ a.used = omega arith in
    simp (h.connected, back)
      (λ i. (ok tt, record a { connected = sym h.connected i; used = sum i }))

-- On a valid heap, if a region is handed out for a size other than 0 that can be rounded up to
-- whole pages, and the `malloc` of the block that is cut off succeeds, freeing the region at once
-- succeeds and restores the allocator exactly, block by block.
pub free-allocate :
    (a : Allocator) (size addr : ℕ) (a' : Allocator)
    → IsHeap a
    → FitsSize size
    → rdma_sim_allocate true true size a ≡ (ok addr, a')
    → rdma_sim_free addr a' ≡ (ok tt, a)
free-allocate a size addr a' h f done =
    elim (Option-cases (first_fit true (round_up size) a.blocks)) [
      | inl gone ↦ absurd (ground (arith, allocate-none a size h f gone))
      | inr ((addr', l), found) ↦
          let (same, state) = ok-eq (sym (allocate-some a size h f addr' l found) ∙ done) in
          rw (← same, ← state) (free-after_allocate a size h f addr' l found)
    ]

-- A valid heap in which no region is held is a single free block of the whole remote memory, the
-- state that `init_sim_remote_memory_allocator` sets up.
pub IsHeap-empty :
    (a : Allocator)
    → IsHeap a
    → live a.blocks ≡ []
    → a.blocks ≡ (init_allocator true true true (record a { blocks = [] })).1.blocks
unfolding init_allocator
IsHeap-empty a h e = one_block remote_end remote_base a.blocks h.tiled h.merged e (omega arith)

pub allocate-backed :
    (malloc : Bool) (size : ℕ) (a : Allocator)
    → (rdma_sim_allocate true malloc size a).1.backed ≡ a.backed
unfolding rdma_sim_allocate
allocate-backed malloc size a = elim (Bool-cases (size == 0)) [
  | inl z ↦ simp z refl
  | inr nz ↦ elim (Bool-cases a.connected) [
    | inr off ↦ simp (nz, off) refl
    | inl c ↦ elim (Option-cases (first_fit malloc (round_up size) a.blocks)) [
      | inl gone ↦ simp (nz, c, gone) refl
      | inr (_, found) ↦ simp (nz, c, found) refl
    ]
  ]
]

-- Without blocks the allocator has nothing to give.
pub allocate-no_blocks :
    (malloc : Bool) (size : ℕ) (a : Allocator)
    → a.blocks ≡ []
    → (e : Errno) × (rdma_sim_allocate true malloc size a ≡ (err e, a))
unfolding rdma_sim_allocate first_fit
allocate-no_blocks malloc size a h = elim (Bool-cases (size == 0)) [
  | inl z ↦ (einval, simp z refl)
  | inr nz ↦ elim (Bool-cases a.connected) [
    | inr off ↦ (enotconn, simp (nz, off) refl)
    | inl c ↦ (enomem, simp (nz, c, h) refl)
  ]
]

-- the allocator's first block, the whole of the remote memory
abbrev pub whole_block : List Block
whole_block = record { addr = remote_base; size = remote_memory_size; free = true } ∷ []

pub init_allocator-new :
    (a : Allocator)
    → a.blocks ≡ []
    → init_allocator true true true a
      ≡ (true, record a { blocks = whole_block; backed = true; used = 0 })
unfolding init_allocator
init_allocator-new a e = simp e refl

pub init_allocator-old :
    (memory block attached : Bool) (b : Block) (bs : List Block) (a : Allocator)
    → a.blocks ≡ b ∷ bs
    → init_allocator memory block attached a ≡ (true, a)
unfolding init_allocator
init_allocator-old memory block attached b bs a e = simp e refl

pub whole_block-IsHeap :
    (a : Allocator) → a.connected ≡ true → a.blocks ≡ whole_block → a.used ≡ 0 → IsHeap a
whole_block-IsHeap a c e u = record {
  connected = c;
  tiled = rw e (refl, omega arith, refl, refl);
  merged = rw e ((λ _. refl), tt);
  used = rw e u;
}

-- A new allocator gives a page at the start of the remote memory.
pub allocate-whole_block :
    (a : Allocator)
    → a.connected ≡ true
    → a.blocks ≡ whole_block
    → (rdma_sim_allocate true true remote_memory_align a).0 ≡ ok remote_base
unfolding rdma_sim_allocate first_fit take_block round_up
allocate-whole_block a c e = simp (c, e) refl
