-- ===== src/RdmaSim/Allocator.antt =====
-- The first-fit allocator of the remote memory, with blocks split on demand and merged when freed.
pub mod Correct
pub mod Live
pub mod RoundTrip
pub mod Release
pub mod Tiling
mod Tests
use swap_prefetch.Common.{
  ℕ, ◌+◌, ◌-◌, ◌*◌, ◌/◌, ◌^◌, Bool, true, false, not, ◌&&◌, ◌||◌, Option, none, some, List, [], ◌∷◌,
  ◌==◌, ltb, leb, if◌then◌else◌, add64, sub64,
}
use swap_prefetch.RdmaSim.Errno.{Errno, einval, enotconn, enomem, Result, ok, err}

-- `mem_block_t`; the list of blocks is a value
pub record Block : Type 0 where
  pub addr : ℕ
  pub size : ℕ
  pub free : Bool

-- `sim_remote_memory_blocks`, whether `sim_remote_memory_ptr` is allocated, and of the shared
-- segment whether it is there and initialised, and `remote_memory_used`
pub record Allocator : Type 0 where
  pub blocks : List Block
  pub backed : Bool
  pub connected : Bool
  pub used : ℕ

abbrev pub remote_memory_size : ℕ
remote_memory_size = 1024 * 1024 * 1024

abbrev pub remote_memory_align : ℕ
remote_memory_align = 4096

-- the address of the first block
abbrev pub remote_base : ℕ
remote_base = 0x40_0000_0000

-- `init_sim_remote_memory_allocator`; the flags say whether each `malloc` succeeds, and `attached`
-- whether `rdma_shm` is set. The base and the size that it copies into the segment are the constants
-- above.
pub init_allocator : (memory block attached : Bool) → Allocator → Bool × Allocator
init_allocator memory block attached a = on_blocks a.blocks
  where
    on_blocks : List Block → Bool × Allocator
    on_blocks (b ∷ bs) = (true, a)
    on_blocks [] =
        if not memory
        then (false, record a { backed = false })
        else if not block
        then (false, record a { backed = false })
        else (
          true,
          record a {
            blocks = record { addr = remote_base; size = remote_memory_size; free = true } ∷ [];
            backed = true;
            used = if attached then 0 else a.used;
          },
        )

-- `(size + ALIGN - 1) & ~(ALIGN - 1)` on 64 bits
pub round_up : ℕ → ℕ
round_up size = add64 size (remote_memory_align - 1) / remote_memory_align * remote_memory_align

-- the chosen block, cut to `size` bytes if there is room and `malloc` gives a block for the rest
pub take_block : Bool → ℕ → Block → List Block → List Block
take_block malloc size b bs =
    let taken : Block = record { addr = b.addr; size = size; free = false } in
    if ltb size b.size && malloc
    then taken ∷ record { addr = add64 b.addr size; size = b.size - size; free = true } ∷ bs
    else taken ∷ bs

-- the walk of `rdma_sim_allocate` to the first free block that is large enough
pub first_fit : Bool → ℕ → List Block → Option (ℕ × List Block)
first_fit malloc size [] = none
first_fit malloc size (b ∷ bs) =
    if b.free && leb size b.size
    then some (b.addr, take_block malloc size b bs)
    else elim (first_fit malloc size bs) [ none ↦ none | some (a, l) ↦ some (a, b ∷ l) ]

-- `out` says that `remote_addr` is not NULL, `malloc` that the block for the rest is allocated.
pub rdma_sim_allocate : (out malloc : Bool) → ℕ → Allocator → Result ℕ × Allocator
rdma_sim_allocate out malloc size a =
    if not out || size == 0
    then (err einval, a)
    else if not a.connected
    then (err enotconn, a)
    else elim (first_fit malloc (round_up size) a.blocks) [
      | none ↦ (err enomem, a)
      | some (addr, l) ↦ (ok addr, record a { blocks = l; used = add64 a.used (round_up size) })
    ]

-- the merge with the next block
pub join_next : Block → List Block → List Block
join_next b [] = b ∷ []
join_next b (c ∷ cs) =
    if c.free && (add64 b.addr b.size == c.addr)
    then record b { size = add64 b.size c.size } ∷ cs
    else b ∷ c ∷ cs

-- the merge with the previous block, if there is one
pub join_prev : Option Block → List Block → List Block
join_prev none l = l
join_prev (some p) [] = p ∷ []
join_prev (some p) (b ∷ l) =
    if p.free && (add64 p.addr p.size == b.addr)
    then record p { size = add64 p.size b.size } ∷ l
    else p ∷ b ∷ l

abbrev pub with_prev : Option Block → List Block → List Block
with_prev none l = l
with_prev (some p) l = p ∷ l

-- The walk of `rdma_sim_free`, with the block behind it; the size freed and the list from that
-- block on.
pub release : ℕ → Option Block → List Block → Option (ℕ × List Block)
release addr prev [] = none
release addr prev (b ∷ bs) =
    let rest = release addr (some b) bs in
    if not b.free && (b.addr == addr)
    then some (b.size, join_prev prev (join_next (record b { free = true }) bs))
    else elim rest [ none ↦ none | some (n, l) ↦ some (n, with_prev prev l) ]

pub rdma_sim_free : ℕ → Allocator → Result (Unit {0}) × Allocator
rdma_sim_free addr a =
    if not a.connected then (err enotconn, a) else elim (release addr none a.blocks) [
      | none ↦ (err einval, a)
      | some (n, l) ↦ (ok tt, record a { blocks = l; used = sub64 a.used n })
    ]
