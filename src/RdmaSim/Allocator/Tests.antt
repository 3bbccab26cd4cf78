-- ===== src/RdmaSim/Allocator/Tests.antt =====
-- The allocator on the heap that the server starts with.
use swap_prefetch.Common.{ℕ, ◌+◌, ◌-◌, ◌≡◌, refl, true, false, [], ◌∷◌, arith, ◌⊎◌}
use swap_prefetch.RdmaSim.Errno.{einval, enomem, ok, err}
use swap_prefetch.RdmaSim.Allocator.{
  Allocator, remote_base, remote_memory_size, round_up, rdma_sim_allocate, rdma_sim_free, first_fit,
  take_block,
}
use swap_prefetch.RdmaSim.Allocator.Tiling.{live}
use swap_prefetch.RdmaSim.Allocator.Live.{held}
use swap_prefetch.RdmaSim.Allocator.Correct.{
  IsHeap, FitsSize, NoRoom, Allocated, Freed, rdma_sim_allocate_lem, rdma_sim_free_lem,
  free-allocate,
}

abbrev heap : Allocator
heap = record {
  blocks = record { addr = remote_base; size = remote_memory_size; free = true } ∷ [];
  backed = true;
  connected = true;
  used = 0;
}

heap-IsHeap : IsHeap heap
heap-IsHeap = record {
  connected = refl;
  tiled = (refl, omega arith, refl, refl);
  merged = ((λ _. refl), tt);
  used = refl;
}

two_pages-FitsSize : FitsSize 5000
two_pages-FitsSize = (omega arith, omega arith)

rdma_sim_allocate_lem_example :
    let (r, a') = rdma_sim_allocate true true 5000 heap in
    ((addr : ℕ) × (r ≡ ok addr) × Allocated heap addr (round_up 5000) a')
    ⊎ ((r ≡ err enomem) × (a' ≡ heap) × NoRoom (round_up 5000) heap.blocks)
rdma_sim_allocate_lem_example = rdma_sim_allocate_lem heap 5000 heap-IsHeap two_pages-FitsSize

abbrev one_taken : Allocator
one_taken = record {
  blocks =
      record { addr = remote_base; size = 8192; free = false }
      ∷ record { addr = remote_base + 8192; size = remote_memory_size - 8192; free = true }
      ∷ [];
  backed = true;
  connected = true;
  used = 8192;
}

allocate_two_pages : rdma_sim_allocate true true 5000 heap ≡ (ok remote_base, one_taken)
unfolding rdma_sim_allocate first_fit round_up take_block
allocate_two_pages = refl

free-allocate_example : rdma_sim_free remote_base one_taken ≡ (ok tt, heap)
free-allocate_example =
    free-allocate heap 5000 remote_base one_taken heap-IsHeap two_pages-FitsSize allocate_two_pages

one_taken-IsHeap : IsHeap one_taken
one_taken-IsHeap = record {
  connected = refl;
  tiled = (refl, omega arith, refl, (refl, omega arith, refl, refl));
  merged = ((λ h. cc), ((λ _. refl), tt));
  used = refl;
}

rdma_sim_free_lem_example :
    let (r, a') = rdma_sim_free remote_base one_taken in
    ((n : ℕ) × (r ≡ ok tt) × Freed one_taken remote_base n a')
    ⊎ ((r ≡ err einval) × (a' ≡ one_taken) × (held remote_base (live one_taken.blocks) ≡ false))
rdma_sim_free_lem_example = rdma_sim_free_lem one_taken remote_base one_taken-IsHeap
