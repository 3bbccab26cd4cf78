-- ===== src/RdmaSim.antt =====
-- The simulated RDMA device of rdma_sim.c: the allocator of the remote memory, the queue of
-- requests, and the set-up of the segment that they share.
pub mod Errno
pub mod Allocator
pub mod Requests
pub mod Setup
