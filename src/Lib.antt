-- ===== src/Lib.antt =====
-- Verification of the user-level swap library: pages are kept on lists in local memory, and those
-- that are swapped out go to a remote memory over a simulated RDMA device.
--
-- The parts and the files that model them (paths from the root of the repository):
--   * Memory: the page descriptors `struct user_page` (src/core.h) and list heads
--     `struct fifo_list` (src/fifo.h) at addresses, with commands that fail on a failed assertion
--     or an access through NULL.
--   * Fifo: the functions of src/fifo.c by their names, each a command. Fifo/Links says which list
--     of pages the links stand for, Fifo/Queues states the invariant of all lists at once, the
--     other modules below Fifo prove what each function does to it. `dequeue_fifo_vector` runs on
--     the number of pages asked for, which bounds its rounds.
--   * RdmaSim/Allocator: the first-fit allocator of src/rdma_sim.c (`rdma_sim_allocate`,
--     `rdma_sim_free`, `init_sim_remote_memory_allocator`). Its list of blocks is a value; what
--     `malloc` gives is an argument. Sizes and addresses wrap at 2^64 as in C.
--   * RdmaSim/Requests: the queue of requests in the shared segment, src/rdma_sim.c:
--     `rdma_submit_request`, one pass of `rdma_server_process_requests` (`server_pass`, with the
--     inner loop `drain` on `count` rounds, each of which takes one request, so that they are
--     enough), `rdma_server_handle_request`, and `rdma_wait_request`, whose polls are handed the
--     segment that each of them sees. The handler calls the allocator.
--   * AddressTranslation: src/address_translation.c by its names. Storage registers the regions of
--     the remote memory and converts the pointers in the pages it moves.
--   * PointerPrefetch: the records of prefetches and the pointers at the end of pages, of
--     src/pointer_prefetch.c. It calls the translator and the allocator. A page is represented by
--     its last word, the only one that these functions touch.
--   * RdmaSim/Setup: `rdma_sim_init` and `rdma_sim_cleanup` of the server and of the client. The client
--     polls the segment 200 times, as the source does; what it sees is an argument.
--   * RdmaStorage: src/storage_rdma.c by its names: the table of regions, `allocate_remote_region`,
--     `rdma_read_page` and `rdma_write_page`, which submit requests to RdmaSim, register pages with
--     the translator and convert their pointers. Pages are functions from offsets to bytes here, and
--     the pointer is the word in the last eight of them. RdmaStorage/Table and Lookup state the table
--     as a map from offsets to regions, RdmaStorage/Stored what it means that a page is stored, and
--     RdmaSim/Requests/Ask follows one request from its submission to its answer. RdmaStorage/Start is
--     `rdma_storage_init` with the start of the server's process, and `rdma_storage_shutdown`.
--   * Prefetch: `async_prefetch_page`, `transfer_to_prefetch_buffer`, the retrieval and
--     `handle_page_fault_with_prefetch` of src/pointer_prefetch.c over the storage, and what
--     `handle_missing_fault` of src/core.c starts for a page that has come in.
--   * System: the state that the paging core and a policy work on. The kernel's calls
--     (userfaultfd, madvise) and the storage back end are a parameter, `Platform`; System/Laws
--     states what is relied on. Of `write_page` and `read_page` only is asked that they leave the
--     mapped pages alone: they may fail, as their results are ignored, convert a page, or give up
--     another, as the functions of RdmaStorage do; so the theorems say what is written to and read
--     from which place, and not that the storage keeps it. System/View is the abstract view: which
--     pages are on which list, and what the descriptors say, without the links; System/Runs has
--     one rule for each command, by which the functions of the core and the policy are followed on
--     that view. The rules for the list commands are the theorems of Fifo. System/Example is a
--     machine that keeps to the laws.
--   * Core: the migrations of src/core.c (`extmem_migrate_updisk`, `extmem_migrate_downdisk`, the two
--     halves `core_migrate_up_async_start` and `_finish`), `extmem_wp_page`, and the bits of
--     src/observability.c. The build is the one that src/Makefile makes, USWAP_RDMA.
--   * Disklinux: src/policies/disklinux.c by its names: the eviction workers (of one page,
--     `evict`, and of several, Disklinux/Vector), swap-in, the ageing of
--     pages in `shrink_active_list` and `shrink_inactive_list`, the search for a frame, removal. The
--     two loops of the ageing run on one round more than the tries that the source allows, so
--     that they end by their own tests; `reclaim_pages` runs on one round more than the pages that
--     it may scan, 32 in each; `find_frame` and `remove_from_list` run on any number of
--     rounds, since they wait for other threads, and the theorems say when one round is enough.
--   * Faults: `handle_missing_fault` and `handle_first_fault` of src/core.c over the policy. The hash
--     table of pages and the prefetchers are interfaces (`Pages`, `PrefetchCalls`).
--   * Common: tests on numbers, lists and machine words, used by all parts.
--
-- The modules named Tests hold concrete runs and the theorems applied to them.
--
-- Locks are not modelled: each function that changes shared state does so under one mutex, so the
-- functions are atomic steps; `rdma_wait_request`, which polls without a lock, is the exception
-- treated above.
-- In the core and the policy each function runs to its end before another starts; what threads
-- do to one another between is not modelled.
--
-- While a client waits for a request, the server makes a step that is an argument; with the server's
-- own pass as that step it has answered before the first poll. One key has one segment.
--
-- Not modelled: printing, the clock (an argument where its value is stored), signals to the server's
-- process, the read-ahead `core_try_prefetch`, munmap and the start-up of core and policy, the page-rank policy, and uthash, a copy of another project's
-- table. The code under TRY_PREFAULT is in no build: src/core.h does not define it.
pub mod Common
pub mod Memory
pub mod Fifo
pub mod RdmaSim
pub mod AddressTranslation
pub mod PointerPrefetch
pub mod RdmaStorage
pub mod Prefetch
pub mod System
pub mod Core
pub mod Disklinux
pub mod Faults
