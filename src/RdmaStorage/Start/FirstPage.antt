-- ===== src/RdmaStorage/Start/FirstPage.antt =====
-- From the set-up of the server to a page that comes back.
use swap_prefetch.Common.{ℕ, ◌+◌, ◌≡◌, ◌≢◌, ◌<◌, refl, ap, true, false, some, [], word, arith}
use swap_prefetch.RdmaSim.Errno.{ok}
use swap_prefetch.RdmaSim.Allocator.{Allocator, remote_base, rdma_sim_allocate}
use swap_prefetch.RdmaSim.Allocator.Correct.{allocate-whole_block}
use swap_prefetch.RdmaSim.Requests.{World}
use swap_prefetch.RdmaSim.Setup.{init_timeout, rdma_sim_init_server}
use swap_prefetch.RdmaSim.Setup.Established.{
  Established, set_up, init_server-new, set_up-Established,
}
use swap_prefetch.PointerPrefetch.{page_size}
use swap_prefetch.RdmaStorage.{Storage, Outside, success, rdma_read_page, rdma_write_page}
use swap_prefetch.RdmaStorage.Word.{IsBytes}
use swap_prefetch.RdmaStorage.Given.{served}
use swap_prefetch.RdmaStorage.Fresh.{registered_at}
use swap_prefetch.RdmaStorage.Written.{page_at}
use swap_prefetch.RdmaStorage.RoundTrip.{Converts, Returned, read-write_new}
use swap_prefetch.RdmaStorage.Start.{Startup, new_table, started, rdma_storage_init}
use swap_prefetch.RdmaStorage.Start.Established.{
  served_by, at_start, at_start-Roomy, seen-initialized, storage_init-run, greet-run,
}

-- The server is set up in a process that has not run before, the storage is started in a client
-- that has not run before and that sees the server within its 200 polls, and a page is written and
-- read back to an address other than NULL. If the server answers each request in time and each
-- `malloc` succeeds, then the start, the write and the read succeed, the page stands at the address
-- with the last word that the two conversions make of its own, and no other byte of the client's
-- memory is changed. If the conversions give the word back, the whole page is as it was.
pub first_page :
    (c : Startup) (o : ℕ → Outside) (o' : Outside) (k off src dest q p buffer : ℕ) (s : Storage)
    → s.rdma_initialized ≡ false
    → s.world.connected ≡ false
    → s.world.server.connected ≡ false
    → s.world.server.blocks ≡ []
    → 0 < s.world.request_id_counter
    → s.world.request_id_counter + 4 < word
    → k < init_timeout
    → c.seen k ≡ true
    → (o 2).buffer ≡ some buffer
    → IsBytes s.world.memory
    → dest ≢ 0
    → Converts (registered_at (o 2) off remote_base s.translator) (page_at src s) q p
    → let (up, w) = rdma_sim_init_server true true true true s.world in
      let (begun, s0) = rdma_storage_init (served_by true c) (record s { world = w }) in
      let (wrote, s1) = rdma_write_page (λ k. served true (o k)) off src page_size s0 in
      let (read, s2) = rdma_read_page (served true o') off dest page_size s1 in
      (up ≡ true) × (begun ≡ true) × (wrote ≡ success) × (read ≡ success) × Returned src dest p s s2
unfolding new_table started
first_page c o o' k off src dest q p buffer s off_yet apart down empty live room low sees b bytes nz
      conv =
    let w : World = record (set_up s.world) { connected = true } in
    let h : Established w = set_up-Established s.world live in
    let s0 : Storage = at_start c.timestamp w (record s { world = set_up s.world }) in
    let (roomy, unknown) =
      at_start-Roomy c.timestamp w (record s { world = set_up s.world }) h (omega arith) in
    let server : Allocator = (set_up s.world).server in
    let (_, a) = rdma_sim_allocate true true page_size server in
    let given : rdma_sim_allocate true true page_size server ≡ (ok remote_base, a) =
      ap (λ r. (r, a)) (allocate-whole_block server refl refl) in
    let (wrote, read, back) =
      read-write_new o o' off src dest 0 q p remote_base buffer a s0 roomy (unknown off)
        (omega arith) b given bytes nz conv in
    rw
      (
        init_server-new s.world down empty,
        storage_init-run true c (record s { world = set_up s.world }) off_yet apart
            (seen-initialized k c.seen low sees),
        greet-run true c (record (new_table s) { world = w }) h.ready,
      )
      (refl, refl, wrote, read, record { brought = back.brought; whole = back.whole })
