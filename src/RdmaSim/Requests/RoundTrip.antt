-- ===== src/RdmaSim/Requests/RoundTrip.antt =====
-- What a client writes to the remote memory is what it reads back.
use swap_prefetch.Common.{
  ℕ, ◌+◌, ◌-◌, ◌≡◌, ◌≢◌, ◌≤◌, ◌<◌, refl, ap, ◌∙◌, Bool, true, false, ◌&&◌, none, some, ◌==◌, ltb,
  leb, add64, sub64, word, set, arith, ◌⊎◌, ==_ne,
}
use swap_prefetch.RdmaSim.Requests.{
  op_read, op_write, completed, pending, Request, World, payload, enqueue, new_request,
  rdma_submit_request, rdma_page_buffer_size, is_pending, server_pass, memcpy, returned, on_status,
  on_found, poll, rdma_wait_request,
}
use swap_prefetch.RdmaSim.Requests.Exchange.{
  Idle, InRemote, answered, write_request, write_data, read_request, read_data, serve_write,
  serve_read, answered-Idle, Fresh, Fresh-set, find_request-set, set-set,
}
use swap_prefetch.RdmaSim.Requests.Submit.{submit-none}
use swap_prefetch.RdmaSim.Requests.Waiting.{rdma_wait_request_lem}

pub memcpy-in :
    (dst : ℕ → ℕ) (d : ℕ) (src : ℕ → ℕ) (s n i : ℕ)
    → i < n
    → memcpy dst d src s n (d + i) ≡ src (s + i)
unfolding memcpy
memcpy-in dst d src s n i h =
    let above : leb d (d + i) ≡ true = ground arith in
    let below : ltb (d + i) (d + n) ≡ true = ground arith in
    let back : d + i - d ≡ i = omega arith in simp (above, below, back) refl

pub memcpy-start :
    (dst : ℕ → ℕ) (d : ℕ) (src : ℕ → ℕ) (n i : ℕ) → i < n → memcpy dst d src 0 n (d + i) ≡ src i
memcpy-start dst d src n i h = memcpy-in dst d src 0 n i h ∙ ap src (zero_plus i)
  where
    zero_plus : (i : ℕ) → 0 + i ≡ i
    zero_plus i = omega arith

pub memcpy-out :
    (dst : ℕ → ℕ) (d : ℕ) (src : ℕ → ℕ) (s n i : ℕ)
    → (i < d) ⊎ (d + n ≤ i)
    → memcpy dst d src s n i ≡ dst i
unfolding memcpy
memcpy-out dst d src s n i h =
    let out : (leb d i && ltb i (d + n)) ≡ false = ground arith in simp out refl

-- the world after the write was served
abbrev after_write : ℕ → ℕ → ℕ → (ℕ → ℕ) → World → World
after_write now addr size bytes w =
    record (answered (record (write_request now addr size w) { status = completed })
      (write_data bytes size w)) {
        remote_memory =
            memcpy w.remote_memory (addr - w.shm.remote_memory_base)
              (memcpy w.shm.page_buffer 0 bytes 0 size) 0 size;
      }

after_write-Idle :
    (now addr size : ℕ) (bytes : ℕ → ℕ) (w : World)
    → Idle w
    → Idle (after_write now addr size bytes w)
after_write-Idle now addr size bytes w h =
    let i : Idle (
        answered (record (write_request now addr size w) { status = completed })
          (write_data bytes size w)) =
      answered-Idle (record (write_request now addr size w) { status = completed })
        (write_data bytes size w)
        (record {
          connected = h.connected;
          backed = h.backed;
          going = h.going;
          ring = record {
            slots = h.ring.slots;
            head_in = h.ring.head_in;
            count_in = h.ring.count_in;
            tail_at = h.ring.tail_at;
          };
          empty = h.empty;
        }) in
    record {
      connected = i.connected;
      backed = i.backed;
      going = i.going;
      ring = i.ring;
      empty = i.empty;
    }

-- the client's poll, once its read is served
poll-read :
    (now local addr size k : ℕ) (w : World)
    → Idle w
    → InRemote addr size w
    → local ≢ 0
    → Fresh w.request_id_counter w.shm.requests
    → poll w.request_id_counter k
        (answered
          (record (read_request now local addr size w) { status = completed })
          (read_data addr size w)).shm
        w.memory
      ≡ returned true none (
          memcpy w.memory local
            (memcpy w.shm.page_buffer 0 w.remote_memory (addr - w.shm.remote_memory_base) size)
            0
            size)
unfolding poll on_found on_status new_request is_pending
poll-read now local addr size k w h r nz f =
    let done : Request = record (read_request now local addr size w) { status = completed } in
    let found =
      find_request-set w.request_id_counter w.shm.requests w.shm.head done f
        (omega (arith, h.ring.slots, h.ring.head_in)) refl refl in
    let full : (size == 0) ≡ false = ==_ne size 0 (omega (arith, r.page)) in
    let fits : leb size (sub64 rdma_page_buffer_size 0) ≡ true = ground (arith, r.page) in
    simp
      (
        set-set w.shm.requests w.shm.head (record done { status = pending }) done,
        found,
        full,
        ==_ne local 0 nz,
        fits,
      )
      refl

no_payload : (size : ℕ) → payload op_read size none ≡ none
unfolding payload
no_payload size = refl

read_wait :
    (malloc : Bool) (now local addr size : ℕ) (w : World)
    → Idle w
    → InRemote addr size w
    → local ≢ 0
    → w.request_id_counter ≢ 0
    → Fresh w.request_id_counter w.shm.requests
    → let (id, v) = rdma_submit_request now op_read local addr size none w in
      rdma_wait_request id (λ k. (server_pass malloc v).shm) v ≡ (
        true,
        none,
        memcpy w.memory local
            (memcpy w.shm.page_buffer 0 w.remote_memory (addr - w.shm.remote_memory_base) size)
            0
            size,
      )
read_wait malloc now local addr size w h r nz live f =
    let sent =
      submit-none now op_read local addr size none w h.connected (omega (arith, h.empty))
        (no_payload size) in
    rw (serve_read malloc now local addr size w h r) (
      rw sent (
        rdma_wait_request_lem w.request_id_counter 0 (λ k. served.shm) sender true none
          (memcpy w.memory local
            (memcpy w.shm.page_buffer 0 w.remote_memory (addr - w.shm.remote_memory_base) size) 0
            size)
          h.connected live (omega arith) (λ i low. absurd (omega arith))
          (poll-read now local addr size 0 w h r nz f)))
  where
    served : World
    served =
        answered (record (read_request now local addr size w) { status = completed })
          (read_data addr size w)

    sender : World
    sender = record w {
      request_id_counter = add64 w.request_id_counter 1;
      shm = enqueue (record w.shm {
        requests =
            set w.shm.requests w.shm.tail
              (new_request op_read local addr size w.request_id_counter now);
      });
    }

write-run :
    (malloc : Bool) (now addr size : ℕ) (bytes : ℕ → ℕ) (w : World)
    → Idle w
    → InRemote addr size w
    → server_pass malloc (rdma_submit_request now op_write 0 addr size (some bytes) w).1
      ≡ after_write now addr size bytes w
write-run malloc now addr size bytes w h r = serve_write malloc now addr size bytes w h r

read_back :
    (local addr size base : ℕ) (bytes buffer page remote memory : ℕ → ℕ)
    → let kept = memcpy remote (addr - base) (memcpy buffer 0 bytes 0 size) 0 size in
      let result = memcpy memory local (memcpy page 0 kept (addr - base) size) 0 size in
      ((i : ℕ) → i < size → result (local + i) ≡ bytes i)
      × ((a : ℕ) → (a < local) ⊎ (local + size ≤ a) → result a ≡ memory a)
read_back local addr size base bytes buffer page remote memory =
    let kept : ℕ → ℕ = memcpy remote (addr - base) (memcpy buffer 0 bytes 0 size) 0 size in
    let filled : ℕ → ℕ = memcpy page 0 kept (addr - base) size in
    (
      λ i h.
          memcpy-in memory local filled 0 size i h
          ∙ memcpy-in page 0 kept (addr - base) size i h
          ∙ memcpy-in remote (addr - base) (memcpy buffer 0 bytes 0 size) 0 size i h
          ∙ memcpy-in buffer 0 bytes 0 size i h
          ∙ ap bytes (zero_plus i),
      λ a out. memcpy-out memory local filled 0 size a out,
    )
  where
    zero_plus : (i : ℕ) → 0 + i ≡ i
    zero_plus i = omega arith

-- Write, then read: from an idle server and a connected client, a client that submits a write of
-- up to a page into the remote memory, lets the server answer, submits a read of the same range
-- into its memory at an address other than NULL, lets the server answer, and waits, gets success
-- and no error code; its memory then holds the bytes it wrote, in order, in the destination, and is
-- unchanged everywhere else. The id of the read must be in no slot, and the ids must not wrap.
pub read-write :
    (malloc : Bool) (now then_now local addr size : ℕ) (bytes : ℕ → ℕ) (w : World)
    → Idle w
    → InRemote addr size w
    → local ≢ 0
    → w.request_id_counter + 1 < word
    → Fresh (w.request_id_counter + 1) w.shm.requests
    → let w' = server_pass malloc (rdma_submit_request now op_write 0 addr size (some bytes) w).1 in
      let (id, v) = rdma_submit_request then_now op_read local addr size none w' in
      let (success, error_code, memory) =
        rdma_wait_request id (λ k. (server_pass malloc v).shm) v in
      (success ≡ true)
      × (error_code ≡ none)
      × ((i : ℕ) → i < size → memory (local + i) ≡ bytes i)
      × ((a : ℕ) → (a < local) ⊎ (local + size ≤ a) → memory a ≡ w.memory a)
unfolding new_request
read-write malloc now then_now local addr size bytes w h r nz low f =
    let w' : World = after_write now addr size bytes w in
    let next : add64 w.request_id_counter 1 ≡ w.request_id_counter + 1 = omega arith in
    let done : Request = record (write_request now addr size w) { status = completed } in
    let range : InRemote addr size w' = record {
      above = r.above;
      below = r.below;
      page = r.page;
      fits = r.fits;
    } in
    let slots : Fresh w'.request_id_counter w'.shm.requests = rw next (
      Fresh-set (w.request_id_counter + 1)
        (set w.shm.requests w.shm.head (record done { status = pending })) w.shm.head done
        (Fresh-set (w.request_id_counter + 1) w.shm.requests w.shm.head
          (record done { status = pending }) f (omega arith))
        (omega arith)) in
    let answer =
      read_wait malloc then_now local addr size w' (after_write-Idle now addr size bytes w h) range
        nz (omega arith) slots in
    let bytes_back =
      read_back local addr size w.shm.remote_memory_base bytes w.shm.page_buffer w'.shm.page_buffer
        w.remote_memory w.memory in
    rw (write-run malloc now addr size bytes w h r, answer) (refl, refl, bytes_back.0, bytes_back.1)
