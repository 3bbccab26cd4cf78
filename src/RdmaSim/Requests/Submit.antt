-- ===== src/RdmaSim/Requests/Submit.antt =====
-- `rdma_submit_request` adds at the end of the queue.
use swap_prefetch.Common.{
  ℕ, zero, suc, ◌+◌, ◌≡◌, ◌≢◌, ◌≤◌, ◌<◌, refl, sym, ap, ◌∙◌, true, false, Option, none, some, [],
  ◌∷◌, ◌++◌, ltb, leb, add64, set, arith, ◌⊎◌, inl, inr, Bool-cases, Option-cases, ltb→lt, ==_ne,
  if◌then◌else◌,
}
use swap_prefetch.RdmaSim.Requests.{
  OpType, op_read, op_write, op_init, op_shutdown, op_allocate, op_free, Request, Segment, World,
  new_request, payload, enqueue, rdma_submit_request, max_rdma_requests, rdma_page_buffer_size,
  memcpy,
}
use swap_prefetch.RdmaSim.Requests.Ring.{queue, IsRing, length-set, queued-set, queued-set_end}

-- what a submission that is accepted does to the segment
pub record Submitted (r : Request) (s s' : Segment) : Type 0 where
  pub ring : IsRing s'
  pub queue_end : queue s' ≡ queue s ++ r ∷ []
  pub total : s'.total_requests ≡ add64 s.total_requests 1

suc_at : (n : ℕ) → n + 1 ≡ suc n
suc_at n = omega arith

pub enqueue-Submitted :
    (s : Segment) (r : Request) (bytes : ℕ → ℕ) (used : ℕ)
    → IsRing s
    → s.count < max_rdma_requests
    → Submitted r s (
        enqueue (record s {
          requests = set s.requests s.tail r;
          page_buffer = bytes;
          page_buffer_used = used;
        }))
unfolding enqueue
enqueue-Submitted s r bytes used h room = record {
  ring = record {
    slots = length-set s.requests s.tail r ∙ h.slots;
    head_in = h.head_in;
    count_in = omega arith;
    tail_at = omega (arith, h.tail_at, h.head_in);
  };
  queue_end =
      rw (suc_at s.count)
        (queued-set_end s.requests s.head s.count s.tail r h.slots h.head_in room h.tail_at);
  total = refl;
}

pub submit-none :
    (now : ℕ) (op : OpType) (local_addr remote_addr size : ℕ) (bytes : Option (ℕ → ℕ)) (w : World)
    → w.connected ≡ true
    → w.shm.count < max_rdma_requests
    → payload op size bytes ≡ none
    → rdma_submit_request now op local_addr remote_addr size bytes w ≡ (
      w.request_id_counter,
      record w {
        request_id_counter = add64 w.request_id_counter 1;
        shm = enqueue (record w.shm {
          requests =
              set w.shm.requests w.shm.tail
                (new_request op local_addr remote_addr size w.request_id_counter now);
        });
      },
    )
unfolding rdma_submit_request
submit-none now op local_addr remote_addr size bytes w c room p =
    let open_queue : leb max_rdma_requests w.shm.count ≡ false = ground arith in
    simp (c, open_queue, p)

pub submit-some :
    (now : ℕ) (op : OpType) (local_addr remote_addr size : ℕ) (bytes : Option (ℕ → ℕ)) (b : ℕ → ℕ)
    (w : World)
    → w.connected ≡ true
    → w.shm.count < max_rdma_requests
    → payload op size bytes ≡ some b
    → size ≤ rdma_page_buffer_size
    → rdma_submit_request now op local_addr remote_addr size bytes w ≡ (
      w.request_id_counter,
      record w {
        request_id_counter = add64 w.request_id_counter 1;
        shm = enqueue (record w.shm {
          requests =
              set w.shm.requests w.shm.tail
                (record (new_request op local_addr remote_addr size w.request_id_counter now) {
                  data_in_shm_buffer = true;
                });
          page_buffer = memcpy w.shm.page_buffer 0 b 0 size;
          page_buffer_used = size;
        });
      },
    )
unfolding rdma_submit_request
submit-some now op local_addr remote_addr size bytes b w c room p small =
    let open_queue : leb max_rdma_requests w.shm.count ≡ false = ground arith in
    let fits : leb size rdma_page_buffer_size ≡ true = ground arith in simp (c, open_queue, p, fits)

pub submit-large :
    (now : ℕ) (op : OpType) (local_addr remote_addr size : ℕ) (bytes : Option (ℕ → ℕ)) (b : ℕ → ℕ)
    (w : World)
    → w.connected ≡ true
    → w.shm.count < max_rdma_requests
    → payload op size bytes ≡ some b
    → rdma_page_buffer_size < size
    → rdma_submit_request now op local_addr remote_addr size bytes w ≡ (
      0,
      record w {
        request_id_counter = add64 w.request_id_counter 1;
        shm = record w.shm {
          requests =
              set w.shm.requests w.shm.tail
                (new_request op local_addr remote_addr size w.request_id_counter now);
        };
      },
    )
unfolding rdma_submit_request
submit-large now op local_addr remote_addr size bytes b w c room p large =
    let open_queue : leb max_rdma_requests w.shm.count ≡ false = ground arith in
    let fits : leb size rdma_page_buffer_size ≡ false = ground arith in
    simp (c, open_queue, p, fits)

pub submit-full :
    (now : ℕ) (op : OpType) (local_addr remote_addr size : ℕ) (bytes : Option (ℕ → ℕ)) (w : World)
    → w.connected ≡ true
    → max_rdma_requests ≤ w.shm.count
    → rdma_submit_request now op local_addr remote_addr size bytes w ≡ (0, w)
unfolding rdma_submit_request
submit-full now op local_addr remote_addr size bytes w c room =
    let full : leb max_rdma_requests w.shm.count ≡ true = ground arith in simp (c, full)

payload-filled : (size : ℕ) (bytes : ℕ → ℕ) → payload op_write (suc size) (some bytes) ≡ some bytes
unfolding payload
payload-filled size bytes =
    ap (λ c. if c then none else some bytes) (==_ne (suc size) 0 (λ e. omega (arith, e)))

payload-some :
    (op : OpType) (size : ℕ) (bytes : Option (ℕ → ℕ)) (b : ℕ → ℕ)
    → payload op size bytes ≡ some b
    → (op ≡ op_write) × (bytes ≡ some b) × (0 < size)
unfolding payload
payload-some op_write zero (some bytes) b h = cc
payload-some op_write (suc size) (some bytes) b h =
    (refl, sym (payload-filled size bytes) ∙ h, omega arith)
payload-some op_write size none b h = cc
payload-some op_read size bytes b h = cc
payload-some op_init size bytes b h = cc
payload-some op_shutdown size bytes b h = cc
payload-some op_allocate size bytes b h = cc
payload-some op_free size bytes b h = cc

payload-none :
    (op : OpType) (size : ℕ) (bytes : Option (ℕ → ℕ))
    → payload op size bytes ≡ none
    → (op ≢ op_write) ⊎ (bytes ≡ none) ⊎ (size ≡ 0)
unfolding payload
payload-none op_write zero (some bytes) h = inr (inr refl)
payload-none op_write (suc size) (some bytes) h = cc (sym (payload-filled size bytes) ∙ h)
payload-none op_write size none h = inr (inl refl)
payload-none op_read size bytes h = inl (λ e. cc)
payload-none op_init size bytes h = inl (λ e. cc)
payload-none op_shutdown size bytes h = inl (λ e. cc)
payload-none op_allocate size bytes h = inl (λ e. cc)
payload-none op_free size bytes h = inl (λ e. cc)

pub IsRing-kept :
    (s : Segment) (r : Request)
    → IsRing s
    → IsRing (record s { requests = set s.requests s.tail r })
IsRing-kept s r h = record {
  slots = length-set s.requests s.tail r ∙ h.slots;
  head_in = h.head_in;
  count_in = h.count_in;
  tail_at = h.tail_at;
}

-- A submission of a connected client on a valid ring does exactly one of four things. If the 128
-- slots are taken it returns 0 and changes nothing. If there is room and it is a write of data of
-- more than a page, it returns 0 and leaves the ring valid and the queue as it was. If there is
-- room and it is a write of data of up to a page, it copies the data to the start of the page
-- buffer, returns the next request id, and puts the request at the end of the queue, marked as
-- having its data in the buffer. If there is room and it is no write, or one with no data or of
-- size 0, it returns the next request id, puts the request at the end of the queue, and leaves the
-- page buffer. The ring stays valid.
pub rdma_submit_request_lem :
    (now : ℕ) (op : OpType) (local_addr remote_addr size : ℕ) (bytes : Option (ℕ → ℕ)) (w : World)
    → w.connected ≡ true
    → IsRing w.shm
    → let (id, w') = rdma_submit_request now op local_addr remote_addr size bytes w in
      ((max_rdma_requests ≤ w.shm.count) × (id ≡ 0) × (w' ≡ w))
      ⊎ ((w.shm.count < max_rdma_requests)
          × (op ≡ op_write)
          × (b : ℕ → ℕ) × (bytes ≡ some b)
          × (rdma_page_buffer_size < size)
          × (id ≡ 0)
          × IsRing w'.shm
          × (queue w'.shm ≡ queue w.shm))
      ⊎ ((w.shm.count < max_rdma_requests)
          × (op ≡ op_write)
          × (b : ℕ → ℕ) × (bytes ≡ some b)
          × (0 < size)
          × (size ≤ rdma_page_buffer_size)
          × (id ≡ w.request_id_counter)
          × Submitted
              (record (new_request op local_addr remote_addr size id now) {
                data_in_shm_buffer = true;
              })
              w.shm
              w'.shm
          × (w'.shm.page_buffer ≡ memcpy w.shm.page_buffer 0 b 0 size))
      ⊎ ((w.shm.count < max_rdma_requests)
          × ((op ≢ op_write) ⊎ (bytes ≡ none) ⊎ (size ≡ 0))
          × (id ≡ w.request_id_counter)
          × Submitted (new_request op local_addr remote_addr size id now) w.shm w'.shm
          × (w'.shm.page_buffer ≡ w.shm.page_buffer))
unfolding new_request enqueue
rdma_submit_request_lem now op local_addr remote_addr size bytes w c h =
    let req = new_request op local_addr remote_addr size w.request_id_counter now in
    elim (Bool-cases (ltb w.shm.count max_rdma_requests)) [
      | inr full ↦ inl (
          rw (submit-full now op local_addr remote_addr size bytes w c (ground arith))
            (ground arith, refl, refl))
      | inl unfilled ↦
          let room : w.shm.count < max_rdma_requests =
            ltb→lt w.shm.count max_rdma_requests unfilled in
          elim (Option-cases (payload op size bytes)) [
            | inl p ↦ rw (submit-none now op local_addr remote_addr size bytes w c room p) (
                inr (
                  inr (
                    inr (
                      room,
                      payload-none op size bytes p,
                      refl,
                      enqueue-Submitted w.shm req w.shm.page_buffer w.shm.page_buffer_used h room,
                      refl,
                    ))))
            | inr (b, p) ↦
                let (is_write, given, some_bytes) = payload-some op size bytes b p in
                elim (Bool-cases (ltb rdma_page_buffer_size size)) [
                  | inl large ↦
                      rw
                        (submit-large now op local_addr remote_addr size bytes b w c room p
                          (ground arith))
                        (inr (
                          inl (
                            room,
                            is_write,
                            b,
                            given,
                            ground arith,
                            refl,
                            IsRing-kept w.shm req h,
                            queued-set w.shm.requests w.shm.head w.shm.count w.shm.tail req
                                h.head_in (omega (arith, h.tail_at))
                                (omega (arith, h.tail_at, h.head_in))
                                (omega (arith, h.tail_at, h.head_in, room)),
                          )))
                  | inr small ↦
                      rw
                        (submit-some now op local_addr remote_addr size bytes b w c room p
                          (ground arith))
                        (inr (
                          inr (
                            inl (
                              room,
                              is_write,
                              b,
                              given,
                              some_bytes,
                              ground arith,
                              refl,
                              enqueue-Submitted w.shm (record req { data_in_shm_buffer = true })
                                  (memcpy w.shm.page_buffer 0 b 0 size) size h room,
                              refl,
                            ))))
                ]
          ]
    ]
