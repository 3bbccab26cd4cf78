-- ===== src/RdmaSim/Requests/Invariant.antt =====
-- `rdma_submit_request` keeps the segment valid.
use swap_prefetch.Common.{
  ℕ, ◌≡◌, ◌<◌, refl, subst, sym, true, false, Option, List, [], ◌∷◌, ◌++◌, ltb, set, arith, inl,
  inr, Bool-cases, Option-cases,
}
use swap_prefetch.RdmaSim.Requests.{
  OpType, pending, Request, Segment, World, new_request, payload, enqueue, rdma_submit_request,
  max_rdma_requests, rdma_page_buffer_size, memcpy,
}
use swap_prefetch.RdmaSim.Requests.Ring.{queue, queued-set}
use swap_prefetch.RdmaSim.Requests.Submit.{
  submit-none, submit-some, submit-large, submit-full, enqueue-Submitted, IsRing-kept,
}
use swap_prefetch.RdmaSim.Requests.Server.{IsQueue, AllPending}

AllPending-append :
    (rs : List Request) (r : Request)
    → AllPending rs
    → r.status ≡ pending
    → AllPending (rs ++ r ∷ [])
AllPending-append [] r a p = (p, tt)
AllPending-append (x ∷ rs) r a p = (a.0, AllPending-append rs r a.1 p)

enqueue-IsQueue :
    (s : Segment) (r : Request) (bytes : ℕ → ℕ) (used : ℕ)
    → IsQueue s
    → s.count < max_rdma_requests
    → r.status ≡ pending
    → IsQueue (
        enqueue (record s {
          requests = set s.requests s.tail r;
          page_buffer = bytes;
          page_buffer_used = used;
        }))
unfolding enqueue
enqueue-IsQueue s r bytes used h room p =
    let d = enqueue-Submitted s r bytes used h.ring room in
    record {
      ring = d.ring;
      all_pending =
          subst AllPending (sym d.queue_end) (AllPending-append (queue s) r h.all_pending p);
      balance = omega (arith, h.balance);
    }

slot-IsQueue :
    (s : Segment) (r : Request)
    → IsQueue s
    → s.count < max_rdma_requests
    → IsQueue (record s { requests = set s.requests s.tail r })
slot-IsQueue s r h room = record {
  ring = IsRing-kept s r h.ring;
  all_pending =
      subst AllPending
        (sym (
          queued-set s.requests s.head s.count s.tail r h.ring.head_in
            (omega (arith, h.ring.tail_at)) (omega (arith, h.ring.tail_at, h.ring.head_in))
            (omega (arith, h.ring.tail_at, h.ring.head_in, room))))
        h.all_pending;
  balance = h.balance;
}

submit-off :
    (now : ℕ) (op : OpType) (local_addr remote_addr size : ℕ) (bytes : Option (ℕ → ℕ)) (w : World)
    → w.connected ≡ false
    → rdma_submit_request now op local_addr remote_addr size bytes w ≡ (0, w)
unfolding rdma_submit_request
submit-off now op local_addr remote_addr size bytes w c = simp c refl

-- Whatever a client submits, connected or not and accepted or not, a valid segment stays valid:
-- the ring keeps its shape, each queued request awaits the server, and the statistics add up.
pub rdma_submit_request-IsQueue :
    (now : ℕ) (op : OpType) (local_addr remote_addr size : ℕ) (bytes : Option (ℕ → ℕ)) (w : World)
    → IsQueue w.shm
    → IsQueue (rdma_submit_request now op local_addr remote_addr size bytes w).1.shm
unfolding new_request
rdma_submit_request-IsQueue now op local_addr remote_addr size bytes w h =
    let req = new_request op local_addr remote_addr size w.request_id_counter now in
    elim (Bool-cases w.connected) [
      | inr off ↦ rw (submit-off now op local_addr remote_addr size bytes w off) h
      | inl c ↦ elim (Bool-cases (ltb w.shm.count max_rdma_requests)) [
        | inr full ↦ rw (submit-full now op local_addr remote_addr size bytes w c (ground arith)) h
        | inl room ↦ elim (Option-cases (payload op size bytes)) [
          | inl p ↦ rw (submit-none now op local_addr remote_addr size bytes w c (ground arith) p) (
              enqueue-IsQueue w.shm req w.shm.page_buffer w.shm.page_buffer_used h (ground arith)
                refl)
          | inr (b, p) ↦ elim (Bool-cases (ltb rdma_page_buffer_size size)) [
            | inl large ↦
                rw
                  (submit-large now op local_addr remote_addr size bytes b w c (ground arith) p
                    (ground arith))
                  (slot-IsQueue w.shm req h (ground arith))
            | inr small ↦
                rw
                  (submit-some now op local_addr remote_addr size bytes b w c (ground arith) p
                    (ground arith))
                  (enqueue-IsQueue w.shm (record req { data_in_shm_buffer = true })
                    (memcpy w.shm.page_buffer 0 b 0 size) size h (ground arith) refl)
          ]
        ]
      ]
    ]
