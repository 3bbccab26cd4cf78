-- ===== src/RdmaSim/Requests/Waiting.antt =====
-- What `rdma_wait_request` returns, by what its polls see.
use swap_prefetch.Common.{
  ℕ, zero, suc, ◌+◌, ◌≡◌, ◌≢◌, ◌≤◌, ◌<◌, refl, sym, ap, ◌∙◌, Bool, true, false, Option, none, some,
  List, [], ◌∷◌, ltb, if◌then◌else◌, arith, inl, inr, ==_ne, eq-cases, subst,
}
use swap_prefetch.RdmaSim.Errno.{Errno, enoent}
use swap_prefetch.RdmaSim.Requests.{
  pending, Request, Segment, World, is_pending, find_request, returned, again, on_found, on_poll,
  poll, poll_from, rdma_wait_request, attempts,
}

-- The first poll that does not ask for another decides.
pub poll_from-returned :
    (id n k t : ℕ) (seen : ℕ → Segment) (memory : ℕ → ℕ) (b : Bool) (e : Option Errno)
    (result : ℕ → ℕ)
    → k ≤ t
    → t < k + n
    → ((i : ℕ) → i < t → poll id i (seen i) memory ≡ again)
    → poll id t (seen t) memory ≡ returned b e result
    → poll_from id n k seen memory ≡ (b, e, result)
unfolding poll_from on_poll
poll_from-returned id zero k t seen memory b e result low high before last = absurd (omega arith)
poll_from-returned id (suc n) k t seen memory b e result low high before last =
    elim (eq-cases k t) [
      | inl at ↦
          ap (λ x. on_poll x (poll_from id n (suc k) seen memory))
            (subst (λ x. poll id x (seen x) memory ≡ returned b e result) (sym at) last)
      | inr sooner ↦
          ap (λ x. on_poll x (poll_from id n (suc k) seen memory)) (before k (omega arith))
          ∙ (poll_from-returned id n (suc k) t seen memory b e result (omega arith) (omega arith)
              before last)
    ]

pub wait-run :
    (id : ℕ) (seen : ℕ → Segment) (w : World)
    → w.connected ≡ true
    → id ≢ 0
    → rdma_wait_request id seen w ≡ poll_from id attempts 0 seen w.memory
unfolding rdma_wait_request
wait-run id seen w c nz = simp (c, ==_ne id 0 nz)

-- A connected client that waits for a request returns what the first poll says that does not
-- ask for another, if there is one among the first 10,000.
pub rdma_wait_request_lem :
    (id j : ℕ) (seen : ℕ → Segment) (w : World) (b : Bool) (e : Option Errno) (result : ℕ → ℕ)
    → w.connected ≡ true
    → id ≢ 0
    → j < attempts
    → ((i : ℕ) → i < j → poll id i (seen i) w.memory ≡ again)
    → poll id j (seen j) w.memory ≡ returned b e result
    → rdma_wait_request id seen w ≡ (b, e, result)
rdma_wait_request_lem id j seen w b e result c nz low before last =
    wait-run id seen w c nz
    ∙ poll_from-returned id attempts 0 j seen w.memory b e result (omega arith) (omega arith) before
        last

-- every slot with the id is pending
abbrev pub OnlyPending : ℕ → List Request → Type 0
OnlyPending id [] = Unit
OnlyPending id (r ∷ rs) = (r.request_id ≡ id → r.status ≡ pending) × OnlyPending id rs

pub find_request-pending : (id : ℕ) (l : List Request) → OnlyPending id l → find_request id l ≡ none
unfolding find_request is_pending
find_request-pending id [] h = refl
find_request-pending id (r ∷ l) h = elim (eq-cases r.request_id id) [
  | inl e ↦ simp (h.0 e) (ground (arith, find_request-pending id l h.1))
  | inr n ↦ simp (==_ne r.request_id id n) (find_request-pending id l h.1)
]

pub poll-early :
    (id k : ℕ) (s : Segment) (memory : ℕ → ℕ)
    → find_request id s.requests ≡ none
    → k ≤ 5000
    → poll id k s memory ≡ again
unfolding poll on_found
poll-early id k s memory gone low =
    let more : ltb 5000 k ≡ false = ground arith in
    ap (λ f. on_found f k s memory) gone
    ∙ ap (λ x. if x then returned false (some enoent) memory else again) more

-- A request that stays pending is given up after half of the polls, as one that does not exist: a
-- connected client that waits for it fails with ENOENT, not with ETIMEDOUT, if the first 5,002
-- polls see it pending.
pub rdma_wait_request-pending :
    (id : ℕ) (seen : ℕ → Segment) (w : World)
    → w.connected ≡ true
    → id ≢ 0
    → ((k : ℕ) → k < 5002 → OnlyPending id (seen k).requests)
    → rdma_wait_request id seen w ≡ (false, some enoent, w.memory)
unfolding poll on_found
rdma_wait_request-pending id seen w c nz waits =
    rdma_wait_request_lem id 5001 seen w false (some enoent) w.memory c nz (omega arith)
      (λ i low.
        poll-early id i (seen i) w.memory
          (find_request-pending id (seen i).requests (waits i (omega arith))) (omega arith))
      (poll-late (find_request-pending id (seen 5001).requests (waits 5001 (omega arith))))
  where
    poll-late :
        find_request id (seen 5001).requests ≡ none
        → poll id 5001 (seen 5001) w.memory ≡ returned false (some enoent) w.memory
    poll-late gone = ap (λ f. on_found f 5001 (seen 5001) w.memory) gone
