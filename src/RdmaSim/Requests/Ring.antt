-- ===== src/RdmaSim/Requests/Ring.antt =====
-- The ring of requests as a queue.
use swap_prefetch.Common.{
  ℕ, zero, suc, ◌+◌, ◌%◌, ◌≡◌, ◌≢◌, ◌≤◌, ◌<◌, refl, ap, ap₂, List, [], ◌∷◌, ◌++◌, length, set,
  arith, ◌⊎◌,
}
use swap_prefetch.RdmaSim.Requests.{Request, Segment, slot, max_rdma_requests}

-- the requests in `n` slots from slot `i` on
abbrev pub queued : List Request → ℕ → ℕ → List Request
queued l i zero = []
queued l i (suc n) = slot l i ∷ queued l ((i + 1) % max_rdma_requests) n

-- the queue that the ring stands for
abbrev pub queue : Segment → List Request
queue s = queued s.requests s.head s.count

-- The invariant of the ring.
pub record IsRing (s : Segment) : Type 0 where
  pub slots : length s.requests ≡ max_rdma_requests
  pub head_in : s.head < max_rdma_requests
  pub count_in : s.count ≤ max_rdma_requests
  pub tail_at : s.tail ≡ (s.head + s.count) % max_rdma_requests

pub length-set {ℓ} : {A : Type ℓ} (l : List A) (j : ℕ) (v : A) → length (set l j v) ≡ length l
length-set [] j v = refl
length-set (x ∷ l) zero v = refl
length-set (x ∷ l) (suc j) v = ap suc (length-set l j v)

pub slot-set_same : (l : List Request) (j : ℕ) (v : Request) → j < length l → slot (set l j v) j ≡ v
unfolding slot
slot-set_same [] j v h = absurd (omega arith)
slot-set_same (x ∷ l) zero v h = refl
slot-set_same (x ∷ l) (suc j) v h = slot-set_same l j v (omega arith)

pub slot-set_other :
    (l : List Request) (i j : ℕ) (v : Request) → i ≢ j → slot (set l j v) i ≡ slot l i
unfolding slot
slot-set_other [] i j v h = refl
slot-set_other (x ∷ l) zero zero v h = absurd (h refl)
slot-set_other (x ∷ l) zero (suc j) v h = refl
slot-set_other (x ∷ l) (suc i) zero v h = refl
slot-set_other (x ∷ l) (suc i) (suc j) v h = slot-set_other l i j v (λ e. h (ap suc e))

-- a write outside the queued slots
pub queued-set :
    (l : List Request) (i n j : ℕ) (v : Request)
    → i < max_rdma_requests
    → j < max_rdma_requests
    → i + n ≤ j + max_rdma_requests
    → (j < i) ⊎ (i + n ≤ j)
    → queued (set l j v) i n ≡ queued l i n
queued-set l i zero j v hi hj hn out = refl
queued-set l i (suc n) j v hi hj hn out =
    let first = slot-set_other l i j v (omega arith) in
    let rest =
      queued-set l ((i + 1) % max_rdma_requests) n j v (omega arith) hj (omega arith)
        (omega arith) in
    ap₂ (λ a b. a ∷ b) first rest

-- a write to the slot behind the queued ones
pub queued-set_end :
    (l : List Request) (i n j : ℕ) (v : Request)
    → length l ≡ max_rdma_requests
    → i < max_rdma_requests
    → n < max_rdma_requests
    → j ≡ (i + n) % max_rdma_requests
    → queued (set l j v) i (suc n) ≡ queued l i n ++ v ∷ []
queued-set_end l i zero j v hl hi hn hj =
    let at : j ≡ i = omega arith in rw at (ap (λ a. a ∷ []) (slot-set_same l i v (omega arith)))
queued-set_end l i (suc n) j v hl hi hn hj =
    ap₂ (λ a b. a ∷ b) (slot-set_other l i j v (omega arith))
      (queued-set_end l ((i + 1) % max_rdma_requests) n j v hl (omega arith) (omega arith)
        (omega arith))
