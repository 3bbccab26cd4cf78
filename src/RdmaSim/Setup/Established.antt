-- ===== src/RdmaSim/Setup/Established.antt =====
-- What the set-up establishes: a client that can ask, and a server whose heap is valid.
use swap_prefetch.Common.{
  ℕ, zero, suc, ◌+◌, ◌≡◌, ◌≤◌, ◌<◌, refl, ap, ◌∙◌, Bool, true, false, ◌&&◌, List, [], ◌∷◌,
  if◌then◌else◌, length, arith, ◌⊎◌, inl, inr, Bool-cases, eq-cases,
}
use swap_prefetch.RdmaSim.Allocator.{Block, Allocator, remote_base, init_allocator}
use swap_prefetch.RdmaSim.Allocator.Correct.{
  IsHeap, whole_block, init_allocator-new, init_allocator-old, whole_block-IsHeap,
}
use swap_prefetch.RdmaSim.Requests.{blank, World, max_rdma_requests}
use swap_prefetch.RdmaSim.Requests.Ask.{IdsBelow, Ready}
use swap_prefetch.RdmaSim.Setup.{
  replicate, new_segment, is_new, rdma_sim_init_server, wait_initialized, init_timeout,
  rdma_sim_init_client, rdma_sim_cleanup_server,
}

pub length-replicate {ℓ} : {A : Type ℓ} (n : ℕ) (x : A) → length (replicate n x) ≡ n
length-replicate zero x = refl
length-replicate (suc n) x = ap suc (length-replicate n x)

blanks-IdsBelow : (m n : ℕ) → 0 < m → IdsBelow m (replicate n blank)
blanks-IdsBelow m zero h = tt
blanks-IdsBelow m (suc n) h = (h, blanks-IdsBelow m n h)

-- the world once a server was set up that had not run before
abbrev pub set_up : World → World
set_up w = record w {
  shm = new_segment remote_base;
  server = record { blocks = whole_block; backed = true; connected = true; used = 0 };
  remote_memory = λ _. 0;
}

init_server-run :
    (memory block new : Bool) (a : Allocator) (w : World)
    → init_allocator memory block true (record w.server { used = 0 }) ≡ (true, a)
    → w.server.connected ≡ false
    → is_new w.server.blocks ≡ new
    → rdma_sim_init_server true true memory block w ≡ (
      true,
      record w {
        shm = new_segment (if new && true then remote_base else 0);
        server = record a { connected = true };
        remote_memory = if new then (λ _. 0) else w.remote_memory;
      },
    )
unfolding rdma_sim_init_server
init_server-run memory block new a w e c n = rw (rdma_sim_init_server, e, c, n) refl

pub init_server-new :
    (w : World)
    → w.server.connected ≡ false
    → w.server.blocks ≡ []
    → rdma_sim_init_server true true true true w ≡ (true, set_up w)
unfolding is_new
init_server-new w c e =
    init_server-run true true true _ w (init_allocator-new (record w.server { used = 0 }) e) c
      (ap is_new e)

-- The wait of a client ends well exactly if a poll in its range sees the segment initialised.
pub wait_initialized_iff :
    (n k : ℕ) (seen : ℕ → Bool)
    → ((wait_initialized n k seen ≡ true) × (j : ℕ) × (k ≤ j) × (j < k + n) × (seen j ≡ true))
      ⊎ ((wait_initialized n k seen ≡ false) × ((j : ℕ) → k ≤ j → j < k + n → seen j ≡ false))
unfolding wait_initialized
wait_initialized_iff zero k seen = inr (refl, λ j low high. absurd (omega arith))
wait_initialized_iff (suc n) k seen = elim (Bool-cases (seen k)) [
  | inl y ↦ inl (simp y refl, k, omega arith, omega arith, y)
  | inr now ↦ elim (wait_initialized_iff n (suc k) seen) [
    | inl (e, j, low, high, y) ↦ inl (simp (now, e) refl, j, omega arith, omega arith, y)
    | inr (e, never) ↦ inr (
      simp (now, e) refl,
      λ j low high. elim (eq-cases j k) [
        | inl at ↦ ap seen at ∙ now
        | inr later ↦ never j (omega arith) (omega arith)
      ],
    )
  ]
]

-- what a client and a server have that were set up
pub record Established (w : World) : Type 0 where
  pub ready : Ready w
  pub heap : IsHeap w.server
  pub base : w.shm.remote_memory_base ≡ remote_base

pub set_up-Established :
    (w : World) → 0 < w.request_id_counter → Established (record (set_up w) { connected = true })
unfolding new_segment
set_up-Established w live = record {
  ready = record {
    idle = record {
      connected = refl;
      backed = refl;
      going = refl;
      ring = record {
        slots = length-replicate max_rdma_requests blank;
        head_in = omega arith;
        count_in = omega arith;
        tail_at = omega arith;
      };
      empty = refl;
    };
    ids = blanks-IdsBelow w.request_id_counter max_rdma_requests live;
    live = live;
  };
  heap = whole_block-IsHeap (set_up w).server refl refl refl;
  base = refl;
}

pub client-run :
    (seen : ℕ → Bool) (w : World)
    → w.connected ≡ false
    → rdma_sim_init_client true true seen w ≡ (
      wait_initialized init_timeout 0 seen,
      record w { connected = wait_initialized init_timeout 0 seen },
    )
unfolding rdma_sim_init_client
client-run seen w off = simp (rdma_sim_init_client, off) refl

-- `rdma_sim_init`, by the server and then by the client, on processes that have not run before and
-- on a system on which all calls succeed: if one of the client's first 200 polls sees the segment
-- initialised, both return 0, and the client can ask a server whose heap is valid. Otherwise the
-- client fails and is not connected.
pub init_client-init_server :
    (seen : ℕ → Bool) (w : World)
    → w.server.connected ≡ false
    → w.server.blocks ≡ []
    → w.connected ≡ false
    → 0 < w.request_id_counter
    → let (up, w1) = rdma_sim_init_server true true true true w in
      let (joined, w2) = rdma_sim_init_client true true seen w1 in
      (up ≡ true)
      × (((k : ℕ) × (k < init_timeout) × (seen k ≡ true) × (joined ≡ true) × Established w2)
          ⊎ (((k : ℕ) → k < init_timeout → seen k ≡ false)
              × (joined ≡ false)
              × (w2.connected ≡ false)))
init_client-init_server seen w c e off live =
    rw (init_server-new w c e, client-run seen (set_up w) off)
      (
        refl,
        elim (wait_initialized_iff init_timeout 0 seen) [
          | inl (y, j, _, high, at) ↦
              rw y (inl (j, omega arith, at, refl, set_up-Established w live))
          | inr (n, never) ↦ rw n (inr (λ k low. never k (omega arith) (omega arith), refl, refl))
        ],
      )

-- A server that is set up again in the same process returns 0 and has no memory: `rdma_sim_cleanup`
-- frees the memory and leaves the list of its blocks, so that the memory is not allocated again.
-- Its base in the segment is then 0.
pub init_server-cleanup_server :
    (memory block : Bool) (b : Block) (bs : List Block) (w : World)
    → w.server.blocks ≡ b ∷ bs
    → let (up, w') = rdma_sim_init_server true true memory block (rdma_sim_cleanup_server w) in
      (up ≡ true)
      × (w'.server.connected ≡ true)
      × (w'.server.backed ≡ false)
      × (w'.server.blocks ≡ b ∷ bs)
      × (w'.shm.remote_memory_base ≡ 0)
unfolding rdma_sim_cleanup_server is_new new_segment
init_server-cleanup_server memory block b bs w e =
    let v : World = rdma_sim_cleanup_server w in
    rw
      (init_server-run memory block false (record v.server { used = 0 }) v
        (init_allocator-old memory block true b bs (record v.server { used = 0 }) e) refl
        (ap is_new e))
      (refl, refl, refl, e, refl)
