-- ===== src/Fifo/Enqueue.antt =====
-- `enqueue_fifo` puts a page in front of a list.
use swap_prefetch.Common.{
  ◌+◌, ◌≡◌, ◌≢◌, false, List, [], ◌∷◌, ◌==◌, if◌then◌else◌, has, arith, ==_ne, ==_refl,
}
use swap_prefetch.Memory.{
  Ptr, null, Mem, Returns, returns, load-ok, load_list-ok, update-ok, update_list-ok,
}
use swap_prefetch.Fifo.{enqueue_fifo}
use swap_prefetch.Fifo.Links.{IsQueue}

-- The whole effect of putting `e` in front of `q`, whose first page was `f`.
pub record Enqueued (m : Mem) (q e : Ptr) (n : Mem) : Type 0 where
  pub entry : n.page e ≡ record (m.page e) { next = (m.fifo q).first; list = q }
  pub neighbour :
      (a : Ptr)
      → a ≢ e
      → a ≡ (m.fifo q).first
      → a ≢ null
      → n.page a ≡ record (m.page a) { prev = e }
  pub others : (a : Ptr) → a ≢ e → a ≢ (m.fifo q).first → n.page a ≡ m.page a
  pub head : n.fifo q ≡ record {
    first = e;
    last = if (m.fifo q).first == null then e else (m.fifo q).last;
    numentries = (m.fifo q).numentries + 1;
  }
  pub lists : (l : Ptr) → l ≢ q → n.fifo l ≡ m.fifo l

pub enqueue_fifo-Enqueued :
    (m : Mem) (q e : Ptr) (xs : List Ptr)
    → q ≢ null
    → e ≢ null
    → (m.page e).prev ≡ null
    → has e xs ≡ false
    → IsQueue m q xs
    → Returns (λ _ n. Enqueued m q e n) (enqueue_fifo q e m)
unfolding enqueue_fifo
enqueue_fifo-Enqueued m q e [] qz ez loose out is =
    simp
      (
        load_list-ok qz,
        load-ok ez,
        update-ok ez,
        update_list-ok qz,
        loose,
        is.first,
        is.last,
        is.numentries,
        ==_refl,
      )
      (returns (record {
        entry = ground arith;
        neighbour = ground arith;
        others = ground arith;
        head = ground arith;
        lists = ground arith;
      }))
enqueue_fifo-Enqueued m q e (x ∷ xs) qz ez loose out is =
    let ne : x ≢ e = ground arith in
    let ne' : e ≢ x = ground arith in
    simp
      (
        load_list-ok qz,
        load-ok ez,
        update-ok ez,
        update_list-ok qz,
        loose,
        is.first,
        is.last,
        is.numentries,
        ==_refl,
        ==_ne x null is.chain.0,
        load-ok is.chain.0,
        update-ok is.chain.0,
        ==_ne x e ne,
        ==_ne e x ne',
        is.chain.1,
      )
      (returns (record {
        entry = simp (==_refl, is.first, loose);
        neighbour = λ a d h z. simp (h, is.first, ==_refl, ==_ne x e ne);
        others = λ a d h. simp (==_ne a e d, ==_ne a x (rw is.first at h));
        head = simp (is.first, is.last, ==_refl, ==_ne x null is.chain.0, is.numentries);
        lists = λ l h. simp (==_ne l q h);
      }))
