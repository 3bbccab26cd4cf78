-- ===== src/Fifo/Walk.antt =====
-- `next_page` walks a list from its oldest page on, and `dequeue_fifo_vector` takes several pages.
use swap_prefetch.Common.{
  ℕ, zero, suc, ◌≡◌, ◌≢◌, refl, sym, ◌∙◌, List, [], ◌∷◌, ◌++◌, if◌then◌else◌, min, length,
  length-append, last_or, init, init-append-last, has, arith, ==_refl, ==_ne, some, subst,
  append-nil, append_assoc,
}
use mathlib.Core.List.{reverse, reverse-cons}
use swap_prefetch.Memory.{
  Ptr, null, Mem, write, pure, ◌>>=◌, Returns, returns, Returns-bind, load-ok, load_list-ok,
}
use swap_prefetch.Fifo.{next_page, dequeue_fifo_vector}
use swap_prefetch.Fifo.Links.{IsQueue}
use swap_prefetch.Fifo.Split.{At, Seg-At}
use swap_prefetch.Fifo.Queues.{Contents, Queues}
use swap_prefetch.Fifo.Calls.{SameInfo, write_self, last-full, take_last-Taken, Taken, write-write}

module _ {m : Mem} {f : Contents} (s : Queues m f) {q : Ptr} (qz : q ≢ null) where
  -- From NULL `next_page` goes to the oldest page of the list, and from a page of the list to the
  -- page that was put on it next, or to NULL from the newest; it changes nothing.
  pub next_page_lem :
      (next_page q null m ≡ some (last_or null (f q), m))
      × ((us : List Ptr) (x : Ptr) (vs : List Ptr)
          → f q ≡ us ++ x ∷ vs
          → next_page q x m ≡ some (last_or null us, m))
  unfolding next_page
  next_page_lem = (
    rw (load_list-ok qz, (s.queue q qz).last),
    λ us x vs e.
        step us x vs (Seg-At m q null us x vs null (subst (IsQueue m q) e (s.queue q qz)).chain),
  )
    where
      step :
          (us : List Ptr) (x : Ptr) (vs : List Ptr)
          → At m q null null us x vs
          → next_page q x m ≡ some (last_or null us, m)
      step us x vs at =
          rw (load_list-ok qz, ==_ne x null at.nz, load-ok at.nz, at.list, ==_refl, at.prev)

-- what `dequeue_fifo_vector` has done with a list when it returns `pages`
pub record Drained (m : Mem) (f : Contents) (q : Ptr) (k : ℕ) (pages : List Ptr) (n : Mem)
    : Type 0 where
  pub left : List Ptr
  pub split : f q ≡ left ++ reverse pages
  pub count : length pages ≡ min k (length (f q))
  pub queues : Queues n (write f q left)
  pub info : SameInfo m n
  pub lists :
      (a : Ptr) → a ≢ null → (n.page a).list ≡ (if has a pages then null else (m.page a).list)

Drained-step :
    {m m1 n : Mem} {f : Contents} {q : Ptr} {k : ℕ} {pages : List Ptr} (x : Ptr) (ws : List Ptr)
    → x ≢ null
    → f q ≡ ws ++ x ∷ []
    → Taken m f q x ws m1
    → Drained m1 (write f q ws) q k pages n
    → Drained m f q (suc k) (x ∷ pages) n
Drained-step {m} {m1} {n} {f} {q} {k} {pages} x ws xz split (qs, si, ls) d =
    let split1 : ws ≡ d.left ++ reverse pages = rw ==_refl at d.split in
    let count1 : length pages ≡ min k (length ws) = rw ==_refl at d.count in
    record {
      left = d.left;
      split = rw (reverse-cons, split, split1) (append_assoc d.left (reverse pages) (x ∷ []));
      count = rw split (omega (arith, count1, length-append ws (x ∷ [])));
      queues = subst (Queues n) (write-write f q ws d.left) d.queues;
      info = λ a az. d.info a az ∙ si a az;
      lists = λ a az. d.lists a az ∙ ground (arith, ls a az);
    }

-- `dequeue_fifo_vector` takes the oldest pages of a list, as many as there are or as were asked
-- for, and returns them the oldest first; the rest of the list, the other lists and every field
-- that is not a link stay, the pages taken are on no list, and the invariant is kept.
pub dequeue_fifo_vector-Drained :
    (k : ℕ) (m : Mem) (f : Contents) (q : Ptr)
    → Queues m f
    → q ≢ null
    → Returns (λ pages n. Drained m f q k pages n) (dequeue_fifo_vector q k m)
unfolding dequeue_fifo_vector
dequeue_fifo_vector-Drained zero m f q s qz = returns (record {
  left = f q;
  split = sym (append-nil (f q));
  count = omega arith;
  queues = subst (Queues m) (sym (write_self f q)) s;
  info = λ a az. refl;
  lists = λ a az. refl;
})
dequeue_fifo_vector-Drained (suc k) m f q s qz = go (dequeue_fifo_vector-Drained k) (f q) refl
  where
    go :
        ((m : Mem) (f : Contents) (q : Ptr)
          → Queues m f
          → q ≢ null
          → Returns (λ pages n. Drained m f q k pages n) (dequeue_fifo_vector q k m))
        → (xs : List Ptr) → f q ≡ xs
        → Returns (λ pages n. Drained m f q (suc k) pages n) (dequeue_fifo_vector q (suc k) m)
    go ih [] e =
        let le : (m.fifo q).last ≡ null = (s.queue q qz).last ∙ rw e in
        rw (load_list-ok qz, le)
          (returns (record {
            left = f q;
            split = sym (append-nil (f q));
            count = rw e (omega arith);
            queues = subst (Queues m) (sym (write_self f q)) s;
            info = λ a az. refl;
            lists = λ a az. refl;
          }))
    go ih (x ∷ xs) e =
        let (le, nz) = last-full s qz x xs e in
        let split = e ∙ sym (init-append-last x xs) in
        rw (load_list-ok qz, le, ==_ne (last_or x xs) null nz)
          (Returns-bind (λ _. dequeue_fifo_vector q k >>= λ pages. pure (last_or x xs ∷ pages))
            (take_last-Taken s qz (init (x ∷ xs)) (last_or x xs) split)
            (λ _ m1 t.
              Returns-bind (λ pages. pure (last_or x xs ∷ pages))
                (ih m1 (write f q (init (x ∷ xs))) q t.0 qz)
                (λ pages n d. returns (Drained-step (last_or x xs) (init (x ∷ xs)) nz split t d))))
