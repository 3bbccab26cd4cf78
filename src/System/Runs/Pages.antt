-- ===== src/System/Runs/Pages.antt =====
-- Commands on the descriptors and the lists: what they do to the abstract view.
use swap_prefetch.Common.{
  ◌≡◌, ◌≢◌, refl, sym, ap, subst, ◌∙◌, true, Option, none, some, List, ◌∷◌, has, erase, init,
  last_or, length, ==_ne, inl, inr, eq-cases,
}
use swap_prefetch.Memory.{Ptr, null, Mem, PageData, Cmd, write, Returns, returns, Returns-mono}
use swap_prefetch.Fifo.{enqueue_fifo, dequeue_fifo, page_list_tryremove_page}
use swap_prefetch.Fifo.Queues.{has-list}
use swap_prefetch.System.{
  Platform, SystemState, Sys, on_mem, info_of, list_of, numentries, set_info,
}
use swap_prefetch.System.View.{
  Abs, View, Same, put, put-here, put-there, MemView, enqueue_fifo-MemView, dequeue_fifo-MemView,
  page_list_tryremove_page-MemView, update-MemView,
}
use swap_prefetch.System.Runs.Base.{Runs, Runs-Same}

module _ {P : Platform} where
  module _ {v : Abs P} where
    pub Runs-info_of : {p : Ptr} {x : PageData} → p ≢ null → v.info p ≡ x → Runs (info_of p) v x v
    unfolding info_of
    Runs-info_of {p} pz e = record {
      run = λ w h. rw (==_ne p null pz) (returns (h.mem.info p pz ∙ e, h));
    }

    pub Runs-list_of : {p q : Ptr} → p ≢ null → v.list p ≡ q → Runs (list_of p) v q v
    unfolding list_of
    Runs-list_of {p} pz e = record {
      run = λ w h. rw (==_ne p null pz) (returns (h.mem.list p pz ∙ e, h));
    }

    pub Runs-numentries : {q : Ptr} → q ≢ null → Runs (numentries q) v (length (v.contents q)) v
    unfolding numentries
    Runs-numentries {q} qz = record {
      run = λ w h. rw (==_ne q null qz) (returns ((h.mem.queues.queue q qz).numentries, h));
    }

    -- a command on descriptors and lists only
    Runs-on_mem :
        {A : Type 0} (c : Cmd A) {a : A} {f : Ptr → List Ptr} {d : Ptr → PageData} {l : Ptr → Ptr}
        → ((m : Mem)
            → MemView m v.contents v.info v.list
            → Returns (λ x n. (x ≡ a) × MemView n f d l) (c m))
        → Runs (on_mem c) v a (record v { contents = f; info = d; list = l })
    unfolding on_mem
    Runs-on_mem {A} c {a} {f} {d} {l} r = record { run = λ w h. go w h (c w.mem) (r w.mem h.mem) }
      where
        go :
            (w : SystemState P)
            → View w v
            → (o : Option (A × Mem)) → Returns (λ x n. (x ≡ a) × MemView n f d l) o
            → Returns
                (λ x w'. (x ≡ a) × View w' (record v { contents = f; info = d; list = l }))
                (elim o [ none ↦ none | some (y, m) ↦ some (y, record w { mem = m }) ])
        go w h none r = elim r [ ]
        go w h (some (y, m)) (returns (e, mv)) = returns (
          e,
          record {
            mem = mv;
            state = h.state;
            buffer = h.buffer;
            shrinkage_running = h.shrinkage_running;
            prev_faults = h.prev_faults;
          },
        )

    pub Runs-set_info :
        {p : Ptr} (g : PageData → PageData) {x : PageData}
        → p ≢ null
        → v.info p ≡ x
        → Runs (set_info p g) v tt (record v { info = put v.info p (g x) })
    unfolding set_info put
    Runs-set_info {p} g pz e =
        subst (λ y. Runs (set_info p g) v tt (record v { info = put v.info p (g y) })) e
          (Runs-on_mem _ λ m mv. Returns-mono (update-MemView mv p g pz) λ t n r. (refl, r))

    pub Runs-enqueue :
        {q p : Ptr}
        → q ≢ null
        → p ≢ null
        → v.list p ≡ null
        → Runs
            (on_mem (enqueue_fifo q p))
            v
            tt
            (record v { contents = put v.contents q (p ∷ v.contents q); list = put v.list p q })
    unfolding put
    Runs-enqueue {q} {p} qz pz free =
        Runs-on_mem _
          λ m mv. Returns-mono (enqueue_fifo-MemView mv q p qz pz free) λ t n r. (refl, r)

    pub Runs-dequeue :
        {q p : Ptr}
        → q ≢ null
        → last_or null (v.contents q) ≡ p
        → Runs (on_mem (dequeue_fifo q)) v p (record v {
          contents = put v.contents q (init (v.contents q));
          list = put v.list p null;
        })
    unfolding put
    Runs-dequeue {q} {p} qz e = Runs-on_mem _ λ m mv.
        Returns-mono (dequeue_fifo-MemView mv q qz) λ x n (xe, r). (
          xe ∙ e,
          subst
              (λ y.
                MemView n (write v.contents q (init (v.contents q))) v.info (write v.list y null))
              (xe ∙ e) r,
        )

    pub Runs-tryremove :
        {q p : Ptr}
        → q ≢ null
        → p ≢ null
        → v.list p ≡ q
        → Runs (on_mem (page_list_tryremove_page q p)) v true (record v {
          contents = put v.contents q (erase p (v.contents q));
          list = put v.list p null;
        })
    unfolding put
    Runs-tryremove {q} {p} qz pz on =
        Runs-on_mem _ λ m mv. page_list_tryremove_page-MemView mv q p qz pz on

  info-Same :
      {v : Abs P} {d : Ptr → PageData}
      → ((a : Ptr) → v.info a ≡ d a)
      → Same v (record v { info = d })
  info-Same e = record {
    contents = λ q qz. refl;
    info = λ a az. e a;
    list = λ a az. refl;
    state = refl;
    buffer = refl;
    shrinkage_running = refl;
    prev_faults = refl;
  }

  -- of two writes to the data of a page the last counts
  pub Runs-collapse :
      {A : Type 0} {c : Sys P A} {v v' : Abs P} {a : A} (h : Ptr → PageData) (p : Ptr)
      (x y : PageData)
      → v'.info ≡ put (put h p x) p y
      → Runs c v a v'
      → Runs c v a (record v' { info = put h p y })
  Runs-collapse {v' = v'} h p x y e r = Runs-Same r (
      info-Same λ a. ap (λ d. d a) e ∙ elim (eq-cases a p) [
        | inl s ↦ rw s (put-here _ _ _ ∙ sym (put-here _ _ _))
        | inr n ↦ put-there _ _ n (put-there _ _ n (sym (put-there _ _ n refl)))
      ])

  -- a write to the data of the page written last, and of the page written before that
  pub Runs-again :
      {v : Abs P} {p : Ptr} (g : PageData → PageData) (h : Ptr → PageData) (x : PageData)
      → p ≢ null
      → v.info ≡ put h p x
      → Runs (set_info p g) v tt (record v { info = put h p (g x) })
  Runs-again {v} {p} g h x pz e =
      Runs-Same (Runs-set_info g pz (ap (λ d. d p) e ∙ put-here h p x)) (
        info-Same λ a. elim (eq-cases a p) [
          | inl s ↦ rw s (put-here _ _ _ ∙ sym (put-here _ _ _))
          | inr n ↦ put-there _ _ n (ap (λ d. d a) e ∙ put-there _ _ n (sym (put-there _ _ n refl)))
        ])

  pub Runs-inner :
      {v : Abs P} {p q : Ptr} (g : PageData → PageData) (h : Ptr → PageData) (x y : PageData)
      → p ≢ null
      → p ≢ q
      → v.info ≡ put (put h p x) q y
      → Runs (set_info p g) v tt (record v { info = put (put h p (g x)) q y })
  Runs-inner {v} {p} {q} g h x y pz pq e =
      Runs-Same (Runs-set_info g pz (ap (λ d. d p) e ∙ put-there _ _ pq (put-here _ _ _))) (
        info-Same λ a. elim (eq-cases a p) [
          | inl s ↦ rw s (put-here _ _ _ ∙ sym (put-there _ _ pq (put-here _ _ _)))
          | inr n ↦ put-there _ _ n (ap (λ d. d a) e) ∙ elim (eq-cases a q) [
            | inl t ↦ rw t (put-here _ _ _ ∙ sym (put-here _ _ _))
            | inr o ↦
                put-there _ _ o (put-there _ _ n (sym (put-there _ _ o (put-there _ _ n refl))))
          ]
        ])

  -- what holds of the pages of a list may be used
  pub Runs-listed :
      {A : Type 0} {c : Sys P A} {v v' : Abs P} {a : A} (q p : Ptr)
      → q ≢ null
      → has p (v.contents q) ≡ true
      → (p ≢ null → v.list p ≡ q → Runs c v a v')
      → Runs c v a v'
  Runs-listed q p qz on r = record {
    run = λ w h.
        let (pz, named) = has-list h.mem.queues qz p on in
        (r pz (sym (h.mem.list p pz) ∙ named)).run w h;
  }
