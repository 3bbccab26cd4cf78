-- ===== src/Fifo/Take.antt =====
-- Taking a page out of a list keeps the invariant of all lists.
use swap_prefetch.Common.{
  subst, lt→ltb, ◌≡◌, ◌≢◌, refl, sym, ◌∙◌, true, false, List, [], ◌∷◌, ◌++◌, ◌==◌, if◌then◌else◌,
  suc, ap, length, head_or, last_or, has, has-append, arith, inl, inr, eq-cases, ==_refl, ==_ne,
}
use swap_prefetch.Memory.{Ptr, null, Mem, write}
use swap_prefetch.Fifo.Links.{Seg, IsQueue, Seg-frame}
use swap_prefetch.Fifo.Split.{
  At, Seg-At, Seg-disjoint, ne_of_has, has-last, length-insert, last_or-append, last_or-join,
}
use swap_prefetch.Fifo.Unlink.{Linked, Unlinked}
use swap_prefetch.Fifo.Queues.{Contents, Queues, has-list}

module _ (m n : Mem) (q p t e : Ptr) where
  -- the pages behind the gap
  cut-behind :
      (b x : Ptr) (vs : List Ptr)
      → ((a : Ptr)
          → has a vs ≡ true
          → n.page a ≡ (if a == t then record (m.page a) { prev = p } else m.page a))
      → p ≡ b
      → t ≡ head_or e vs
      → Seg m q x vs e
      → Seg n q b vs e
  cut-behind b x [] hv pe te s = tt
  cut-behind b x (v ∷ vs) hv pe te (nz, pr, nx, l, out, rest) =
      let here : n.page v ≡ record (m.page v) { prev = p } = hv v (rw ==_refl) ∙ rw (te, ==_refl) in
      (
        nz,
        rw here pe,
        rw here nx,
        rw here l,
        out,
        Seg-frame m n q v vs e
            (λ a i. hv a (ground arith) ∙ rw (==_ne a t (λ h. ne_of_has vs i out (h ∙ te)))) rest,
      )

  cut-next :
      (y : Ptr) (us : List Ptr) (x : Ptr) (vs : List Ptr)
      → p ≡ last_or y us
      → t ≡ head_or e vs
      → has y us ≡ false
      → (m.page y).next ≡ head_or e (us ++ x ∷ vs)
      → (if y == p then record (m.page y) { next = t } else m.page y).next ≡ head_or e (us ++ vs)
  cut-next y [] x vs pe te out h = rw (pe, ==_refl, te)
  cut-next y (z ∷ us) x vs pe te out h =
      rw (==_ne y p (λ g. ne_of_has (z ∷ us) (has-last z us) out (sym pe ∙ sym g))) h

  cut :
      (b : Ptr) (us : List Ptr) (x : Ptr) (vs : List Ptr)
      → ((a : Ptr)
          → has a us ≡ true
          → n.page a ≡ (if a == p then record (m.page a) { next = t } else m.page a))
      → ((a : Ptr)
          → has a vs ≡ true
          → n.page a ≡ (if a == t then record (m.page a) { prev = p } else m.page a))
      → p ≡ last_or b us
      → t ≡ head_or e vs
      → Seg m q b (us ++ x ∷ vs) e
      → Seg n q b (us ++ vs) e
  cut b [] x vs hu hv pe te (_, _, _, _, _, rest) = cut-behind b x vs hv pe te rest
  cut b (y ∷ us) x vs hu hv pe te (nz, pr, nx, l, out, rest) =
      let here = hu y (rw ==_refl) in
      let out' : has y us ≡ false = ground (arith, has-append y us (x ∷ vs)) in
      (
        nz,
        rw here (ground arith),
        rw here (cut-next y us x vs pe te out' nx),
        rw here (ground arith),
        ground (arith, has-append y us (x ∷ vs), has-append y us vs),
        cut y us x vs (λ a i. hu a (ground arith)) hv pe te rest,
      )

-- A list `us ++ x ∷ vs` of the state `f` links `x` as the code expects.
module _ {m : Mem} {f : Contents} (s : Queues m f) {q : Ptr} (qz : q ≢ null) (us : List Ptr)
    (x : Ptr) (vs : List Ptr) (split : f q ≡ us ++ x ∷ vs) where
  whole : IsQueue m q (us ++ x ∷ vs)
  whole = subst (IsQueue m q) split (s.queue q qz)

  at : At m q null null us x vs
  at = Seg-At m q null us x vs null whole.chain

  ends_first :
      (ws : List Ptr)
      → has x ws ≡ false
      → ((a : Ptr) → has a ws ≡ true → a ≢ null)
      → (head_or null (ws ++ x ∷ vs) == x) ≡ (last_or null ws == null)
  ends_first [] out nz = ==_refl x
  ends_first (w ∷ ws) out nz =
      ==_ne w x (λ h. ne_of_has (w ∷ ws) (rw (==_refl w)) out h)
      ∙ sym (==_ne _ null (nz (last_or w ws) (has-last w ws)))

  ends_last :
      (ws : List Ptr)
      → has x ws ≡ false
      → ((a : Ptr) → has a ws ≡ true → a ≢ null)
      → (last_or x ws == x) ≡ (head_or null ws == null)
  ends_last [] out nz = ==_refl x
  ends_last (w ∷ ws) out nz =
      ==_ne _ x (ne_of_has (w ∷ ws) (has-last w ws) out)
      ∙ sym (==_ne w null (nz w (rw (==_refl w))))

  on_list : (a : Ptr) → has a us ≡ true → (a ≢ null) × ((m.page a).list ≡ q)
  on_list a h = has-list s qz a (rw split (ground (arith, has-append a us (x ∷ vs))))

  on_list_behind : (a : Ptr) → has a vs ≡ true → (a ≢ null) × ((m.page a).list ≡ q)
  on_list_behind a h = has-list s qz a (rw split (ground (arith, has-append a us (x ∷ vs))))

  prev-mem : (ws : List Ptr) → last_or null ws ≢ null → has (last_or null ws) ws ≡ true
  prev-mem [] h = absurd (h refl)
  prev-mem (w ∷ ws) h = has-last w ws

  next-mem : (ws : List Ptr) → head_or null ws ≢ null → has (head_or null ws) ws ≡ true
  next-mem [] h = absurd (h refl)
  next-mem (w ∷ ws) h = rw (==_refl w)

  pub linked : Linked m q x (last_or null us) (head_or null vs)
  linked = record {
    list_nz = qz;
    page_nz = at.nz;
    prev = at.prev;
    next = at.next;
    prev_ne = λ h. ne_of_has us (prev-mem us (λ z. at.nz (sym h ∙ z))) at.not_before h;
    next_ne = λ h. ne_of_has vs (next-mem vs (λ z. at.nz (sym h ∙ z))) at.not_behind h;
    apart = λ pz h.
        ne_of_has vs {a = head_or null vs} {b = last_or null us} (next-mem vs (λ z. pz (h ∙ z)))
          (Seg-disjoint m q null us x vs null (last_or null us) whole.chain (prev-mem us pz))
          (sym h);
    first = rw whole.first (ends_first us at.not_before (λ a h. (on_list a h).0));
    last =
        rw (whole.last, last_or-append)
          (ends_last vs at.not_behind (λ a h. (on_list_behind a h).0));
    filled =
        rw (whole.numentries, length-insert us vs x)
          (lt→ltb 0 (suc (length (us ++ vs))) (omega arith));
  }

  module _ {n : Mem} (d : Unlinked m q x (last_or null us) (head_or null vs) n) where
    same-list : (a : Ptr) → a ≢ null → a ≢ x → (n.page a).list ≡ (m.page a).list
    same-list a az ax = elim (eq-cases a (last_or null us)) [
      | inl h ↦ rw (d.before a az h)
      | inr h ↦ elim (eq-cases a (head_or null vs)) [
        | inl g ↦ rw (d.behind a az g)
        | inr g ↦ rw (d.others a ax h g)
      ]
    ]

    pub list-take :
        (a : Ptr) → a ≢ null → (n.page a).list ≡ (if a == x then null else (m.page a).list)
    list-take a az = elim (eq-cases a x) [
      | inl h ↦ rw (h, ==_refl, d.entry)
      | inr h ↦ rw (==_ne a x h) (same-list a az h)
    ]

    same-elsewhere : (a : Ptr) → a ≢ null → (m.page a).list ≢ q → n.page a ≡ m.page a
    same-elsewhere a az aq =
        d.others a (λ h. aq (ap (λ b. (m.page b).list) h ∙ at.list))
          (λ h. aq ((on_list a (rw (← h) at (prev-mem us (λ z. az (h ∙ z))))).1))
          (λ h. aq ((on_list_behind a (rw (← h) at (next-mem vs (λ z. az (h ∙ z))))).1))

    before-gap :
        (a : Ptr)
        → has a us ≡ true
        → n.page a ≡ (
            if a == last_or null us then record (m.page a) { next = head_or null vs } else m.page a)
    before-gap a i = elim (eq-cases a (last_or null us)) [
      | inl h ↦ d.before a (on_list a i).0 h ∙ rw (h, ==_refl)
      | inr h ↦ rw (==_ne a _ h) (
          d.others a (ne_of_has us i at.not_before) h (λ g.
            ne_of_has vs {b = a} (next-mem vs (λ z. (on_list a i).0 (g ∙ z)))
              (Seg-disjoint m q null us x vs null a whole.chain i) (sym g)))
    ]

    behind-gap :
        (a : Ptr)
        → has a vs ≡ true
        → n.page a ≡ (
            if a == head_or null vs then record (m.page a) { prev = last_or null us } else m.page a)
    behind-gap a i = elim (eq-cases a (head_or null vs)) [
      | inl h ↦ d.behind a (on_list_behind a i).0 h ∙ rw (h, ==_refl)
      | inr h ↦ rw (==_ne a _ h) (
          d.others a (ne_of_has vs i at.not_behind)
            (λ g.
              ne_of_has vs {a = a} i
                (Seg-disjoint m q null us x vs null (last_or null us) whole.chain
                  (prev-mem us (λ z. (on_list_behind a i).0 (g ∙ z))))
                g)
            h)
    ]

    first-cut :
        (ws : List Ptr)
        → ((a : Ptr) → has a ws ≡ true → a ≢ null)
        → (if last_or null ws == null then head_or null vs else head_or null (ws ++ x ∷ vs))
          ≡ head_or null (ws ++ vs)
    first-cut [] nz = refl
    first-cut (w ∷ ws) nz = rw (==_ne _ null (nz (last_or w ws) (has-last w ws)))

    last-cut :
        (ws : List Ptr)
        → ((a : Ptr) → has a ws ≡ true → a ≢ null)
        → (if head_or null ws == null then last_or null us else last_or x ws)
          ≡ last_or (last_or null us) ws
    last-cut [] nz = refl
    last-cut (w ∷ ws) nz = rw (==_ne _ null (nz w (rw ==_refl)))

    cut-queue : IsQueue n q (us ++ vs)
    cut-queue = record {
      chain =
          cut m n q (last_or null us) (head_or null vs) null null us x vs before-gap behind-gap refl
            refl whole.chain;
      first = rw (d.head, whole.first) (first-cut us (λ a h. (on_list a h).0));
      last =
          rw (d.head, whole.last, last_or-append, last_or-join)
            (last-cut vs (λ a h. (on_list_behind a h).0));
      numentries = rw d.head (omega (arith, whole.numentries, length-insert us vs x));
    }

    other-queue : (l : Ptr) → l ≢ null → l ≢ q → IsQueue n l (f l)
    other-queue l lz lq = record {
      chain =
          Seg-frame m n l null (f l) null
            (λ a i. let (az, al) = has-list s lz a i in same-elsewhere a az (λ h. lq (sym al ∙ h)))
            (s.queue l lz).chain;
      first = rw (d.lists l lq) (s.queue l lz).first;
      last = rw (d.lists l lq) (s.queue l lz).last;
      numentries = rw (d.lists l lq) (s.queue l lz).numentries;
    }

    queue-take : (l : Ptr) → l ≢ null → IsQueue n l (write f q (us ++ vs) l)
    queue-take l lz = elim (eq-cases l q) [
      | inl h ↦ rw (h, ==_refl) cut-queue
      | inr h ↦ rw (==_ne l q h) (other-queue l lz h)
    ]

    listed-take :
        (a : Ptr)
        → a ≢ null
        → (n.page a).list ≢ null
        → has a (write f q (us ++ vs) (n.page a).list) ≡ true
    listed-take a az h = elim (eq-cases a x) [
      | inl ax ↦ absurd (h (rw (ax, d.entry)))
      | inr ax ↦
          let same = same-list a az ax in
          let old : has a (f (m.page a).list) ≡ true = s.listed a az (λ z. h (same ∙ z)) in
          rw same (elim (eq-cases (m.page a).list q) [
            | inl g ↦
                let here : has a (us ++ x ∷ vs) ≡ true = rw (g, split) at old in
                rw (g, ==_refl) (ground (arith, has-append a us (x ∷ vs), has-append a us vs))
            | inr g ↦ rw (==_ne _ q g) old
          ])
    ]

    loose-take : (a : Ptr) → a ≢ null → (n.page a).list ≡ null → (n.page a).prev ≡ null
    loose-take a az h = elim (eq-cases a x) [
      | inl ax ↦ rw (ax, d.entry)
      | inr ax ↦
          let free : (m.page a).list ≡ null = sym (same-list a az ax) ∙ h in
          rw (same-elsewhere a az (λ g. qz (sym g ∙ free))) (s.loose a az free)
    ]

    pub Queues-take : Queues n (write f q (us ++ vs))
    Queues-take = record { queue = queue-take; listed = listed-take; loose = loose-take }

    pub Unlinked-info : (a : Ptr) → a ≢ null → (n.page a).info ≡ (m.page a).info
    Unlinked-info a az = elim (eq-cases a x) [
      | inl ax ↦ rw (ax, d.entry)
      | inr ax ↦ elim (eq-cases a (last_or null us)) [
        | inl h ↦ rw (d.before a az h)
        | inr h ↦ elim (eq-cases a (head_or null vs)) [
          | inl g ↦ rw (d.behind a az g)
          | inr g ↦ rw (d.others a ax h g)
        ]
      ]
    ]
