-- ===== src/Fifo/Put.antt =====
-- Putting a page in front of a list keeps the invariant of all lists.
use swap_prefetch.Common.{
  ◌≡◌, ◌≢◌, refl, sym, ◌∙◌, true, false, List, [], ◌∷◌, ◌==◌, if◌then◌else◌, ap, head_or, last_or,
  has, arith, inl, inr, eq-cases, ==_refl, ==_ne,
}
use swap_prefetch.Memory.{Ptr, null, Mem, write, Returns, Returns-mono}
use swap_prefetch.Fifo.{enqueue_fifo}
use swap_prefetch.Fifo.Links.{Seg, IsQueue, Seg-frame}
use swap_prefetch.Fifo.Enqueue.{Enqueued, enqueue_fifo-Enqueued}
use swap_prefetch.Fifo.Queues.{Contents, Queues, has-list, not-has}

module _ {m n : Mem} {f : Contents} (s : Queues m f) {q e : Ptr} (qz : q ≢ null) (ez : e ≢ null)
    (free : (m.page e).list ≡ null) (d : Enqueued m q e n) where
  kept :
      (a : Ptr)
      → a ≢ null
      → a ≢ e
      → ((n.page a).list ≡ (m.page a).list)
        × ((n.page a).next ≡ (m.page a).next)
        × ((n.page a).prev ≡ (if a == (m.fifo q).first then e else (m.page a).prev))
  kept a az ae = elim (eq-cases a (m.fifo q).first) [
    | inl h ↦ rw (d.neighbour a ae h az, h, ==_refl) (refl, refl, refl)
    | inr h ↦ rw (d.others a ae h, ==_ne a _ h) (refl, refl, refl)
  ]

  chain-behind :
      (xs : List Ptr)
      → (m.fifo q).first ≡ head_or null xs
      → has e xs ≡ false
      → Seg m q null xs null
      → Seg n q e xs null
  chain-behind [] h out c = tt
  chain-behind (x ∷ xs) h out (nz, p, nx, l, o, rest) =
      let xe : x ≢ e = ground arith in
      let k : ((n.page x).list ≡ (m.page x).list)
          × ((n.page x).next ≡ (m.page x).next)
          × ((n.page x).prev ≡ (if x == (m.fifo q).first then e else (m.page x).prev)) =
        kept x nz xe in
      (
        nz,
        (rw (k.2, h, ==_refl)),
        (rw k.1 nx),
        (rw k.0 l),
        o,
        Seg-frame m n q x xs null (λ a i. d.others a (ground arith) (ground arith)) rest,
      )

  last-behind : (xs : List Ptr) → IsQueue m q xs → (n.fifo q).last ≡ last_or e xs
  last-behind [] is = rw (d.head, is.first)
  last-behind (x ∷ xs) is = rw (d.head, is.first, ==_ne x null is.chain.0, is.last)

  absent : has e (f q) ≡ false
  absent = not-has s qz e (λ h. qz (sym h ∙ free))

  same-queue : IsQueue n q (e ∷ f q)
  same-queue = record {
    chain = (
      ez,
      rw d.entry (s.loose e ez free),
      rw d.entry (s.queue q qz).first,
      rw d.entry,
      absent,
      chain-behind (f q) (s.queue q qz).first absent (s.queue q qz).chain,
    );
    first = rw d.head;
    last = last-behind (f q) (s.queue q qz);
    numentries = rw d.head (ground (arith, (s.queue q qz).numentries));
  }

  first-list : (a : Ptr) → a ≢ null → a ≡ (m.fifo q).first → (m.page a).list ≡ q
  first-list a az h = go (f q) (s.queue q qz)
    where
      go : (xs : List Ptr) → IsQueue m q xs → (m.page a).list ≡ q
      go [] is = absurd (az (h ∙ is.first))
      go (x ∷ xs) is = rw (h, is.first) is.chain.3

  other-queue : (l : Ptr) → l ≢ null → l ≢ q → IsQueue n l (f l)
  other-queue l lz lq = record {
    chain =
        Seg-frame m n l null (f l) null
          (λ a i.
            let (az, al) = has-list s lz a i in
            d.others a (λ h. lz (sym al ∙ ap (λ x. (m.page x).list) h ∙ free))
              (λ h. lq (sym al ∙ first-list a az h)))
          (s.queue l lz).chain;
    first = rw (d.lists l lq) (s.queue l lz).first;
    last = rw (d.lists l lq) (s.queue l lz).last;
    numentries = rw (d.lists l lq) (s.queue l lz).numentries;
  }

  queue-put : (l : Ptr) → l ≢ null → IsQueue n l (write f q (e ∷ f q) l)
  queue-put l lz = elim (eq-cases l q) [
    | inl h ↦ rw (h, ==_refl) same-queue
    | inr h ↦ rw (==_ne l q h) (other-queue l lz h)
  ]

  listed-put :
      (p : Ptr)
      → p ≢ null
      → (n.page p).list ≢ null
      → has p (write f q (e ∷ f q) (n.page p).list) ≡ true
  listed-put p pz h = elim (eq-cases p e) [
    | inl pe ↦ rw (pe, d.entry, ==_refl, ==_refl)
    | inr pe ↦
        let same : (n.page p).list ≡ (m.page p).list = (kept p pz pe).0 in
        let old : has p (f (m.page p).list) ≡ true = s.listed p pz (λ z. h (same ∙ z)) in
        rw same (ground arith)
  ]

  loose-put : (p : Ptr) → p ≢ null → (n.page p).list ≡ null → (n.page p).prev ≡ null
  loose-put p pz h = elim (eq-cases p e) [
    | inl pe ↦ absurd (qz (sym (rw (pe, d.entry) at (sym h))))
    | inr pe ↦
        let k = kept p pz pe in
        let free' : (m.page p).list ≡ null = sym k.0 ∙ h in
        rw (k.2, ==_ne p (m.fifo q).first (λ g. qz (sym (first-list p pz g) ∙ free')))
          (s.loose p pz free')
  ]

  pub list-put : (a : Ptr) → a ≢ null → (n.page a).list ≡ (if a == e then q else (m.page a).list)
  list-put a az = elim (eq-cases a e) [
    | inl h ↦ rw (h, ==_refl, d.entry)
    | inr h ↦ rw (==_ne a e h) (kept a az h).0
  ]

  pub Queues-put : Queues n (write f q (e ∷ f q))
  Queues-put = record { queue = queue-put; listed = listed-put; loose = loose-put }

-- the links are all that `enqueue_fifo` writes in a descriptor
pub Enqueued-info :
    {m n : Mem} {q e : Ptr}
    → Enqueued m q e n
    → (a : Ptr) → a ≢ null
    → (n.page a).info ≡ (m.page a).info
Enqueued-info {m} {n} {q} {e} d a az = elim (eq-cases a e) [
  | inl h ↦ rw (h, d.entry)
  | inr h ↦ elim (eq-cases a (m.fifo q).first) [
    | inl g ↦ rw (d.neighbour a h g az)
    | inr g ↦ rw (d.others a h g)
  ]
]

-- the outcome of putting the page `e` in front of the list `q`
abbrev pub Queued : Mem → Contents → Ptr → Ptr → Mem → Type 0
Queued m f q e n =
    Queues n (write f q (e ∷ f q))
    × ((a : Ptr) → a ≢ null → (n.page a).info ≡ (m.page a).info)
    × ((a : Ptr) → a ≢ null → (n.page a).list ≡ (if a == e then q else (m.page a).list))

-- On a page that is on no list, `enqueue_fifo` meets no failing assertion, puts the page in front
-- of its list, leaves every other list and every field that is not a link as they were, makes the
-- list the page's own and no other page's, and keeps the invariant of all lists.
pub enqueue_fifo-Queues :
    (m : Mem) (f : Contents) (q e : Ptr)
    → Queues m f
    → q ≢ null
    → e ≢ null
    → (m.page e).list ≡ null
    → Returns (λ _ n. Queued m f q e n) (enqueue_fifo q e m)
enqueue_fifo-Queues m f q e s qz ez free =
    Returns-mono
      (enqueue_fifo-Enqueued m q e (f q) qz ez (s.loose e ez free)
        (not-has s qz e (λ h. qz (sym h ∙ free))) (s.queue q qz))
      (λ _ n d. (Queues-put s qz ez free d, Enqueued-info d, list-put s qz ez free d))
