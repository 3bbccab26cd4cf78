-- ===== src/System/View.antt =====
-- The abstract view of the state: which pages are on which list, in which order, and the data of
-- the descriptors, without the links.
use swap_prefetch.Common.{
  ℕ, ◌≡◌, ◌≢◌, refl, sym, ap, subst, ◌∙◌, Bool, true, Option, List, [], ◌∷◌, ◌==◌, if◌then◌else◌,
  has, erase, init, last_or, ==_ne, ==_refl, eq-cases, inl, inr,
}
use swap_prefetch.Memory.{
  Ptr, null, Mem, PageData, write, put_page, Returns, returns, Returns-mono, update, update-ok,
}
use swap_prefetch.Fifo.{enqueue_fifo, dequeue_fifo, page_list_tryremove_page}
use swap_prefetch.Fifo.Queues.{Contents, Queues}
use swap_prefetch.Fifo.Links.{Seg, IsQueue}
use swap_prefetch.Fifo.Put.{enqueue_fifo-Queues}
use swap_prefetch.Fifo.Calls.{dequeue_fifo-Queues, page_list_tryremove_page-Queues}
use swap_prefetch.System.{Platform, SystemState}

-- a table with one value changed
unfoldable pub put {ℓ} : {A : Type ℓ} → (Ptr → A) → Ptr → A → Ptr → A
put h p x = write h p x

-- the value at the address written last, and at another one
pub put-here {ℓ} : {A : Type ℓ} (h : Ptr → A) (p : Ptr) (x : A) → put h p x p ≡ x
unfolding put
put-here h p x = rw (==_refl p)

pub put-there {ℓ} :
    {A : Type ℓ} (h : Ptr → A) {p a : Ptr} (x : A) {y : A} → a ≢ p → h a ≡ y → put h p x a ≡ y
unfolding put
put-there h {p} {a} x ne e = rw (==_ne a p ne, e)

pub record Abs (P : Platform) : Type 0 where
  pub contents : Contents
  pub info : Ptr → PageData
  pub list : Ptr → Ptr
  pub state : P.State
  pub buffer : Option P.Content
  pub shrinkage_running : Bool
  pub prev_faults : ℕ × ℕ

pub record MemView (m : Mem) (f : Contents) (d : Ptr → PageData) (l : Ptr → Ptr) : Type 0 where
  pub queues : Queues m f
  pub info : (a : Ptr) → a ≢ null → (m.page a).info ≡ d a
  pub list : (a : Ptr) → a ≢ null → (m.page a).list ≡ l a

pub record View {P : Platform} (w : SystemState P) (v : Abs P) : Type 0 where
  pub mem : MemView w.mem v.contents v.info v.list
  pub state : w.state ≡ v.state
  pub buffer : w.buffer ≡ v.buffer
  pub shrinkage_running : w.shrinkage_running ≡ v.shrinkage_running
  pub prev_faults : w.prev_faults ≡ v.prev_faults

-- Two views of the same state: null stands for no page and for no list.
pub record Same {P : Platform} (v v' : Abs P) : Type 0 where
  pub contents : (q : Ptr) → q ≢ null → v.contents q ≡ v'.contents q
  pub info : (a : Ptr) → a ≢ null → v.info a ≡ v'.info a
  pub list : (a : Ptr) → a ≢ null → v.list a ≡ v'.list a
  pub state : v.state ≡ v'.state
  pub buffer : v.buffer ≡ v'.buffer
  pub shrinkage_running : v.shrinkage_running ≡ v'.shrinkage_running
  pub prev_faults : v.prev_faults ≡ v'.prev_faults

pub View-Same : {P : Platform} {w : SystemState P} {v v' : Abs P} → View w v → Same v v' → View w v'
View-Same {P} {w} {v} {v'} h s = record {
  mem = record {
    queues = record {
      queue = λ q qz. subst (IsQueue w.mem q) (s.contents q qz) (h.mem.queues.queue q qz);
      listed = λ p pz on.
          ap (has p) (sym (s.contents (w.mem.page p).list on)) ∙ h.mem.queues.listed p pz on;
      loose = h.mem.queues.loose;
    };
    info = λ a az. h.mem.info a az ∙ s.info a az;
    list = λ a az. h.mem.list a az ∙ s.list a az;
  };
  state = h.state ∙ s.state;
  buffer = h.buffer ∙ s.buffer;
  shrinkage_running = h.shrinkage_running ∙ s.shrinkage_running;
  prev_faults = h.prev_faults ∙ s.prev_faults;
}

-- the links of all pages are the same
abbrev SameLinks : Mem → Mem → Type 0
SameLinks m n =
    (a : Ptr)
    → ((n.page a).next ≡ (m.page a).next)
      × ((n.page a).prev ≡ (m.page a).prev)
      × ((n.page a).list ≡ (m.page a).list)

Seg-SameLinks :
    (m n : Mem) (q b : Ptr) (xs : List Ptr) (e : Ptr)
    → SameLinks m n
    → Seg m q b xs e
    → Seg n q b xs e
Seg-SameLinks m n q b [] e h s = tt
Seg-SameLinks m n q b (x ∷ xs) e h (nz, p, nx, l, out, rest) =
    let (same_next, same_prev, same_list) = h x in
    (nz, same_prev ∙ p, same_next ∙ nx, same_list ∙ l, out, Seg-SameLinks m n q x xs e h rest)

Queues-SameLinks :
    (m n : Mem) (f : Contents)
    → SameLinks m n
    → ((q : Ptr) → n.fifo q ≡ m.fifo q)
    → Queues m f
    → Queues n f
Queues-SameLinks m n f h k s = record {
  queue = λ q qz.
      let i = s.queue q qz in
      record {
        chain = Seg-SameLinks m n q null (f q) null h i.chain;
        first = ap (λ l. l.first) (k q) ∙ i.first;
        last = ap (λ l. l.last) (k q) ∙ i.last;
        numentries = ap (λ l. l.numentries) (k q) ∙ i.numentries;
      };
  listed = λ p pz on. rw (h p).2 (s.listed p pz (λ z. on ((h p).2 ∙ z)));
  loose = λ p pz off. (h p).1 ∙ s.loose p pz (sym (h p).2 ∙ off);
}

module _ {m : Mem} {f : Contents} {d : Ptr → PageData} {l : Ptr → Ptr} (v : MemView m f d l) where
  pub enqueue_fifo-MemView :
      (q e : Ptr)
      → q ≢ null
      → e ≢ null
      → l e ≡ null
      → Returns (λ _ n. MemView n (write f q (e ∷ f q)) d (write l e q)) (enqueue_fifo q e m)
  enqueue_fifo-MemView q e qz ez free =
      Returns-mono (enqueue_fifo-Queues m f q e v.queues qz ez (v.list e ez ∙ free))
        λ _ n (qs, si, ls). record {
          queues = qs;
          info = λ a az. si a az ∙ v.info a az;
          list = λ a az. ls a az ∙ ap (λ x. if a == e then q else x) (v.list a az);
        }

  pub dequeue_fifo-MemView :
      (q : Ptr)
      → q ≢ null
      → Returns
          (λ p n. (p ≡ last_or null (f q)) × MemView n (write f q (init (f q))) d (write l p null))
          (dequeue_fifo q m)
  dequeue_fifo-MemView q qz =
      Returns-mono (dequeue_fifo-Queues v.queues qz) λ p n (pe, (qs, si, ls)). (
        pe,
        record {
          queues = qs;
          info = λ a az. si a az ∙ v.info a az;
          list = λ a az. ls a az ∙ ap (λ x. if a == p then null else x) (v.list a az);
        },
      )

  -- whether a page is on a list is what its descriptor says
  pub has-MemView : (q x : Ptr) → q ≢ null → x ≢ null → l x ≡ q → has x (f q) ≡ true
  has-MemView q x qz xz on =
      let named : (m.page x).list ≡ q = v.list x xz ∙ on in
      subst (λ a. has x (f a) ≡ true) named (v.queues.listed x xz (λ z. qz (sym named ∙ z)))

  pub page_list_tryremove_page-MemView :
      (q x : Ptr)
      → q ≢ null
      → x ≢ null
      → l x ≡ q
      → Returns
          (λ ok n. (ok ≡ true) × MemView n (write f q (erase x (f q))) d (write l x null))
          (page_list_tryremove_page q x m)
  page_list_tryremove_page-MemView q x qz xz on =
      let there = has-MemView q x qz xz on in
      Returns-mono (page_list_tryremove_page-Queues v.queues qz x xz) λ ok n (e, t, _).
        let (qs, si, ls) = t (e ∙ there) in
        (
          e ∙ there,
          record {
            queues = qs;
            info = λ a az. si a az ∙ v.info a az;
            list = λ a az. ls a az ∙ ap (λ y. if a == x then null else y) (v.list a az);
          },
        )

  update_links :
      (p : Ptr) (g : PageData → PageData)
      → SameLinks m (put_page p (record (m.page p) { info = g (m.page p).info }) m)
  update_links p g a = elim (eq-cases a p) [
    | inl h ↦ rw (h, ==_refl) (refl, refl, refl)
    | inr h ↦ rw (==_ne a p h) (refl, refl, refl)
  ]

  pub update-MemView :
      (p : Ptr) (g : PageData → PageData)
      → p ≢ null
      → Returns
          (λ _ n. MemView n f (write d p (g (d p))) l)
          (update p (λ c. record c { info = g c.info }) m)
  update-MemView p g pz = rw (update-ok pz m (λ c. record c { info = g c.info })) (
      returns (record {
        queues =
            Queues-SameLinks m (put_page p (record (m.page p) { info = g (m.page p).info }) m) f
              (update_links p g) (λ q. refl) v.queues;
        info = λ a az. elim (eq-cases a p) [
          | inl h ↦ rw (h, ==_refl) (ap g (v.info p pz))
          | inr h ↦ rw (==_ne a p h) (v.info a az)
        ];
        list = λ a az. (update_links p g a).2 ∙ v.list a az;
      }))
