-- ===== src/Fifo/Calls.antt =====
-- What each function that takes pages off a list, or walks it, does to the state of all lists.
use swap_prefetch.Common.{
  ◌≡◌, ◌≢◌, refl, sym, ◌∙◌, true, false, List, [], ◌∷◌, ◌++◌, ◌==◌, if◌then◌else◌, ap, last_or,
  init, init-append-last, has, erase, inl, inr, eq-cases, Bool-cases, ==_refl, ==_ne, some, subst,
  append-nil,
}
use mathlib.Core.Path.{fun_ext}
use mathlib.Core.Bool.{true≢false}
use swap_prefetch.Memory.{
  Ptr, null, Mem, write, Returns, pure, returns, Returns-mono, Returns-bind, load-ok, load_list-ok,
}
use swap_prefetch.Fifo.{
  unlink, take_last, dequeue_fifo, page_list_remove_page, page_list_tryremove_page,
}
use swap_prefetch.Fifo.Split.{has-split, has-last, erase-append}
use swap_prefetch.Fifo.Unlink.{unlink-Unlinked, take_last-Unlinked}
use swap_prefetch.Fifo.Queues.{Contents, Queues, has-list}
use swap_prefetch.Fifo.Take.{linked, list-take, Queues-take, Unlinked-info}

-- the fields that are not links are as they were
abbrev pub SameInfo : Mem → Mem → Type 0
SameInfo m n = (a : Ptr) → a ≢ null → (n.page a).info ≡ (m.page a).info

pub write_self : (f : Contents) (q : Ptr) → write f q (f q) ≡ f
write_self f q =
    fun_ext λ l. elim (eq-cases l q) [ inl h ↦ rw (h, ==_refl) | inr h ↦ rw (==_ne l q h) ]

pub write-write :
    (f : Contents) (q : Ptr) (us vs : List Ptr) → write (write f q us) q vs ≡ write f q vs
write-write f q us vs =
    fun_ext λ l. elim (eq-cases l q) [ inl h ↦ rw (h, ==_refl) | inr h ↦ rw (==_ne l q h) ]

-- the outcome of taking the page `x` off the list `q`
abbrev pub Taken : Mem → Contents → Ptr → Ptr → List Ptr → Mem → Type 0
Taken m f q x rest n =
    Queues n (write f q rest)
    × SameInfo m n
    × ((a : Ptr) → a ≢ null → (n.page a).list ≡ (if a == x then null else (m.page a).list))

module _ {m : Mem} {f : Contents} (s : Queues m f) {q : Ptr} (qz : q ≢ null) where
  unlink-Taken :
      (us : List Ptr) (x : Ptr) (vs : List Ptr)
      → f q ≡ us ++ x ∷ vs
      → Returns (λ _ n. Taken m f q x (us ++ vs) n) (unlink q x m)
  unlink-Taken us x vs split = Returns-mono (unlink-Unlinked (linked s qz us x vs split)) λ _ n d. (
    Queues-take s qz us x vs split d,
    Unlinked-info s qz us x vs split d,
    list-take s qz us x vs split d,
  )

  pub take_last-Taken :
      (us : List Ptr) (x : Ptr)
      → f q ≡ us ++ x ∷ []
      → Returns (λ _ n. Taken m f q x us n) (take_last q x m)
  take_last-Taken us x split =
      Returns-mono (take_last-Unlinked (linked s qz us x [] split) refl) λ _ n d. (
        subst (λ l. Queues n (write f q l)) (append-nil us) (Queues-take s qz us x [] split d),
        Unlinked-info s qz us x [] split d,
        list-take s qz us x [] split d,
      )

  pub last-full :
      (x : Ptr) (xs : List Ptr)
      → f q ≡ x ∷ xs
      → ((m.fifo q).last ≡ last_or x xs) × (last_or x xs ≢ null)
  last-full x xs e =
      (rw (s.queue q qz).last (rw e), (has-list s qz (last_or x xs) (rw e (has-last x xs))).0)

  dequeue_fifo-cons :
      (x : Ptr) (xs : List Ptr)
      → f q ≡ x ∷ xs
      → Returns (λ p n. (p ≡ last_or x xs) × Taken m f q p (init (x ∷ xs)) n) (dequeue_fifo q m)
  unfolding dequeue_fifo
  dequeue_fifo-cons x xs e =
      let (le, nz) = last-full x xs e in
      rw (load_list-ok qz, le, ==_ne (last_or x xs) null nz)
        (Returns-bind (λ _. pure (last_or x xs))
          (take_last-Taken (init (x ∷ xs)) (last_or x xs) (e ∙ sym (init-append-last x xs)))
          (λ _ n t. returns (refl, t)))

  dequeue_fifo-nil : f q ≡ [] → dequeue_fifo q m ≡ some (null, m)
  unfolding dequeue_fifo
  dequeue_fifo-nil e =
      let le : (m.fifo q).last ≡ null = (s.queue q qz).last ∙ rw e in rw (load_list-ok qz, le)

  -- `dequeue_fifo` returns the oldest page of a list, which is then on no list, or NULL if there is
  -- none; all else on every list and every field that is not a link stays, and so does the
  -- invariant of all lists.
  pub dequeue_fifo-Queues :
      Returns (λ p n. (p ≡ last_or null (f q)) × Taken m f q p (init (f q)) n) (dequeue_fifo q m)
  dequeue_fifo-Queues = go (f q) refl
    where
      go :
          (xs : List Ptr)
          → f q ≡ xs
          → Returns
              (λ p n. (p ≡ last_or null (f q)) × Taken m f q p (init (f q)) n)
              (dequeue_fifo q m)
      go [] e = rw (dequeue_fifo-nil e) (
          returns (
            rw e,
            (
              subst (Queues m) (sym (ap (write f q) (rw e) ∙ write_self f q)) s,
              λ a az. refl,
              λ a az. rw (==_ne a null az),
            ),
          ))
      go (x ∷ xs) e = Returns-mono (dequeue_fifo-cons x xs e) λ p n (pe, (qs, si, ls)).
          (pe ∙ rw e, (subst (λ l. Queues n (write f q (init l))) (sym e) qs, si, ls))

  first-full : (x : Ptr) → has x (f q) ≡ true → (m.fifo q).first ≢ null
  first-full x on = go (f q) refl on
    where
      go : (xs : List Ptr) → f q ≡ xs → has x xs ≡ true → (m.fifo q).first ≢ null
      go [] e h = cc
      go (y ∷ ys) e h =
          λ z. (has-list s qz y (rw (e, ==_refl))).0 (sym ((s.queue q qz).first ∙ rw e) ∙ z)

  unlink-erase :
      (x : Ptr)
      → has x (f q) ≡ true
      → Returns (λ _ n. Taken m f q x (erase x (f q)) n) (unlink q x m)
  unlink-erase x on =
      let (us, vs, split, out) = has-split x (f q) on in
      subst (λ l. Returns (λ _ n. Taken m f q x l n) (unlink q x m))
        (sym (ap (erase x) split ∙ erase-append x us vs out)) (unlink-Taken us x vs split)

  -- On a page that is on the list, `page_list_remove_page` takes it off, wherever it stands; all
  -- else on every list and every field that is not a link stays, and so does the invariant.
  pub page_list_remove_page-Queues :
      (x : Ptr)
      → has x (f q) ≡ true
      → Returns (λ _ n. Taken m f q x (erase x (f q)) n) (page_list_remove_page q x m)
  unfolding page_list_remove_page
  page_list_remove_page-Queues x on =
      rw (load_list-ok qz, ==_ne (m.fifo q).first null (first-full x on)) (unlink-erase x on)

  tryremove-on :
      (x : Ptr)
      → has x (f q) ≡ true
      → Returns
          (λ ok n. (ok ≡ true) × Taken m f q x (erase x (f q)) n)
          (page_list_tryremove_page q x m)
  unfolding page_list_tryremove_page
  tryremove-on x on =
      let (xz, xl) = has-list s qz x on in
      rw
        (
          ==_ne q null qz,
          load-ok xz,
          xl,
          ==_refl,
          load_list-ok qz,
          ==_ne (m.fifo q).first null (first-full x on),
        )
        (Returns-bind (λ _. pure true) (unlink-erase x on) λ _ n t. returns (refl, t))

  tryremove-off :
      (x : Ptr) → x ≢ null → has x (f q) ≡ false → page_list_tryremove_page q x m ≡ some (false, m)
  unfolding page_list_tryremove_page
  tryremove-off x xz off =
      let ne : (m.page x).list ≢ q =
        λ h. absurd (true≢false (sym (rw h at (s.listed x xz (λ z. qz (sym h ∙ z)))) ∙ off)) in
      rw (==_ne q null qz, load-ok xz, ==_ne (m.page x).list q ne)

  -- `page_list_tryremove_page` returns 0 exactly if the page is on the list. It then takes it off,
  -- and all else stays; if it returns -1 it changes nothing at all.
  pub page_list_tryremove_page-Queues :
      (x : Ptr)
      → x ≢ null
      → Returns
          (λ ok n.
            (ok ≡ has x (f q))
            × (ok ≡ true → Taken m f q x (erase x (f q)) n)
            × (ok ≡ false → n ≡ m))
          (page_list_tryremove_page q x m)
  page_list_tryremove_page-Queues x xz = elim (Bool-cases (has x (f q))) [
    | inl on ↦ Returns-mono (tryremove-on x on) λ ok n (e, t). (e ∙ sym on, λ _. t, λ h. cc)
    | inr off ↦ rw (tryremove-off x xz off) (returns (sym off, λ h. cc, λ _. refl))
  ]
