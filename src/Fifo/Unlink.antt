-- ===== src/Fifo/Unlink.antt =====
-- The effect of taking a page out of a list, by `unlink` and by `take_last`.
use swap_prefetch.Common.{
  ◌-◌, ◌≡◌, ◌≢◌, true, ◌==◌, ltb, if◌then◌else◌, ==_ne, ==_refl, eq-cases, inl, inr, sym,
}
use swap_prefetch.Memory.{
  Ptr, null, Mem, Returns, returns, load-ok, load_list-ok, update-ok, update_list-ok,
}
use swap_prefetch.Fifo.{unlink, take_last}

-- The whole effect of taking `x`, linked to `p` and `t`, out of `q`.
pub record Unlinked (m : Mem) (q x p t : Ptr) (n : Mem) : Type 0 where
  pub entry : n.page x ≡ record (m.page x) { next = null; prev = null; list = null }
  pub before : (a : Ptr) → a ≢ null → a ≡ p → n.page a ≡ record (m.page a) { next = t }
  pub behind : (a : Ptr) → a ≢ null → a ≡ t → n.page a ≡ record (m.page a) { prev = p }
  pub others : (a : Ptr) → a ≢ x → a ≢ p → a ≢ t → n.page a ≡ m.page a
  pub head : n.fifo q ≡ record {
    first = if p == null then t else (m.fifo q).first;
    last = if t == null then p else (m.fifo q).last;
    numentries = (m.fifo q).numentries - 1;
  }
  pub lists : (l : Ptr) → l ≢ q → n.fifo l ≡ m.fifo l

-- what the code relies on: `x` is linked to other pages, and is an end of `q` where a link is NULL
pub record Linked (m : Mem) (q x p t : Ptr) : Type 0 where
  pub list_nz : q ≢ null
  pub page_nz : x ≢ null
  pub prev : (m.page x).prev ≡ p
  pub next : (m.page x).next ≡ t
  pub prev_ne : p ≢ x
  pub next_ne : t ≢ x
  pub apart : p ≢ null → p ≢ t
  pub first : ((m.fifo q).first == x) ≡ (p == null)
  pub last : ((m.fifo q).last == x) ≡ (t == null)
  pub filled : ltb 0 (m.fifo q).numentries ≡ true

module _ {m : Mem} {q x p t : Ptr} (l : Linked m q x p t) where
  unlink_alone : p ≡ null → t ≡ null → Returns (λ _ n. Unlinked m q x p t n) (unlink q x m)
  unfolding unlink
  unlink_alone pz tz =
      simp
        (
          load_list-ok l.list_nz,
          load-ok l.page_nz,
          update-ok l.page_nz,
          update_list-ok l.list_nz,
          l.first,
          l.last,
          l.prev,
          l.next,
          l.filled,
          ==_refl,
          pz,
          tz,
        )
        (returns (record {
          entry = simp (==_refl);
          before = λ a z e. absurd (z e);
          behind = λ a z e. absurd (z e);
          others = λ a d h k. simp (==_ne a x d);
          head = simp (==_refl, pz, tz);
          lists = λ k d. simp (==_ne k q d);
        }))

  unlink_first : p ≡ null → t ≢ null → Returns (λ _ n. Unlinked m q x p t n) (unlink q x m)
  unfolding unlink
  unlink_first pz tz =
      simp
        (
          load_list-ok l.list_nz,
          load-ok l.page_nz,
          update-ok l.page_nz,
          update_list-ok l.list_nz,
          l.first,
          l.last,
          l.prev,
          l.next,
          l.filled,
          ==_refl,
          pz,
          ==_ne t null tz,
          update-ok tz,
          ==_ne t x l.next_ne,
          ==_ne x t (λ e. l.next_ne (sym e)),
        )
        (returns (record {
          entry = simp (==_refl, ==_ne x t (λ e. l.next_ne (sym e)));
          before = λ a z e. absurd (z e);
          behind = λ a z e. simp (e, ==_refl, ==_ne t x l.next_ne);
          others = λ a d h k. simp (==_ne a x d, ==_ne a t k);
          head = simp (==_refl, pz, ==_ne t null tz);
          lists = λ k d. simp (==_ne k q d);
        }))

  unlink_last : p ≢ null → t ≡ null → Returns (λ _ n. Unlinked m q x p t n) (unlink q x m)
  unfolding unlink
  unlink_last pz tz =
      simp
        (
          load_list-ok l.list_nz,
          load-ok l.page_nz,
          update-ok l.page_nz,
          update_list-ok l.list_nz,
          l.first,
          l.last,
          l.prev,
          l.next,
          l.filled,
          ==_refl,
          ==_ne p null pz,
          update-ok pz,
          ==_ne p x l.prev_ne,
          ==_ne x p (λ e. l.prev_ne (sym e)),
          tz,
        )
        (returns (record {
          entry = simp (==_refl, ==_ne x p (λ e. l.prev_ne (sym e)));
          before = λ a z e. simp (e, ==_refl, ==_ne p x l.prev_ne);
          behind = λ a z e. absurd (z e);
          others = λ a d h k. simp (==_ne a x d, ==_ne a p h);
          head = simp (==_refl, ==_ne p null pz, tz);
          lists = λ k d. simp (==_ne k q d);
        }))

  unlink_middle : p ≢ null → t ≢ null → Returns (λ _ n. Unlinked m q x p t n) (unlink q x m)
  unfolding unlink
  unlink_middle pz tz =
      simp
        (
          load_list-ok l.list_nz,
          load-ok l.page_nz,
          update-ok l.page_nz,
          update_list-ok l.list_nz,
          l.first,
          l.last,
          l.prev,
          l.next,
          l.filled,
          ==_refl,
          ==_ne p null pz,
          update-ok pz,
          ==_ne p x l.prev_ne,
          ==_ne x p (λ e. l.prev_ne (sym e)),
          ==_ne t null tz,
          update-ok tz,
          ==_ne t x l.next_ne,
          ==_ne x t (λ e. l.next_ne (sym e)),
          ==_ne p t (l.apart pz),
          ==_ne t p (λ e. l.apart pz (sym e)),
        )
        (returns (record {
          entry =
              simp
                (==_refl, ==_ne x p (λ e. l.prev_ne (sym e)), ==_ne x t (λ e. l.next_ne (sym e)));
          before = λ a z e. simp (e, ==_refl, ==_ne p x l.prev_ne, ==_ne p t (l.apart pz));
          behind =
              λ a z e. simp (e, ==_refl, ==_ne t x l.next_ne, ==_ne t p (λ h. l.apart pz (sym h)));
          others = λ a d h k. simp (==_ne a x d, ==_ne a p h, ==_ne a t k);
          head = simp (==_refl, ==_ne p null pz, ==_ne t null tz);
          lists = λ k d. simp (==_ne k q d);
        }))

  pub unlink-Unlinked : Returns (λ _ n. Unlinked m q x p t n) (unlink q x m)
  unlink-Unlinked = elim (eq-cases p null) [
    | inl pz ↦ elim (eq-cases t null) [ inl tz ↦ unlink_alone pz tz | inr tz ↦ unlink_first pz tz ]
    | inr pz ↦ elim (eq-cases t null) [ inl tz ↦ unlink_last pz tz | inr tz ↦ unlink_middle pz tz ]
  ]

  take_last_alone : p ≡ null → t ≡ null → Returns (λ _ n. Unlinked m q x p t n) (take_last q x m)
  unfolding take_last
  take_last_alone pz tz =
      simp
        (
          load_list-ok l.list_nz,
          load-ok l.page_nz,
          update-ok l.page_nz,
          update_list-ok l.list_nz,
          l.first,
          l.last,
          l.prev,
          l.next,
          l.filled,
          ==_refl,
          pz,
          tz,
        )
        (returns (record {
          entry = simp (==_refl);
          before = λ a z e. absurd (z e);
          behind = λ a z e. absurd (z e);
          others = λ a d h k. simp (==_ne a x d);
          head = simp (==_refl, pz, tz);
          lists = λ k d. simp (==_ne k q d);
        }))

  take_last_behind : p ≢ null → t ≡ null → Returns (λ _ n. Unlinked m q x p t n) (take_last q x m)
  unfolding take_last
  take_last_behind pz tz =
      simp
        (
          load_list-ok l.list_nz,
          load-ok l.page_nz,
          update-ok l.page_nz,
          update_list-ok l.list_nz,
          l.first,
          l.last,
          l.prev,
          l.next,
          l.filled,
          ==_refl,
          ==_ne p null pz,
          update-ok pz,
          ==_ne p x l.prev_ne,
          ==_ne x p (λ e. l.prev_ne (sym e)),
          tz,
        )
        (returns (record {
          entry = simp (==_refl, ==_ne x p (λ e. l.prev_ne (sym e)));
          before = λ a z e. simp (e, ==_refl, ==_ne p x l.prev_ne);
          behind = λ a z e. absurd (z e);
          others = λ a d h k. simp (==_ne a x d, ==_ne a p h);
          head = simp (==_refl, ==_ne p null pz, tz);
          lists = λ k d. simp (==_ne k q d);
        }))

  pub take_last-Unlinked : t ≡ null → Returns (λ _ n. Unlinked m q x p t n) (take_last q x m)
  take_last-Unlinked tz = elim (eq-cases p null) [
    | inl pz ↦ take_last_alone pz tz
    | inr pz ↦ take_last_behind pz tz
  ]
