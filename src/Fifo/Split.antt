-- ===== src/Fifo/Split.antt =====
-- A page of a segment splits it: its neighbours are the last page before it and the first behind.
use swap_prefetch.Common.{
  ◌≡◌, sym, ap, ◌∙◌, ◌≢◌, refl, true, false, List, [], ◌∷◌, ◌++◌, ◌==◌, suc, length, head_or,
  last_or, has, erase, has-append, arith, inl, inr, Bool-cases, ==_refl,
}
use swap_prefetch.Memory.{Ptr, null, Mem}
use swap_prefetch.Fifo.Links.{Seg}

-- what a segment says of a page with `us` before it and `vs` behind it
pub record At (m : Mem) (q b e : Ptr) (us : List Ptr) (x : Ptr) (vs : List Ptr) : Type 0 where
  pub nz : x ≢ null
  pub prev : (m.page x).prev ≡ last_or b us
  pub next : (m.page x).next ≡ head_or e vs
  pub list : (m.page x).list ≡ q
  pub not_before : has x us ≡ false
  pub not_behind : has x vs ≡ false

pub Seg-At :
    (m : Mem) (q b : Ptr) (us : List Ptr) (x : Ptr) (vs : List Ptr) (e : Ptr)
    → Seg m q b (us ++ x ∷ vs) e
    → At m q b e us x vs
Seg-At m q b [] x vs e (nz, p, nx, l, out, rest) = record {
  nz = nz;
  prev = p;
  next = nx;
  list = l;
  not_before = refl;
  not_behind = out;
}
Seg-At m q b (y ∷ us) x vs e (nz, p, nx, l, out, rest) =
    let at : At m q y e us x vs = Seg-At m q y us x vs e rest in
    record {
      nz = at.nz;
      prev = at.prev;
      next = at.next;
      list = at.list;
      not_before = ground (arith, has-append y us (x ∷ vs), at.not_before);
      not_behind = at.not_behind;
    }

-- The pages before and behind a page are different pages.
pub Seg-disjoint :
    (m : Mem) (q b : Ptr) (us : List Ptr) (x : Ptr) (vs : List Ptr) (e a : Ptr)
    → Seg m q b (us ++ x ∷ vs) e
    → has a us ≡ true
    → has a vs ≡ false
Seg-disjoint m q b [] x vs e a s h = cc
Seg-disjoint m q b (y ∷ us) x vs e a (nz, p, nx, l, out, rest) h =
    ground (arith, has-append y us (x ∷ vs), Seg-disjoint m q y us x vs e a rest)

pub has-last : (y : Ptr) (ys : List Ptr) → has (last_or y ys) (y ∷ ys) ≡ true
has-last y [] = ground arith
has-last y (z ∷ ys) = ground (arith, has-last z ys)

-- an address on a list and one that is not on it differ
pub ne_of_has : (xs : List Ptr) {a b : Ptr} → has a xs ≡ true → has b xs ≡ false → a ≢ b
ne_of_has xs h k e = cc (sym h ∙ ap (λ c. has c xs) e ∙ k)

-- every page of the list splits it
pub has-split :
    (x : Ptr) (xs : List Ptr)
    → has x xs ≡ true
    → (us : List Ptr) × (vs : List Ptr) × (xs ≡ us ++ x ∷ vs) × (has x us ≡ false)
has-split x [] h = cc
has-split x (y ∷ ys) h = elim (Bool-cases (x == y)) [
  | inl e ↦ ([], ys, ground arith, refl)
  | inr ne ↦
      let (us, vs, eq, out) = has-split x ys (ground arith) in (y ∷ us, vs, rw eq, ground arith)
]

pub erase-append :
    (x : Ptr) (us vs : List Ptr) → has x us ≡ false → erase x (us ++ x ∷ vs) ≡ us ++ vs
erase-append x [] vs h = rw (==_refl x)
erase-append x (y ∷ us) vs h = ground (arith, erase-append x us vs)

pub length-insert : (us vs : List Ptr) (x : Ptr) → length (us ++ x ∷ vs) ≡ suc (length (us ++ vs))
length-insert [] vs x = refl
length-insert (y ∷ us) vs x = ground (arith, length-insert us vs x)

pub last_or-append :
    (b : Ptr) (us : List Ptr) (x : Ptr) (vs : List Ptr) → last_or b (us ++ x ∷ vs) ≡ last_or x vs
last_or-append b [] x vs = refl
last_or-append b (y ∷ us) x vs = last_or-append y us x vs

pub last_or-join : (b : Ptr) (us vs : List Ptr) → last_or b (us ++ vs) ≡ last_or (last_or b us) vs
last_or-join b [] vs = refl
last_or-join b (y ∷ us) vs = last_or-join y us vs

pub head_or-join : (e : Ptr) (us vs : List Ptr) → head_or e (us ++ vs) ≡ head_or (head_or e vs) us
head_or-join e [] vs = refl
head_or-join e (y ∷ us) vs = refl
