-- ===== src/Fifo/Links.antt =====
-- What the links of a list stand for: a segment of distinct pages, and the whole list.
use swap_prefetch.Common.{
  ◌≡◌, ◌≢◌, true, false, List, [], ◌∷◌, length, head_or, last_or, has, arith,
}
use swap_prefetch.Memory.{Ptr, null, Mem}

-- Behind `b` and before `e` stand the distinct pages `xs`, each linked to its neighbours and
-- recorded as a page of the list `q`.
abbrev pub Seg : Mem → Ptr → Ptr → List Ptr → Ptr → Type 0
Seg m q b [] e = Unit
Seg m q b (x ∷ xs) e =
    (x ≢ null)
    × ((m.page x).prev ≡ b)
    × ((m.page x).next ≡ head_or e xs)
    × ((m.page x).list ≡ q)
    × (has x xs ≡ false)
    × Seg m q x xs e

-- The list `q` holds the pages `xs`, the newest first.
pub record IsQueue (m : Mem) (q : Ptr) (xs : List Ptr) : Type 0 where
  pub chain : Seg m q null xs null
  pub first : (m.fifo q).first ≡ head_or null xs
  pub last : (m.fifo q).last ≡ last_or null xs
  pub numentries : (m.fifo q).numentries ≡ length xs

-- A page of a segment is not NULL, and is recorded as a page of the list.
pub Seg-mem :
    (m : Mem) (q b : Ptr) (xs : List Ptr) (e x : Ptr)
    → Seg m q b xs e
    → has x xs ≡ true
    → (x ≢ null) × ((m.page x).list ≡ q)
Seg-mem m q b [] e x s h = cc
Seg-mem m q b (y ∷ ys) e x s h = ground (arith, Seg-mem m q y ys e x s.5)

-- A segment survives any change that spares the links of its pages.
pub Seg-frame :
    (m n : Mem) (q b : Ptr) (xs : List Ptr) (e : Ptr)
    → ((a : Ptr) → has a xs ≡ true → n.page a ≡ m.page a)
    → Seg m q b xs e
    → Seg n q b xs e
Seg-frame m n q b [] e same s = tt
Seg-frame m n q b (x ∷ xs) e same (nz, p, nx, l, out, rest) =
    let here : n.page x ≡ m.page x = same x (ground arith) in
    (
      nz,
      rw here p,
      rw here nx,
      rw here l,
      out,
      Seg-frame m n q x xs e (λ a i. same a (ground arith)) rest,
    )
