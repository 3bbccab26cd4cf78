-- ===== src/Fifo/Queues.antt =====
-- All lists at once: what each holds, which pages are on one, and which are loose.
use swap_prefetch.Common.{◌≡◌, ◌≢◌, true, false, List, has, inl, inr, Bool-cases}
use swap_prefetch.Memory.{Ptr, null, Mem}
use swap_prefetch.Fifo.Links.{IsQueue, Seg-mem}

-- The abstract state: for each list the pages on it, the newest first.
abbrev pub Contents : Type 0
Contents = Ptr → List Ptr

pub record Queues (m : Mem) (f : Contents) : Type 0 where
  pub queue : (q : Ptr) → q ≢ null → IsQueue m q (f q)
  pub listed : (p : Ptr) → p ≢ null → (m.page p).list ≢ null → has p (f (m.page p).list) ≡ true
  pub loose : (p : Ptr) → p ≢ null → (m.page p).list ≡ null → (m.page p).prev ≡ null

module _ {m : Mem} {f : Contents} (s : Queues m f) {q : Ptr} (qz : q ≢ null) where
  -- the pages on `q` are those whose descriptor says so
  pub has-list : (p : Ptr) → has p (f q) ≡ true → (p ≢ null) × ((m.page p).list ≡ q)
  has-list p h = Seg-mem m q null (f q) null p (s.queue q qz).chain h

  -- a page whose descriptor names another list is not on `q`
  pub not-has : (p : Ptr) → (m.page p).list ≢ q → has p (f q) ≡ false
  not-has p ne = elim (Bool-cases (has p (f q))) [
    | inl h ↦ absurd (ne (has-list p h).1)
    | inr h ↦ h
  ]
