-- ===== src/Memory.antt =====
-- The page descriptors and list heads of core.h and fifo.h, at addresses, and commands on them.
-- A descriptor comes from `calloc` once at start and is never given back, so every non-null
-- address that the program holds stands for one.
use swap_prefetch.Common.{ℕ, ◌≡◌, ◌≢◌, ==_ne, arith, Bool, Option, none, some, ◌==◌, if◌then◌else◌}

abbrev pub Ptr : Type 0
Ptr = ℕ

abbrev pub null : Ptr
null = 0

-- `enum pagetypes`
pub data PageType : Type 0 where
  hugep basep : PageType

-- what `struct user_page` says of a page
pub record PageData : Type 0 where
  pub va : ℕ
  pub virtual_offset : ℕ
  pub in_dram : Bool
  pub swapped_out : Bool
  pub pt : PageType
  pub migrating : Bool
  pub has_reserve : Bool
  pub present : Bool
  pub naccesses : ℕ
  pub reserve : Ptr

-- `struct user_page`: those fields and the links of fifo.c, without the handle of the hash table
pub record UserPage : Type 0 where
  pub info : PageData
  pub open info use *
  pub next : Ptr
  pub prev : Ptr
  pub list : Ptr

-- `struct fifo_list`; its lock is held throughout each function of fifo.c
pub record FifoList : Type 0 where
  pub first : Ptr
  pub last : Ptr
  pub numentries : ℕ

pub record Mem : Type 0 where
  pub page : Ptr → UserPage
  pub fifo : Ptr → FifoList

abbrev pub write {ℓ} : {A : Type ℓ} → (Ptr → A) → Ptr → A → Ptr → A
write h p c a = if a == p then c else h a

-- A command on a state; `none` is a failed assertion or an access through NULL.
abbrev pub Act : Type 0 → Type 0 → Type 0
Act S A = S → Option (A × S)

-- a command on the descriptors and lists
abbrev pub Cmd : Type 0 → Type 0
Cmd A = Act Mem A

module _ {S : Type 0} where
  abbrev pub pure : {A : Type 0} → A → Act S A
  pure a m = some (a, m)

  module _ {A B : Type 0} where
    abbrev pub continue : Option (A × S) → (A → Act S B) → Option (B × S)
    continue none k = none
    continue (some (a, m)) k = k a m

    infixl 5 ◌>>=◌ ◌>>◌
    abbrev pub ◌>>=◌ : Act S A → (A → Act S B) → Act S B
    c >>= k = λ m. continue (c m) k

    abbrev pub ◌>>◌ : Act S A → Act S B → Act S B
    c >> k = c >>= λ _. k

-- `assert(b)`
abbrev pub assert : {S : Type 0} → Bool → Act S (Unit {0})
assert b m = if b then some (tt, m) else none

unfoldable pub load : Ptr → Cmd UserPage
load p m = if p == null then none else some (m.page p, m)

unfoldable pub load_list : Ptr → Cmd FifoList
load_list q m = if q == null then none else some (m.fifo q, m)

abbrev pub put_page : Ptr → UserPage → Mem → Mem
put_page p c m = record m { page = write m.page p c }

abbrev pub put_list : Ptr → FifoList → Mem → Mem
put_list q l m = record m { fifo = write m.fifo q l }

-- a write through a pointer to a descriptor, and through one to a list head
unfoldable pub update : Ptr → (UserPage → UserPage) → Cmd (Unit {0})
update p f m = if p == null then none else some (tt, put_page p (f (m.page p)) m)

unfoldable pub update_list : Ptr → (FifoList → FifoList) → Cmd (Unit {0})
update_list q f m = if q == null then none else some (tt, put_list q (f (m.fifo q)) m)

abbrev pub set_next : Ptr → Ptr → Cmd (Unit {0})
set_next p v = update p (λ c. record c { next = v })

abbrev pub set_prev : Ptr → Ptr → Cmd (Unit {0})
set_prev p v = update p (λ c. record c { prev = v })

abbrev pub set_list : Ptr → Ptr → Cmd (Unit {0})
set_list p v = update p (λ c. record c { list = v })

abbrev pub set_first : Ptr → Ptr → Cmd (Unit {0})
set_first q v = update_list q (λ l. record l { first = v })

abbrev pub set_last : Ptr → Ptr → Cmd (Unit {0})
set_last q v = update_list q (λ l. record l { last = v })

abbrev pub set_numentries : Ptr → ℕ → Cmd (Unit {0})
set_numentries q v = update_list q (λ l. record l { numentries = v })

module _ {p : Ptr} (nz : p ≢ null) (m : Mem) where
  pub load-ok : load p m ≡ some (m.page p, m)
  unfolding load
  load-ok = ground arith

  pub load_list-ok : load_list p m ≡ some (m.fifo p, m)
  unfolding load_list
  load_list-ok = ground arith

  pub update-ok : (f : UserPage → UserPage) → update p f m ≡ some (tt, put_page p (f (m.page p)) m)
  unfolding update
  update-ok f = rw (==_ne p null nz)

  pub update_list-ok :
      (f : FifoList → FifoList) → update_list p f m ≡ some (tt, put_list p (f (m.fifo p)) m)
  unfolding update_list
  update_list-ok f = rw (==_ne p null nz)

-- Total correctness of a command: no assertion fails, no access goes through NULL, and the result
-- has a property.
pub data Returns {S A : Type 0} (P : A → S → Type 0) : Option (A × S) → Type 0 where
  returns : {a : A} {m : S} → P a m → Returns P (some (a, m))

module _ {S A : Type 0} {P : A → S → Type 0} where
  pub Returns-bind :
      {B : Type 0} {Q : B → S → Type 0} {r : Option (A × S)} (k : A → Act S B)
      → Returns P r
      → ((a : A) (m : S) → P a m → Returns Q (k a m))
      → Returns Q (continue r k)
  Returns-bind k (returns p) next = next _ _ p

  pub Returns-mono :
      {Q : A → S → Type 0} {r : Option (A × S)}
      → Returns P r
      → ((a : A) (m : S) → P a m → Q a m)
      → Returns Q r
  Returns-mono (returns p) weaken = returns (weaken _ _ p)
