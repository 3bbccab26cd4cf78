-- ===== src/System/Runs/Base.antt =====
-- That a command runs from one abstract state to another, and the rules for chains, branches and
-- assertions.
use swap_prefetch.Common.{
  ◌≡◌, refl, sym, subst, Bool, true, false, Option, none, some, if◌then◌else◌,
}
use swap_prefetch.Memory.{pure, Returns, returns, Returns-mono}
use swap_prefetch.System.{Platform, SystemState, Sys, ◌>>=◌, assert}
use swap_prefetch.System.View.{Abs, View, Same, View-Same}

-- From a state with the view `v`, the command meets no failing assertion, uses no null pointer, is
-- refused nothing by the kernel, and returns `a` in a state with the view `v'`.
pub record Runs {P : Platform} {A : Type 0} (c : Sys P A) (v : Abs P) (a : A) (v' : Abs P)
    : Type 0 where
  pub run : (w : SystemState P) → View w v → Returns (λ x w'. (x ≡ a) × View w' v') (c w)

module _ {P : Platform} where
  bind-run :
      {A B : Type 0} (c : Sys P A) (k : A → Sys P B) {v v' v'' : Abs P} {a : A} {b : B}
      → Runs c v a v'
      → Runs (k a) v' b v''
      → Runs (c >>= k) v b v''
  unfolding ◌>>=◌
  bind-run {A} {B} c k {v} {v'} {v''} {a} {b} r s = record { run = λ w h. go (c w) (r.run w h) }
    where
      go :
          (o : Option (A × SystemState P))
          → Returns (λ x w'. (x ≡ a) × View w' v') o
          → Returns (λ z u. (z ≡ b) × View u v'') (elim o [ none ↦ none | some (x, w') ↦ k x w' ])
      go none r = elim r [ ]
      go (some (x, w')) (returns (e, h')) =
          subst (λ y. Returns (λ z u. (z ≡ b) × View u v'') (k y w')) (sym e) (s.run w' h')

  pub Runs-bind :
      {A B : Type 0} {c : Sys P A} (k : A → Sys P B) {v v' v'' : Abs P} {a : A} {b : B}
      → Runs c v a v'
      → Runs (k a) v' b v''
      → Runs (c >>= k) v b v''
  Runs-bind {c = c} k r s = bind-run c k r s

  pub Runs-Same :
      {A : Type 0} {c : Sys P A} {v v' v'' : Abs P} {a : A}
      → Runs c v a v'
      → Same v' v''
      → Runs c v a v''
  Runs-Same r s = record { run = λ w h. Returns-mono (r.run w h) λ x w' (e, k). (e, View-Same k s) }

  module _ {v : Abs P} where
    pub Runs-pure : {A : Type 0} {a : A} → Runs (pure a) v a v
    Runs-pure = record { run = λ w h. returns (refl, h) }

    pub Runs-assert : (b : Bool) → b ≡ true → Runs (assert b) v tt v
    unfolding assert
    Runs-assert b e = record { run = λ w h. rw e (returns (refl, h)) }

  -- the branches of an if
  pub Runs-then :
      {A : Type 0} {v v' : Abs P} {a : A} (b : Bool) (c d : Sys P A)
      → b ≡ true
      → Runs c v a v'
      → Runs (if b then c else d) v a v'
  Runs-then b c d e r = rw e r

  pub Runs-else :
      {A : Type 0} {v v' : Abs P} {a : A} (b : Bool) (c d : Sys P A)
      → b ≡ false
      → Runs d v a v'
      → Runs (if b then c else d) v a v'
  Runs-else b c d e r = rw e r

-- A command that runs has a state to go on in.
pub Runs-next :
    {P : Platform} {A : Type 0} {c : Sys P A} {v v' : Abs P} {a : A}
    → Runs c v a v'
    → (w : SystemState P) → View w v
    → (w' : SystemState P) × View w' v'
Runs-next {P} {A} {c} {v} {v'} {a} r w h = last (c w) (r.run w h)
  where
    last :
        (o : Option (A × SystemState P))
        → Returns (λ x w'. (x ≡ a) × View w' v') o
        → (w' : SystemState P) × View w' v'
    last none x = elim x [ ]
    last (some (x, w')) (returns (e, k)) = (w', k)
