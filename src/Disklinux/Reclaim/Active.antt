-- ===== src/Disklinux/Reclaim/Active.antt =====
-- `shrink_active_list` is the plain step "the oldest active page becomes the newest inactive one",
-- as often as asked for or as there are active pages.
use swap_prefetch.Common.{
  ℕ, zero, suc, ◌+◌, ◌*◌, ◌≤◌, ◌<◌, ◌≡◌, refl, sym, ap, subst, ◌∙◌, true, false, not, ◌&&◌, ◌==◌,
  if◌then◌else◌, List, [], ◌∷◌, init, last_or, length, has, ltb, min, Bool-cases, inl, inr, ==_ne,
  arith,
}
use swap_prefetch.Memory.{Ptr, null, pure}
use swap_prefetch.Fifo.Split.{has-last}
use swap_prefetch.System.{Platform}
use swap_prefetch.System.View.{Abs, put, put-here, put-there}
use swap_prefetch.System.Runs.{
  Runs, Runs-bind, Runs-pure, Runs-numentries, Runs-listed, Runs-dequeue, Runs-set_info,
  Runs-enqueue, Runs-set_shrinking, Runs-then, Runs-else,
}
use swap_prefetch.Disklinux.{active_list, inactive_list}
use swap_prefetch.Disklinux.Lists.{queued, taken_last}
use swap_prefetch.Disklinux.Reclaim.{tries, demote_pages, shrink_active_list}

pub length-init : {A : Type 0} (x : A) (xs : List A) → length (init (x ∷ xs)) ≡ length xs
length-init x [] = refl
length-init x (y ∷ xs) = ap suc (length-init y xs)

-- the test of the loops, with a page left, and with enough of them taken
pub go_on :
    (ret nr n r : ℕ) → ret < nr → 0 < n → 0 < r → (ltb ret nr && ltb 0 n && not (r == 0)) ≡ true
go_on ret nr n r a b c = ground arith

pub enough : (ret nr n r : ℕ) → nr ≤ ret → (ltb ret nr && ltb 0 n && not (r == 0)) ≡ false
enough ret nr n r a = ground arith

none_above : (k : ℕ) → suc k ≤ 0 → ⊥
none_above k h = omega arith

min_left : (n nr : ℕ) → ltb n nr ≡ true → n ≡ min n nr
min_left n nr h = ground arith

min_right : (n nr : ℕ) → ltb n nr ≡ false → nr ≡ min n nr
min_right n nr h = ground arith

not_less : (n nr : ℕ) → ltb n nr ≡ false → nr ≤ n
not_less n nr h = ground arith

module _ {P : Platform} where
  -- the oldest active page becomes the newest inactive one, and its count of accesses starts again
  abbrev pub demote : Abs P → Abs P
  demote v =
      let p = last_or null (v.contents active_list) in
      queued inactive_list p (record (taken_last active_list p v) {
        info = put v.info p (record (v.info p) { naccesses = 0 });
      })

  abbrev pub demoted : ℕ → Abs P → Abs P
  demoted zero v = v
  demoted (suc k) v = demoted k (demote v)

  pub active-demote : (v : Abs P) → (demote v).contents active_list ≡ init (v.contents active_list)
  active-demote v = put-there _ _ (ground arith) (put-here _ _ _)

  demote_pages-demoted :
      (k r nr ret : ℕ) (v : Abs P)
      → ret + k ≡ nr
      → k ≤ length (v.contents active_list)
      → k ≤ r
      → Runs (demote_pages (suc r) nr ret) v nr (demoted k v)
  unfolding demote_pages
  demote_pages-demoted zero r nr ret v e l u =
      let same : ret ≡ nr = omega arith in
      Runs-bind _ (Runs-numentries (ground arith)) (
        Runs-else _ _ _ (enough ret nr (length (v.contents active_list)) r (omega arith))
          (subst (λ a. Runs (pure ret) v a v) same Runs-pure))
  demote_pages-demoted (suc k) zero nr ret v e l u = absurd (ground arith)
  demote_pages-demoted (suc k) (suc r) nr ret v e l u =
      with_pages (v.contents active_list) refl
        λ short. demote_pages-demoted k r nr (ret + 1) (demote v) (omega arith) short (omega arith)
    where
      with_pages :
          (xs : List Ptr)
          → v.contents active_list ≡ xs
          → (k ≤ length ((demote v).contents active_list)
              → Runs (demote_pages (suc r) nr (ret + 1)) (demote v) nr (demoted k (demote v)))
          → Runs (demote_pages (suc (suc r)) nr ret) v nr (demoted (suc k) v)
      with_pages [] none_left again =
          absurd (none_above k (subst (λ xs. suc k ≤ length xs) none_left l))
      with_pages (x ∷ xs) some_left again =
          let p : Ptr = last_or null (v.contents active_list) in
          let on : has p (v.contents active_list) ≡ true = rw some_left (has-last x xs) in
          let full : length (v.contents active_list) ≡ suc (length xs) = ap length some_left in
          let rest : length ((demote v).contents active_list) ≡ length xs =
            ap length (active-demote v)
            ∙ ap (λ ys. length (init ys)) some_left
            ∙ length-init x xs in
          Runs-listed active_list p (ground arith) on λ pz named.
            Runs-bind _ (Runs-numentries (ground arith)) (
              Runs-then _ _ _
                (go_on ret nr (length (v.contents active_list)) (suc r) (omega arith) (omega arith)
                  (omega arith))
                (Runs-bind _ (Runs-dequeue (ground arith) refl) (
                  Runs-else _ _ _ (==_ne p null pz) (
                    Runs-bind _ (Runs-set_info _ pz refl) (
                      Runs-bind _ (Runs-enqueue (ground arith) pz (put-here _ _ _))
                        (again (omega arith)))))))

  -- `shrink_active_list`, asked for at least one page, returns after at most as many tries as it
  -- allows itself. It moves the oldest active pages, as many as asked for or all if there are
  -- fewer, one by one to the front of the inactive list, and returns how many; no assertion fails.
  pub shrink_active_list-demoted :
      (v : Abs P) (nr_pages : ℕ)
      → 0 < nr_pages
      → Runs
          (shrink_active_list nr_pages)
          v
          (min (length (v.contents active_list)) nr_pages)
          (record (demoted
            (min (length (v.contents active_list)) nr_pages)
            (record v { shrinkage_running = true })) { shrinkage_running = false })
  unfolding shrink_active_list
  shrink_active_list-demoted v nr pos = Runs-else _ _ _ (==_ne nr 0 (omega arith)) (
      Runs-bind _ (Runs-set_shrinking _) (
        Runs-bind _ (Runs-numentries (ground arith)) (
          Runs-bind _ (loop (length (v.contents active_list)) refl)
            (Runs-bind _ (Runs-set_shrinking _) Runs-pure))))
    where
      loop :
          (n : ℕ)
          → length (v.contents active_list) ≡ n
          → Runs
              (if ltb n nr then demote_pages (tries n) n 0 else demote_pages (tries nr) nr 0)
              (record v { shrinkage_running = true })
              (min n nr)
              (demoted (min n nr) (record v { shrinkage_running = true }))
      loop n e = elim (Bool-cases (ltb n nr)) [
        | inl h ↦ Runs-then _ _ _ h (
            subst
              (λ k.
                Runs (demote_pages (tries n) n 0) (record v { shrinkage_running = true }) k
                  (demoted k (record v { shrinkage_running = true })))
              (min_left n nr h)
              (demote_pages-demoted n (n * 100) n 0 (record v { shrinkage_running = true })
                (omega arith) (omega arith) (omega arith)))
        | inr h ↦ Runs-else _ _ _ h (
            subst
              (λ k.
                Runs (demote_pages (tries nr) nr 0) (record v { shrinkage_running = true }) k
                  (demoted k (record v { shrinkage_running = true })))
              (min_right n nr h)
              (demote_pages-demoted nr (nr * 100) nr 0 (record v { shrinkage_running = true })
                (omega arith) (subst (λ k. nr ≤ k) (sym e) (not_less n nr h)) (omega arith)))
      ]
