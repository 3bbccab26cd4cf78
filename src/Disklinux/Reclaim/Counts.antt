-- ===== src/Disklinux/Reclaim/Counts.antt =====
-- No page gets lost while `shrink_inactive_list` moves pages between the lists.
use swap_prefetch.Common.{
  Bool, ap, ◌||◌, ◌==◌, ℕ, suc, ◌+◌, ◌≤◌, ◌<◌, ◌≡◌, refl, sym, ◌∙◌, true, if◌then◌else◌, init,
  last_or, length, eq-cases, inl, inr, arith,
}
use swap_prefetch.Memory.{Ptr, null}
use swap_prefetch.Core.Bits.{InUse}
use swap_prefetch.System.{Platform}
use swap_prefetch.System.Laws.{Harmless}
use swap_prefetch.System.View.{Abs, put, put-here, put-there}
use swap_prefetch.Disklinux.{active_list, inactive_list, eviction_list}
use swap_prefetch.Disklinux.Lists.{taken_last}
use swap_prefetch.Disklinux.Reclaim.Examine.{
  Verdict, cold, warm, hot, list_for, is_cold, Harmless-refl, Harmless-trans, judged,
}

pub counted :
    (verdict : Verdict) (ret nr : ℕ) → ret < nr → (if is_cold verdict then ret + 1 else ret) ≤ nr
counted cold ret nr h = omega arith
counted warm ret nr h = omega arith
counted hot ret nr h = omega arith

-- the lists whose pages are in use and not chosen for eviction
abbrev pub is_resident : Ptr → Bool
is_resident q = q == active_list || q == inactive_list

module _ {P : Platform} where
  -- every page of the active and the inactive list can be asked for its bits
  abbrev pub Usable : Abs P → Type 0
  Usable v =
      (a : Ptr)
      → is_resident (v.list a) ≡ true
      → InUse (v.info a) × (P.mapped (v.info a).va v.state ≡ true)

  abbrev pub judge_oldest : (v : Abs P) → Verdict → ℕ → P.State → Abs P
  judge_oldest v verdict k s =
      let p = last_or null (v.contents inactive_list) in
      judged (taken_last inactive_list p v) p verdict k s

  pub judge_oldest-Usable :
      (v : Abs P) (verdict : Verdict) (k : ℕ) (s : P.State)
      → v.list (last_or null (v.contents inactive_list)) ≡ inactive_list
      → Harmless P v.state s
      → Usable v
      → Usable (judge_oldest v verdict k s)
  judge_oldest-Usable v verdict k s on same u a =
      let p : Ptr = last_or null (v.contents inactive_list) in
      elim (eq-cases a p) [
        | inl e ↦ λ l.
            let (i, m) = u p (ap is_resident on) in
            rw (e, put-here v.info p (record (v.info p) { naccesses = k }))
              (record { nz = i.nz; aligned = i.aligned }, same.mapped (v.info p).va ∙ m)
        | inr ne ↦ λ l.
            let (i, m) = u a (
              ap is_resident (
                sym (
                  put-there (put v.list p null) (list_for verdict) ne
                    (put-there v.list null ne refl)))
              ∙ l) in
            rw (put-there v.info (record (v.info p) { naccesses = k }) ne refl)
              (i, same.mapped (v.info a).va ∙ m)
      ]

  -- Of the pages examined `n - ret` have gone to the eviction list, and none has got lost; what
  -- pages hold has not changed.
  pub record Shrunk (v : Abs P) (ret n : ℕ) (v' : Abs P) : Type 0 where
    pub evicting : length (v'.contents eviction_list) + ret ≡ length (v.contents eviction_list) + n
    pub total :
        length (v'.contents active_list)
          + length (v'.contents inactive_list)
          + length (v'.contents eviction_list)
        ≡ length (v.contents active_list)
          + length (v.contents inactive_list)
          + length (v.contents eviction_list)
    pub machine : Harmless P v.state v'.state
    pub usable : Usable v'

  pub judge-counts :
      (v : Abs P) (verdict : Verdict) (k : ℕ) (s : P.State) (m ret : ℕ)
      → length (v.contents inactive_list) ≡ suc m
      → length (init (v.contents inactive_list)) ≡ m
      → let v' = judge_oldest v verdict k s in
        (length (v'.contents eviction_list) + ret
          ≡ length (v.contents eviction_list) + (if is_cold verdict then ret + 1 else ret))
        × (length (v'.contents active_list)
              + length (v'.contents inactive_list)
              + length (v'.contents eviction_list)
            ≡ length (v.contents active_list)
              + length (v.contents inactive_list)
              + length (v.contents eviction_list))
  unfolding put
  judge-counts v cold k s m ret a b = (omega arith, omega arith)
  judge-counts v warm k s m ret a b = (omega arith, omega arith)
  judge-counts v hot k s m ret a b = (omega arith, omega arith)

  pub Shrunk-refl : (v : Abs P) (ret : ℕ) → Usable v → Shrunk v ret ret v
  Shrunk-refl v ret u = record {
    evicting = refl;
    total = refl;
    machine = Harmless-refl v.state;
    usable = u;
  }

  pub Shrunk-after :
      (v v1 v' : Abs P) (ret ret1 n : ℕ)
      → (length (v1.contents eviction_list) + ret ≡ length (v.contents eviction_list) + ret1)
        × (length (v1.contents active_list)
              + length (v1.contents inactive_list)
              + length (v1.contents eviction_list)
            ≡ length (v.contents active_list)
              + length (v.contents inactive_list)
              + length (v.contents eviction_list))
      → Harmless P v.state v1.state
      → Shrunk v1 ret1 n v'
      → Shrunk v ret n v'
  Shrunk-after v v1 v' ret ret1 n (e, t) same sh = record {
    evicting = omega (arith, sh.evicting);
    total = sh.total ∙ t;
    machine = Harmless-trans v.state v1.state v'.state same sh.machine;
    usable = sh.usable;
  }

  pub Shrunk-of :
      (v v' : Abs P) (n : ℕ)
      → Shrunk (record v { shrinkage_running = true }) 0 n v'
      → Shrunk v 0 n v'
  Shrunk-of v v' n sh = record {
    evicting = sh.evicting;
    total = sh.total;
    machine = sh.machine;
    usable = sh.usable;
  }
