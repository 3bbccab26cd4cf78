-- ===== src/Disklinux/Reclaim/Examine.antt =====
-- What `shrink_inactive_list` does with one page.
use swap_prefetch.Common.{
  ℕ, add64, ◌≡◌, ◌≢◌, refl, ◌∙◌, Bool, true, false, ltb, Bool-cases, inl, inr, arith,
}
use swap_prefetch.Memory.{Ptr, null}
use swap_prefetch.Core.Bits.{InUse, bits-Runs, clear-Runs}
use swap_prefetch.System.{Platform}
use swap_prefetch.System.Laws.{Lawful, Harmless}
use swap_prefetch.System.View.{Abs, put, put-here}
use swap_prefetch.System.Runs.{
  Runs, Runs-bind, Runs-pure, Runs-info_of, Runs-set_info, Runs-again, Runs-enqueue, Runs-then,
  Runs-else,
}
use swap_prefetch.Disklinux.{active_list, inactive_list, eviction_list}
use swap_prefetch.Disklinux.Lists.{queued}
use swap_prefetch.Disklinux.Reclaim.{examine_page}

-- what the loop finds out about a page, and the list it goes to
pub data Verdict : Type 0 where
  cold warm hot : Verdict

abbrev pub list_for : Verdict → Ptr
list_for cold = eviction_list
list_for warm = inactive_list
list_for hot = active_list

abbrev pub is_cold : Verdict → Bool
is_cold cold = true
is_cold warm = false
is_cold hot = false

pub Harmless-refl : {P : Platform} (s : P.State) → Harmless P s s
Harmless-refl s = record {
  memory = λ b. refl;
  mapped = λ b. refl;
  registered = λ b. refl;
  dirty = λ b. refl;
  disk = λ o. refl;
}

pub Harmless-trans :
    {P : Platform} (s t u : P.State) → Harmless P s t → Harmless P t u → Harmless P s u
Harmless-trans s t u m n = record {
  memory = λ b. n.memory b ∙ m.memory b;
  mapped = λ b. n.mapped b ∙ m.mapped b;
  registered = λ b. n.registered b ∙ m.registered b;
  dirty = λ b. n.dirty b ∙ m.dirty b;
  disk = λ o. n.disk o ∙ m.disk o;
}

module _ {P : Platform} where
  -- the state after a page has been examined that is on no list
  abbrev pub judged : (v : Abs P) (p : Ptr) → Verdict → (naccesses : ℕ) → P.State → Abs P
  judged v p verdict k s =
      queued (list_for verdict) p
        (record v { info = put v.info p (record (v.info p) { naccesses = k }); state = s })

  -- A page is put on the list for it, its count of accesses and perhaps its accessed bit change.
  pub examine_page-judged :
      Lawful P
      → (v : Abs P) (p : Ptr) → p ≢ null
      → v.list p ≡ null
      → InUse (v.info p)
      → P.mapped (v.info p).va v.state ≡ true
      → (verdict : Verdict) × (k : ℕ) × (s : P.State) × Runs
          (examine_page p)
          v
          (is_cold verdict)
          (judged v p verdict k s)
        × Harmless P v.state s
  unfolding examine_page
  examine_page-judged laws v p pz loose use_p there =
      elim (Bool-cases (P.accessed (v.info p).va v.state)) [
        | inl seen ↦
            let (s, ok, same) = laws.clear_accessed (v.info p).va v.state there in
            elim (Bool-cases (ltb 1 (add64 (v.info p).naccesses 1))) [
              | inl often ↦ (
                hot,
                0,
                s,
                Runs-bind _ (bits-Runs v p (v.info p) pz refl use_p) (
                    Runs-then _ _ _ seen (
                      Runs-bind _ (Runs-set_info _ pz refl) (
                        Runs-bind _
                          (clear-Runs _ p _ s pz (put-here _ _ _)
                            (record { nz = use_p.nz; aligned = use_p.aligned }) ok)
                          (Runs-bind _ (Runs-info_of pz (put-here _ _ _)) (
                            Runs-bind _
                              (Runs-then _ _ _ often (
                                Runs-bind _ (Runs-again _ _ _ pz refl)
                                  (Runs-enqueue (ground arith) pz loose)))
                              Runs-pure))))),
                same,
              )
              | inr once ↦ (
                warm,
                add64 (v.info p).naccesses 1,
                s,
                Runs-bind _ (bits-Runs v p (v.info p) pz refl use_p) (
                    Runs-then _ _ _ seen (
                      Runs-bind _ (Runs-set_info _ pz refl) (
                        Runs-bind _
                          (clear-Runs _ p _ s pz (put-here _ _ _)
                            (record { nz = use_p.nz; aligned = use_p.aligned }) ok)
                          (Runs-bind _ (Runs-info_of pz (put-here _ _ _)) (
                            Runs-bind _
                              (Runs-else _ _ _ once (Runs-enqueue (ground arith) pz loose))
                              Runs-pure))))),
                same,
              )
            ]
        | inr unseen ↦ (
          cold,
          0,
          v.state,
          Runs-bind _ (bits-Runs v p (v.info p) pz refl use_p) (
              Runs-else _ _ _ unseen (
                Runs-bind _ (Runs-set_info _ pz refl)
                  (Runs-bind _ (Runs-enqueue (ground arith) pz loose) Runs-pure))),
          Harmless-refl v.state,
        )
      ]
