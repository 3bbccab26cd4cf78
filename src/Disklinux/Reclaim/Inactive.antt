-- ===== src/Disklinux/Reclaim/Inactive.antt =====
-- `shrink_inactive_list`: pages that were not accessed go to the eviction list, the others stay or
-- become active.
use swap_prefetch.Common.{
  ℕ, zero, suc, ◌+◌, ◌*◌, ◌≤◌, ◌<◌, ◌≡◌, ◌≢◌, refl, sym, ap, ◌∙◌, true, false, not, ◌&&◌, ◌||◌,
  ◌==◌, if◌then◌else◌, List, [], ◌∷◌, init, last_or, length, has, ltb, Bool-cases, inl, inr, ==_ne,
  arith,
}
use swap_prefetch.Memory.{Ptr, null}
use swap_prefetch.Fifo.Queues.{Contents, has-list}
use swap_prefetch.Fifo.Split.{has-last}
use swap_prefetch.System.{Platform, SystemState}
use swap_prefetch.System.Laws.{Lawful, Harmless}
use swap_prefetch.System.View.{Abs, View, put-here}
use swap_prefetch.System.Runs.{
  Runs, Runs-next, Runs-bind, Runs-pure, Runs-numentries, Runs-dequeue, Runs-set_shrinking,
  Runs-then, Runs-else,
}
use swap_prefetch.Disklinux.{inactive_list, dequeue_page}
use swap_prefetch.Disklinux.Lists.{taken_last}
use swap_prefetch.Disklinux.Reclaim.{tries, examine_page, examine_pages, shrink_inactive_list}
use swap_prefetch.Disklinux.Reclaim.Active.{length-init}
use swap_prefetch.Disklinux.Reclaim.Examine.{Verdict, is_cold, examine_page-judged}
use swap_prefetch.Disklinux.Reclaim.Counts.{
  is_resident, counted, Usable, judge_oldest, judge_oldest-Usable, Shrunk, judge-counts,
  Shrunk-refl, Shrunk-after, Shrunk-of,
}

pub oldest-on : (xs : List Ptr) → 0 < length xs → has (last_or null xs) xs ≡ true
oldest-on [] h = absurd (ground arith)
oldest-on (x ∷ xs) h = has-last x xs

pub shorter : (xs : List Ptr) → 0 < length xs → length xs ≡ suc (length (init xs))
shorter [] h = absurd (ground arith)
shorter (x ∷ xs) h = ap suc (sym (length-init x xs))

going : (ret nr n r : ℕ) → (ltb ret nr && ltb 0 n && not (r == 0)) ≡ true → (ret < nr) × (0 < n)
going ret nr n r h = (ground arith, ground arith)

few_bound : (nr len n : ℕ) → (nr == 0 || ltb len nr) ≡ true → n ≤ len → 0 < nr → n ≤ nr
few_bound nr len n few most pos = ground arith

many_bound : (nr len n : ℕ) → (nr == 0 || ltb len nr) ≡ false → n ≤ nr → n ≤ len
many_bound nr len n many most = ground arith

module _ {P : Platform} where
  -- the oldest page of the inactive list, once it is taken off, can be examined
  examine_oldest :
      Lawful P
      → (v : Abs P) (w : SystemState P) → View w v
      → Usable v
      → 0 < length (v.contents inactive_list)
      → let p = last_or null (v.contents inactive_list) in
        (p ≢ null)
        × (v.list p ≡ inactive_list)
        × (verdict : Verdict) × (k : ℕ) × (s : P.State) × Runs
            (examine_page p)
            (taken_last inactive_list p v)
            (is_cold verdict)
            (judge_oldest v verdict k s)
        × Harmless P v.state s
  examine_oldest laws v w h u full =
      let p : Ptr = last_or null (v.contents inactive_list) in
      let (pz, named) =
        has-list h.mem.queues (ground arith) p (oldest-on (v.contents inactive_list) full) in
      let on : v.list p ≡ inactive_list = sym (h.mem.list p pz) ∙ named in
      let (i, m) = u p (ap is_resident on) in
      let (verdict, k, s, ran, same) =
        examine_page-judged laws (taken_last inactive_list p v) p pz (put-here _ _ _) i m in
      (pz, on, verdict, k, s, ran, same)

  -- one round of the loop, before it goes on
  round-Runs :
      (r nr ret n : ℕ) (v v' : Abs P) (verdict : Verdict) (k : ℕ) (s : P.State)
      → last_or null (v.contents inactive_list) ≢ null
      → (ltb ret nr && ltb 0 (length (v.contents inactive_list)) && not (suc r == 0)) ≡ true
      → Runs
          (examine_page (last_or null (v.contents inactive_list)))
          (taken_last inactive_list (last_or null (v.contents inactive_list)) v)
          (is_cold verdict)
          (judge_oldest v verdict k s)
      → Runs
          (examine_pages (suc r) nr (if is_cold verdict then ret + 1 else ret))
          (judge_oldest v verdict k s)
          n
          v'
      → Runs (examine_pages (suc (suc r)) nr ret) v n v'
  unfolding examine_pages
  round-Runs r nr ret n v v' verdict k s pz go examined again =
      Runs-bind _ (Runs-numentries (ground arith)) (
        Runs-then _ _ _ go (
          Runs-bind _ (Runs-dequeue (ground arith) refl) (
            Runs-else _ _ _ (==_ne (last_or null (v.contents inactive_list)) null pz)
              (Runs-bind _ examined again))))

  stop-Runs :
      (r nr ret : ℕ) (v : Abs P)
      → (ltb ret nr && ltb 0 (length (v.contents inactive_list)) && not (r == 0)) ≡ false
      → Runs (examine_pages (suc r) nr ret) v ret v
  unfolding examine_pages
  stop-Runs r nr ret v stop =
      Runs-bind _ (Runs-numentries (ground arith)) (Runs-else _ _ _ stop Runs-pure)

  examine_pages-Shrunk :
      Lawful P
      → (r nr ret : ℕ) (v : Abs P) (w : SystemState P) → View w v
      → ret ≤ nr
      → Usable v
      → (n : ℕ) × (v' : Abs P) × Runs (examine_pages (suc r) nr ret) v n v'
        × (n ≤ nr)
        × Shrunk v ret n v'
  examine_pages-Shrunk laws zero nr ret v w h le u =
      (ret, v, stop-Runs zero nr ret v (ground arith), le, Shrunk-refl v ret u)
  examine_pages-Shrunk laws (suc r) nr ret v w h le u =
      elim (Bool-cases
        (ltb ret nr && ltb 0 (length (v.contents inactive_list)) && not (suc r == 0))) [
          | inr stop ↦ (ret, v, stop-Runs (suc r) nr ret v stop, le, Shrunk-refl v ret u)
          | inl go ↦
              let c : Contents = v.contents in
              let (less, full) = going ret nr (length (c inactive_list)) (suc r) go in
              let (pz, on, verdict, k, s, ran, same) = examine_oldest laws v w h u full in
              let u' : Usable (judge_oldest v verdict k s) =
                judge_oldest-Usable v verdict k s on same u in
              let took : Runs (dequeue_page inactive_list) v _ _ =
                Runs-dequeue (ground arith) refl in
              let (w1, h1) = Runs-next took w h in
              let (w2, h2) = Runs-next ran w1 h1 in
              let (n, v', rest, most, sh) =
                examine_pages-Shrunk laws r nr (if is_cold verdict then ret + 1 else ret)
                  (judge_oldest v verdict k s) w2 h2 (counted verdict ret nr less) u' in
              (
                n,
                v',
                round-Runs r nr ret n v v' verdict k s pz go ran rest,
                most,
                Shrunk-after v (judge_oldest v verdict k s) v' ret
                    (if is_cold verdict then ret + 1 else ret) n
                    (judge-counts v verdict k s (length (init (c inactive_list))) ret
                      (shorter (c inactive_list) full) refl)
                    same sh,
              )
        ]

  whole :
      (nr n : ℕ) (v v' : Abs P)
      → Runs
          (if nr == 0 || ltb (length (v.contents inactive_list)) nr
            then examine_pages
                (tries (length (v.contents inactive_list)))
                (length (v.contents inactive_list))
                0
            else examine_pages (tries nr) nr 0)
          (record v { shrinkage_running = true })
          n
          v'
      → Runs (shrink_inactive_list nr) v n (record v' { shrinkage_running = false })
  unfolding shrink_inactive_list
  whole nr n v v' loop = Runs-bind _ (Runs-numentries (ground arith)) (
      Runs-bind _ (Runs-set_shrinking _)
        (Runs-bind _ loop (Runs-bind _ (Runs-set_shrinking _) Runs-pure)))

  -- On a machine that keeps to the laws, if every active or inactive page is in use and mapped,
  -- `shrink_inactive_list` returns after at most as many tries as it allows itself, and no
  -- assertion fails. It returns how many pages it has put on the eviction list, at most the number
  -- asked for and at most as many as were inactive; no page is lost between the active, the
  -- inactive and the eviction list, what the pages hold and which are mapped stays, and every
  -- inactive page is still in use and mapped.
  pub shrink_inactive_list-Shrunk :
      Lawful P
      → (v : Abs P) (w : SystemState P) → View w v
      → Usable v
      → (nr_pages : ℕ)
      → (n : ℕ) × (v' : Abs P) × Runs
          (shrink_inactive_list nr_pages)
          v
          n
          (record v' { shrinkage_running = false })
        × (n ≤ length (v.contents inactive_list))
        × (0 < nr_pages → n ≤ nr_pages)
        × Shrunk v 0 n v'
  shrink_inactive_list-Shrunk laws v w h u nr =
      let v1 : Abs P = record v { shrinkage_running = true } in
      let (w1, h1) = Runs-next (Runs-set_shrinking {v = v} true) w h in
      let len : ℕ = length (v.contents inactive_list) in
      elim (Bool-cases (nr == 0 || ltb len nr)) [
        | inl few ↦
            let (n, v', ran, most, sh) =
              examine_pages-Shrunk laws (len * 100) len 0 v1 w1 h1 (omega arith) u in
            (
              n,
              v',
              whole nr n v v' (Runs-then _ _ _ few ran),
              most,
              few_bound nr len n few most,
              Shrunk-of v v' n sh,
            )
        | inr many ↦
            let (n, v', ran, most, sh) =
              examine_pages-Shrunk laws (nr * 100) nr 0 v1 w1 h1 (omega arith) u in
            (
              n,
              v',
              whole nr n v v' (Runs-else _ _ _ many ran),
              many_bound nr len n many most,
              (λ z. most),
              Shrunk-of v v' n sh,
            )
      ]
