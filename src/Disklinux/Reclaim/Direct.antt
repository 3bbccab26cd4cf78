-- ===== src/Disklinux/Reclaim/Direct.antt =====
-- `direct_allocate_page_asynch` returns: the rounds that its loop is given are enough.
use swap_prefetch.Common.{
  ℕ, zero, suc, ◌+◌, ◌/◌, ◌^◌, ◌≤◌, ◌<◌, ◌≡◌, refl, sym, ap, subst, ◌∙◌, true, false, ◌&&◌, length,
  last_or, min, ltb, Bool-cases, eq-cases, inl, inr, arith,
}
use swap_prefetch.Memory.{Ptr, null}
use swap_prefetch.Fifo.Queues.{has-list}
use swap_prefetch.System.{Platform, SystemState}
use swap_prefetch.System.Laws.{Lawful, Harmless}
use swap_prefetch.System.View.{Abs, View, put, put-here, put-there}
use swap_prefetch.System.Runs.{
  Runs, Runs-next, Runs-bind, Runs-pure, Runs-numentries, Runs-dequeue, Runs-set_info, Runs-enqueue,
  Runs-set_shrinking, Runs-then, Runs-else,
}
use swap_prefetch.Disklinux.{active_list, inactive_list, swap_cluster_count}
use swap_prefetch.Disklinux.Lists.{taken_last}
use swap_prefetch.Disklinux.Reclaim.{
  reclaim_pages, direct_allocate_page_asynch, shrink_active_list, shrink_inactive_list,
}
use swap_prefetch.Disklinux.Reclaim.Active.{
  demote, demoted, active-demote, shrink_active_list-demoted,
}
use swap_prefetch.Disklinux.Reclaim.Examine.{Harmless-refl, Harmless-trans}
use swap_prefetch.Disklinux.Reclaim.Counts.{is_resident, Usable}
use swap_prefetch.Disklinux.Reclaim.Inactive.{oldest-on, shorter, shrink_inactive_list-Shrunk}

min_le : (n nr k : ℕ) → k ≡ min n nr → k ≤ n
min_le n nr k e = ground arith

done : (at_i to_i reclaimed nr : ℕ) → to_i ≤ at_i → (ltb at_i to_i && ltb reclaimed nr) ≡ false
done at_i to_i reclaimed nr h = ground arith

module _ {P : Platform} where
  demote-Usable :
      (v : Abs P)
      → v.list (last_or null (v.contents active_list)) ≡ active_list
      → Usable v
      → Usable (demote v)
  demote-Usable v on u a =
      let p : Ptr = last_or null (v.contents active_list) in
      elim (eq-cases a p) [
        | inl e ↦ λ l.
            let (i, m) = u p (ap is_resident on) in
            rw (e, put-here v.info p (record (v.info p) { naccesses = 0 }))
              (record { nz = i.nz; aligned = i.aligned }, m)
        | inr ne ↦ λ l.
            let (i, m) = u a (
              ap is_resident (
                sym
                  (put-there (put v.list p null) inactive_list ne (put-there v.list null ne refl)))
              ∙ l) in
            rw (put-there v.info (record (v.info p) { naccesses = 0 }) ne refl) (i, m)
      ]

  demote-next :
      (v : Abs P) (w : SystemState P)
      → View w v
      → 0 < length (v.contents active_list)
      → (v.list (last_or null (v.contents active_list)) ≡ active_list)
        × (w' : SystemState P) × View w' (demote v)
  demote-next v w h full =
      let p : Ptr = last_or null (v.contents active_list) in
      let (pz, named) =
        has-list h.mem.queues (ground arith) p (oldest-on (v.contents active_list) full) in
      let (w1, h1) =
        Runs-next (Runs-dequeue {v = v} {q = active_list} {p = p} (ground arith) refl) w h in
      let (w2, h2) =
        Runs-next
          (Runs-set_info {v = taken_last active_list p v} (λ d. record d { naccesses = 0 }) pz refl)
          w1 h1 in
      let (w3, h3) =
        Runs-next (Runs-enqueue {q = inactive_list} {p = p} (ground arith) pz (put-here _ _ _)) w2
          h2 in
      (sym (h.mem.list p pz) ∙ named, w3, h3)

  demoted-Usable :
      (k : ℕ) (v : Abs P) (w : SystemState P)
      → View w v
      → k ≤ length (v.contents active_list)
      → Usable v
      → Usable (demoted k v) × ((demoted k v).state ≡ v.state)
  demoted-Usable zero v w h le u = (u, refl)
  demoted-Usable (suc k) v w h le u =
      let full : 0 < length (v.contents active_list) = omega arith in
      let (on, w', h') = demote-next v w h full in
      let less : length (v.contents active_list) ≡ suc (length ((demote v).contents active_list)) =
        shorter (v.contents active_list) full
        ∙ ap (λ xs. suc (length xs)) (sym (active-demote v)) in
      demoted-Usable k (demote v) w' h' (omega arith) (demote-Usable v on u)

  -- what is left of the invariant after a function that moves pages
  abbrev pub Kept : Abs P → Abs P → Type 0
  Kept v v' = Harmless P v.state v'.state × Usable v'

  shrink_active-Kept :
      (v : Abs P) (w : SystemState P)
      → View w v
      → Usable v
      → (n : ℕ) × (v' : Abs P) × Runs (shrink_active_list swap_cluster_count) v n v' × Kept v v'
  shrink_active-Kept v w h u =
      let k : ℕ = min (length (v.contents active_list)) swap_cluster_count in
      let v1 : Abs P = record v { shrinkage_running = true } in
      let (w1, h1) = Runs-next (Runs-set_shrinking {v = v} true) w h in
      let (u', same) =
        demoted-Usable k v1 w1 h1
          (min_le (length (v.contents active_list)) swap_cluster_count k refl) u in
      (
        k,
        record (demoted k v1) { shrinkage_running = false },
        shrink_active_list-demoted v swap_cluster_count (omega arith),
        (subst (λ s. Harmless P v.state s) (sym same) (Harmless-refl v.state), u'),
      )

  shrink_inactive-Kept :
      Lawful P
      → (v : Abs P) (w : SystemState P) → View w v
      → Usable v
      → (n : ℕ) × (v' : Abs P) × Runs (shrink_inactive_list swap_cluster_count) v n v' × Kept v v'
  shrink_inactive-Kept laws v w h u =
      let (n, v', ran, most, bound, sh) =
        shrink_inactive_list-Shrunk laws v w h u swap_cluster_count in
      (n, record v' { shrinkage_running = false }, ran, (sh.machine, sh.usable))

  -- The loop has as many rounds left as pages that it may still scan, and one: it returns.
  reclaim_pages-Kept :
      Lawful P
      → (r nr to_a to_i at_a at_i reclaimed : ℕ) (v : Abs P) (w : SystemState P) → View w v
      → to_i ≤ at_i + r
      → Usable v
      → (n : ℕ) × (v' : Abs P) × Runs
          (reclaim_pages (suc r) nr to_a to_i at_a at_i reclaimed)
          v
          n
          v'
        × Kept v v'
  unfolding reclaim_pages
  reclaim_pages-Kept laws zero nr to_a to_i at_a at_i reclaimed v w h le u = (
    reclaimed,
    v,
    Runs-else _ _ _ (done at_i to_i reclaimed nr (omega arith)) Runs-pure,
    (Harmless-refl v.state, u),
  )
  reclaim_pages-Kept laws (suc r) nr to_a to_i at_a at_i reclaimed v w h le u =
      elim (Bool-cases (ltb at_i to_i && ltb reclaimed nr)) [
        | inr stop ↦ (reclaimed, v, Runs-else _ _ _ stop Runs-pure, (Harmless-refl v.state, u))
        | inl go ↦
            let (n, v1, ran, (same1, u1)) = shrink_inactive-Kept laws v w h u in
            let (w1, h1) = Runs-next ran w h in
            elim (Bool-cases (ltb at_a to_a)) [
              | inl more ↦
                  let (k, v2, ran2, (same2, u2)) = shrink_active-Kept v1 w1 h1 u1 in
                  let (w2, h2) = Runs-next ran2 w1 h1 in
                  let (m, v3, rest, (same3, u3)) =
                    reclaim_pages-Kept laws r nr to_a to_i (at_a + swap_cluster_count)
                      (at_i + swap_cluster_count) (reclaimed + n) v2 w2 h2 (omega arith) u2 in
                  (
                    m,
                    v3,
                    Runs-then _ _ _ go
                        (Runs-bind _ ran (Runs-then _ _ _ more (Runs-bind _ ran2 rest))),
                    (
                      Harmless-trans v.state v1.state v3.state same1
                          (Harmless-trans v1.state v2.state v3.state same2 same3),
                      u3,
                    ),
                  )
              | inr enough ↦
                  let (m, v3, rest, (same3, u3)) =
                    reclaim_pages-Kept laws r nr to_a to_i at_a (at_i + swap_cluster_count)
                      (reclaimed + n) v1 w1 h1 (omega arith) u1 in
                  (
                    m,
                    v3,
                    Runs-then _ _ _ go (Runs-bind _ ran (Runs-else _ _ _ enough rest)),
                    (Harmless-trans v.state v1.state v3.state same1 same3, u3),
                  )
            ]
      ]

  -- On a machine that keeps to the laws, if every active or inactive page is in use and mapped,
  -- `direct_allocate_page_asynch` returns and no assertion fails, whatever number of pages it is
  -- asked for and at every priority; what the pages hold and which are mapped stays, and every
  -- active or inactive page is still in use and mapped.
  pub direct_allocate_page_asynch-Kept :
      Lawful P
      → (v : Abs P) (w : SystemState P) → View w v
      → Usable v
      → (nr_pages priority : ℕ)
      → (n : ℕ) × (v' : Abs P) × Runs (direct_allocate_page_asynch nr_pages priority) v n v'
        × Kept v v'
  unfolding direct_allocate_page_asynch
  direct_allocate_page_asynch-Kept laws v w h u nr priority =
      let to_i : ℕ = length (v.contents inactive_list) / 2 ^ priority in
      let (n, v', ran, kept) =
        reclaim_pages-Kept laws to_i nr (length (v.contents active_list) / 2 ^ priority) to_i 0 0 0
          v w h (omega arith) u in
      (
        n,
        v',
        Runs-bind _ (Runs-numentries (ground arith))
            (Runs-bind _ (Runs-numentries (ground arith)) ran),
        kept,
      )
