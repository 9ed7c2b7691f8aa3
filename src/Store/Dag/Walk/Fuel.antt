-- ===== src/Store/Dag/Walk/Fuel.antt =====
-- How many rounds the walk takes: no more than there are commits to see.
use synapse_fs.Core.Oid.{Oid, oid_eq_iff}
use synapse_fs.Core.Error.{Result, ok, err, Result-cases}
use synapse_fs.Format.Manifest.{Manifest}
use synapse_fs.Store.Dag.{Commit, contains}
use synapse_fs.Store.Dag.Search.{Member}
use synapse_fs.Store.Dag.Fuel.{ClosedUnder, Within}
use synapse_fs.Store.Dag.Walk.{
  QueueEntry, pop_max, push_new, walk_loop, walk_commits, Found, visit_commit, found_or_failed,
  reachable_objects,
}
use synapse_fs.Store.Dag.Walk.Push.{Waits, Waits-pop_max, length-pop_max, push_new-Pushed}
use synapse_fs.Store.Dag.Walk.Visit.{visit_commit-cases}
use synapse_fs.Store.Dag.Walk.Collect.{
  nothing_found, walk_commits-ok, walk_commits-err, reachable_objects-eq,
}
use synapse_fs.Prelude.{
  ℕ, zero, suc, ◌+◌, ◌≤◌, ◌<◌, ◌≡◌, refl, sym, ◌∙◌, inl, inr, false, some, List, [], ◌∷◌, arith,
  if◌then◌else◌, Bool-cases, Option-cases, length,
}

-- The commits of a repository that are still to be seen.
unfoldable pub unseen : List Oid → List Oid → ℕ
unfolding contains
unseen seen [] = 0
unseen seen (u ∷ us) = (if contains seen u then 0 else 1) + unseen seen us

unseen_mono : (p : Oid) (seen us : List Oid) → unseen (p ∷ seen) us ≤ unseen seen us
unfolding unseen contains
unseen_mono p seen [] = ground arith
unseen_mono p seen (u ∷ us) =
    let rest = unseen_mono p seen us in
    elim (Bool-cases (contains seen u)) [ inl y ↦ ground arith | inr n ↦ ground arith ]

unseen-see :
    (p : Oid) (seen us : List Oid)
    → Member p us
    → contains seen p ≡ false
    → suc (unseen (p ∷ seen) us) ≤ unseen seen us
unfolding unseen contains
unseen-see p seen [] m new = elim m [ ]
unseen-see p seen (u ∷ us) (inl e) new =
    let rest = unseen_mono p seen us in
    let hit = (oid_eq_iff p u).1 (sym e) in
    let miss : contains seen u ≡ false = rw e new in ground arith
unseen-see p seen (u ∷ us) (inr m) new =
    let rest = unseen-see p seen us m new in
    elim (Bool-cases (contains seen u)) [ inl y ↦ ground arith | inr n ↦ ground arith ]

unseen_none : (us : List Oid) → unseen [] us ≤ length us
unfolding unseen contains
unseen_none [] = omega arith
unseen_none (u ∷ us) = ground (arith, unseen_none us)

-- What a round pushes, it takes from what is unseen.
push_new-fits :
    (read : Oid → Result Commit) (us ps seen : List Oid) (pq : List QueueEntry) (seen' : List Oid)
    (pq' : List QueueEntry)
    → Within read us ps
    → push_new read ps seen pq ≡ ok (seen', pq')
    → length pq' + unseen seen' us ≤ length pq + unseen seen us
unfolding push_new
push_new-fits read us [] seen pq seen' pq' inside h =
    let same_seen : seen ≡ seen' = cc in
    let same_pq : pq ≡ pq' = cc in rw (← same_seen, ← same_pq) (omega arith)
push_new-fits read us (p ∷ ps) seen pq seen' pq' inside h = elim (Bool-cases (contains seen p)) [
  | inl old ↦ push_new-fits read us ps seen pq seen' pq' (λ a m. inside a (inr m)) (rw old at h)
  | inr new ↦ elim (Result-cases (read p)) [
    | inl (kind, failed) ↦
        let clash : err kind ≡ ok (seen', pq') = rw (new, failed) at h in absurd (cc)
    | inr (c, found) ↦
        let entry : QueueEntry = record { timestamp = c.timestamp; oid = p } in
        let ih =
          push_new-fits read us ps (p ∷ seen) (entry ∷ pq) seen' pq' (λ a m. inside a (inr m))
            (rw (new, found) at h) in
        let step = unseen-see p seen us (inside p (inl refl)) new in omega arith
  ]
]

module _ (read : Oid → Result Commit) (read_manifest : Oid → Result Manifest) (us : List Oid)
    (closed : ClosedUnder read us) where
  walk_loop-enough :
      (fuel : ℕ) (s : Found) (seen : List Oid) (pq : List QueueEntry)
      → Within read us seen
      → ((v : Oid) → Waits v pq → Member v us)
      → length pq + unseen seen us < fuel
      → (r : Result Found) × (walk_loop read (visit_commit read read_manifest) fuel s seen pq
          ≡ some r)
  unfolding walk_loop
  walk_loop-enough zero s seen pq of_seen of_pq h = absurd (omega arith)
  walk_loop-enough (suc fuel) s seen [] of_seen of_pq h = (ok s, refl)
  walk_loop-enough (suc fuel) s seen (e ∷ es) of_seen of_pq h =
      let top = (pop_max e es).0.oid in
      let rest = (pop_max e es).1 in
      let top_in : Member top us = of_pq top (Waits-pop_max e es top (inl refl)) in
      let rest_in : (v : Oid) → Waits v rest → Member v us =
        λ v w. of_pq v (Waits-pop_max e es v (inr w)) in
      let shorter : length rest + unseen seen us < fuel = omega (arith, length-pop_max e es) in
      elim (Result-cases (read top)) [
        | inl (kind, failed) ↦ (err kind, rw (walk_loop, failed) refl)
        | inr (c, found) ↦ elim (visit_commit-cases read_manifest top c s read) [
          | inl (kind, s1, visited, failed) ↦
              let (r, done) = walk_loop-enough fuel s1 seen rest of_seen rest_in shorter in
              (r, rw (walk_loop, found, visited) done)
          | inr (s1, visited, same, adds) ↦
              elim (Result-cases (push_new read c.parents seen rest)) [
                | inl (kind, failed) ↦ (err kind, rw (walk_loop, found, failed, visited) refl)
                | inr (p, pushed) ↦
                    let parents_in : Within read us c.parents =
                      λ a m. closed top a c top_in found m in
                    let known = push_new-Pushed read c.parents seen rest p.0 p.1 pushed in
                    let seen_in : Within read us p.0 = λ a m. elim (known.no_more a m) [
                      | inl old ↦ of_seen a old
                      | inr new ↦ parents_in a new
                    ] in
                    let pq_in : (v : Oid) → Waits v p.1 → Member v us = λ v w.
                      elim (known.is_seen v w) [
                        | inl old ↦ rest_in v old
                        | inr new ↦ seen_in v new
                      ] in
                    let fits =
                      push_new-fits read us c.parents seen rest p.0 p.1 parents_in pushed in
                    let (r, done) = walk_loop-enough fuel s1 p.0 p.1 seen_in pq_in (omega arith) in
                    (r, rw (walk_loop, found, pushed, visited) done)
              ]
        ]
      ]

  found_or_failed-returns :
      (r : Result Found)
      → (live : Result (List Oid)) × (found_or_failed read read_manifest (some r) ≡ some live)
  unfolding found_or_failed
  found_or_failed-returns (err kind) = (err kind, refl)
  found_or_failed-returns (ok s) = elim (Option-cases s.failed) [
    | inl fine ↦ (ok s.objects, rw (found_or_failed, fine) refl)
    | inr (kind, failed) ↦ (err kind, rw (found_or_failed, failed) refl)
  ]

  walk_commits-enough :
      (fuel : ℕ) (tips : List Oid)
      → Within read us tips
      → length us < fuel
      → (r : Result Found) × (walk_commits read
            (visit_commit read read_manifest)
            fuel
            nothing_found
            tips
          ≡ some r)
  walk_commits-enough fuel tips inside h = elim (Result-cases (push_new read tips [] [])) [
    | inl (kind, failed) ↦ (err kind, walk_commits-err read read_manifest tips fuel kind failed)
    | inr (p, pushed) ↦
        let known = push_new-Pushed read tips [] [] p.0 p.1 pushed in
        let seen_in : Within read us p.0 =
          λ a m. elim (known.no_more a m) [ inl old ↦ elim old [ ] | inr new ↦ inside a new ] in
        let pq_in : (v : Oid) → Waits v p.1 → Member v us =
          λ v w. elim (known.is_seen v w) [ inl old ↦ elim old [ ] | inr new ↦ seen_in v new ] in
        let fits = push_new-fits read us tips [] [] p.0 p.1 inside pushed in
        let (r, done) =
          walk_loop-enough fuel nothing_found p.0 p.1 seen_in pq_in
            (omega (arith, unseen_none us)) in
        (r, walk_commits-ok read read_manifest tips fuel p pushed ∙ done)
  ]

  -- With more rounds than a repository has commits, that is a list which has the tips and the
  -- parents of its commits, the walk ends: reachable_objects returns a set or an error.
  pub reachable_objects-returns :
      (fuel : ℕ) (tips : List Oid)
      → Within read us tips
      → length us < fuel
      → (r : Result (List Oid)) × (reachable_objects read read_manifest fuel tips ≡ some r)
  reachable_objects-returns fuel tips inside h =
      let (found, walked) = walk_commits-enough fuel tips inside h in
      let (r, done) = found_or_failed-returns found in
      (r, reachable_objects-eq read read_manifest tips fuel ∙ rw walked done)
