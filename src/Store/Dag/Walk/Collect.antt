-- ===== src/Store/Dag/Walk/Collect.antt =====
-- The invariant of the walk, and what reachable_objects answers.
use synapse_fs.Core.Oid.{Oid}
use synapse_fs.Core.Error.{ErrKind, Result, ok, err, Result-cases}
use synapse_fs.Format.Manifest.{Manifest}
use synapse_fs.Store.Dag.{Commit}
use synapse_fs.Store.Dag.Search.{Member, Reach, here, parent}
use synapse_fs.Store.Dag.Walk.{
  QueueEntry, pop_max, push_new, walk_loop, walk_commits, Found, visit_commit, found_or_failed,
  reachable_objects,
}
use synapse_fs.Store.Dag.Walk.Push.{Waits, pop_max-Waits, Waits-pop_max, Pushed, push_new-Pushed}
use synapse_fs.Store.Dag.Walk.Spec.{Names, IsLive}
use synapse_fs.Prelude.{
  ℕ, zero, suc, ◌≡◌, refl, sym, ◌∙◌, ◌↔◌, ◌⊎◌, inl, inr, Option, none, some, List, [], ◌∷◌,
  Option-cases,
}
use synapse_fs.Store.Dag.Walk.Visit.{visit_commit-cases}

abbrev pub nothing_found : Found
nothing_found = record { objects = []; failed = none }

module _ (read : Oid → Result Commit) (read_manifest : Oid → Result Manifest)
    (tips : List Oid) where
  -- The commit's parents are seen, and what it names is found.
  abbrev Visited : List Oid → List Oid → Oid → Type 0
  Visited objects seen v =
      (c : Commit) × (read v ≡ ok c)
      × ((p : Oid) → Member p c.parents → Member p seen)
      × ((o : Oid) → Names read_manifest v c o → Member o objects)

  -- Between two rounds: what was seen waits or was visited, unless a manifest failed; all that was
  -- seen is reached from a tip, and what was found is live.
  record Walking (s : Found) (seen : List Oid) (pq : List QueueEntry) : Type 0 where
    covers : s.failed ≡ none → (v : Oid) → Member v seen → Waits v pq ⊎ Visited s.objects seen v
    in_queue : (v : Oid) → Waits v pq → Member v seen
    reached : (v : Oid) → Member v seen → (t : Oid) × Member t tips × Reach read t v
    live : s.failed ≡ none → (o : Oid) → Member o s.objects → IsLive read read_manifest tips o
    of_tips : (t : Oid) → Member t tips → Member t seen

  module _ (s : Found) (seen : List Oid) (best : QueueEntry) (es : List QueueEntry)
      (w : Walking s seen (best ∷ es)) where
    abbrev top : Oid
    top = (pop_max best es).0.oid

    abbrev rest : List QueueEntry
    rest = (pop_max best es).1

    top_seen : Member top seen
    top_seen = w.in_queue top (Waits-pop_max best es top (inl refl))

    -- A visit that fails takes nothing from what holds.
    failed-Walking : (s' : Found) (e : ErrKind) → s'.failed ≡ some e → Walking s' seen rest
    failed-Walking s' e failed = record {
      covers = λ fine. let clash : some e ≡ none = sym failed ∙ fine in absurd (cc);
      in_queue = λ v m. w.in_queue v (Waits-pop_max best es v (inr m));
      reached = w.reached;
      live = λ fine. let clash : some e ≡ none = sym failed ∙ fine in absurd (cc);
      of_tips = w.of_tips;
    }

    -- A visit that goes on makes its commit one of the visited.
    visited-Walking :
        (s' : Found) (c : Commit) (seen' : List Oid) (pq' : List QueueEntry)
        → read top ≡ ok c
        → s'.failed ≡ s.failed
        → ((o : Oid) → Member o s'.objects ↔ (Member o s.objects ⊎ Names read_manifest top c o))
        → Pushed c.parents seen rest seen' pq'
        → Walking s' seen' pq'
    visited-Walking s' c seen' pq' found same adds pushed = record {
      covers = λ fine v m. elim (pushed.new_waits v m) [
        | inr waiting ↦ inl waiting
        | inl old ↦ elim (w.covers (sym same ∙ fine) v old) [
          | inl queued ↦ elim (pop_max-Waits best es v queued) [
            | inr still ↦ inl (pushed.waits v still)
            | inl at_top ↦ rw (← at_top) (inr (c, found, pushed.adds, λ o n. (adds o).1 (inr n)))
          ]
          | inr (d, rd, parents, names) ↦
              inr
                (d, rd, λ p mp. pushed.keeps p (parents p mp), λ o n. (adds o).1 (inl (names o n)))
        ]
      ];
      in_queue = λ v m. elim (pushed.is_seen v m) [
        | inl old ↦ pushed.keeps v (w.in_queue v (Waits-pop_max best es v (inr old)))
        | inr new ↦ new
      ];
      reached = λ v m. elim (pushed.no_more v m) [
        | inl old ↦ w.reached v old
        | inr new ↦ let (t, mt, path) = w.reached top top_seen in (t, mt, parent c path found new)
      ];
      live = λ fine o m. elim ((adds o).0 m) [
        | inl old ↦ w.live (sym same ∙ fine) o old
        | inr names ↦
            let (t, mt, path) = w.reached top top_seen in
            record {
              tip = t;
              commit = top;
              content = c;
              of_tips = mt;
              reached = path;
              is_read = found;
              names = names;
            }
      ];
      of_tips = λ t m. pushed.keeps t (w.of_tips t m);
    }

  walk_loop-Walking :
      (fuel : ℕ) (s : Found) (seen : List Oid) (pq : List QueueEntry) (s' : Found)
      → Walking s seen pq
      → walk_loop read (visit_commit read read_manifest) fuel s seen pq ≡ some (ok s')
      → (seen' : List Oid) × Walking s' seen' []
  unfolding walk_loop
  walk_loop-Walking zero s seen pq s' w h = cc
  walk_loop-Walking (suc fuel) s seen [] s' w h = let same : s ≡ s' = cc in (seen, rw (← same) w)
  walk_loop-Walking (suc fuel) s seen (e ∷ es) s' w h =
      elim (Result-cases (read (top s seen e es w))) [
        | inl (kind, failed) ↦
            let clash : some (err kind) ≡ some (ok s') = rw (walk_loop, failed) at h in absurd (cc)
        | inr (c, found) ↦ elim (visit_commit-cases read_manifest (top s seen e es w) c s read) [
          | inl (kind, s1, visited, failed) ↦
              walk_loop-Walking fuel s1 seen (rest s seen e es w) s'
                (failed-Walking s seen e es w s1 kind failed) (rw (walk_loop, found, visited) at h)
          | inr (s1, visited, same, adds) ↦
              elim (Result-cases (push_new read c.parents seen (rest s seen e es w))) [
                | inl (kind, failed) ↦
                    let clash : some (err kind) ≡ some (ok s') =
                      rw (walk_loop, found, failed, visited) at h in
                    absurd (cc)
                | inr (p, pushed) ↦
                    walk_loop-Walking fuel s1 p.0 p.1 s'
                      (visited-Walking s seen e es w s1 c p.0 p.1 found same adds
                        (push_new-Pushed read c.parents seen (rest s seen e es w) p.0 p.1 pushed))
                      (rw (walk_loop, found, pushed, visited) at h)
              ]
        ]
      ]

  -- All that a tip reaches is seen at the end, and was visited.
  reaches-Visited :
      (s : Found) (seen : List Oid) (t a : Oid)
      → Walking s seen []
      → s.failed ≡ none
      → Member t tips
      → Reach read t a
      → Member a seen × Visited s.objects seen a
  reaches-Visited s seen t a w fine mt here =
      let m = w.of_tips t mt in
      (m, elim (w.covers fine t m) [ inl z ↦ elim z [ ] | inr done ↦ done ])
  reaches-Visited s seen t a w fine mt (parent {u} c r ru mp) =
      let (mu, (d, rd, parents, names)) = reaches-Visited s seen t u w fine mt r in
      let same : c ≡ d = cc in
      let m = parents a (rw (← same) mp) in
      (m, elim (w.covers fine a m) [ inl z ↦ elim z [ ] | inr done ↦ done ])

  end-IsLive :
      (s : Found) (seen : List Oid)
      → Walking s seen []
      → s.failed ≡ none
      → (o : Oid) → Member o s.objects ↔ IsLive read read_manifest tips o
  end-IsLive s seen w fine o = (
    w.live fine o,
    λ l.
        let (m, (d, rd, parents, names)) =
          reaches-Visited s seen l.tip l.commit w fine l.of_tips l.reached in
        let same : l.content ≡ d = let here_read = l.is_read in cc in names o (rw (← same) l.names),
  )

  start-Walking :
      (seen : List Oid) (pq : List QueueEntry)
      → push_new read tips [] [] ≡ ok (seen, pq)
      → Walking nothing_found seen pq
  start-Walking seen pq h =
      let pushed = push_new-Pushed read tips [] [] seen pq h in
      record {
        covers = λ fine v m. elim (pushed.new_waits v m) [ inl z ↦ elim z [ ] | inr q ↦ inl q ];
        in_queue = λ v m. elim (pushed.is_seen v m) [ inl z ↦ elim z [ ] | inr q ↦ q ];
        reached = λ v m. elim (pushed.no_more v m) [ inl z ↦ elim z [ ] | inr q ↦ (v, q, here) ];
        live = λ fine o m. elim m [ ];
        of_tips = pushed.adds;
      }

  found_or_failed-ok :
      (fuel : ℕ) (seen : List Oid) (pq : List QueueEntry) (live : List Oid)
      → Walking nothing_found seen pq
      → found_or_failed read read_manifest
          (walk_loop read (visit_commit read read_manifest) fuel nothing_found seen pq)
        ≡ some (ok live)
      → (s : Found) × (seen' : List Oid) × Walking s seen' []
        × (s.failed ≡ none)
        × (s.objects ≡ live)
  unfolding found_or_failed
  found_or_failed-ok fuel seen pq live w h =
      from_walk (walk_loop read (visit_commit read read_manifest) fuel nothing_found seen pq) refl h
    where
      from_walk :
          (r : Option (Result Found))
          → walk_loop read (visit_commit read read_manifest) fuel nothing_found seen pq ≡ r
          → found_or_failed read read_manifest r ≡ some (ok live)
          → (s : Found) × (seen' : List Oid) × Walking s seen' []
            × (s.failed ≡ none)
            × (s.objects ≡ live)
      from_walk none e h = cc
      from_walk (some (err kind)) e h = cc
      from_walk (some (ok s)) e h =
          let (seen', w') = walk_loop-Walking fuel nothing_found seen pq s w e in
          elim (Option-cases s.failed) [
            | inl fine ↦ (
              s,
              seen',
              w',
              fine,
              (let at_end : some (ok s.objects) ≡ some (ok live) =
                    rw (found_or_failed, fine) at h in
                  cc),
            )
            | inr (kind, failed) ↦
                let clash : some (err kind) ≡ some (ok live) = rw (found_or_failed, failed) at h in
                absurd (cc)
          ]

  pub walk_commits-ok :
      (fuel : ℕ) (p : List Oid × List QueueEntry)
      → push_new read tips [] [] ≡ ok p
      → walk_commits read (visit_commit read read_manifest) fuel nothing_found tips
        ≡ walk_loop read (visit_commit read read_manifest) fuel nothing_found p.0 p.1
  unfolding walk_commits
  walk_commits-ok fuel p e = rw (walk_commits, e) refl

  pub walk_commits-err :
      (fuel : ℕ) (kind : ErrKind)
      → push_new read tips [] [] ≡ err kind
      → walk_commits read (visit_commit read read_manifest) fuel nothing_found tips
        ≡ some (err kind)
  unfolding walk_commits
  walk_commits-err fuel kind e = rw (walk_commits, e) refl

  pub reachable_objects-eq :
      (fuel : ℕ)
      → reachable_objects read read_manifest fuel tips
        ≡ found_or_failed read read_manifest
            (walk_commits read (visit_commit read read_manifest) fuel nothing_found tips)
  unfolding reachable_objects
  reachable_objects-eq fuel = refl

  refused :
      (kind : ErrKind) (live : List Oid)
      → found_or_failed read read_manifest (some (err kind)) ≡ some (ok live)
      → ⊥
  unfolding found_or_failed
  refused kind live h = cc

  -- If reachable_objects returns a set, it has exactly the objects that are named by the commits
  -- which the tips reach, the tips included: the commits, their manifests and topologies, and
  -- the header and the blocks of each manifest.
  pub reachable_objects_lem :
      (fuel : ℕ) (live : List Oid)
      → reachable_objects read read_manifest fuel tips ≡ some (ok live)
      → (o : Oid) → Member o live ↔ IsLive read read_manifest tips o
  reachable_objects_lem fuel live h o =
      let from_walk = sym (reachable_objects-eq fuel) ∙ h in
      elim (Result-cases (push_new read tips [] [])) [
        | inl (kind, failed) ↦
            absurd (refused kind live (rw (walk_commits-err fuel kind failed) at from_walk))
        | inr (p, pushed) ↦
            let (s, seen, w, fine, same) =
              found_or_failed-ok fuel p.0 p.1 live (start-Walking p.0 p.1 pushed)
                (rw (walk_commits-ok fuel p pushed) at from_walk) in
            rw (← same) (end-IsLive s seen w fine o)
      ]
