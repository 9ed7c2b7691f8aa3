-- ===== src/Store/Dag/Ancestor.antt =====
-- What is_ancestor answers: whether the one commit is reached from the other.
use synapse_fs.Core.Oid.{Oid, oid_eq, oid_eq_iff}
use synapse_fs.Core.Error.{Result, ok, err}
use synapse_fs.Store.Dag.{Commit, contains, push_all, ancestor_loop, is_ancestor}
use synapse_fs.Store.Dag.Search.{Member, contains→Member, Member-push_all, Reach, here, parent}
use synapse_fs.Prelude.{
  ℕ, zero, suc, ◌+◌, ◌<◌, ◌≡◌, refl, sym, ◌↔◌, ◌⊎◌, inl, inr, Bool, true, false, some, List, [],
  ◌∷◌, arith, Bool-cases,
}
use synapse_fs.Store.Dag.Fuel.{remaining, ClosedUnder, ancestor_loop-enough}

module _ (read : Oid → Result Commit) where
  -- The parents of a visited commit have been visited, or wait on the stack.
  abbrev pub Closed : List Oid → List Oid → Type 0
  Closed visited waiting =
      (v p : Oid) (c : Commit)
      → Member v visited
      → read v ≡ ok c
      → Member p c.parents
      → Member p visited ⊎ Member p waiting

  pub Closed-skip :
      (visited waiting : List Oid) (cur : Oid)
      → Closed visited (cur ∷ waiting)
      → contains visited cur ≡ true
      → Closed visited waiting
  Closed-skip visited waiting cur closed old v p c mv rv mp = elim (closed v p c mv rv mp) [
    | inl l ↦ inl l
    | inr (inl e) ↦ inl (contains→Member visited p (rw (sym e) old))
    | inr (inr r) ↦ inr r
  ]

  pub Closed-visit :
      (visited waiting next : List Oid) (cur : Oid) (c : Commit)
      → Closed visited (cur ∷ waiting)
      → read cur ≡ ok c
      → ((a : Oid) → Member a c.parents ⊎ Member a waiting → Member a next)
      → Closed (cur ∷ visited) next
  Closed-visit visited waiting next cur c closed rc into v p d (inl e) rv mp =
      let same : c ≡ d = cc in inr (into p (inl (rw same mp)))
  Closed-visit visited waiting next cur c closed rc into v p d (inr mv) rv mp =
      elim (closed v p d mv rv mp) [
        | inl l ↦ inl (inr l)
        | inr (inl e) ↦ inl (inl e)
        | inr (inr r) ↦ inr (into p (inr r))
      ]

  pub Closed→Reach :
      (visited : List Oid) (s a : Oid)
      → Closed visited []
      → Member s visited
      → Reach read s a
      → Member a visited
  Closed→Reach visited s a closed ms here = ms
  Closed→Reach visited s a closed ms (parent {u} c r ru mp) =
      elim (closed u a c (Closed→Reach visited s u closed ms r) ru mp) [
        | inl l ↦ l
        | inr m ↦ elim m [ ]
      ]

  -- The start of a search has been visited, or waits.
  pub start-skip :
      (visited waiting : List Oid) (cur s : Oid)
      → contains visited cur ≡ true
      → Member s visited ⊎ Member s (cur ∷ waiting)
      → Member s visited ⊎ Member s waiting
  start-skip visited waiting cur s old start = elim start [
    | inl l ↦ inl l
    | inr (inl e) ↦ inl (contains→Member visited s (rw (sym e) old))
    | inr (inr r) ↦ inr r
  ]

  pub start-visit :
      (visited waiting next : List Oid) (cur s : Oid)
      → Member s visited ⊎ Member s (cur ∷ waiting)
      → (Member s waiting → Member s next)
      → Member s (cur ∷ visited) ⊎ Member s next
  start-visit visited waiting next cur s start into = elim start [
    | inl l ↦ inl (inr l)
    | inr (inl e) ↦ inl (inl e)
    | inr (inr r) ↦ inr (into r)
  ]

  -- One round of the loop that answers.
  ancestor_loop-round :
      (fuel : ℕ) (target cur : Oid) (stack visited : List Oid) (b : Bool)
      → ancestor_loop read (suc fuel) target (cur ∷ stack) visited ≡ some (ok b)
      → ((contains visited cur ≡ true)
          × (ancestor_loop read fuel target stack visited ≡ some (ok b)))
        ⊎ (((oid_eq cur target ≡ true) × (b ≡ true))
            ⊎ ((oid_eq cur target ≡ false)
                × ((c : Commit) × (read cur ≡ ok c)
                    × (ancestor_loop read fuel target (push_all c.parents stack) (cur ∷ visited)
                        ≡ some (ok b)))))
  unfolding ancestor_loop
  ancestor_loop-round fuel target cur stack visited b h =
      let seen = Bool-cases (contains visited cur) in
      let hit = Bool-cases (oid_eq cur target) in
      elim (read cur) [ err e ↦ ground arith | ok c ↦ ground arith ]

  ancestor_loop-answer :
      (fuel : ℕ) (s target : Oid) (stack visited : List Oid) (b : Bool)
      → ((a : Oid) → Member a stack → Reach read s a)
      → Closed visited stack
      → Member s visited ⊎ Member s stack
      → (Member target visited → ⊥)
      → ancestor_loop read fuel target stack visited ≡ some (ok b)
      → (b ≡ true) ↔ Reach read s target
  unfolding ancestor_loop
  ancestor_loop-answer zero s target stack visited b sound closed start fresh h = cc
  ancestor_loop-answer (suc fuel) s target [] visited b sound closed start fresh h =
      let no : b ≡ false = cc in
      let at_start : Member s visited = elim start [ inl l ↦ l | inr m ↦ elim m [ ] ] in
      (λ e. cc, λ r. elim (fresh (Closed→Reach visited s target closed at_start r)) [ ])
  ancestor_loop-answer (suc fuel) s target (cur ∷ stack) visited b sound closed start fresh h =
      elim (ancestor_loop-round fuel target cur stack visited b h) [
        | inl (old, rest) ↦
            ancestor_loop-answer fuel s target stack visited b (λ a m. sound a (inr m))
              (Closed-skip visited stack cur closed old) (start-skip visited stack cur s old start)
              fresh rest
        | inr (inl (hit, answer)) ↦
            let same : cur ≡ target = (oid_eq_iff cur target).0 hit in
            (λ e. rw (← same) (sound cur (inl refl)), λ r. answer)
        | inr (inr (miss, (c, rc, rest))) ↦
            let into : (a : Oid)
                → Member a c.parents ⊎ Member a stack
                → Member a (push_all c.parents stack) =
              λ a. (Member-push_all c.parents stack a).1 in
            ancestor_loop-answer fuel s target (push_all c.parents stack) (cur ∷ visited) b
              (λ a m. elim ((Member-push_all c.parents stack a).0 m) [
                | inl p ↦ parent c (sound cur (inl refl)) rc p
                | inr w ↦ sound a (inr w)
              ])
              (Closed-visit visited stack (push_all c.parents stack) cur c closed rc into)
              (start-visit visited stack (push_all c.parents stack) cur s start
                (λ m. into s (inr m)))
              (λ m. elim m [
                | inl e ↦ let hit = (oid_eq_iff cur target).1 e in cc
                | inr old ↦ fresh old
              ])
              rest
      ]

-- With more rounds than the repository has parents, and one more, `is_ancestor` ends. When it
-- answers, it answers whether the commit is reached from the other by parents. The repository is
-- a list of commits that has the commit and the parents of all that it has.
pub is_ancestor_lem :
    (read : Oid → Result Commit) (us : List Oid) (fuel : ℕ) (a of : Oid)
    → ClosedUnder read us
    → Member of us
    → 1 + remaining read [] us < fuel
    → (r : Result Bool) × (is_ancestor read fuel a of ≡ some r)
      × ((b : Bool) → r ≡ ok b → (b ≡ true) ↔ Reach read of a)
unfolding is_ancestor
is_ancestor_lem read us fuel a of closed m h = elim (Bool-cases (oid_eq a of)) [
  | inl same ↦
      let e : a ≡ of = (oid_eq_iff a of).0 same in
      (ok true, rw same refl, λ b g. let yes : b ≡ true = cc in (λ _. rw e here, λ _. yes))
  | inr other ↦
      let enough =
        ancestor_loop-enough read fuel us a (of ∷ []) [] closed
          (λ x mx. elim mx [ inl e ↦ rw (← e) m | inr z ↦ elim z [ ] ]) (omega arith) in
      (
        enough.0,
        (let found = enough.1 in ground arith),
        λ b g.
            ancestor_loop-answer read fuel of a (of ∷ []) [] b
              (λ x mx. elim mx [ inl e ↦ rw (← e) here | inr z ↦ elim z [ ] ])
              (λ v p c mv rv mp. elim mv [ ]) (inr (inl refl)) (λ z. z) (rw (← g) enough.1),
      )
]
