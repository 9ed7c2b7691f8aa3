-- ===== src/Store/Dag/MergeBase.antt =====
-- What merge_base answers: a commit that both sides reach, or that there is none.
use synapse_fs.Core.Oid.{Oid}
use synapse_fs.Core.Error.{Result, ok, err, Result-cases}
use synapse_fs.Store.Dag.{
  Commit, contains, push_all, collect_loop, base_loop, base_after, merge_base,
}
use synapse_fs.Store.Dag.Ancestor.{
  Closed, Closed-skip, Closed-visit, Closed→Reach, start-skip, start-visit,
}
use synapse_fs.Store.Dag.Fuel.{
  remaining, length-push_all, ClosedUnder, visit-fits, Within, skip-fits,
}
use synapse_fs.Store.Dag.Search.{
  Member, contains→Member, Member→contains, Member-append, Member-push_all, Reach, here, parent,
}
use synapse_fs.Prelude.{
  ℕ, zero, suc, ◌+◌, ◌<◌, ◌≡◌, refl, ◌↔◌, ◌⊎◌, inl, inr, true, false, Option, none, some, List, [],
  ◌∷◌, ◌++◌, arith, Bool-cases, length, length-append,
}

module _ (read : Oid → Result Commit) where
  collect_loop-enough :
      (fuel : ℕ) (us : List Oid) (stack visited : List Oid)
      → ClosedUnder read us
      → Within read us stack
      → length stack + remaining read visited us < fuel
      → (r : Result (List Oid)) × (collect_loop read fuel stack visited ≡ some r)
  unfolding collect_loop
  collect_loop-enough zero us stack visited closed inside h =
      let no : ⊥ = omega arith in elim no [ ]
  collect_loop-enough (suc fuel) us [] visited closed inside h = (ok visited, refl)
  collect_loop-enough (suc fuel) us (cur ∷ stack) visited closed inside h =
      elim (Bool-cases (contains visited cur)) [
        | inl old ↦
            let rest =
              collect_loop-enough fuel us stack visited closed (λ a m. inside a (inr m))
                (skip-fits read (length stack) (remaining read visited us) fuel h) in
            (rest.0, (let found = rest.1 in ground arith))
        | inr new ↦ elim (Result-cases (read cur)) [
          | inl (e, re) ↦ (err e, ground arith)
          | inr (c, rc) ↦
              let fits =
                visit-fits read fuel us stack visited (push_all c.parents stack) cur c
                  (inside cur (inl refl)) new rc (length-push_all read c.parents stack) h in
              let rest =
                collect_loop-enough fuel us (push_all c.parents stack) (cur ∷ visited) closed
                  (λ a m. elim ((Member-push_all c.parents stack a).0 m) [
                    | inl p ↦ closed cur a c (inside cur (inl refl)) rc p
                    | inr w ↦ inside a (inr w)
                  ])
                  fits in
              (rest.0, (let found = rest.1 in ground arith))
        ]
      ]

  -- One round of the first loop that answers.
  collect_loop-round :
      (fuel : ℕ) (cur : Oid) (stack visited known : List Oid)
      → collect_loop read (suc fuel) (cur ∷ stack) visited ≡ some (ok known)
      → ((contains visited cur ≡ true) × (collect_loop read fuel stack visited ≡ some (ok known)))
        ⊎ ((c : Commit) × (read cur ≡ ok c)
            × (collect_loop read fuel (push_all c.parents stack) (cur ∷ visited) ≡ some (ok known)))
  unfolding collect_loop
  collect_loop-round fuel cur stack visited known h =
      let seen = Bool-cases (contains visited cur) in
      elim (read cur) [ err e ↦ ground arith | ok c ↦ ground arith ]

  collect_loop-answer :
      (fuel : ℕ) (s : Oid) (stack visited known : List Oid)
      → Closed read visited stack
      → Member s visited ⊎ Member s stack
      → ((a : Oid) → Member a visited ⊎ Member a stack → Reach read s a)
      → collect_loop read fuel stack visited ≡ some (ok known)
      → (a : Oid) → Member a known ↔ Reach read s a
  unfolding collect_loop
  collect_loop-answer zero s stack visited known closed start sound h = cc
  collect_loop-answer (suc fuel) s [] visited known closed start sound h =
      let same : visited ≡ known = cc in
      let at_start : Member s visited = elim start [ inl l ↦ l | inr m ↦ elim m [ ] ] in
      λ a. rw (← same) (λ m. sound a (inl m), Closed→Reach read visited s a closed at_start)
  collect_loop-answer (suc fuel) s (cur ∷ stack) visited known closed start sound h =
      elim (collect_loop-round fuel cur stack visited known h) [
        | inl (old, rest) ↦
            collect_loop-answer fuel s stack visited known
              (Closed-skip read visited stack cur closed old)
              (start-skip read visited stack cur s old start)
              (λ a m. sound a (elim m [ inl l ↦ inl l | inr r ↦ inr (inr r) ])) rest
        | inr (c, rc, rest) ↦
            let into : (a : Oid)
                → Member a c.parents ⊎ Member a stack
                → Member a (push_all c.parents stack) =
              λ a. (Member-push_all c.parents stack a).1 in
            collect_loop-answer fuel s (push_all c.parents stack) (cur ∷ visited) known
              (Closed-visit read visited stack (push_all c.parents stack) cur c closed rc into)
              (start-visit read visited stack (push_all c.parents stack) cur s start
                (λ m. into s (inr m)))
              (λ a m. elim m [
                | inl (inl e) ↦ sound a (inr (inl e))
                | inl (inr l) ↦ sound a (inl l)
                | inr r ↦ elim ((Member-push_all c.parents stack a).0 r) [
                  | inl p ↦ parent c (sound cur (inr (inl refl))) rc p
                  | inr w ↦ sound a (inr (inr w))
                ]
              ])
              rest
      ]

  base_loop-enough :
      (fuel : ℕ) (us : List Oid) (known queue visited : List Oid)
      → ClosedUnder read us
      → Within read us queue
      → length queue + remaining read visited us < fuel
      → (r : Result (Option Oid)) × (base_loop read fuel known queue visited ≡ some r)
  unfolding base_loop
  base_loop-enough zero us known queue visited closed inside h =
      let no : ⊥ = omega arith in elim no [ ]
  base_loop-enough (suc fuel) us known [] visited closed inside h = (ok none, refl)
  base_loop-enough (suc fuel) us known (cur ∷ queue) visited closed inside h =
      elim (Bool-cases (contains visited cur)) [
        | inl old ↦
            let rest =
              base_loop-enough fuel us known queue visited closed (λ a m. inside a (inr m))
                (skip-fits read (length queue) (remaining read visited us) fuel h) in
            (rest.0, (let found = rest.1 in ground arith))
        | inr new ↦ elim (Bool-cases (contains known cur)) [
          | inl hit ↦ (ok (some cur), ground arith)
          | inr miss ↦ elim (Result-cases (read cur)) [
            | inl (e, re) ↦ (err e, ground arith)
            | inr (c, rc) ↦
                let len : length (queue ++ c.parents) ≡ length c.parents + length queue =
                  (let l = length-append queue c.parents in omega arith) in
                let fits =
                  visit-fits read fuel us queue visited (queue ++ c.parents) cur c
                    (inside cur (inl refl)) new rc len h in
                let rest =
                  base_loop-enough fuel us known (queue ++ c.parents) (cur ∷ visited) closed
                    (λ a m. elim ((Member-append queue c.parents a).0 m) [
                      | inl w ↦ inside a (inr w)
                      | inr p ↦ closed cur a c (inside cur (inl refl)) rc p
                    ])
                    fits in
                (rest.0, (let found = rest.1 in ground arith))
          ]
        ]
      ]

  -- One round of the second loop that answers.
  base_loop-round :
      (fuel : ℕ) (known : List Oid) (cur : Oid) (queue visited : List Oid) (d : Option Oid)
      → base_loop read (suc fuel) known (cur ∷ queue) visited ≡ some (ok d)
      → ((contains visited cur ≡ true) × (base_loop read fuel known queue visited ≡ some (ok d)))
        ⊎ (((contains known cur ≡ true) × (d ≡ some cur))
            ⊎ ((contains known cur ≡ false)
                × ((c : Commit) × (read cur ≡ ok c)
                    × (base_loop read fuel known (queue ++ c.parents) (cur ∷ visited)
                        ≡ some (ok d)))))
  unfolding base_loop
  base_loop-round fuel known cur queue visited d h =
      let seen = Bool-cases (contains visited cur) in
      let hit = Bool-cases (contains known cur) in
      elim (read cur) [ err e ↦ ground arith | ok c ↦ ground arith ]

  -- What an answer of the second loop says, for the commits `known` of the one side and the start
  -- of the other.
  abbrev IsBaseOf : List Oid → Oid → Option Oid → Type 0
  IsBaseOf known s none = (a : Oid) → Member a known → Reach read s a → ⊥
  IsBaseOf known s (some d) = Member d known × Reach read s d

  base_loop-answer :
      (fuel : ℕ) (known : List Oid) (s : Oid) (queue visited : List Oid) (d : Option Oid)
      → Closed read visited queue
      → Member s visited ⊎ Member s queue
      → ((a : Oid) → Member a queue → Reach read s a)
      → ((a : Oid) → Member a visited → Member a known → ⊥)
      → base_loop read fuel known queue visited ≡ some (ok d)
      → IsBaseOf known s d
  unfolding base_loop
  base_loop-answer zero known s queue visited d closed start sound apart h = cc
  base_loop-answer (suc fuel) known s [] visited d closed start sound apart h =
      let same : none ≡ d = cc in
      let at_start : Member s visited = elim start [ inl l ↦ l | inr m ↦ elim m [ ] ] in
      rw (← same) (λ a mk r. apart a (Closed→Reach read visited s a closed at_start r) mk)
  base_loop-answer (suc fuel) known s (cur ∷ queue) visited d closed start sound apart h =
      elim (base_loop-round fuel known cur queue visited d h) [
        | inl (old, rest) ↦
            base_loop-answer fuel known s queue visited d
              (Closed-skip read visited queue cur closed old)
              (start-skip read visited queue cur s old start) (λ a m. sound a (inr m)) apart rest
        | inr (inl (hit, found)) ↦ rw found (contains→Member known cur hit, sound cur (inl refl))
        | inr (inr (miss, (c, rc, rest))) ↦
            let into : (a : Oid)
                → Member a c.parents ⊎ Member a queue
                → Member a (queue ++ c.parents) =
              λ a m.
                (Member-append queue c.parents a).1 (elim m [ inl p ↦ inr p | inr w ↦ inl w ]) in
            base_loop-answer fuel known s (queue ++ c.parents) (cur ∷ visited) d
              (Closed-visit read visited queue (queue ++ c.parents) cur c closed rc into)
              (start-visit read visited queue (queue ++ c.parents) cur s start
                (λ m. into s (inr m)))
              (λ a m. elim ((Member-append queue c.parents a).0 m) [
                | inl w ↦ sound a (inr w)
                | inr p ↦ parent c (sound cur (inl refl)) rc p
              ])
              (λ a m mk. elim m [
                | inl e ↦
                    let hit = Member→contains known a mk in
                    let at_cur : contains known cur ≡ true = rw e hit in cc
                | inr old ↦ apart a old mk
              ])
              rest
      ]

  abbrev pub Common : Oid → Oid → Option Oid → Type 0
  Common a b none = (d : Oid) → Reach read a d → Reach read b d → ⊥
  Common a b (some d) = Reach read a d × Reach read b d

  base-Common :
      (a b : Oid) (known : List Oid) (d : Option Oid)
      → ((x : Oid) → Member x known ↔ Reach read a x)
      → IsBaseOf known b d
      → Common a b d
  base-Common a b known none all apart = λ x ra rb. apart x ((all x).1 ra) rb
  base-Common a b known (some d) all found = ((all d).0 found.0, found.1)

-- With more rounds than the repository has parents, and one more, `merge_base` ends. A commit that
-- it finds is reached from both sides, and when it finds none, no commit is. The repository is a
-- list of commits that has both sides and the parents of all that it has.
pub merge_base_lem :
    (read : Oid → Result Commit) (us : List Oid) (fuel : ℕ) (a b : Oid)
    → ClosedUnder read us
    → Member a us
    → Member b us
    → 1 + remaining read [] us < fuel
    → (r : Result (Option Oid)) × (merge_base read fuel a b ≡ some r)
      × ((d : Option Oid) → r ≡ ok d → Common read a b d)
unfolding merge_base base_after
merge_base_lem read us fuel a b closed ma mb h =
    let one : (x : Oid) → Member x us → Within read us (x ∷ []) =
      λ x m y my. elim my [ inl e ↦ rw (← e) m | inr z ↦ elim z [ ] ] in
    let reached : (x y : Oid) → Member y (x ∷ []) → Reach read x y =
      λ x y my. elim my [ inl e ↦ rw (← e) here | inr z ↦ elim z [ ] ] in
    let first = collect_loop-enough read fuel us (a ∷ []) [] closed (one a ma) (omega arith) in
    elim (Result-cases first.0) [
      | inl (e, bad) ↦ (err e, (let found = first.1 in ground arith), λ d g. cc)
      | inr (known, good) ↦
          let found : collect_loop read fuel (a ∷ []) [] ≡ some (ok known) = rw (← good) first.1 in
          let second =
            base_loop-enough read fuel us known (b ∷ []) [] closed (one b mb) (omega arith) in
          let all =
            collect_loop-answer read fuel a (a ∷ []) [] known (λ v p c mv rv mp. elim mv [ ])
              (inr (inl refl)) (λ x m. elim m [ inl z ↦ elim z [ ] | inr m ↦ reached a x m ])
              found in
          let answer : (d : Option Oid)
              → base_loop read fuel known (b ∷ []) [] ≡ some (ok d)
              → IsBaseOf read known b d =
            λ d.
              base_loop-answer read fuel known b (b ∷ []) [] d (λ v p c mv rv mp. elim mv [ ])
                (inr (inl refl)) (reached b) (λ x z. elim z [ ]) in
          (
            second.0,
            rw found second.1,
            λ d g. base-Common read a b known d all (answer d (rw (← g) second.1)),
          )
    ]
