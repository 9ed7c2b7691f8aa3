-- ===== src/Store/Dag/Fuel.antt =====
-- How many rounds the searches take: no more than there are parents to push.
use synapse_fs.Core.Oid.{Oid, oid_eq, oid_eq_iff}
use synapse_fs.Core.Error.{Result, ok, err, Result-cases}
use synapse_fs.Store.Dag.{Commit, contains, push_all, ancestor_loop}
use synapse_fs.Store.Dag.Search.{Member, Member-push_all}
use synapse_fs.Prelude.{
  ℕ, zero, suc, ◌+◌, ◌≤◌, ◌<◌, ◌≡◌, refl, sym, inl, inr, Bool, true, false, some, List, [], ◌∷◌,
  arith, if◌then◌else◌, Bool-cases, length,
}

module _ (read : Oid → Result Commit) where
  -- The parents that a visit of a commit pushes.
  unfoldable pub edges : Oid → ℕ
  edges u = elim (read u) [ err e ↦ 0 | ok c ↦ length c.parents ]

  -- The parents that are still to be pushed, over the commits of a repository.
  unfoldable pub remaining : List Oid → List Oid → ℕ
  unfolding edges
  remaining visited [] = 0
  remaining visited (u ∷ us) = (if contains visited u then 0 else edges u) + remaining visited us

  remaining_mono :
      (cur : Oid) (visited us : List Oid) → remaining (cur ∷ visited) us ≤ remaining visited us
  unfolding remaining contains
  remaining_mono cur visited [] = ground arith
  remaining_mono cur visited (u ∷ us) =
      let rest = remaining_mono cur visited us in
      elim (Bool-cases (contains visited u)) [ inl y ↦ ground arith | inr n ↦ ground arith ]

  remaining-visit :
      (cur : Oid) (visited us : List Oid)
      → Member cur us
      → contains visited cur ≡ false
      → remaining (cur ∷ visited) us + edges cur ≤ remaining visited us
  unfolding remaining contains
  remaining-visit cur visited [] m n = elim m [ ]
  remaining-visit cur visited (u ∷ us) (inl e) n =
      let rest = remaining_mono cur visited us in
      let hit = (oid_eq_iff cur u).1 (sym e) in
      let same : edges cur ≡ edges u = rw e refl in
      let miss : contains visited u ≡ false = rw e n in ground arith
  remaining-visit cur visited (u ∷ us) (inr m) n =
      let rest = remaining-visit cur visited us m n in
      elim (Bool-cases (contains visited u)) [ inl y ↦ ground arith | inr n ↦ ground arith ]

  pub length-push_all :
      (ps stack : List Oid) → length (push_all ps stack) ≡ length ps + length stack
  unfolding push_all
  length-push_all [] stack = ground arith
  length-push_all (p ∷ ps) stack = ground (arith, length-push_all ps (p ∷ stack))

  -- A list that has the parents of its commits: what a repository holds.
  abbrev pub ClosedUnder : List Oid → Type 0
  ClosedUnder us =
      (u p : Oid) (c : Commit) → Member u us → read u ≡ ok c → Member p c.parents → Member p us

  -- What a visit pushes, it takes from what remains.
  pub visit-fits :
      (fuel : ℕ) (us stack visited next : List Oid) (cur : Oid) (c : Commit)
      → Member cur us
      → contains visited cur ≡ false
      → read cur ≡ ok c
      → length next ≡ length c.parents + length stack
      → suc (length stack) + remaining visited us < suc fuel
      → length next + remaining (cur ∷ visited) us < fuel
  unfolding edges
  visit-fits fuel us stack visited next cur c m n rc len h =
      let step = remaining-visit cur visited us m n in
      let at_cur : edges cur ≡ length c.parents = rw (rc, edges) refl in omega arith

  -- All the commits of a list are of a repository.
  abbrev pub Within : List Oid → List Oid → Type 0
  Within us xs = (a : Oid) → Member a xs → Member a us

  pub skip-fits : (l r fuel : ℕ) → suc l + r < suc fuel → l + r < fuel
  skip-fits l r fuel h = omega arith

  pub ancestor_loop-enough :
      (fuel : ℕ) (us : List Oid) (target : Oid) (stack visited : List Oid)
      → ClosedUnder us
      → Within us stack
      → length stack + remaining visited us < fuel
      → (r : Result Bool) × (ancestor_loop read fuel target stack visited ≡ some r)
  unfolding ancestor_loop
  ancestor_loop-enough zero us target stack visited closed inside h =
      let no : ⊥ = omega arith in elim no [ ]
  ancestor_loop-enough (suc fuel) us target [] visited closed inside h = (ok false, refl)
  ancestor_loop-enough (suc fuel) us target (cur ∷ stack) visited closed inside h =
      elim (Bool-cases (contains visited cur)) [
        | inl old ↦
            let rest =
              ancestor_loop-enough fuel us target stack visited closed (λ a m. inside a (inr m))
                (skip-fits (length stack) (remaining visited us) fuel h) in
            (rest.0, (let found = rest.1 in ground arith))
        | inr new ↦ elim (Bool-cases (oid_eq cur target)) [
          | inl hit ↦ (ok true, ground arith)
          | inr miss ↦ elim (Result-cases (read cur)) [
            | inl (e, re) ↦ (err e, ground arith)
            | inr (c, rc) ↦
                let fits =
                  visit-fits fuel us stack visited (push_all c.parents stack) cur c
                    (inside cur (inl refl)) new rc (length-push_all c.parents stack) h in
                let rest =
                  ancestor_loop-enough fuel us target (push_all c.parents stack) (cur ∷ visited)
                    closed
                    (λ a m. elim ((Member-push_all c.parents stack a).0 m) [
                      | inl p ↦ closed cur a c (inside cur (inl refl)) rc p
                      | inr w ↦ inside a (inr w)
                    ])
                    fits in
                (rest.0, (let found = rest.1 in ground arith))
          ]
        ]
      ]
