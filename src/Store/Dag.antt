-- ===== src/Store/Dag.antt =====
-- modules/store/src/dag.cpp: searches of the commit graph. The commit store is the parameter
-- `read`. A loop takes fuel, a unit for each round, and `none` means that it ran out.
pub mod Walk
pub mod Search
pub mod Fuel
pub mod Ancestor
pub mod MergeBase
use synapse_fs.Core.Oid.{Oid, oid_eq}
use synapse_fs.Core.Error.{Result, ok, err}
use synapse_fs.Prelude.{
  ℕ, zero, suc, Bool, true, false, ◌||◌, Option, none, some, List, [], ◌∷◌, ◌++◌, if◌then◌else◌,
}
use synapse_fs.Prelude.Bytes.{Bytes}

pub record Commit : Type 0 where
  pub parents : List Oid
  pub manifest : Oid
  pub topology : Oid
  pub timestamp : Bytes

-- `visited.count(oid)` of a std::unordered_set.
unfoldable pub contains : List Oid → Oid → Bool
unfolding oid_eq
contains [] a = false
contains (x ∷ xs) a = oid_eq x a || contains xs a

-- `for (const auto& p : c->parents) stack.push_back(p);`, with the top at the front.
unfoldable pub push_all : List Oid → List Oid → List Oid
push_all [] stack = stack
push_all (p ∷ ps) stack = push_all ps (p ∷ stack)

module _ (read : Oid → Result Commit) where
  -- The loop of is_ancestor.
  unfoldable pub ancestor_loop : ℕ → Oid → List Oid → List Oid → Option (Result Bool)
  unfolding contains push_all
  ancestor_loop zero target stack visited = none
  ancestor_loop (suc fuel) target [] visited = some (ok false)
  ancestor_loop (suc fuel) target (cur ∷ stack) visited =
      let skip = ancestor_loop fuel target stack visited in
      let go_on : Option (Result Bool) = elim (read cur) [
        | err e ↦ some (err e)
        | ok c ↦ ancestor_loop fuel target (push_all c.parents stack) (cur ∷ visited)
      ] in
      if contains visited cur then skip else if oid_eq cur target then some (ok true) else go_on

  unfoldable pub is_ancestor : ℕ → Oid → Oid → Option (Result Bool)
  unfolding ancestor_loop
  is_ancestor fuel maybe_ancestor of =
      if oid_eq maybe_ancestor of
      then some (ok true)
      else ancestor_loop fuel maybe_ancestor (of ∷ []) []

  -- The first loop of merge_base: the ancestors of a commit, itself included.
  unfoldable pub collect_loop : ℕ → List Oid → List Oid → Option (Result (List Oid))
  unfolding contains push_all
  collect_loop zero stack visited = none
  collect_loop (suc fuel) [] visited = some (ok visited)
  collect_loop (suc fuel) (cur ∷ stack) visited =
      let skip = collect_loop fuel stack visited in
      let go_on : Option (Result (List Oid)) = elim (read cur) [
        | err e ↦ some (err e)
        | ok c ↦ collect_loop fuel (push_all c.parents stack) (cur ∷ visited)
      ] in
      if contains visited cur then skip else go_on

  -- The second loop, over a queue with its front at the head.
  unfoldable pub base_loop : ℕ → List Oid → List Oid → List Oid → Option (Result (Option Oid))
  unfolding contains
  base_loop zero known queue visited = none
  base_loop (suc fuel) known [] visited = some (ok none)
  base_loop (suc fuel) known (cur ∷ queue) visited =
      let skip = base_loop fuel known queue visited in
      let go_on : Option (Result (Option Oid)) = elim (read cur) [
        | err e ↦ some (err e)
        | ok c ↦ base_loop fuel known (queue ++ c.parents) (cur ∷ visited)
      ] in
      if contains visited cur
      then skip
      else if contains known cur
      then some (ok (some cur))
      else go_on

  unfoldable pub base_after : ℕ → Oid → Option (Result (List Oid)) → Option (Result (Option Oid))
  unfolding base_loop
  base_after fuel b none = none
  base_after fuel b (some (err e)) = some (err e)
  base_after fuel b (some (ok known)) = base_loop fuel known (b ∷ []) []

  unfoldable pub merge_base : ℕ → Oid → Oid → Option (Result (Option Oid))
  unfolding collect_loop base_after
  merge_base fuel a b = base_after fuel b (collect_loop fuel (a ∷ []) [])
