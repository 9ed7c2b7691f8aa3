-- ===== src/Store/Examples.antt =====
-- Runs of the store, and its properties at concrete inputs.
use synapse_fs.Format.Manifest.{full, GroupEntry, Manifest, find_group, validate}
use synapse_fs.Core.Oid.{Oid, oid_eq}
use synapse_fs.Store.Dag.{Commit, contains, is_ancestor, merge_base}
use synapse_fs.Store.Dag.Search.{Member, Reach}
use synapse_fs.Store.Dag.Fuel.{edges, remaining, ClosedUnder}
use synapse_fs.Store.Merge.{
  conflict, resolve_group, refuse, ours, pick, union_names, MergeResult, merge_groups, with_groups,
  merge_manifests,
}
use synapse_fs.Store.Merge.ThreeWay.{same_group, resolve_group-three_way}
use synapse_fs.Format.Examples.{a_manifest}
use synapse_fs.Prelude.{
  ℕ, ◌+◌, ◌<◌, ◌≡◌, refl, sym, ◌≢◌, ◌↔◌, ◌⊎◌, inl, inr, Bool, true, false, Option, none, some, List,
  [], ◌∷◌, ◌++◌, arith, if◌then◌else◌,
}
use synapse_fs.Prelude.Bytes.{Bytes}
use synapse_fs.Store.Merge.Plan.{merge_manifests_lem, merge_manifests-restores}
use synapse_fs.Core.Error.{object_not_found, Result, ok, err}
use synapse_fs.Store.Merge.Groups.{chosen}
use synapse_fs.Store.Dag.Ancestor.{is_ancestor_lem}
use synapse_fs.Store.Dag.MergeBase.{Common, merge_base_lem}
use mathlib.Core.Path.{subst}

abbrev oid_of : ℕ → Oid
oid_of n = record { raw = n ∷ [] }

abbrev root : Commit
root = record { parents = []; manifest = oid_of 10; topology = oid_of 20; timestamp = [] }

abbrev child : Commit
child = record {
  parents = oid_of 1 ∷ [];
  manifest = oid_of 11;
  topology = oid_of 20;
  timestamp = [];
}

-- A root, and two branches of it.
unfoldable read : Oid → Result Commit
unfolding oid_eq
read a =
    if oid_eq a (oid_of 1)
    then ok root
    else if oid_eq a (oid_of 2)
    then ok child
    else if oid_eq a (oid_of 3)
    then ok child
    else err object_not_found

abbrev commits : List Oid
commits = oid_of 1 ∷ oid_of 2 ∷ oid_of 3 ∷ []

commits-of-child :
    (u p : Oid) (c : Commit)
    → read u ≡ ok child
    → read u ≡ ok c
    → Member p c.parents
    → Member p commits
commits-of-child u p c at rc m =
    let same : child ≡ c = cc in
    let mp : Member p child.parents = subst (λ (x : Commit). Member p x.parents) (sym same) m in
    elim mp [ inl e ↦ inl e | inr z ↦ elim z [ ] ]

commits-Closed : ClosedUnder read commits
unfolding read
commits-Closed u p c (inl e) rc m =
    let at : read u ≡ ok root = rw (← e) refl in
    let same : root ≡ c = cc in
    let mp : Member p root.parents = subst (λ (x : Commit). Member p x.parents) (sym same) m in
    elim mp [ ]
commits-Closed u p c (inr (inl e)) rc m = commits-of-child u p c (rw (← e) refl) rc m
commits-Closed u p c (inr (inr (inl e))) rc m = commits-of-child u p c (rw (← e) refl) rc m
commits-Closed u p c (inr (inr (inr z))) rc m = elim z [ ]

commits-remaining : 1 + remaining read [] commits < 4
unfolding remaining read contains edges
commits-remaining = omega arith

is_ancestor_lem_example :
    (r : Result Bool) × (is_ancestor read 4 (oid_of 1) (oid_of 2) ≡ some r)
    × ((b : Bool) → r ≡ ok b → (b ≡ true) ↔ Reach read (oid_of 2) (oid_of 1))
is_ancestor_lem_example =
    is_ancestor_lem read commits 4 (oid_of 1) (oid_of 2) commits-Closed (inr (inl refl))
      commits-remaining

merge_base_lem_example :
    (r : Result (Option Oid)) × (merge_base read 4 (oid_of 2) (oid_of 3) ≡ some r)
    × ((d : Option Oid) → r ≡ ok d → Common read (oid_of 2) (oid_of 3) d)
merge_base_lem_example =
    merge_base_lem read commits 4 (oid_of 2) (oid_of 3) commits-Closed (inr (inl refl))
      (inr (inr (inl refl))) commits-remaining

found_root : merge_base read 4 (oid_of 2) (oid_of 3) ≡ some (ok (some (oid_of 1)))
unfolding merge_base read
found_root = refl

abbrev group_of : ℕ → GroupEntry
group_of n = record {
  mode = full;
  block = some (oid_of n);
  base = none;
  diff_block = none;
  chain_depth = 0;
}

resolve_group-three_way_example :
    let b = some (group_of 1) in
    let o = some (group_of 2) in
    (resolve_group b o b ≢ conflict
      → ((same_group o b ≡ true) × (pick o b (resolve_group b o b) ≡ o))
        ⊎ (((same_group b o ≡ true) × (pick o b (resolve_group b o b) ≡ b))
            ⊎ ((same_group b b ≡ true) × (pick o b (resolve_group b o b) ≡ o))))
    × (resolve_group b o b ≡ conflict → same_group o b ≡ false)
resolve_group-three_way_example =
    resolve_group-three_way (some (group_of 1)) (some (group_of 2)) (some (group_of 1))

abbrev groups_of : ℕ → List (Bytes × GroupEntry)
groups_of n = (103 ∷ [], group_of n) ∷ []

unchanged_merge :
    (merge_groups refuse
      (groups_of 1)
      (groups_of 1)
      (groups_of 2)
      (union_names (groups_of 1) (groups_of 2))
      []).1
    ≡ []
unfolding merge_groups union_names
unchanged_merge = refl

-- A side of the merge with one more group `h`, which no buffer entry needs.
abbrev with_spare : ℕ → Manifest
with_spare n = with_groups a_manifest (a_manifest.groups ++ (104 ∷ [], group_of n) ∷ [])

abbrev restored : Manifest
restored = with_spare 2

abbrev restored_result : MergeResult
restored_result = record {
  fast_forward = false;
  new_commit = none;
  merged = some restored;
  conflicts = [];
}

-- Ours deleted `h`, and theirs changed it.
restored-merged : merge_manifests ours (with_spare 1) a_manifest restored ≡ ok restored_result
unfolding merge_manifests
restored-merged = refl

merge_manifests_lem_example :
    (restored_result.conflicts ≡ [])
    × (validate restored ≡ ok tt)
    × (restored.buffer ≡ a_manifest.buffer)
    × ((n : Bytes)
        → find_group restored n
          ≡ chosen ours
              (find_group (with_spare 1) n)
              (find_group a_manifest n)
              (find_group (with_spare 2) n))
merge_manifests_lem_example =
    merge_manifests_lem ours (with_spare 1) a_manifest (with_spare 2) restored restored_result
      restored-merged refl

deleted : find_group a_manifest (104 ∷ []) ≡ none
unfolding find_group
deleted = refl

merge_manifests-restores_example :
    find_group restored (104 ∷ []) ≡ find_group (with_spare 2) (104 ∷ [])
merge_manifests-restores_example =
    merge_manifests-restores (with_spare 1) a_manifest (with_spare 2) restored restored_result
      (104 ∷ []) restored-merged refl deleted
