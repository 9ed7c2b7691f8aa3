-- ===== src/Store/Merge.antt =====
-- modules/store/src/merge_logic.cpp: the merge of two checkpoints, group by group. The stores are
-- the parameters `read_commit` and `read_manifest`. A search of the graph takes the fuel, and
-- `none` means that one ran out.
pub mod Names
pub mod Groups
pub mod ThreeWay
pub mod Plan
use synapse_fs.Format.Manifest.{
  GroupMode, full, delta, DeltaBase, GroupEntry, Manifest, lookup_group, validate,
}
use synapse_fs.Core.Oid.{Oid, oid_eq}
use synapse_fs.Core.Error.{merge_conflict, Result, ok, err, ◌>>=◌, ◌>>◌}
use synapse_fs.Store.Dag.{Commit, is_ancestor, merge_base}
use synapse_fs.Prelude.{
  ℕ, Bool, true, false, not, ◌&&◌, Option, none, some, List, [], ◌∷◌, ◌++◌, map, ltb, ◌==◌,
  if◌then◌else◌, replicate,
}
use synapse_fs.Prelude.Bytes.{Bytes, bytes_eq}

-- `==` of two std::optional<Oid>.
unfoldable pub same_oid : Option Oid → Option Oid → Bool
unfolding oid_eq
same_oid none none = true
same_oid (some a) (some b) = oid_eq a b
same_oid none (some b) = false
same_oid (some a) none = false

unfoldable pub same_base : Option DeltaBase → Option DeltaBase → Bool
unfolding oid_eq bytes_eq
same_base none none = true
same_base (some a) (some b) = oid_eq a.commit b.commit && bytes_eq a.group b.group
same_base none (some b) = false
same_base (some a) none = false

-- The comparison behind the test of the modes.
unfoldable pub same_in_mode : GroupMode → GroupMode → GroupEntry → GroupEntry → Bool
unfolding same_oid same_base
same_in_mode full full a b = same_oid a.block b.block
same_in_mode delta delta a b = same_oid a.diff_block b.diff_block && same_base a.base b.base
same_in_mode full delta a b = false
same_in_mode delta full a b = false

unfoldable pub same_content : GroupEntry → GroupEntry → Bool
unfolding same_in_mode
same_content a b = same_in_mode a.mode b.mode a b

-- `Oid{}`.
abbrev pub no_oid : Oid
no_oid = record { raw = replicate 32 0 }

unfoldable pub reportable_block : Option GroupEntry → Oid
reportable_block none = no_oid
reportable_block (some g) = elim g.block [
  | some b ↦ b
  | none ↦ elim g.diff_block [ some d ↦ d | none ↦ no_oid ]
]

pub data GroupResolution : Type 0 where
  unchanged take_ours take_theirs conflict : GroupResolution

-- A null pointer is `none`.
unfoldable pub resolve_group :
    Option GroupEntry → Option GroupEntry → Option GroupEntry → GroupResolution
unfolding same_content
resolve_group base none none = unchanged
resolve_group none none (some t) = take_theirs
resolve_group (some base) none (some t) = conflict
resolve_group none (some o) none = take_ours
resolve_group (some base) (some o) none = conflict
resolve_group none (some o) (some t) = if same_content o t then unchanged else conflict
resolve_group (some base) (some o) (some t) =
    if same_content o t
    then unchanged
    else if not (same_content base o) && not (same_content base t)
    then conflict
    else if not (same_content base t)
    then take_theirs
    else if not (same_content base o)
    then take_ours
    else unchanged

pub data MergeStrategy : Type 0 where
  refuse ours theirs : MergeStrategy

pub record GroupConflict : Type 0 where
  pub group : Bytes
  pub base_block : Oid
  pub our_block : Oid
  pub their_block : Oid

-- The `switch` on the strategy; `none` is the `continue` that reports a conflict.
unfoldable pub settle :
    MergeStrategy → Option GroupEntry → Option GroupEntry → GroupResolution → Option GroupResolution
settle ours o t conflict = elim o [ none ↦ some unchanged | some g ↦ some take_ours ]
settle theirs o t conflict = elim t [ none ↦ some unchanged | some g ↦ some take_theirs ]
settle refuse o t conflict = none
settle strategy o t unchanged = some unchanged
settle strategy o t take_ours = some take_ours
settle strategy o t take_theirs = some take_theirs

-- The `switch` on the decision: what is stored under the name.
unfoldable pub pick : Option GroupEntry → Option GroupEntry → GroupResolution → Option GroupEntry
pick o t take_theirs = t
pick o t conflict = none
pick (some g) t take_ours = some g
pick none t take_ours = t
pick (some g) t unchanged = some g
pick none t unchanged = t

-- The names of theirs that ours does not have.
unfoldable pub added_names : List (Bytes × GroupEntry) → List (Bytes × GroupEntry) → List Bytes
unfolding lookup_group
added_names our_groups [] = []
added_names our_groups ((name, g) ∷ gs) =
    let rest = added_names our_groups gs in
    elim (lookup_group name our_groups) [ none ↦ name ∷ rest | some o ↦ rest ]

-- The names of both sides, ours first.
unfoldable pub union_names : List (Bytes × GroupEntry) → List (Bytes × GroupEntry) → List Bytes
unfolding added_names
union_names our_groups their_groups =
    map (λ p. p.0) our_groups ++ added_names our_groups their_groups

pub record MergeResult : Type 0 where
  pub fast_forward : Bool
  pub new_commit : Option Oid
  pub merged : Option Manifest
  pub conflicts : List GroupConflict

-- `<` of two std::strings, as std::map orders its keys.
unfoldable pub bytes_ltb : Bytes → Bytes → Bool
bytes_ltb xs [] = false
bytes_ltb [] (y ∷ ys) = true
bytes_ltb (x ∷ xs) (y ∷ ys) = if ltb x y then true else if x == y then bytes_ltb xs ys else false

-- `groups[name] = g` of a std::map.
unfoldable pub assign : Bytes → GroupEntry → List (Bytes × GroupEntry) → List (Bytes × GroupEntry)
unfolding bytes_eq bytes_ltb
assign name g [] = (name, g) ∷ []
assign name g ((key, old) ∷ gs) =
    let rest = assign name g gs in
    if bytes_eq key name
    then (name, g) ∷ gs
    else if bytes_ltb name key
    then (name, g) ∷ (key, old) ∷ gs
    else (key, old) ∷ rest

unfoldable pub store_pick :
    Bytes → Option GroupEntry → List (Bytes × GroupEntry) → List (Bytes × GroupEntry)
unfolding assign
store_pick name none groups = groups
store_pick name (some g) groups = assign name g groups

-- The loop over the names: the merged groups so far go in, and come out with the conflicts.
unfoldable pub merge_groups :
    MergeStrategy
    → (base_groups our_groups their_groups : List (Bytes × GroupEntry))
    → (names : List Bytes) (merged : List (Bytes × GroupEntry))
    → List (Bytes × GroupEntry) × List GroupConflict
unfolding lookup_group resolve_group settle pick store_pick reportable_block
merge_groups strategy bs os ts [] merged = (merged, [])
merge_groups strategy bs os ts (name ∷ names) merged =
    let b = lookup_group name bs in
    let o = lookup_group name os in
    let t = lookup_group name ts in
    elim (settle strategy o t (resolve_group b o t)) [
      | none ↦
          let rest = merge_groups strategy bs os ts names merged in
          (
            rest.0,
            record {
              group = name;
              base_block = reportable_block b;
              our_block = reportable_block o;
              their_block = reportable_block t;
            }
                ∷ rest.1,
          )
      | some decision ↦
          merge_groups strategy bs os ts names (store_pick name (pick o t decision) merged)
    ]

abbrev moved_to : Oid → MergeResult
moved_to tip = record { fast_forward = true; new_commit = some tip; merged = none; conflicts = [] }

abbrev pub with_groups : Manifest → List (Bytes × GroupEntry) → Manifest
with_groups m groups = record {
  format_version = m.format_version;
  file = m.file;
  buffer = m.buffer;
  groups = groups;
}

-- What follows the loop: a merge with a conflict yields no manifest, and one without is validated.
unfoldable pub finish_merge :
    Manifest → List (Bytes × GroupEntry) → List GroupConflict → Result MergeResult
unfolding validate
finish_merge om groups (c ∷ cs) =
    ok record { fast_forward = false; new_commit = none; merged = none; conflicts = c ∷ cs }
finish_merge om groups [] = do
  validate (with_groups om groups)
  ok record {
    fast_forward = false;
    new_commit = none;
    merged = some (with_groups om groups);
    conflicts = [];
  }

-- plan_merge from the three manifests on.
unfoldable pub merge_manifests : MergeStrategy → (bm om tm : Manifest) → Result MergeResult
unfolding oid_eq union_names merge_groups finish_merge
merge_manifests strategy bm om tm =
    let loop =
      merge_groups strategy bm.groups om.groups tm.groups (union_names om.groups tm.groups) [] in
    if not (oid_eq om.file.header_block tm.file.header_block)
    then err merge_conflict
    else finish_merge om loop.0 loop.1

-- `if (!r) return std::unexpected(r.error());` after a search.
abbrev after : {A B : Type 0} → Option (Result A) → (A → Option (Result B)) → Option (Result B)
after none f = none
after (some (err e)) f = some (err e)
after (some (ok a)) f = f a

module _ (read_commit : Oid → Result Commit) (read_manifest : Oid → Result Manifest) where
  -- plan_merge from the merge base on.
  merge_tips : (base our_tip their_tip : Oid) → MergeStrategy → Result MergeResult
  unfolding merge_manifests
  merge_tips base our_tip their_tip strategy = do
    our_commit ← read_commit our_tip
    their_commit ← read_commit their_tip
    base_commit ← read_commit base
    our_manifest ← read_manifest our_commit.manifest
    their_manifest ← read_manifest their_commit.manifest
    base_manifest ← read_manifest base_commit.manifest
    merge_manifests strategy base_manifest our_manifest their_manifest

  unfoldable pub plan_merge :
      ℕ → (our_tip their_tip : Oid) → MergeStrategy → Option (Result MergeResult)
  unfolding oid_eq is_ancestor merge_base merge_tips
  plan_merge fuel our_tip their_tip strategy =
      if oid_eq our_tip their_tip
      then some (ok (moved_to our_tip))
      else after (is_ancestor read_commit fuel our_tip their_tip) λ ours_is_ancestor.
        if ours_is_ancestor
        then some (ok (moved_to their_tip))
        else after (is_ancestor read_commit fuel their_tip our_tip) λ theirs_is_ancestor.
          if theirs_is_ancestor
          then some (ok (moved_to our_tip))
          else after (merge_base read_commit fuel our_tip their_tip) λ base_oid. elim base_oid [
            | none ↦ some (err merge_conflict)
            | some base ↦ some (merge_tips base our_tip their_tip strategy)
          ]
