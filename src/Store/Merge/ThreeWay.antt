-- ===== src/Store/Merge/ThreeWay.antt =====
-- The decision on a group against three-way merging: it takes the side that changed.
use synapse_fs.Format.Manifest.{GroupMode, full, delta, DeltaBase, GroupEntry}
use synapse_fs.Core.Oid.{Oid, oid_eq}
use synapse_fs.Store.Merge.{
  same_oid, same_base, same_in_mode, same_content, GroupResolution, unchanged, take_ours,
  take_theirs, conflict, resolve_group, pick,
}
use synapse_fs.Prelude.{◌≡◌, refl, ◌≢◌, ◌⊎◌, Bool, true, false, Option, none, some, arith}
use synapse_fs.Prelude.Bytes.{bytes_eq_comm}

abbrev pub swap_sides : GroupResolution → GroupResolution
swap_sides take_ours = take_theirs
swap_sides take_theirs = take_ours
swap_sides unchanged = unchanged
swap_sides conflict = conflict

oid_eq_comm : (a b : Oid) → oid_eq a b ≡ oid_eq b a
unfolding oid_eq
oid_eq_comm a b = bytes_eq_comm a.raw b.raw

same_oid_comm : (a b : Option Oid) → same_oid a b ≡ same_oid b a
unfolding same_oid
same_oid_comm none none = refl
same_oid_comm none (some b) = refl
same_oid_comm (some a) none = refl
same_oid_comm (some a) (some b) = oid_eq_comm a b

same_base_comm : (a b : Option DeltaBase) → same_base a b ≡ same_base b a
unfolding same_base
same_base_comm none none = refl
same_base_comm none (some b) = refl
same_base_comm (some a) none = refl
same_base_comm (some a) (some b) =
    rw (oid_eq_comm a.commit b.commit, bytes_eq_comm a.group b.group) refl

same_in_mode_comm :
    (m k : GroupMode) (a b : GroupEntry) → same_in_mode m k a b ≡ same_in_mode k m b a
unfolding same_in_mode
same_in_mode_comm full full a b = same_oid_comm a.block b.block
same_in_mode_comm delta delta a b =
    rw (same_oid_comm a.diff_block b.diff_block, same_base_comm a.base b.base) refl
same_in_mode_comm full delta a b = refl
same_in_mode_comm delta full a b = refl

same_content_comm : (a b : GroupEntry) → same_content a b ≡ same_content b a
unfolding same_content
same_content_comm a b = same_in_mode_comm a.mode b.mode a b

-- The decision on a group does not prefer a side: with the sides exchanged it is the decision
-- with the sides exchanged.
pub resolve_group-swap :
    (b o t : Option GroupEntry) → resolve_group b t o ≡ swap_sides (resolve_group b o t)
unfolding resolve_group
resolve_group-swap none none none = refl
resolve_group-swap (some b) none none = refl
resolve_group-swap none none (some t) = refl
resolve_group-swap (some b) none (some t) = refl
resolve_group-swap none (some o) none = refl
resolve_group-swap (some b) (some o) none = refl
resolve_group-swap none (some o) (some t) = let same = same_content_comm o t in ground arith
resolve_group-swap (some b) (some o) (some t) = let same = same_content_comm o t in ground arith

-- Two groups with the same content, or two that are not there.
abbrev pub same_group : Option GroupEntry → Option GroupEntry → Bool
same_group none none = true
same_group (some a) (some b) = same_content a b
same_group none (some b) = false
same_group (some a) none = false

-- Without a conflict a merge keeps ours when the sides agree, and otherwise it takes a side from
-- a base that the other side left as it was. With a conflict the sides differ.
pub resolve_group-three_way :
    (b o t : Option GroupEntry)
    → (resolve_group b o t ≢ conflict
        → ((same_group o t ≡ true) × (pick o t (resolve_group b o t) ≡ o))
          ⊎ (((same_group b o ≡ true) × (pick o t (resolve_group b o t) ≡ t))
              ⊎ ((same_group b t ≡ true) × (pick o t (resolve_group b o t) ≡ o))))
      × (resolve_group b o t ≡ conflict → same_group o t ≡ false)
unfolding resolve_group pick
resolve_group-three_way none none none = ground arith
resolve_group-three_way (some b) none none = ground arith
resolve_group-three_way none none (some t) = ground arith
resolve_group-three_way (some b) none (some t) = ground arith
resolve_group-three_way none (some o) none = ground arith
resolve_group-three_way (some b) (some o) none = ground arith
resolve_group-three_way none (some o) (some t) = ground arith
resolve_group-three_way (some b) (some o) (some t) = ground arith
