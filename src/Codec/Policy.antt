-- ===== src/Codec/Policy.antt =====
-- modules/codec/include/synapsefs/codec/snapshot_policy.hpp and modules/codec/src/snapshot_policy.cpp:
-- when a group is stored full. The comparison of doubles `delta > snapshot_alpha * full` is a
-- parameter.
use synapse_fs.Prelude.{
  ℕ, ◌+◌, ◌%◌, ◌^◌, ◌≤◌, ◌<◌, ◌≡◌, ◌↔◌, Bool, true, false, not, arith, ltb, if◌then◌else◌,
}
use synapse_fs.Prelude.Bits.{mod_small}

pub data StorageDecision : Type 0 where
  delta full_no_base full_not_alignable full_chain_too_deep full_delta_too_large : StorageDecision

unfoldable pub is_full : StorageDecision → Bool
is_full delta = false
is_full _ = true

pub record SnapshotInputs : Type 0 where
  pub has_base : Bool
  pub alignable : Bool
  pub base_chain_depth : ℕ
  pub delta_bytes : ℕ
  pub full_bytes : ℕ

-- `base_chain_depth + 1` is a uint32_t, and wraps.
unfoldable pub decide :
    (exceeds : ℕ → ℕ → Bool) → (max_chain_depth : ℕ) → SnapshotInputs → StorageDecision
decide exceeds max_chain_depth i =
    if not i.has_base
    then full_no_base
    else if not i.alignable
    then full_not_alignable
    else if ltb max_chain_depth ((i.base_chain_depth + 1) % 2 ^ 32)
    then full_chain_too_deep
    else if exceeds i.delta_bytes i.full_bytes
    then full_delta_too_large
    else delta

-- A group is stored as a delta exactly when it has a base, is alignable, the chain behind it has
-- room for one more, and the delta is not too large; a depth that a uint32_t can count on is
-- assumed.
pub decide-eq-delta :
    (exceeds : ℕ → ℕ → Bool) (max_chain_depth : ℕ) (i : SnapshotInputs)
    → i.base_chain_depth + 1 < 2 ^ 32
    → (decide exceeds max_chain_depth i ≡ delta) ↔ (
        (i.has_base ≡ true)
        × (i.alignable ≡ true)
        × (i.base_chain_depth + 1 ≤ max_chain_depth)
        × (exceeds i.delta_bytes i.full_bytes ≡ false))
unfolding decide
decide-eq-delta exceeds m i h = ground (arith, mod_small (2 ^ 32) (i.base_chain_depth + 1) h)
