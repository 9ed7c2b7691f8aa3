-- ===== src/Format/Manifest.antt =====
-- modules/format/include/synapsefs/format/manifest.hpp and Manifest::validate of
-- modules/format/src/manifest.cpp: the layout of a checkpoint file, and its groups. A std::map is
-- the list of its pairs in key order. The sha256 witness and the JSON text are left out.
pub mod Layout
use synapse_fs.Prelude.{
  ℕ, ◌+◌, ◌%◌, ◌^◌, max, not, Option, none, some, List, [], ◌∷◌, ◌==◌, if◌then◌else◌,
}
use synapse_fs.Prelude.Bytes.{Bytes, bytes_eq}
use synapse_fs.Core.Oid.{Oid}
use synapse_fs.Core.Error.{
  malformed_object, tensor_not_in_buffer_layout, Result, ok, err, Status, ◌>>=◌, ◌>>◌,
}

pub data GroupMode : Type 0 where
  full delta : GroupMode

pub record DeltaBase : Type 0 where
  pub commit : Oid
  pub group : Bytes

pub record GroupEntry : Type 0 where
  pub mode : GroupMode
  pub block : Option Oid
  pub base : Option DeltaBase
  pub diff_block : Option Oid
  pub chain_depth : ℕ

pub record BufferEntry : Type 0 where
  pub tensor : Bytes
  pub off : ℕ
  pub nbytes : ℕ
  pub group : Bytes

pub record FileInfo : Type 0 where
  pub name : Bytes
  pub header_block : Oid
  pub total_bytes : ℕ

pub record Manifest : Type 0 where
  pub format_version : ℕ
  pub file : FileInfo
  pub buffer : List BufferEntry
  pub groups : List (Bytes × GroupEntry)

unfoldable pub lookup_group : Bytes → List (Bytes × GroupEntry) → Option GroupEntry
unfolding bytes_eq
lookup_group name [] = none
lookup_group name ((key, g) ∷ gs) = if bytes_eq key name then some g else lookup_group name gs

unfoldable pub find_group : Manifest → Bytes → Option GroupEntry
unfolding lookup_group
find_group m name = lookup_group name m.groups

-- The loop over the buffer with its `cursor`, a uint64_t; the result is the last cursor.
unfoldable pub check_buffer : List (Bytes × GroupEntry) → ℕ → List BufferEntry → Result ℕ
unfolding lookup_group
check_buffer groups cursor [] = ok cursor
check_buffer groups cursor (e ∷ es) =
    let rest = check_buffer groups ((cursor + e.nbytes) % 2 ^ 64) es in
    if not (e.off == cursor)
    then err tensor_not_in_buffer_layout
    else if e.nbytes == 0
    then err tensor_not_in_buffer_layout
    else elim (lookup_group e.group groups) [ none ↦ err malformed_object | some g ↦ rest ]

unfoldable pub check_group : GroupEntry → Status
check_group g = elim g.mode [
  | full ↦ elim g.block [
    | none ↦ err malformed_object
    | some b ↦ if not (g.chain_depth == 0) then err malformed_object else ok tt
  ]
  | delta ↦ elim g.base [
    | none ↦ err malformed_object
    | some b ↦ elim g.diff_block [ none ↦ err malformed_object | some d ↦ ok tt ]
  ]
]

unfoldable pub check_groups : List (Bytes × GroupEntry) → Status
unfolding check_group
check_groups [] = ok tt
check_groups ((name, g) ∷ gs) = check_group g >> check_groups gs

pub validate_buffer : List BufferEntry → Manifest → Status
unfolding check_buffer check_groups
validate_buffer [] m = err malformed_object
validate_buffer (e ∷ es) m = do
  cursor ← check_buffer m.groups e.off (e ∷ es)
  if not (cursor == m.file.total_bytes)
      then err tensor_not_in_buffer_layout
      else check_groups m.groups

unfoldable pub validate : Manifest → Status
unfolding validate_buffer
validate m = validate_buffer m.buffer m

-- `std::max` over the groups.
unfoldable pub max_depth_from : ℕ → List (Bytes × GroupEntry) → ℕ
max_depth_from m [] = m
max_depth_from m ((name, g) ∷ gs) = max_depth_from (max m g.chain_depth) gs

unfoldable pub max_chain_depth : Manifest → ℕ
unfolding max_depth_from
max_chain_depth m = max_depth_from 0 m.groups
