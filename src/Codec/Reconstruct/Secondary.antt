-- ===== src/Codec/Reconstruct/Secondary.antt =====
-- resolve_secondary_permutation of modules/codec/src/reconstruct.cpp. The block store and the parser of an
-- artifact are parameters.
use synapse_fs.Core.Kind.{ObjectKind, diff_kind}
use synapse_fs.Prelude.{
  ℕ, ◌+◌, ◌*◌, ◌%◌, ◌^◌, Bool, false, not, ◌&&◌, ◌||◌, Option, none, some, List, [], ◌∷◌, ◌==◌,
  if◌then◌else◌, drop,
}
use synapse_fs.Prelude.Bytes.{Bytes, bytes_eq}
use synapse_fs.Core.Dtype.{dtype_size}
use synapse_fs.Core.Error.{malformed_object, internal, Result, ok, err, ◌>>=◌}
use synapse_fs.Core.Oid.{Oid}
use synapse_fs.Core.Permutation.{expand_permutation}
use synapse_fs.Core.Tensor.{multiply_all, unit_bytes}
use synapse_fs.Core.Topology
use synapse_fs.Core.Topology.{PermGroup, AxisBinding, Topology, lookup}
use synapse_fs.Format.Diff.{identity, explicit, read_permutation}
use synapse_fs.Format.Manifest.{full, delta, GroupEntry, Manifest, find_group}
use synapse_fs.Codec.Reconstruct.{TensorDiff, DiffArtifact, SecondaryAxis, no_secondary, is_empty}

-- The first axis of a tensor that is not its first dimension.
unfoldable pub secondary_binding : List AxisBinding → Option AxisBinding
secondary_binding [] = none
secondary_binding (ax ∷ axes) = if not (ax.dim == 0) then some ax else secondary_binding axes

unfoldable pub owns : Bytes → List AxisBinding → Bool
unfolding bytes_eq
owns group [] = false
owns group (ax ∷ axes) = ((ax.dim == 0) && bytes_eq ax.group group) || owns group axes

-- The first tensor that owns a group by its first dimension; one without a name is passed over.
unfoldable pub owner_of : Bytes → List (Bytes × List AxisBinding) → Option Bytes
unfolding owns is_empty
owner_of group [] = none
owner_of group ((name, axes) ∷ tensors) =
    let rest = owner_of group tensors in
    if owns group axes && not (is_empty name) then some name else rest

unfoldable pub is_pinned : Option PermGroup → Bool
is_pinned none = false
is_pinned (some pg) = pg.pinned

module _ (get_block : Oid → ObjectKind → Result Bytes)
    (parse_diff_artifact : Bytes → Result DiffArtifact) where
  -- The permutation in the owner's artifact, expanded.
  unfoldable pub secondary_from : DiffArtifact → ℕ → ℕ → Result SecondaryAxis
  unfolding read_permutation expand_permutation
  secondary_from artifact block unit_bytes = elim artifact.permutation.kind [
    | identity ↦ ok no_secondary
    | explicit ↦ read_permutation artifact.permutation artifact.payload >>= λ owner_perm.
        ok (record { perm = expand_permutation owner_perm block; unit_bytes = unit_bytes })
  ]

  unfoldable pub secondary_of_group : Option GroupEntry → ℕ → ℕ → Result SecondaryAxis
  unfolding secondary_from
  secondary_of_group none block unit_bytes = err malformed_object
  secondary_of_group (some g) block unit_bytes = elim g.mode [
    | full ↦ ok no_secondary
    | delta ↦ elim g.diff_block [
      | none ↦ err malformed_object
      | some diff ↦ get_block diff diff_kind >>= λ owner_bytes.
          parse_diff_artifact owner_bytes >>= λ artifact. secondary_from artifact block unit_bytes
    ]
  ]

  unfoldable pub secondary_at :
      Topology → Manifest → TensorDiff → Option AxisBinding → Result SecondaryAxis
  unfolding secondary_of_group owner_of is_pinned multiply_all dtype_size
  secondary_at topology manifest tdiff none = ok no_secondary
  secondary_at topology manifest tdiff (some secondary) =
      let trailing = multiply_all 1 (drop (secondary.dim + 1) tdiff.shape) in
      let unit_bytes = trailing % 2 ^ 32 * dtype_size tdiff.dtype % 2 ^ 32 in
      let owned : Result SecondaryAxis = elim (owner_of secondary.group topology.tensors) [
        | none ↦ err internal
        | some owner_name ↦
            secondary_of_group (find_group manifest owner_name) secondary.block unit_bytes
      ] in
      if is_pinned (Topology.lookup secondary.group topology.groups) then ok no_secondary else owned

  unfoldable pub resolve_secondary_permutation :
      Option Topology → Manifest → TensorDiff → Result SecondaryAxis
  unfolding secondary_at secondary_binding
  resolve_secondary_permutation none manifest tdiff = ok no_secondary
  resolve_secondary_permutation (some topology) manifest tdiff =
      elim (Topology.lookup tdiff.shape_name topology.tensors) [
        | none ↦ ok no_secondary
        | some axes ↦ secondary_at topology manifest tdiff (secondary_binding axes)
      ]
