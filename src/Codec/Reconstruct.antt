-- ===== src/Codec/Reconstruct.antt =====
-- modules/codec/src/reconstruct.cpp: the bytes of a group of tensors, from its block or from the
-- base that its delta names: the frames of a tensor. The decompression and the digest are
-- parameters, and so is the reading of the base group, which is the reading of a group again. A
-- reader returns the bytes that it was asked for with the number that it counted as written.
pub mod Secondary
pub mod Group
pub mod Frames
pub mod Whole
pub mod Clip
pub mod Chain
mod Runs
use synapse_fs.Prelude.{
  ℕ, zero, suc, ◌+◌, ◌-◌, ◌*◌, ◌/◌, ◌%◌, ◌^◌, min, max, Bool, true, false, not, ◌||◌, List, [], ◌∷◌,
  ◌++◌, leb, ◌==◌, if◌then◌else◌, length, take, drop, replicate,
}
use synapse_fs.Prelude.Bytes.{Bytes, bytes_eq}
use synapse_fs.Core.Dtype.{DType, dtype_size}
use synapse_fs.Core.Endian.{write_at}
use synapse_fs.Core.Error.{
  malformed_object, frame_digest_mismatch, block_factor_mismatch, Result, ok, err, ◌>>=◌, ◌>>◌,
  guard,
}
use synapse_fs.Core.Permutation.{expand_permutation}
use synapse_fs.Core.Tensor.{multiply_all}
use synapse_fs.Core.Topology
use synapse_fs.Core.Topology.{Topology}
use synapse_fs.Codec.Frame.{ResidualKind, Transform, apply_residual}
use synapse_fs.Codec.Gather.{gather_base_bytes}
use synapse_fs.Codec.Permute.{permute_units}
use synapse_fs.Format.Diff.{FrameIndexEntry, identity, explicit, PermutationRef, read_permutation}

pub record TensorDiff : Type 0 where
  pub shape_name : Bytes
  pub shape : List ℕ
  pub dtype : DType
  pub residual : ResidualKind
  pub transform : Transform
  pub frames : List FrameIndexEntry

-- The parts of a diff artifact that the reader looks at.
pub record DiffArtifact : Type 0 where
  pub permutation : PermutationRef
  pub tensors : List TensorDiff
  pub payload : Bytes

pub record SecondaryAxis : Type 0 where
  pub perm : List ℕ
  pub unit_bytes : ℕ

abbrev pub no_secondary : SecondaryAxis
no_secondary = record { perm = []; unit_bytes = 0 }

unfoldable pub is_empty {ℓ} : {A : Type ℓ} → List A → Bool
is_empty [] = true
is_empty (x ∷ xs) = false

-- The loop over the rows of a frame; `scratch` is used again for each.
unfoldable pub permute_rows : SecondaryAxis → ℕ → Bytes → Bytes → ℕ → ℕ → Bytes
unfolding permute_units
permute_rows secondary unit_bytes base scratch r zero = []
permute_rows secondary unit_bytes base scratch r (suc left) =
    let row = take unit_bytes (drop (r * unit_bytes) base) in
    let scratch' = permute_units scratch row secondary.perm secondary.unit_bytes in
    scratch' ++ permute_rows secondary unit_bytes base scratch' (r + 1) left

unfoldable pub permute_columns : SecondaryAxis → ℕ → Bytes → FrameIndexEntry → Bytes
unfolding permute_rows is_empty
permute_columns secondary unit_bytes base frame =
    if is_empty secondary.perm
    then base
    else permute_rows secondary unit_bytes base (replicate unit_bytes 0) 0
        ((frame.unit_end + 2 ^ 64 - frame.unit_begin) % 2 ^ 64)

unfoldable pub last_end : FrameIndexEntry → List FrameIndexEntry → ℕ
last_end f [] = f.unit_end
last_end f (g ∷ gs) = last_end g gs

-- The primary permutation, at the granularity of the tensor's axis.
unfoldable pub expanded_for : PermutationRef → Bytes → ℕ → Result (List ℕ)
unfolding read_permutation expand_permutation
expanded_for ref payload axis_length = elim ref.kind [
  | identity ↦ ok []
  | explicit ↦ read_permutation ref payload >>= λ group_perm.
      if (ref.n == 0) || not (axis_length % ref.n == 0)
      then err block_factor_mismatch
      else ok (expand_permutation group_perm (axis_length / ref.n % 2 ^ 32))
]

module _ (digest : Bytes → Bytes) (decompress_frame : Bytes → ℕ → Result Bytes)
    (read_base : ℕ → ℕ → Result (Bytes × ℕ)) where
  unfoldable pub checked_frame : FrameIndexEntry → Bytes → Result Bytes
  unfolding bytes_eq
  checked_frame frame bytes =
      if bytes_eq (digest bytes) frame.digest then ok bytes else err frame_digest_mismatch

  -- The frame's bytes of the target, with their digest checked.
  unfoldable pub reconstruct_frame :
      Bytes → List ℕ → SecondaryAxis → TensorDiff → ℕ → FrameIndexEntry → Result Bytes
  unfolding gather_base_bytes permute_columns apply_residual checked_frame
  reconstruct_frame payload expanded_perm secondary tdiff unit_bytes frame = do
    let frame_begin = frame.unit_begin * unit_bytes % 2 ^ 64
    let frame_end = frame.unit_end * unit_bytes % 2 ^ 64
    let raw_bytes = (frame_end + 2 ^ 64 - frame_begin) % 2 ^ 64
    guard (leb ((frame.off + frame.len) % 2 ^ 64) (length payload)) malformed_object
    base ← gather_base_bytes read_base expanded_perm frame.unit_begin frame.unit_end unit_bytes
    decompressed ← decompress_frame (take frame.len (drop frame.off payload)) raw_bytes
    guard (length decompressed == raw_bytes) malformed_object
    bytes ←
        apply_residual tdiff.residual tdiff.transform tdiff.dtype
          (permute_columns secondary unit_bytes base frame) decompressed (replicate raw_bytes 0)
    checked_frame frame bytes

  -- The loop over the frames: `out` is what the caller asked for, from `local_offset` on.
  unfoldable pub read_frames :
      Bytes
      → List ℕ
      → SecondaryAxis
      → TensorDiff
      → ℕ
      → ℕ
      → List FrameIndexEntry
      → Bytes
      → ℕ
      → Result (Bytes × ℕ)
  unfolding reconstruct_frame write_at
  read_frames payload expanded_perm secondary tdiff unit_bytes local_offset [] out written =
      ok (out, written)
  read_frames payload expanded_perm secondary tdiff unit_bytes local_offset (frame ∷ frames) out
        written =
      let want_end = (local_offset + length out) % 2 ^ 64 in
      let frame_begin = frame.unit_begin * unit_bytes % 2 ^ 64 in
      let frame_end = frame.unit_end * unit_bytes % 2 ^ 64 in
      let lo = max frame_begin local_offset in
      let hi = min frame_end want_end in
      let skip =
        read_frames payload expanded_perm secondary tdiff unit_bytes local_offset frames out
          written in
      let copied : Result (Bytes × ℕ) =
        reconstruct_frame payload expanded_perm secondary tdiff unit_bytes frame >>= λ bytes.
        read_frames payload expanded_perm secondary tdiff unit_bytes local_offset frames
          (write_at out (lo - local_offset) (take (hi - lo) (drop (lo - frame_begin) bytes)))
          (written + (hi - lo)) in
      if leb frame_end local_offset || leb want_end frame_begin then skip else copied

  unfoldable pub read_units :
      DiffArtifact
      → TensorDiff
      → Result SecondaryAxis
      → ℕ
      → FrameIndexEntry
      → List FrameIndexEntry
      → Bytes
      → Result (Bytes × ℕ)
  unfolding read_frames expanded_for last_end is_empty multiply_all dtype_size
  read_units artifact tdiff secondary_r local_offset f fs out = do
    let axis_length = last_end f fs
    let tensor_bytes = multiply_all 1 tdiff.shape * dtype_size tdiff.dtype % 2 ^ 64
    guard (not ((axis_length == 0) || not (tensor_bytes % axis_length == 0))) malformed_object
    let unit_bytes = tensor_bytes / axis_length
    expanded_perm ← expanded_for artifact.permutation artifact.payload axis_length
    secondary ← secondary_r
    guard
        (is_empty secondary.perm
          || unit_bytes == length secondary.perm * secondary.unit_bytes % 2 ^ 64)
        block_factor_mismatch
    read_frames artifact.payload expanded_perm secondary tdiff unit_bytes local_offset (f ∷ fs) out
        0

  unfoldable pub read_tensor_range :
      DiffArtifact → TensorDiff → Result SecondaryAxis → ℕ → Bytes → Result (Bytes × ℕ)
  unfolding read_units
  read_tensor_range artifact tdiff secondary_r local_offset out = elim tdiff.frames [
    | [] ↦ err malformed_object
    | f ∷ fs ↦ read_units artifact tdiff secondary_r local_offset f fs out
  ]
