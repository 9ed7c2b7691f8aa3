-- ===== src/Format/Diff.antt =====
-- modules/format/include/synapsefs/format/residual_hdr.hpp and modules/format/src/residual_hdr.cpp:
-- the frames of a tensor in a diff artifact, and the permutation that is stored with it, which
-- modules/codec/src/diff_encoder.cpp writes. The JSON text of the header is left out, and with it the fields that only the text carries.
pub mod Tiling
pub mod StoredPermutation
use synapse_fs.Prelude.{
  ℕ, zero, suc, ◌+◌, ◌*◌, ◌%◌, ◌^◌, Bool, true, false, not, ◌&&◌, Option, none, some, List, [], ◌∷◌,
  ◌++◌, ltb, leb, ◌==◌, if◌then◌else◌, length,
}
use synapse_fs.Prelude.Bytes.{Bytes}
use synapse_fs.Core.Error.{malformed_object, invalid_permutation, Result, ok, err, Status}
use synapse_fs.Core.Endian.{store_le, load_le}
use synapse_fs.Core.Permutation.{is_valid_permutation}

pub record FrameIndexEntry : Type 0 where
  pub unit_begin : ℕ
  pub unit_end : ℕ
  pub off : ℕ
  pub len : ℕ
  pub digest : Bytes

-- The loop of validate_tiling over neighbours, which is left at the last frame, and then the test
-- of that frame.
unfoldable pub check_frames : ℕ → FrameIndexEntry → List FrameIndexEntry → Status
check_frames group_size f [] =
    if not (f.unit_end == group_size) then err malformed_object else ok tt
check_frames group_size f (g ∷ gs) =
    let rest = check_frames group_size g gs in
    if not (f.unit_end == g.unit_begin) then err malformed_object else rest

unfoldable pub validate_tiling : List FrameIndexEntry → ℕ → Status
unfolding check_frames
validate_tiling [] group_size = if group_size == 0 then ok tt else err malformed_object
validate_tiling (f ∷ fs) group_size =
    if not (f.unit_begin == 0) then err malformed_object else check_frames group_size f fs

-- The scan of frame_for_unit from the index `i` on; npos is `none`.
unfoldable pub frame_from : ℕ → List FrameIndexEntry → ℕ → Option ℕ
frame_from i [] unit = none
frame_from i (f ∷ fs) unit =
    let rest = frame_from (i + 1) fs unit in
    if leb f.unit_begin unit && ltb unit f.unit_end then some i else rest

unfoldable pub frame_for_unit : List FrameIndexEntry → ℕ → Option ℕ
unfolding frame_from
frame_for_unit frames unit = frame_from 0 frames unit

pub data PermKind : Type 0 where
  identity explicit : PermKind

pub record PermutationRef : Type 0 where
  pub kind : PermKind
  pub n : ℕ
  pub width : ℕ
  pub off : ℕ
  pub len : ℕ

-- The loop of read_permutation from the index `i` on: a width of 2 reads two bytes, every other
-- width four.
unfoldable pub read_values : ℕ → Bytes → ℕ → ℕ → ℕ → List ℕ
unfolding load_le
read_values width payload p i zero = []
read_values width payload p i (suc left) =
    (if width == 2 then load_le 2 payload (p + i * 2) else load_le 4 payload (p + i * 4))
    ∷ read_values width payload p (i + 1) left

-- The product and the sum are of type uint64_t.
unfoldable pub read_permutation : PermutationRef → Bytes → Result (List ℕ)
unfolding read_values is_valid_permutation
read_permutation ref payload = elim ref.kind [
  | identity ↦ ok []
  | explicit ↦
      let out = read_values ref.width payload ref.off 0 ref.n in
      if not (ref.len == ref.n * ref.width % 2 ^ 64)
      then err malformed_object
      else if ltb (length payload) ((ref.off + ref.len) % 2 ^ 64)
      then err malformed_object
      else if not (is_valid_permutation out ref.n)
      then err invalid_permutation
      else ok out
]

-- The loop that looks for an index that is moved, from `i` on.
unfoldable pub identity_from : ℕ → List ℕ → Bool
identity_from i [] = true
identity_from i (p ∷ ps) = if not (p == i) then false else identity_from (i + 1) ps

-- The loop of write_permutation, which fills the bytes that the payload was grown by.
unfoldable pub write_values : ℕ → List ℕ → Bytes
unfolding store_le
write_values width [] = []
write_values width (p ∷ ps) = store_le (if width == 2 then 2 else 4) p ++ write_values width ps

unfoldable pub width_for : ℕ → ℕ
width_for n = if leb n 65536 then 2 else 4

abbrev pub identity_ref : ℕ → PermutationRef
identity_ref n = record { kind = identity; n = n; width = 2; off = 0; len = 0 }

abbrev pub explicit_ref : ℕ → ℕ → PermutationRef
explicit_ref n off = record {
  kind = explicit;
  n = n;
  width = width_for n;
  off = off;
  len = n * width_for n;
}

-- The reference, and the payload after.
unfoldable pub write_permutation : Bytes → List ℕ → PermutationRef × Bytes
unfolding identity_from write_values width_for
write_permutation payload perm =
    let n = length perm % 2 ^ 32 in
    if identity_from 0 perm
    then (identity_ref n, payload)
    else (explicit_ref n (length payload), payload ++ write_values (width_for n) perm)
