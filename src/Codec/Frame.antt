-- ===== src/Codec/Frame.antt =====
-- The bytes of a frame, as they are before compression: apply_residual of
-- modules/codec/src/residual_codec.cpp, the encoder's part of a frame in encode_group of
-- modules/codec/src/diff_encoder.cpp, and the bit shuffle of modules/codec/src/compress.cpp.
pub mod RoundTrip
use Prim.Native.Nat.{bit_or}
use synapse_fs.Prelude.{
  ℕ, zero, suc, ◌+◌, ◌*◌, ◌/◌, ◌%◌, ◌^◌, not, ◌||◌, ◌++◌, ◌==◌, if◌then◌else◌, length, set, get_or,
  drop, replicate,
}
use synapse_fs.Prelude.Bytes.{Bytes}
use synapse_fs.Core.Dtype.{DType, dtype_size}
use synapse_fs.Core.Error.{malformed_object, unsupported_dtype, internal, Result, ok, err}
use synapse_fs.Codec.Planes.{whole_elems, copy_range, byteplane_split, byteplane_join}
use synapse_fs.Codec.Residual.{xor_apply, xor_encode, zigzag_apply, zigzag_encode}

pub data ResidualKind : Type 0 where
  raw : ResidualKind
  xor_after_permute : ResidualKind
  zigzag_after_permute : ResidualKind

pub data Transform : Type 0 where
  no_transform : Transform
  byte_plane : Transform
  bit_shuffle : Transform

-- `(v >> k) & 1`.
abbrev pub bit_at : ℕ → ℕ → ℕ
bit_at v k = v / 2 ^ k % 2

-- The loop over the 8 elements of group `g`, from `k` on: bit `bit` of each goes to bit `k`.
unfoldable pub pack_group : Bytes → ℕ → ℕ → ℕ → ℕ → ℕ → ℕ → ℕ
pack_group src elem_bytes bit g packed k zero = packed
pack_group src elem_bytes bit g packed k (suc left) =
    let byte_val = get_or src ((g * 8 + k) * elem_bytes + bit / 8) 0 in
    pack_group src elem_bytes bit g (bit_or packed (bit_at byte_val (bit % 8) * 2 ^ k) % 256)
      (k + 1) left

-- The loop over the groups of a plane, from `g` on.
unfoldable pub pack_plane : Bytes → ℕ → ℕ → ℕ → Bytes → ℕ → ℕ → Bytes
unfolding pack_group
pack_plane src elem_bytes bytes_per_plane bit dst g zero = dst
pack_plane src elem_bytes bytes_per_plane bit dst g (suc left) =
    pack_plane src elem_bytes bytes_per_plane bit
      (set dst (bit * bytes_per_plane + g) (pack_group src elem_bytes bit g 0 0 8)) (g + 1) left

-- The loop over the bits of an element, from `bit` on.
unfoldable pub pack_planes : Bytes → ℕ → ℕ → Bytes → ℕ → ℕ → Bytes
unfolding pack_plane
pack_planes src elem_bytes bytes_per_plane dst bit zero = dst
pack_planes src elem_bytes bytes_per_plane dst bit (suc left) =
    pack_planes src elem_bytes bytes_per_plane
      (pack_plane src elem_bytes bytes_per_plane bit dst 0 bytes_per_plane) (bit + 1) left

unfoldable pub bitshuffle : Bytes → Bytes → ℕ → Bytes
unfolding pack_planes whole_elems
bitshuffle src dst elem_bytes =
    let bytes_per_plane = whole_elems (length src) elem_bytes / 8 in
    let total_bits = elem_bytes * 8 in
    if (elem_bytes == 0) || (length src == 0)
    then copy_range 0 (length src) src dst
    else copy_range (total_bits * bytes_per_plane) (length src) src
        (pack_planes src elem_bytes bytes_per_plane dst 0 total_bits)

-- The loop over the bits of a packed byte, from `k` on.
unfoldable pub unpack_group : ℕ → ℕ → ℕ → ℕ → Bytes → ℕ → ℕ → Bytes
unpack_group packed elem_bytes bit g dst k zero = dst
unpack_group packed elem_bytes bit g dst k (suc left) =
    let at = (g * 8 + k) * elem_bytes + bit / 8 in
    unpack_group packed elem_bytes bit g
      (set dst at (bit_or (get_or dst at 0) (bit_at packed k * 2 ^ (bit % 8)))) (k + 1) left

unfoldable pub unpack_plane : Bytes → ℕ → ℕ → ℕ → Bytes → ℕ → ℕ → Bytes
unfolding unpack_group
unpack_plane src elem_bytes bytes_per_plane bit dst g zero = dst
unpack_plane src elem_bytes bytes_per_plane bit dst g (suc left) =
    let packed = get_or src (bit * bytes_per_plane + g) 0 in
    unpack_plane src elem_bytes bytes_per_plane bit (unpack_group packed elem_bytes bit g dst 0 8)
      (g + 1) left

unfoldable pub unpack_planes : Bytes → ℕ → ℕ → Bytes → ℕ → ℕ → Bytes
unfolding unpack_plane
unpack_planes src elem_bytes bytes_per_plane dst bit zero = dst
unpack_planes src elem_bytes bytes_per_plane dst bit (suc left) =
    unpack_planes src elem_bytes bytes_per_plane
      (unpack_plane src elem_bytes bytes_per_plane bit dst 0 bytes_per_plane) (bit + 1) left

unfoldable pub bitunshuffle : Bytes → Bytes → ℕ → Bytes
unfolding unpack_planes whole_elems
bitunshuffle src dst elem_bytes =
    let bytes_per_plane = whole_elems (length dst) elem_bytes / 8 in
    let total_bits = elem_bytes * 8 in
    let shuffled_bytes = total_bits * bytes_per_plane in
    let zeroed = replicate shuffled_bytes 0 ++ drop shuffled_bytes dst in
    if (elem_bytes == 0) || (length src == 0)
    then copy_range 0 (length src) src dst
    else copy_range shuffled_bytes (length dst) src
        (unpack_planes src elem_bytes bytes_per_plane zeroed 0 total_bits)

-- The transform is undone into a vector of zeros.
unfoldable pub untransform : Transform → Bytes → ℕ → Bytes
unfolding byteplane_join bitunshuffle
untransform no_transform residual elem_bytes = residual
untransform byte_plane residual elem_bytes =
    byteplane_join residual (replicate (length residual) 0) elem_bytes
untransform bit_shuffle residual elem_bytes =
    bitunshuffle residual (replicate (length residual) 0) elem_bytes

-- The `switch` of apply_residual, with what `out` holds after.
unfoldable pub apply_kind : ResidualKind → ℕ → Bytes → Bytes → Bytes → Result Bytes
unfolding xor_apply zigzag_apply
apply_kind raw elem_bytes base payload out = ok (payload ++ drop (length payload) out)
apply_kind xor_after_permute elem_bytes base payload out =
    if not (length base == length payload)
    then err malformed_object
    else ok (xor_apply base payload)
apply_kind zigzag_after_permute elem_bytes base payload out =
    if not (length base == length payload)
    then err malformed_object
    else if not (length payload % elem_bytes == 0)
    then err malformed_object
    else ok (zigzag_apply out base payload (length out) elem_bytes)

unfoldable pub apply_residual :
    ResidualKind → Transform → DType → Bytes → Bytes → Bytes → Result Bytes
unfolding dtype_size untransform apply_kind
apply_residual kind transform dtype base residual out =
    if not (length out == length residual)
    then err internal
    else if dtype_size dtype == 0
    then err unsupported_dtype
    else apply_kind kind (dtype_size dtype) base (untransform transform residual (dtype_size dtype))
        out

-- The residual of a frame in encode_group, into a vector of zeros.
unfoldable pub encode_residual : ResidualKind → ℕ → Bytes → Bytes → Bytes
unfolding xor_encode zigzag_encode
encode_residual raw elem_bytes base_gathered target = target
encode_residual xor_after_permute elem_bytes base_gathered target = xor_encode base_gathered target
encode_residual zigzag_after_permute elem_bytes base_gathered target =
    zigzag_encode (replicate (length target) 0) base_gathered target (length target) elem_bytes

unfoldable pub transformed : Transform → Bytes → ℕ → Bytes
unfolding byteplane_split bitshuffle
transformed no_transform resid elem_bytes = resid
transformed byte_plane resid elem_bytes =
    byteplane_split resid (replicate (length resid) 0) elem_bytes
transformed bit_shuffle resid elem_bytes = bitshuffle resid (replicate (length resid) 0) elem_bytes

-- The bytes of a frame that go to the compression.
unfoldable pub encode_frame : ResidualKind → Transform → DType → Bytes → Bytes → Bytes
unfolding encode_residual transformed dtype_size
encode_frame kind transform dtype base_gathered target =
    transformed transform (encode_residual kind (dtype_size dtype) base_gathered target)
      (dtype_size dtype)
