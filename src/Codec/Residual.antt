-- ===== src/Codec/Residual.antt =====
-- modules/codec/src/kernels/residual_scalar.cpp (the scalar kernels, which the vectorised ones
-- must reproduce) and the encoder's zigzag_encode of modules/codec/src/diff_encoder.cpp.
pub mod Zigzag
use Prim.Native.Nat.{bit_xor}
use synapse_fs.Prelude.{
  ℕ, zero, suc, ◌+◌, ◌-◌, ◌*◌, ◌/◌, ◌%◌, ◌^◌, [], ◌∷◌, ◌++◌, leb, ◌==◌, if◌then◌else◌, take, drop,
}
use synapse_fs.Prelude.Bytes.{Bytes}
use synapse_fs.Core.Endian.{from_le, store_le}

-- xor_apply_scalar and xor_encode_scalar are one loop over `n` bytes.
unfoldable pub xor_apply : Bytes → Bytes → Bytes
xor_apply [] resid = []
xor_apply (b ∷ bs) [] = []
xor_apply (b ∷ bs) (r ∷ rs) = bit_xor b r ∷ xor_apply bs rs

unfoldable pub xor_encode : Bytes → Bytes → Bytes
xor_encode [] target = []
xor_encode (b ∷ bs) [] = []
xor_encode (b ∷ bs) (t ∷ ts) = bit_xor b t ∷ xor_encode bs ts

-- One element of zigzag_apply_width, for an unsigned type of `m` values:
-- `mask = ~(z & 1) + 1`, `delta_bits = (z >> 1) ^ mask`, `t = b + delta_bits`.
unfoldable pub zigzag_apply_elem : ℕ → ℕ → ℕ → ℕ
zigzag_apply_elem m b z =
    let mask = (m - 1 - z % 2 + 1) % m in
    let delta_bits = bit_xor (z / 2) mask in (b + delta_bits) % m

-- One element of zigzag_encode_width: `delta_bits = t - b`,
-- `sign_mask = (delta_bits & kTop) ? ~0 : 0`, `z = (delta_bits << 1) ^ sign_mask`. The shift is
-- made on the promoted operand and the result is narrowed.
unfoldable pub zigzag_encode_elem : ℕ → ℕ → ℕ → ℕ
zigzag_encode_elem m b t =
    let delta_bits = (t + m - b) % m in
    let sign_mask = if leb (m / 2) delta_bits then m - 1 else 0 in
    bit_xor (2 * delta_bits) sign_mask % m

-- zigzag_apply_width for an unsigned type of `w` bytes: `count` elements of `dst` are written, and
-- what stands behind them is left.
unfoldable pub zigzag_apply_width : ℕ → ℕ → Bytes → Bytes → Bytes → Bytes
unfolding zigzag_apply_elem
zigzag_apply_width w zero dst base resid = dst
zigzag_apply_width w (suc count) dst base resid =
    store_le w (zigzag_apply_elem (256 ^ w) (from_le (take w base)) (from_le (take w resid)))
    ++ zigzag_apply_width w count (drop w dst) (drop w base) (drop w resid)

unfoldable pub zigzag_encode_width : ℕ → ℕ → Bytes → Bytes → Bytes → Bytes
unfolding zigzag_encode_elem
zigzag_encode_width w zero dst base target = dst
zigzag_encode_width w (suc count) dst base target =
    store_le w (zigzag_encode_elem (256 ^ w) (from_le (take w base)) (from_le (take w target)))
    ++ zigzag_encode_width w count (drop w dst) (drop w base) (drop w target)

-- The `switch` on the element width; another width writes nothing.
unfoldable pub zigzag_apply : Bytes → Bytes → Bytes → ℕ → ℕ → Bytes
unfolding zigzag_apply_width
zigzag_apply dst base resid n elem_bytes =
    if elem_bytes == 1
    then zigzag_apply_width 1 (n / 1) dst base resid
    else if elem_bytes == 2
    then zigzag_apply_width 2 (n / 2) dst base resid
    else if elem_bytes == 4
    then zigzag_apply_width 4 (n / 4) dst base resid
    else if elem_bytes == 8
    then zigzag_apply_width 8 (n / 8) dst base resid
    else dst

unfoldable pub zigzag_encode : Bytes → Bytes → Bytes → ℕ → ℕ → Bytes
unfolding zigzag_encode_width
zigzag_encode dst base target n elem_bytes =
    if elem_bytes == 1
    then zigzag_encode_width 1 (n / 1) dst base target
    else if elem_bytes == 2
    then zigzag_encode_width 2 (n / 2) dst base target
    else if elem_bytes == 4
    then zigzag_encode_width 4 (n / 4) dst base target
    else if elem_bytes == 8
    then zigzag_encode_width 8 (n / 8) dst base target
    else dst
