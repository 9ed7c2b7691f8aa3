-- ===== src/Codec/Frame/RoundTrip.antt =====
-- The reader's apply_residual undoes the encoder's frame.
use synapse_fs.Core.Dtype.{
  DType, f16, bf16, f32, f64, i8, i16, i32, i64, u8, u16, u32, u64, bool, dtype_size,
}
use synapse_fs.Core.Endian.{from_le, store_le, length-store_le}
use synapse_fs.Codec.Planes.{
  Move, copy, whole_elems, outer_loop, split_move, copy_range, byteplane_split,
}
use synapse_fs.Codec.Planes.RoundTrip.{byteplane_join-split}
use synapse_fs.Codec.Residual.{
  xor_encode, zigzag_encode_elem, zigzag_apply_width, zigzag_encode_width, zigzag_apply,
  zigzag_encode,
}
use synapse_fs.Codec.Residual.Zigzag.{xor_apply-xor_encode, zigzag_apply_width-encode}
use synapse_fs.Codec.Frame.{
  ResidualKind, raw, xor_after_permute, zigzag_after_permute, Transform, no_transform, byte_plane,
  bit_shuffle, untransform, apply_kind, apply_residual, encode_residual, transformed, encode_frame,
}
use synapse_fs.Prelude.{
  ℕ, zero, suc, ◌-◌, ◌*◌, ◌/◌, ◌%◌, ◌^◌, ◌≡◌, refl, sym, ap, ◌∙◌, ◌≢◌, ◌⊎◌, inl, inr, true, false,
  List, [], ◌∷◌, ◌++◌, arith, leb, ◌==◌, Bool-cases, length, set, length-append, length-set, get_or,
  take, drop, replicate, length-take, length-drop, length-replicate, drop_all,
}
use synapse_fs.Prelude.Bytes.{Bytes, IsBytes}
use synapse_fs.Core.Error.{ok}
use mathlib.Core.List.{append-nil}

length-copy : (ms : List Move) (src dst : Bytes) → length (copy ms src dst) ≡ length dst
unfolding copy
length-copy [] src dst = refl
length-copy (m ∷ ms) src dst =
    length-copy ms src (set dst m.to (get_or src m.from 0))
    ∙ length-set dst m.to (get_or src m.from 0)

length-copy_range :
    (off : ℕ) (src dst : Bytes)
    → length dst ≡ length src
    → length (copy_range off (length src) src dst) ≡ length src
length-copy_range off src dst h = omega (
  arith,
  length-append (take off dst) (take (length src - off) (drop off src) ++ drop (length src) dst),
  length-append (take (length src - off) (drop off src)) (drop (length src) dst),
  length-take off dst,
  length-take (length src - off) (drop off src),
  length-drop off src,
  length-drop (length src) dst,
)

length-byteplane_split :
    (src dst : Bytes) (e : ℕ)
    → length dst ≡ length src
    → length (byteplane_split src dst e) ≡ length src
unfolding byteplane_split
length-byteplane_split src dst e h = elim (Bool-cases (leb e 1)) [
  | inl small ↦ rw (small) (length-copy_range 0 src dst h)
  | inr wide ↦
      let n = whole_elems (length src) e in
      let moved = copy (outer_loop (split_move e n) n 0 e) src dst in
      rw (wide) (
        length-copy_range (e * n) src moved
          (length-copy (outer_loop (split_move e n) n 0 e) src dst ∙ h))
]

length-xor_encode :
    (base target : Bytes)
    → length base ≡ length target
    → length (xor_encode base target) ≡ length target
unfolding xor_encode
length-xor_encode [] [] h = refl
length-xor_encode [] (t ∷ ts) h = absurd (omega arith)
length-xor_encode (b ∷ bs) [] h = absurd (omega arith)
length-xor_encode (b ∷ bs) (t ∷ ts) h = ap suc (length-xor_encode bs ts (omega arith))

length-zigzag_encode_width :
    (w count : ℕ) (dst base target : Bytes)
    → length dst ≡ count * w
    → length (zigzag_encode_width w count dst base target) ≡ count * w
unfolding zigzag_encode_width
length-zigzag_encode_width w zero dst base target h = h
length-zigzag_encode_width w (suc count) dst base target h =
    let z = zigzag_encode_elem (256 ^ w) (from_le (take w base)) (from_le (take w target)) in
    let rest =
      length-zigzag_encode_width w count (drop w dst) (drop w base) (drop w target)
        (omega (arith, length-drop w dst)) in
    omega (
      arith,
      length-append (store_le w z)
          (zigzag_encode_width w count (drop w dst) (drop w base) (drop w target)),
      length-store_le w z,
    )

-- Without a bit shuffle, the transform is undone.
untransform-transformed :
    (t : Transform) (resid : Bytes) (e : ℕ)
    → t ≢ bit_shuffle
    → (untransform t (transformed t resid e) e ≡ resid)
      × (length (transformed t resid e) ≡ length resid)
unfolding untransform transformed
untransform-transformed no_transform resid e h = (refl, refl)
untransform-transformed byte_plane resid e h =
    let zeros = replicate (length resid) 0 in
    let sized = length-replicate (length resid) 0 in
    let split = length-byteplane_split resid zeros e sized in
    (
      byteplane_join-split resid zeros (replicate (length (byteplane_split resid zeros e)) 0) e
          sized (length-replicate (length (byteplane_split resid zeros e)) 0 ∙ split),
      split,
    )
untransform-transformed bit_shuffle resid e h = absurd (h refl)

-- The widths that the zigzag has.
abbrev pub IsWidth : ℕ → Type 0
IsWidth e = (e ≡ 1) ⊎ ((e ≡ 2) ⊎ ((e ≡ 4) ⊎ (e ≡ 8)))

dtype_size-IsWidth : (d : DType) → IsWidth (dtype_size d)
unfolding dtype_size
dtype_size-IsWidth bool = inl refl
dtype_size-IsWidth i8 = inl refl
dtype_size-IsWidth u8 = inl refl
dtype_size-IsWidth f16 = inr (inl refl)
dtype_size-IsWidth bf16 = inr (inl refl)
dtype_size-IsWidth i16 = inr (inl refl)
dtype_size-IsWidth u16 = inr (inl refl)
dtype_size-IsWidth f32 = inr (inr (inl refl))
dtype_size-IsWidth i32 = inr (inr (inl refl))
dtype_size-IsWidth u32 = inr (inr (inl refl))
dtype_size-IsWidth f64 = inr (inr (inr refl))
dtype_size-IsWidth i64 = inr (inr (inr refl))
dtype_size-IsWidth u64 = inr (inr (inr refl))

width_pos : (e : ℕ) → IsWidth e → (e == 0) ≡ false
width_pos e (inl h) = rw h refl
width_pos e (inr (inl h)) = rw h refl
width_pos e (inr (inr (inl h))) = rw h refl
width_pos e (inr (inr (inr h))) = rw h refl

module _ (base target out : Bytes) (base_bytes : IsBytes base) (target_bytes : IsBytes target)
    (same : length base ≡ length target) (room : length out ≡ length target) where
  abbrev zeros : Bytes
  zeros = replicate (length target) 0

  -- Both loops of a width, over the whole frame.
  Undoes : ℕ → ℕ → Type 0
  Undoes w count =
      (zigzag_apply_width w count out base (zigzag_encode_width w count zeros base target) ≡ target)
      × (length (zigzag_encode_width w count zeros base target) ≡ length target)

  zigzag_encode_width-Undoes :
      (w v count : ℕ) → 256 ^ w ≡ 2 ^ suc v → length target ≡ count * w → Undoes w count
  unfolding Undoes
  zigzag_encode_width-Undoes w v count width len =
      let sized = length-replicate (length target) 0 in
      (
        zigzag_apply_width-encode w v width count out zeros base target base_bytes target_bytes
            (room ∙ len) (same ∙ len) len,
        length-zigzag_encode_width w count zeros base target (sized ∙ len) ∙ sym len,
      )

  zigzag_apply-encode :
      (e : ℕ)
      → IsWidth e
      → length target % e ≡ 0
      → (zigzag_apply out base (zigzag_encode zeros base target (length target) e) (length target) e
          ≡ target)
        × (length (zigzag_encode zeros base target (length target) e) ≡ length target)
  unfolding zigzag_apply zigzag_encode Undoes
  zigzag_apply-encode e (inl one) whole =
      rw one (zigzag_encode_width-Undoes 1 7 (length target / 1) refl (omega arith))
  zigzag_apply-encode e (inr (inl two)) whole = rw two (
      zigzag_encode_width-Undoes 2 15 (length target / 2) refl
        (let w2 = rw two at whole in omega arith))
  zigzag_apply-encode e (inr (inr (inl four))) whole = rw four (
      zigzag_encode_width-Undoes 4 31 (length target / 4) refl
        (let w4 = rw four at whole in omega arith))
  zigzag_apply-encode e (inr (inr (inr eight))) whole = rw eight (
      zigzag_encode_width-Undoes 8 63 (length target / 8) refl
        (let w8 = rw eight at whole in omega arith))

  apply_kind-encode :
      (kind : ResidualKind) (e : ℕ)
      → IsWidth e
      → length target % e ≡ 0
      → (apply_kind kind e base (encode_residual kind e base target) out ≡ ok target)
        × (length (encode_residual kind e base target) ≡ length target)
  unfolding apply_kind encode_residual
  apply_kind-encode raw e width whole =
      (ap ok (rw (drop_all (length target) out (omega arith)) (append-nil target)), refl)
  apply_kind-encode xor_after_permute e width whole =
      let len = length-xor_encode base target same in
      let test : (length base == length (xor_encode base target)) ≡ true = ground (arith, len) in
      (rw (test, xor_apply-xor_encode base target same) refl, len)
  apply_kind-encode zigzag_after_permute e width whole =
      let (undone, len) = zigzag_apply-encode e width whole in
      let test : (length base == length (zigzag_encode zeros base target (length target) e))
          ≡ true =
        ground (arith, len) in
      let divides : (length (zigzag_encode zeros base target (length target) e) % e == 0) ≡ true =
        rw (len, whole) refl in
      (rw (test, divides, room, undone) refl, len)

-- What the reader makes of the encoder's frame is the frame of the target, if it is given the same
-- base bytes: for every kind of residual and element type, without a transform or with byte
-- planes, for a base and a target of one length, a multiple of the element's width, into
-- bytes of that length.
pub apply_residual-encode_frame :
    (kind : ResidualKind) (transform : Transform) (dtype : DType) (base target out : Bytes)
    → transform ≢ bit_shuffle
    → IsBytes base
    → IsBytes target
    → length base ≡ length target
    → length out ≡ length target
    → length target % dtype_size dtype ≡ 0
    → apply_residual kind transform dtype base (encode_frame kind transform dtype base target) out
      ≡ ok target
unfolding apply_residual encode_frame
apply_residual-encode_frame kind transform dtype base target out plain base_bytes target_bytes same
      room whole =
    let e = dtype_size dtype in
    let (applied, len) =
      apply_kind-encode base target out base_bytes target_bytes same room kind e
        (dtype_size-IsWidth dtype) whole in
    let resid = encode_residual kind e base target in
    let (undone, size) = untransform-transformed transform resid e plain in
    let sizes : (length out == length (transformed transform resid e)) ≡ true =
      ground (arith, size, len) in
    let known : (dtype_size dtype == 0) ≡ false = width_pos e (dtype_size-IsWidth dtype) in
    rw (sizes, known, undone) applied

pub length-encode_frame :
    (kind : ResidualKind) (transform : Transform) (dtype : DType) (base target : Bytes)
    → transform ≢ bit_shuffle
    → IsBytes base
    → IsBytes target
    → length base ≡ length target
    → length target % dtype_size dtype ≡ 0
    → length (encode_frame kind transform dtype base target) ≡ length target
unfolding encode_frame
length-encode_frame kind transform dtype base target plain base_bytes target_bytes same whole =
    let e = dtype_size dtype in
    let (applied, len) =
      apply_kind-encode base target target base_bytes target_bytes same refl kind e
        (dtype_size-IsWidth dtype) whole in
    (untransform-transformed transform (encode_residual kind e base target) e plain).1 ∙ len
