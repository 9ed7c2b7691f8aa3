-- ===== src/Codec/Residual/Zigzag.antt =====
-- The kernels undo the encoder, element by element and over whole frames.
use native.Mathlib.Nat.{pow-suc, mod-lt}
use Prim.Native.Nat.{bit_xor}
use synapse_fs.Prelude.{
  ℕ, zero, suc, ◌+◌, ◌-◌, ◌*◌, ◌/◌, ◌%◌, ◌^◌, ◌≤◌, ◌<◌, ◌≡◌, refl, sym, ap, ◌∙◌, ◌⊎◌, inl, inr, [],
  ◌∷◌, arith, leb, leb→le, Bool-cases, length, take, drop, take-append-drop, length-take,
  length-drop, take-append_len, drop-append_len,
}
use synapse_fs.Prelude.Bytes.{Bytes, IsBytes, All-take, All-drop, length-zero}
use synapse_fs.Prelude.Bits.{
  bit_xor_cancel, bit_xor-zero_right, bit_xor_ones, bit_xor_ones_above, mod_small, mod_once,
  mod_sub_add, two_pow_pos,
}
use synapse_fs.Codec.Residual.{
  xor_apply, xor_encode, zigzag_apply_elem, zigzag_encode_elem, zigzag_apply_width,
  zigzag_encode_width,
}
use synapse_fs.Core.Endian.{
  from_le, store_le, length-store_le, from_le-store_le, from_le-lt, store_le-from_le,
}

-- XOR of a base with the XOR of that base and a target is the target.
pub xor_apply-xor_encode :
    (base target : Bytes)
    → length base ≡ length target
    → xor_apply base (xor_encode base target) ≡ target
unfolding xor_apply xor_encode
xor_apply-xor_encode [] [] h = refl
xor_apply-xor_encode [] (t ∷ ts) h = absurd (omega arith)
xor_apply-xor_encode (b ∷ bs) [] h = absurd (omega arith)
xor_apply-xor_encode (b ∷ bs) (t ∷ ts) h =
    rw (bit_xor_cancel b t, xor_apply-xor_encode bs ts (omega arith)) refl

module _ (w : ℕ) where
  double : 2 ^ suc w ≡ 2 * 2 ^ w
  double = omega (arith, pow-suc 2 w)

  encode_low : (d : ℕ) → d < 2 ^ w → bit_xor (2 * d) 0 % 2 ^ suc w ≡ 2 * d
  encode_low d h =
      rw (bit_xor-zero_right (2 * d)) (mod_small (2 ^ suc w) (2 * d) (omega (arith, double)))

  encode_high :
      (d : ℕ)
      → 2 ^ w ≤ d
      → d < 2 ^ suc w
      → bit_xor (2 * d) (2 ^ suc w - 1) % 2 ^ suc w ≡ 2 * 2 ^ suc w - 1 - 2 * d
  encode_high d lo hi =
      let split : 2 * d ≡ 2 ^ suc w + (2 * d - 2 ^ suc w) = omega (arith, double) in
      let fits : 2 * d - 2 ^ suc w < 2 ^ suc w = omega (arith, double) in
      let mask = bit_xor_ones_above (suc w) (2 * d - 2 ^ suc w) fits in
      let value : bit_xor (2 * d) (2 ^ suc w - 1) ≡ 2 ^ suc w + (2 * 2 ^ suc w - 1 - 2 * d) =
        ap (λ x. bit_xor x (2 ^ suc w - 1)) split ∙ mask ∙ (omega (arith, double)) in
      rw value (mod_once (2 ^ suc w) (2 * 2 ^ suc w - 1 - 2 * d) (omega (arith, double)))

  decode_even :
      (b d : ℕ) → d < 2 ^ w → zigzag_apply_elem (2 ^ suc w) b (2 * d) ≡ (b + d) % 2 ^ suc w
  unfolding zigzag_apply_elem
  decode_even b d h =
      let even : 2 ^ suc w - 1 - 2 * d % 2 + 1 ≡ 2 ^ suc w + 0 = omega (arith, double) in
      let half : 2 * d / 2 ≡ d = omega arith in
      rw (even, mod_once (2 ^ suc w) 0 (omega (arith, double)), half, bit_xor-zero_right d) refl

  decode_odd :
      (b d : ℕ)
      → d < 2 ^ suc w
      → zigzag_apply_elem (2 ^ suc w) b (2 * 2 ^ suc w - 1 - 2 * d) ≡ (b + d) % 2 ^ suc w
  unfolding zigzag_apply_elem
  decode_odd b d h =
      let z = 2 * 2 ^ suc w - 1 - 2 * d in
      let odd : 2 ^ suc w - 1 - z % 2 + 1 ≡ 2 ^ suc w - 1 = omega (arith, double) in
      let half : z / 2 ≡ 2 ^ suc w - 1 - d = omega arith in
      let back : 2 ^ suc w - 1 - (2 ^ suc w - 1 - d) ≡ d = omega arith in
      rw
        (
          odd,
          mod_small (2 ^ suc w) (2 ^ suc w - 1) (omega (arith, double)),
          half,
          bit_xor_ones (suc w) (2 ^ suc w - 1 - d) (omega arith),
          back,
        )
        refl

  -- The code of the delta `d`.
  zigzag_code :
      (b t d : ℕ)
      → (t + 2 ^ suc w - b) % 2 ^ suc w ≡ d
      → ((d < 2 ^ w) × (zigzag_encode_elem (2 ^ suc w) b t ≡ 2 * d))
        ⊎ (zigzag_encode_elem (2 ^ suc w) b t ≡ 2 * 2 ^ suc w - 1 - 2 * d)
  unfolding zigzag_encode_elem
  zigzag_code b t d e =
      let half : 2 ^ suc w / 2 ≡ 2 ^ w = omega (arith, double) in
      let fits : d < 2 ^ suc w = rw (← e) (mod-lt (t + 2 ^ suc w - b) (two_pow_pos (suc w))) in
      elim (Bool-cases (leb (2 ^ w) d)) [
        | inl high ↦ inr (rw (e, half, high) (encode_high d (leb→le _ _ high) fits))
        | inr low ↦
            let below : d < 2 ^ w = ground arith in
            inl (below, rw (e, half, low) (encode_low d below))
      ]

-- For a type of `2 ^ (w + 1)` values, decoding the code of a target against a base gives the
-- target, whatever the two values are.
pub zigzag_apply_elem-encode :
    (w b t : ℕ)
    → b < 2 ^ suc w
    → t < 2 ^ suc w
    → zigzag_apply_elem (2 ^ suc w) b (zigzag_encode_elem (2 ^ suc w) b t) ≡ t
zigzag_apply_elem-encode w b t hb ht =
    let d = (t + 2 ^ suc w - b) % 2 ^ suc w in
    let fits : d < 2 ^ suc w = mod-lt (t + 2 ^ suc w - b) (two_pow_pos (suc w)) in
    elim (zigzag_code w b t d refl) [
      | inl (low, e) ↦ rw (e, decode_even w b d low) (mod_sub_add (2 ^ suc w) t b ht hb)
      | inr e ↦ rw (e, decode_odd w b d fits) (mod_sub_add (2 ^ suc w) t b ht hb)
    ]

-- One element of a frame, from its bytes.
module _ (w v : ℕ) (width : 256 ^ w ≡ 2 ^ suc v) where
  from_le-take-lt : (bs : Bytes) → IsBytes bs → w ≤ length bs → from_le (take w bs) < 256 ^ w
  from_le-take-lt bs h room =
      let len : length (take w bs) ≡ w = omega (arith, length-take w bs) in
      rw len at (from_le-lt (take w bs) (All-take _ w bs h))

  store_le-take :
      (bs : Bytes) → IsBytes bs → w ≤ length bs → store_le w (from_le (take w bs)) ≡ take w bs
  store_le-take bs h room =
      let len : length (take w bs) ≡ w = omega (arith, length-take w bs) in
      rw len at (store_le-from_le (take w bs) (All-take _ w bs h))

  zigzag_encode_elem-lt : (b t : ℕ) → zigzag_encode_elem (256 ^ w) b t < 256 ^ w
  unfolding zigzag_encode_elem
  zigzag_encode_elem-lt b t = mod-lt _ (rw width (two_pow_pos (suc v)))

  zigzag_elem :
      (b t : ℕ)
      → b < 256 ^ w
      → t < 256 ^ w
      → zigzag_apply_elem (256 ^ w) b (zigzag_encode_elem (256 ^ w) b t) ≡ t
  zigzag_elem b t hb ht =
      rw width (zigzag_apply_elem-encode v b t (rw width at hb) (rw width at ht))

  -- A frame of `count` elements: decoding its residual against the base gives the target.
  pub zigzag_apply_width-encode :
      (count : ℕ) (d1 d2 base target : Bytes)
      → IsBytes base
      → IsBytes target
      → length d1 ≡ count * w
      → length base ≡ count * w
      → length target ≡ count * w
      → zigzag_apply_width w count d1 base (zigzag_encode_width w count d2 base target) ≡ target
  unfolding zigzag_apply_width zigzag_encode_width
  zigzag_apply_width-encode zero d1 d2 base target hb ht l1 lb lt =
      length-zero d1 (omega arith) ∙ sym (length-zero target (omega arith))
  zigzag_apply_width-encode (suc count) d1 d2 base target hb ht l1 lb lt =
      let b = from_le (take w base) in
      let t = from_le (take w target) in
      let z = zigzag_encode_elem (256 ^ w) b t in
      let rest = zigzag_encode_width w count (drop w d2) (drop w base) (drop w target) in
      let grow : suc count * w ≡ w + count * w = omega arith in
      let head = from_le-store_le w z (zigzag_encode_elem-lt b t) in
      let elem =
        zigzag_elem b t (from_le-take-lt base hb (omega arith))
          (from_le-take-lt target ht (omega arith)) in
      let ih =
        zigzag_apply_width-encode count (drop w d1) (drop w d2) (drop w base) (drop w target)
          (All-drop _ w base hb) (All-drop _ w target ht) (omega (arith, length-drop w d1))
          (omega (arith, length-drop w base)) (omega (arith, length-drop w target)) in
      rw
        (
          take-append_len (store_le w z) rest w (length-store_le w z),
          drop-append_len (store_le w z) rest w (length-store_le w z),
          head,
          elem,
          ih,
          store_le-take target ht (omega arith),
        )
        (take-append-drop w target)
