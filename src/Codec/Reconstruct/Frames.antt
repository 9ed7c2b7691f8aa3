-- ===== src/Codec/Reconstruct/Frames.antt =====
-- A frame that the encoder made is reconstructed as the target.
use synapse_fs.Core.Error.{Result, ok}
use synapse_fs.Codec.Gather.Units.{unit_at, units_at}
use synapse_fs.Codec.Gather.Fill.{Within, gather_base_bytes_lem}
use synapse_fs.Codec.Reconstruct.{
  TensorDiff, no_secondary, permute_columns, checked_frame, reconstruct_frame,
}
use synapse_fs.Format.Diff.{FrameIndexEntry}
use synapse_fs.Prelude.{
  ℕ, suc, ◌+◌, ◌-◌, ◌*◌, ◌%◌, ◌^◌, ◌≤◌, ◌<◌, ◌≡◌, refl, sym, ap, ◌∙◌, ◌≢◌, inl, inr, true, List, [],
  ◌∷◌, arith, leb, ◌==◌, length, length-append, take, drop, replicate, length-take, length-drop,
  length-replicate,
}
use synapse_fs.Prelude.Bytes.{
  Bytes, bytes_eq, bytes_eq_refl, IsBytes, All-append, All-take, All-drop,
}
use synapse_fs.Codec.Frame.{bit_shuffle, encode_frame}
use synapse_fs.Core.Dtype.{dtype_size}
use synapse_fs.Codec.Frame.RoundTrip.{apply_residual-encode_frame, length-encode_frame}
use synapse_fs.Prelude.Bits.{mod_small}

length-units_at :
    (content : Bytes) (unit_bytes : ℕ) (us : List ℕ)
    → Within content unit_bytes us
    → length (units_at content unit_bytes us) ≡ length us * unit_bytes
length-units_at content unit_bytes [] inside = omega arith
length-units_at content unit_bytes (u ∷ us) inside =
    let rest = length-units_at content unit_bytes us (λ v n. inside v (inr n)) in
    let (small, room) = inside u (inl refl) in
    let step : (u + 1) * unit_bytes ≡ u * unit_bytes + unit_bytes = grind arith in
    let more : suc (length us) * unit_bytes ≡ unit_bytes + length us * unit_bytes = grind arith in
    omega (
      arith,
      length-append (unit_at content unit_bytes u) (units_at content unit_bytes us),
      length-take unit_bytes (drop (u * unit_bytes) content),
      length-drop (u * unit_bytes) content,
    )

IsBytes-units_at :
    (content : Bytes) (unit_bytes : ℕ) (us : List ℕ)
    → IsBytes content
    → IsBytes (units_at content unit_bytes us)
IsBytes-units_at content unit_bytes [] h = tt
IsBytes-units_at content unit_bytes (u ∷ us) h =
    All-append (λ b. b < 256) (unit_at content unit_bytes u) (units_at content unit_bytes us)
      (All-take (λ b. b < 256) unit_bytes (drop (u * unit_bytes) content)
        (All-drop (λ b. b < 256) (u * unit_bytes) content h))
      (IsBytes-units_at content unit_bytes us h)

module _ (digest : Bytes → Bytes) (decompress_frame : Bytes → ℕ → Result Bytes)
    (read_base : ℕ → ℕ → Result (Bytes × ℕ)) where
  module _ (content : Bytes) (unit_bytes : ℕ)
      (serves : (offset size : ℕ)
        → offset + size ≤ length content
        → read_base offset size ≡ ok (take size (drop offset content), size))
      (small : length content < 2 ^ 64) (content_bytes : IsBytes content) where
    -- The reader makes the target's bytes of a frame that the encoder made of them, from a base
    -- that is read as it was then and has fewer than 2 ^ 64 bytes. The frame is a range of units,
    -- within the permutation and below 2 ^ 64 in units and in bytes, whose units lie in the base
    -- and have numbers of 32 bits; the target has that range's bytes, in whole elements. The frame
    -- lies in the payload, its digest is the target's, and the decompression of its bytes gives
    -- what the encoder compressed. The tensor has no bit shuffle and no permuted second axis.
    pub reconstruct_frame-encode_frame :
        (payload : Bytes) (p : ℕ) (ps : List ℕ) (tdiff : TensorDiff) (frame : FrameIndexEntry)
        (target : Bytes)
        → frame.unit_begin ≤ frame.unit_end
        → frame.unit_end ≤ length (p ∷ ps)
        → frame.unit_end * unit_bytes < 2 ^ 64
        → frame.unit_end < 2 ^ 64
        → Within content unit_bytes
            (take (frame.unit_end - frame.unit_begin) (drop frame.unit_begin (p ∷ ps)))
        → tdiff.transform ≢ bit_shuffle
        → IsBytes target
        → length target ≡ (frame.unit_end - frame.unit_begin) * unit_bytes
        → length target % dtype_size tdiff.dtype ≡ 0
        → (frame.off + frame.len) % 2 ^ 64 ≤ length payload
        → frame.digest ≡ digest target
        → decompress_frame (take frame.len (drop frame.off payload)) (length target)
          ≡ ok (
              encode_frame tdiff.residual tdiff.transform tdiff.dtype
                (units_at content unit_bytes
                  (take (frame.unit_end - frame.unit_begin) (drop frame.unit_begin (p ∷ ps))))
                target)
        → reconstruct_frame digest decompress_frame read_base payload
            (p ∷ ps)
            no_secondary
            tdiff
            unit_bytes
            frame
          ≡ ok target
    unfolding reconstruct_frame checked_frame permute_columns
    reconstruct_frame-encode_frame payload p ps tdiff frame target order in_perm bound small_end
          inside plain target_bytes sized whole room signed inflates =
        let slice = take (frame.unit_end - frame.unit_begin) (drop frame.unit_begin (p ∷ ps)) in
        let base = units_at content unit_bytes slice in
        let base_bytes = IsBytes-units_at content unit_bytes slice content_bytes in
        let count : length slice ≡ frame.unit_end - frame.unit_begin = omega (
          arith,
          length-take (frame.unit_end - frame.unit_begin) (drop frame.unit_begin (p ∷ ps)),
          length-drop frame.unit_begin (p ∷ ps),
        ) in
        let base_size : length base ≡ length target =
          length-units_at content unit_bytes slice inside
          ∙ (ap (λ n. n * unit_bytes) count ∙ sym sized) in
        let gathered =
          gather_base_bytes_lem content unit_bytes read_base serves small p ps frame.unit_begin
            frame.unit_end order small_end inside in
        let size =
          length-encode_frame tdiff.residual tdiff.transform tdiff.dtype base target plain
            base_bytes target_bytes base_size whole in
        let applied =
          apply_residual-encode_frame tdiff.residual tdiff.transform tdiff.dtype base target
            (replicate (length target) 0) plain base_bytes target_bytes base_size
            (length-replicate (length target) 0) whole in
        let begin_size : frame.unit_begin * unit_bytes ≤ frame.unit_end * unit_bytes =
          grind arith in
        let first : frame.unit_begin * unit_bytes % 2 ^ 64 ≡ frame.unit_begin * unit_bytes =
          mod_small (2 ^ 64) (frame.unit_begin * unit_bytes) (omega arith) in
        let last : frame.unit_end * unit_bytes % 2 ^ 64 ≡ frame.unit_end * unit_bytes =
          mod_small (2 ^ 64) (frame.unit_end * unit_bytes) bound in
        let product : (frame.unit_end - frame.unit_begin) * unit_bytes
              + frame.unit_begin * unit_bytes
            ≡ frame.unit_end * unit_bytes =
          grind arith in
        let raw : (frame.unit_end * unit_bytes + 2 ^ 64 - frame.unit_begin * unit_bytes) % 2 ^ 64
            ≡ length target =
          omega arith in
        let in_payload : leb ((frame.off + frame.len) % 2 ^ 64) (length payload) ≡ true =
          ground arith in
        let full_size : (length
                (encode_frame tdiff.residual tdiff.transform tdiff.dtype base target)
              == length target)
            ≡ true =
          ground (arith, size) in
        let digested : bytes_eq (digest target) frame.digest ≡ true =
          rw signed (bytes_eq_refl (digest target)) in
        rw (in_payload, gathered, first, last, raw, inflates, full_size, applied, digested) refl
