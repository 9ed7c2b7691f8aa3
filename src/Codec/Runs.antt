-- ===== src/Codec/Runs.antt =====
-- Runs of the reading of frames, and their properties at concrete inputs.
use synapse_fs.Prelude.{
  ℕ, ◌%◌, ◌≡◌, refl, sym, ap, ◌≢◌, inl, inr, List, [], ◌∷◌, arith, take, drop, replicate,
}
use synapse_fs.Prelude.Bytes.{Bytes, IsBytes}
use synapse_fs.Codec.Gather.Fill.{Within, gather_base_bytes_lem}
use synapse_fs.Codec.Reconstruct.{TensorDiff, no_secondary, reconstruct_frame, read_frames}
use synapse_fs.Format.Diff.{FrameIndexEntry}
use synapse_fs.Codec.Frame.{
  xor_after_permute, zigzag_after_permute, byte_plane, bit_shuffle, apply_residual, encode_frame,
}
use synapse_fs.Codec.Gather.{gather_base_bytes}
use synapse_fs.Core.Error.{Result, ok}
use synapse_fs.Core.Dtype.{u16, dtype_size}
use synapse_fs.Codec.Gather.Units.{units_at}
use synapse_fs.Codec.Frame.RoundTrip.{apply_residual-encode_frame}
use synapse_fs.Codec.Reconstruct.Frames.{reconstruct_frame-encode_frame}
use synapse_fs.Codec.Reconstruct.Clip.{Tiled, read_frames_lem}

-- A group of three units of two bytes, and the frame that takes the last and the first of them.
abbrev pub stored : Bytes
stored = 1 ∷ 2 ∷ 3 ∷ 4 ∷ 5 ∷ 6 ∷ []

abbrev order : List ℕ
order = 2 ∷ 0 ∷ 1 ∷ []

abbrev pub read_stored : ℕ → ℕ → Result (Bytes × ℕ)
read_stored offset size = ok (take size (drop offset stored), size)

stored-IsBytes : IsBytes stored
stored-IsBytes =
    (omega arith, (omega arith, (omega arith, (omega arith, (omega arith, (omega arith, tt))))))

abbrev wanted : Bytes
wanted = 9 ∷ 6 ∷ 0 ∷ 255 ∷ []

wanted-IsBytes : IsBytes wanted
wanted-IsBytes = (omega arith, (omega arith, (omega arith, (omega arith, tt))))

inside : Within stored 2 (take 2 (drop 0 order))
inside u (inl e) = rw (sym e) (omega arith, omega arith)
inside u (inr (inl e)) = rw (sym e) (omega arith, omega arith)
inside u (inr (inr z)) = elim z [ ]

whole_elements : 4 % dtype_size u16 ≡ 0
unfolding dtype_size
whole_elements = refl

plain : byte_plane ≢ bit_shuffle
plain e = cc

apply_residual-encode_frame_example :
    apply_residual zigzag_after_permute byte_plane u16
      (5 ∷ 6 ∷ 1 ∷ 2 ∷ [])
      (encode_frame zigzag_after_permute byte_plane u16 (5 ∷ 6 ∷ 1 ∷ 2 ∷ []) wanted)
      (replicate 4 0)
    ≡ ok wanted
apply_residual-encode_frame_example =
    apply_residual-encode_frame zigzag_after_permute byte_plane u16 (5 ∷ 6 ∷ 1 ∷ 2 ∷ []) wanted
      (replicate 4 0) plain (omega arith, (omega arith, (omega arith, (omega arith, tt))))
      wanted-IsBytes refl refl whole_elements

gather_base_bytes_lem_example :
    gather_base_bytes read_stored order 0 2 2 ≡ ok (units_at stored 2 (take 2 (drop 0 order)))
gather_base_bytes_lem_example =
    gather_base_bytes_lem stored 2 read_stored (λ offset size h. refl) (omega arith) 2 (0 ∷ 1 ∷ [])
      0 2 (omega arith) (omega arith) inside

abbrev pub the_digest : Bytes → Bytes
the_digest bytes = take 1 bytes

abbrev tensor : TensorDiff
tensor = record {
  shape_name = 119 ∷ [];
  shape = 3 ∷ [];
  dtype = u16;
  residual = xor_after_permute;
  transform = byte_plane;
  frames = [];
}

abbrev frame : FrameIndexEntry
frame = record { unit_begin = 0; unit_end = 2; off = 0; len = 4; digest = 9 ∷ [] }

abbrev frame_payload : Bytes
frame_payload = 12 ∷ 1 ∷ 0 ∷ 253 ∷ []

frame_payload_lem :
    encode_frame xor_after_permute byte_plane u16 (5 ∷ 6 ∷ 1 ∷ 2 ∷ []) wanted ≡ frame_payload
unfolding encode_frame
frame_payload_lem = refl

reconstruct_frame-encode_frame_example :
    reconstruct_frame the_digest
      (λ bytes size. ok bytes)
      read_stored
      frame_payload
      order
      no_secondary
      tensor
      2
      frame
    ≡ ok wanted
reconstruct_frame-encode_frame_example =
    reconstruct_frame-encode_frame the_digest (λ bytes size. ok bytes) read_stored stored 2
      (λ offset size h. refl) (omega arith) stored-IsBytes frame_payload 2 (0 ∷ 1 ∷ []) tensor frame
      wanted (omega arith) (omega arith) (omega arith) (omega arith) inside plain wanted-IsBytes
      refl whole_elements (omega arith) refl (ap ok (sym frame_payload_lem))

-- The frame above, and one for the last of the three units.
abbrev last_frame : FrameIndexEntry
last_frame = record { unit_begin = 2; unit_end = 3; off = 4; len = 2; digest = 8 ∷ [] }

abbrev both_payload : Bytes
both_payload = 12 ∷ 1 ∷ 0 ∷ 253 ∷ 11 ∷ 11 ∷ []

abbrev whole_target : Bytes
whole_target = 9 ∷ 6 ∷ 0 ∷ 255 ∷ 8 ∷ 15 ∷ []

first_made :
    reconstruct_frame the_digest
      (λ bytes size. ok bytes)
      read_stored
      both_payload
      order
      no_secondary
      tensor
      2
      frame
    ≡ ok (9 ∷ 6 ∷ 0 ∷ 255 ∷ [])
unfolding reconstruct_frame
first_made = refl

last_made :
    reconstruct_frame the_digest
      (λ bytes size. ok bytes)
      read_stored
      both_payload
      order
      no_secondary
      tensor
      2
      last_frame
    ≡ ok (8 ∷ 15 ∷ [])
unfolding reconstruct_frame
last_made = refl

both_frames-Tiled :
    Tiled the_digest
      (λ bytes size. ok bytes)
      read_stored
      both_payload
      order
      no_secondary
      tensor
      2
      whole_target
      0
      (frame ∷ last_frame ∷ [])
unfolding Tiled
both_frames-Tiled =
    (refl, omega arith, omega arith, first_made, (refl, omega arith, omega arith, last_made, refl))

read_frames_lem_example :
    read_frames the_digest
      (λ bytes size. ok bytes)
      read_stored
      both_payload
      order
      no_secondary
      tensor
      2
      1
      (frame ∷ last_frame ∷ [])
      (replicate 4 0)
      0
    ≡ ok (6 ∷ 0 ∷ 255 ∷ 8 ∷ [], 4)
read_frames_lem_example =
    read_frames_lem the_digest (λ bytes size. ok bytes) read_stored both_payload order no_secondary
      tensor 2 whole_target 1 4 (omega arith) (omega arith) (frame ∷ last_frame ∷ [])
      (replicate 4 0) both_frames-Tiled refl
