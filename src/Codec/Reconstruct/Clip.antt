-- ===== src/Codec/Reconstruct/Clip.antt =====
-- The loop over the frames of a tensor, in read_tensor_range, gives the range that was asked for.
use synapse_fs.Prelude.Bits.{mod_small}
use synapse_fs.Prelude.{
  ℕ, ◌+◌, ◌-◌, ◌*◌, ◌%◌, ◌^◌, ◌≤◌, ◌<◌, min, max, ◌≡◌, refl, sym, ap, ◌∙◌, inl, inr, ◌||◌, List, [],
  ◌∷◌, ◌++◌, arith, leb, if◌then◌else◌, Bool-cases, length, length-append, take, drop, length-take,
  length-drop, take_all, take-append_len,
}
use synapse_fs.Prelude.Bytes.{Bytes}
use synapse_fs.Core.Endian.{write_at}
use synapse_fs.Core.Error.{Result, ok, ◌>>=◌}
use synapse_fs.Codec.Reconstruct.{TensorDiff, SecondaryAxis, reconstruct_frame, read_frames}
use mathlib.Core.List.{append_assoc}
use synapse_fs.Codec.Reconstruct.Whole.{take-split}
use synapse_fs.Format.Diff.{FrameIndexEntry}
use synapse_fs.Codec.Gather.Slices.{take-drop-take, drop-drop}

-- The next bytes of the range are written behind those that are there.
write_at-next :
    (c len : ℕ) (out seg wanted : Bytes)
    → c + len ≤ length out
    → length seg ≡ len
    → take c out ≡ take c wanted
    → seg ≡ take len (drop c wanted)
    → (length (write_at out c seg) ≡ length out)
      × (take (c + len) (write_at out c seg) ≡ take (c + len) wanted)
unfolding write_at
write_at-next c len out seg wanted room sized before is_next =
    let tail = drop (c + length seg) out in
    (
      omega (
        arith,
        sized,
        length-append (take c out) (seg ++ tail),
        length-append seg tail,
        length-take c out,
        length-drop (c + length seg) out,
      ),
      ap (take (c + len)) (sym (append_assoc (take c out) seg tail))
          ∙ (take-append_len (take c out ++ seg) tail (c + len)
                (omega (arith, sized, length-append (take c out) seg, length-take c out))
              ∙ (ap (λ l. l ++ seg) before
                  ∙ (ap (λ l. take c wanted ++ l) is_next
                      ∙ take-split c len (c + len) wanted refl))),
    )

module _ (digest : Bytes → Bytes) (decompress_frame : Bytes → ℕ → Result Bytes)
    (read_base : ℕ → ℕ → Result (Bytes × ℕ)) (payload : Bytes) (perm : List ℕ)
    (secondary : SecondaryAxis) (tdiff : TensorDiff) (unit_bytes : ℕ) (content : Bytes) where
  -- The frames follow each other from unit `a` to the end of the tensor, and each is reconstructed
  -- as its part of the tensor's bytes.
  unfoldable pub Tiled : ℕ → List FrameIndexEntry → Type 0
  Tiled a [] = a * unit_bytes ≡ length content
  Tiled a (f ∷ fs) =
      (f.unit_begin ≡ a)
      × (a * unit_bytes ≤ f.unit_end * unit_bytes)
      × (f.unit_end * unit_bytes ≤ length content)
      × (reconstruct_frame digest decompress_frame read_base payload perm secondary tdiff unit_bytes
            f
          ≡ ok (take (f.unit_end * unit_bytes - a * unit_bytes) (drop (a * unit_bytes) content)))
      × Tiled f.unit_end fs

  -- One round of the loop, with the frame not looked into.
  read_frames-cons :
      (local : ℕ) (f : FrameIndexEntry) (fs : List FrameIndexEntry) (out : Bytes)
      (written p q stop : ℕ)
      → f.unit_begin * unit_bytes % 2 ^ 64 ≡ p
      → f.unit_end * unit_bytes % 2 ^ 64 ≡ q
      → (local + length out) % 2 ^ 64 ≡ stop
      → read_frames digest decompress_frame read_base payload perm secondary tdiff unit_bytes local
          (f ∷ fs)
          out
          written
        ≡ (if leb q local || leb stop p
            then read_frames digest decompress_frame read_base payload perm secondary tdiff
                unit_bytes local fs out written
            else (reconstruct_frame digest decompress_frame read_base payload perm secondary tdiff
                  unit_bytes f
                >>= λ bytes.
                    read_frames digest decompress_frame read_base payload perm secondary tdiff
                      unit_bytes local fs
                      (write_at out
                        (max p local - local)
                        (take (min q stop - max p local) (drop (max p local - p) bytes)))
                      (written + (min q stop - max p local))))
  unfolding read_frames
  read_frames-cons local f fs out written p q stop first last ends =
      rw (sym first, sym last, sym ends) refl

  read_frames-nil :
      (local : ℕ) (out : Bytes) (written : ℕ)
      → read_frames digest decompress_frame read_base payload perm secondary tdiff unit_bytes local
          [] out written
        ≡ ok (out, written)
  unfolding read_frames
  read_frames-nil local out written = refl

  module _ (local size : ℕ) (within : local + size ≤ length content)
      (small : length content < 2 ^ 64) where
    -- What the caller asked for, and how many of its bytes lie before an offset in the tensor.
    abbrev wanted : Bytes
    wanted = take size (drop local content)

    abbrev clip : ℕ → ℕ
    clip at = min (at - local) size

    read_frames_from :
        (fs : List FrameIndexEntry) (a : ℕ) (out : Bytes)
        → Tiled a fs
        → length out ≡ size
        → take (clip (a * unit_bytes)) out ≡ take (clip (a * unit_bytes)) wanted
        → read_frames digest decompress_frame read_base payload perm secondary tdiff unit_bytes
            local fs out
            (clip (a * unit_bytes))
          ≡ ok (wanted, size)
    unfolding Tiled
    read_frames_from [] a out tiled sized filled =
        let all : clip (a * unit_bytes) ≡ size = omega (arith, tiled) in
        let wanted_size : length wanted ≤ size =
          omega (arith, length-take size (drop local content)) in
        let whole : out ≡ wanted =
          sym (take_all size out (omega arith))
          ∙ ((let same = rw all at filled in same) ∙ take_all size wanted wanted_size) in
        read_frames-nil local out (clip (a * unit_bytes)) ∙ rw (all, whole) refl
    read_frames_from (f ∷ fs) a out (begins, order, ends, made, rest) sized filled =
        let p = a * unit_bytes in
        let q = f.unit_end * unit_bytes in
        let first : f.unit_begin * unit_bytes % 2 ^ 64 ≡ p =
          ap (λ k. k * unit_bytes % 2 ^ 64) begins ∙ mod_small (2 ^ 64) p (omega arith) in
        let last : q % 2 ^ 64 ≡ q = mod_small (2 ^ 64) q (omega arith) in
        let stop : (local + length out) % 2 ^ 64 ≡ local + size =
          ap (λ k. (local + k) % 2 ^ 64) sized ∙ mod_small (2 ^ 64) (local + size) (omega arith) in
        let round = read_frames-cons local f fs out (clip p) p q (local + size) first last stop in
        elim (Bool-cases (leb q local || leb (local + size) p)) [
          | inl apart ↦
              let same : clip q ≡ clip p = ground arith in
              let later = read_frames_from fs f.unit_end out rest sized (rw same filled) in
              round ∙ rw apart (rw same at later)
          | inr meets ↦
              let hit : (local < q) × (p < local + size) = ground arith in
              let lo = max p local in
              let hi = min q (local + size) in
              let seg = take (hi - lo) (drop (lo - p) (take (q - p) (drop p content))) in
              let is_next : seg ≡ take (hi - lo) (drop (clip p) wanted) =
                take-drop-take (hi - lo) (lo - p) (q - p) (drop p content) (omega arith)
                ∙ (ap (take (hi - lo)) (
                      drop-drop (lo - p) p lo content (omega arith)
                      ∙ sym (drop-drop (clip p) local lo content (omega arith)))
                    ∙ sym (
                        take-drop-take (hi - lo) (clip p) size (drop local content)
                          (omega arith))) in
              let seg_size : length seg ≡ hi - lo = omega (
                arith,
                length-take (hi - lo) (drop (lo - p) (take (q - p) (drop p content))),
                length-drop (lo - p) (take (q - p) (drop p content)),
                length-take (q - p) (drop p content),
                length-drop p content,
              ) in
              let at : lo - local ≡ clip p = omega arith in
              let count : clip p + (hi - lo) ≡ clip q = omega arith in
              let (kept, next) =
                write_at-next (clip p) (hi - lo) out seg wanted (omega arith) seg_size filled
                  is_next in
              let later =
                read_frames_from fs f.unit_end (write_at out (clip p) seg) rest (kept ∙ sized)
                  (rw (sym count) next) in
              round ∙ rw (meets, made, at, count) later
        ]

    -- A range within a tensor below 2 ^ 64 bytes, read through frames that follow each other from
    -- its first unit to its last byte and that are each reconstructed as their part of it, is
    -- that range of the tensor's bytes, all of it counted as written, whatever the caller's bytes were.
    pub read_frames_lem :
        (fs : List FrameIndexEntry) (out : Bytes)
        → Tiled 0 fs
        → length out ≡ size
        → read_frames digest decompress_frame read_base payload perm secondary tdiff unit_bytes
            local fs out 0
          ≡ ok (take size (drop local content), size)
    read_frames_lem fs out tiled sized =
        let none_yet : clip (0 * unit_bytes) ≡ 0 = ground arith in
        let nothing : take (clip (0 * unit_bytes)) out ≡ take (clip (0 * unit_bytes)) wanted =
          rw none_yet refl in
        let read = read_frames_from fs 0 out tiled sized nothing in rw none_yet at read
