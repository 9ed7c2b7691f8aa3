-- ===== src/Store/Loose/Ranges.antt =====
-- read_range never gives bytes that are not the object's, and gives them when the file is intact.
use native.Mathlib.Nat.{div-lt_iff_lt-mul, lt-div-mul-add, div-mul-le_self}
use synapse_fs.Core.Error.{ErrKind, io, Result, ok, err, ◌>>=◌, ◌>>◌, guard, Result-cases}
use synapse_fs.Prelude.Bits.{mod_small}
use synapse_fs.Prelude.{
  ℕ, zero, suc, ◌+◌, ◌-◌, ◌*◌, ◌/◌, ◌%◌, ◌^◌, ◌≤◌, ◌<◌, min, ◌≡◌, refl, sym, ap, ◌∙◌, ◌⊎◌, inl, inr,
  true, false, Option, some, [], ◌++◌, arith, ltb, leb, ◌==◌, Bool-cases, length, length-append,
  take, drop, length-take, length-drop,
}
use synapse_fs.Prelude.Bytes.{Bytes}
use synapse_fs.Format.Object.{oid_bytes, header_size, ObjectHeader}
use synapse_fs.Format.Object.Chunks.{
  chunk_at, compute_chunk_digests, verify_chunk, verify_chunk-compute,
}
use synapse_fs.Store.Loose.{pread, payload_offset, read_chunk, read_chunks, read_payload}
use synapse_fs.Codec.Gather.Slices.{take-drop-append, take-drop-take, drop-drop}
use synapse_fs.Codec.Reconstruct.Whole.{take-split}

read_chunks-next :
    (digest : Bytes → Bytes) (file : Bytes) (hdr : ObjectHeader) (digests : Bytes)
    (fuel offset want at : ℕ) (out bytes : Bytes)
    → (offset + length out) % 2 ^ 64 ≡ at
    → ltb (length out) want ≡ true
    → read_chunk digest file hdr digests at (want - length out) ≡ ok bytes
    → read_chunks digest file hdr digests (suc fuel) offset want out
      ≡ read_chunks digest file hdr digests fuel offset want (out ++ bytes)
unfolding read_chunks
read_chunks-next digest file hdr digests fuel offset want at out bytes here more h =
    rw (here, more, h) refl

module _ (digest : Bytes → Bytes) (digest_len : (b : Bytes) → length (digest b) ≡ oid_bytes)
    (file : Bytes) (hdr : ObjectHeader) (payload : Bytes)
    (small : length payload + 2 ^ hdr.chunk_log2 < 2 ^ 64)
    (chunks : length payload ≤ 2 ^ 32 * 2 ^ hdr.chunk_log2) (some_byte : 0 < 2 ^ hdr.chunk_log2)
    (sized : hdr.payload_len ≡ length payload)
    (no_collision : (off : ℕ)
      → off < length payload
      → digest (
          pread file
            ((payload_offset hdr + off) % 2 ^ 64)
            (min (2 ^ hdr.chunk_log2) (length payload - off)))
        ≡ digest (chunk_at payload (2 ^ hdr.chunk_log2) off)
      → pread file
          ((payload_offset hdr + off) % 2 ^ 64)
          (min (2 ^ hdr.chunk_log2) (length payload - off))
        ≡ chunk_at payload (2 ^ hdr.chunk_log2) off) where
  abbrev cb : ℕ
  cb = 2 ^ hdr.chunk_log2

  abbrev table : Bytes
  table = compute_chunk_digests digest payload cb

  -- The payload's bytes stand in the file, where the header says.
  pub Intact : Type 0
  Intact =
      (rest : Bytes) × (drop (payload_offset hdr) file ≡ payload ++ rest)
      × (payload_offset hdr + length payload < 2 ^ 64)

  -- The chunk at an offset in the payload, as it is computed.
  chunk_place :
      (abs_off : ℕ)
      → abs_off < length payload
      → (abs_off / cb * cb ≤ abs_off) × (abs_off < abs_off / cb * cb + cb) × (abs_off / cb < 2 ^ 32)
  chunk_place abs_off h = (
    div-mul-le_self abs_off cb,
    lt-div-mul-add some_byte,
    (div-lt_iff_lt-mul some_byte).1 (omega arith),
  )

  read_chunk_lem :
      (abs_off left : ℕ)
      → abs_off < length payload
      → 0 < left
      → (n : ℕ) × (0 < n)
        × (n ≤ left)
        × (abs_off + n ≤ length payload)
        × (((kind : ErrKind) × (read_chunk digest file hdr table abs_off left ≡ err kind))
            ⊎ (read_chunk digest file hdr table abs_off left ≡ ok (take n (drop abs_off payload))))
        × (Intact
            → read_chunk digest file hdr table abs_off left ≡ ok (take n (drop abs_off payload)))
  unfolding read_chunk Intact
  read_chunk_lem abs_off left inside some_left =
      let (before, behind, few) = chunk_place abs_off inside in
      let i = abs_off / cb in
      let start = i * cb in
      let len = min cb (length payload - start) in
      let n = min left (len - (abs_off - start)) in
      let index : i % 2 ^ 32 ≡ i = mod_small (2 ^ 32) i few in
      let first : start % 2 ^ 64 ≡ start = mod_small (2 ^ 64) start (omega arith) in
      let rest_len : (length payload + 2 ^ 64 - start) % 2 ^ 64 ≡ length payload - start =
        omega arith in
      let within : (abs_off + 2 ^ 64 - start) % 2 ^ 64 ≡ abs_off - start = omega arith in
      let behind_it : (len + 2 ^ 64 - (abs_off - start)) % 2 ^ 64 ≡ len - (abs_off - start) =
        omega arith in
      let buf = pread file ((payload_offset hdr + start) % 2 ^ 64) len in
      let passes =
        verify_chunk-compute digest digest_len payload buf cb i some_byte small (omega arith)
          (no_collision start (omega arith)) in
      let part : buf ≡ chunk_at payload cb start
          → take n (drop (abs_off - start) buf) ≡ take n (drop abs_off payload) =
        λ same. rw same (
          take-drop-take n (abs_off - start) len (drop start payload) (omega arith)
          ∙ ap (take n) (drop-drop (abs_off - start) start abs_off payload (omega arith))) in
      let shape : read_chunk digest file hdr table abs_off left ≡ (
          guard (length buf == len) io
          >> (verify_chunk digest buf table i >>= λ u. ok (take n (drop (abs_off - start) buf)))) =
        rw (sized, index, first, rest_len, within, behind_it) refl in
      (
        n,
        omega arith,
        omega arith,
        omega arith,
        elim (Bool-cases (length buf == len)) [
          | inr short ↦ inl (io, shape ∙ rw short refl)
          | inl full ↦ elim (Result-cases (verify_chunk digest buf table i)) [
            | inl (kind, h) ↦ inl (kind, shape ∙ rw (full, h) refl)
            | inr (u, h) ↦ inr (shape ∙ rw (full, h) (ap ok (part (passes.0 h))))
          ]
        ],
        λ (rest, there, fits).
            let po : (payload_offset hdr + start) % 2 ^ 64 ≡ payload_offset hdr + start =
              mod_small (2 ^ 64) (payload_offset hdr + start) (omega arith) in
            let same : buf ≡ chunk_at payload cb start =
              ap (λ k. take len (drop k file)) po
              ∙ (ap (take len) (
                    sym
                      (drop-drop start (payload_offset hdr) (payload_offset hdr + start) file refl))
                  ∙ (ap (λ l. take len (drop start l)) there
                      ∙ take-drop-append len start payload rest (omega arith))) in
            let size : length buf ≡ len =
              ap length same
              ∙ omega (arith, length-take len (drop start payload), length-drop start payload) in
            let full : (length buf == len) ≡ true = ground (arith, size) in
            shape ∙ rw (full, passes.1 same) (ap ok (part same)),
      )

  -- What a read gives: an error or the bytes of the payload, and the bytes from an intact file.
  unfoldable pub Reads : ℕ → ℕ → Option (Result Bytes) → Type 0
  Reads offset want read =
      (r : Result Bytes) × (read ≡ some r)
      × (((kind : ErrKind) × (r ≡ err kind)) ⊎ (r ≡ ok (take want (drop offset payload))))
      × (Intact → r ≡ ok (take want (drop offset payload)))

  Reads-same :
      (offset want : ℕ) (a b : Option (Result Bytes))
      → a ≡ b
      → Reads offset want b
      → Reads offset want a
  unfolding Reads
  Reads-same offset want a b same (r, is, what, fine) = (r, same ∙ is, what, fine)

  module _ (offset want : ℕ) (within : offset + want ≤ length payload) where
    read_chunks_lem :
        (fuel : ℕ) (out : Bytes)
        → out ≡ take (length out) (drop offset payload)
        → length out ≤ want
        → want - length out < fuel
        → Reads offset want (read_chunks digest file hdr table fuel offset want out)
    unfolding read_chunks Reads
    read_chunks_lem zero out prefix room few = absurd (omega arith)
    read_chunks_lem (suc fuel) out prefix room few = elim (Bool-cases (ltb (length out) want)) [
      | inr ended ↦
          let all : length out ≡ want = ground arith in
          let whole : out ≡ take want (drop offset payload) =
            prefix ∙ ap (λ k. take k (drop offset payload)) all in
          (ok out, rw ended refl, inr (ap ok whole), λ intact. ap ok whole)
      | inl more ↦
          let left : length out < want = ground arith in
          let abs_off = offset + length out in
          let here : abs_off % 2 ^ 64 ≡ abs_off = mod_small (2 ^ 64) abs_off (omega arith) in
          let (n, some_bytes, most, inside, either, good) =
            read_chunk_lem abs_off (want - length out) (omega arith) (omega arith) in
          elim either [
            | inl (kind, h) ↦ (
              err kind,
              rw (more, here, h) refl,
              inl (kind, refl),
              λ intact. let clash = sym h ∙ good intact in cc,
            )
            | inr h ↦
                let got = take n (drop abs_off payload) in
                let size : length got ≡ n =
                  omega
                    (arith, length-take n (drop abs_off payload), length-drop abs_off payload) in
                let total : length (out ++ got) ≡ length out + n =
                  omega (arith, length-append out got, size) in
                let longer : out ++ got ≡ take (length out + n) (drop offset payload) =
                  ap (λ l. l ++ got) prefix
                  ∙ (ap (λ l. take (length out) (drop offset payload) ++ take n l)
                        (sym (drop-drop (length out) offset abs_off payload refl))
                      ∙ take-split (length out) n (length out + n) (drop offset payload) refl) in
                Reads-same offset want
                  (read_chunks digest file hdr table (suc fuel) offset want out)
                  (read_chunks digest file hdr table fuel offset want (out ++ got))
                  (read_chunks-next digest file hdr table fuel offset want abs_off out got here more
                    h)
                  (read_chunks_lem fuel (out ++ got)
                    (longer ∙ ap (λ k. take k (drop offset payload)) (sym total))
                    (omega (arith, total)) (omega (arith, total)))
          ]
    ]

  -- The object's file has a table of its payload's chunks, the payload is such that its chunks can
  -- be numbered, no chunk of the file has the digest of the payload's chunk at its place with other
  -- bytes, and there are more rounds than bytes asked for. Then a read of a range that begins in the payload ends: it
  -- gives the payload's bytes of the range, as far as the payload goes, or an error, whatever stands
  -- in the file; and where the payload stands there it gives the bytes.
  pub read_payload_lem :
      (fuel offset size : ℕ)
      → pread file header_size (hdr.chunk_count * oid_bytes) ≡ table
      → length table ≡ hdr.chunk_count * oid_bytes
      → offset < length payload
      → size < fuel
      → Reads offset
          (min size (hdr.payload_len - offset))
          (read_payload digest fuel file hdr offset size)
  unfolding read_payload
  read_payload_lem fuel offset size stored full inside enough =
      let want = min size (hdr.payload_len - offset) in
      let behind : leb hdr.payload_len offset ≡ false = ground (arith, sized) in
      let whole : (length table == hdr.chunk_count * oid_bytes) ≡ true = ground (arith, full) in
      Reads-same offset want (read_payload digest fuel file hdr offset size)
        (read_chunks digest file hdr table fuel offset want []) (rw (behind, stored, whole) refl)
        (read_chunks_lem offset want (omega (arith, sized)) fuel [] refl (omega arith)
          (omega arith))
