-- ===== src/Format/Object/Chunks.antt =====
-- modules/format/src/object.cpp and modules/codec/src/chunk.cpp: chunk digests. `digest` is
-- core::digest, BLAKE3 over the bytes, of which its length is all that is relied on.
use Prim.Native.Nat.add
use synapse_fs.Prelude.{
  ℕ, zero, suc, ◌+◌, ◌-◌, ◌*◌, ◌/◌, ◌%◌, ◌^◌, ◌≤◌, ◌<◌, min, ◌≡◌, refl, sym, ap, ◌∙◌, ◌↔◌, not, [],
  ◌∷◌, ◌++◌, arith, ltb, if◌then◌else◌, length, length-append, take, drop, take-append_len,
  drop-append_more,
}
use synapse_fs.Prelude.Bytes.{Bytes, bytes_eq, bytes_eq_iff}
use synapse_fs.Format.Object.{oid_bytes}
use synapse_fs.Core.Error.{malformed_object, chunk_digest_mismatch, ok, err, Status}
use native.Mathlib.Nat.{add-zero, div-lt_iff_lt-mul}
use synapse_fs.Prelude.Bits.{mod_small}
use native.Mathlib.Decide.{dec_lt}

-- util::ceil_div on 64 bits.
unfoldable pub ceil_div : ℕ → ℕ → ℕ
ceil_div a b = (a + b - 1) % 2 ^ 64 / b

-- The bytes of the chunk at `off`: `min(chunk_bytes, payload.size() - off)` of them.
abbrev pub chunk_at : Bytes → ℕ → ℕ → Bytes
chunk_at payload chunk_bytes off = take (min chunk_bytes (length payload - off)) (drop off payload)

index-lt-ceil_div : (n cb i : ℕ) → 0 < cb → n + cb < 2 ^ 64 → i * cb < n → i < ceil_div n cb
unfolding ceil_div
index-lt-ceil_div n cb i pos fits inside =
    rw (mod_small (2 ^ 64) (n + cb - 1) (omega arith)) (elim (dec_lt i ((n + cb - 1) / cb)) [
      | yes h ↦ h
      | no over ↦
          let less : (n + cb - 1) / cb < i + 1 = omega arith in
          absurd (omega (arith, (div-lt_iff_lt-mul pos).0 less))
    ])

module _ (digest : Bytes → Bytes) where
  -- The loop of compute_chunk_digests from the chunk `i` on, `left` of them.
  unfoldable pub digests_from : Bytes → ℕ → ℕ → ℕ → Bytes
  digests_from payload chunk_bytes i zero = []
  digests_from payload chunk_bytes i (suc left) =
      digest (chunk_at payload chunk_bytes (i * chunk_bytes))
      ++ digests_from payload chunk_bytes (i + 1) left

  unfoldable pub compute_chunk_digests : Bytes → ℕ → Bytes
  unfolding digests_from ceil_div
  compute_chunk_digests [] chunk_bytes = []
  compute_chunk_digests (b ∷ bs) chunk_bytes =
      digests_from (b ∷ bs) chunk_bytes 0 (ceil_div (length (b ∷ bs)) chunk_bytes)

  unfoldable pub verify_chunk : Bytes → Bytes → ℕ → Status
  unfolding bytes_eq
  verify_chunk chunk digest_table chunk_index =
      let off = chunk_index * oid_bytes in
      if ltb (length digest_table) (off + oid_bytes)
      then err malformed_object
      else if not (bytes_eq (digest chunk) (take oid_bytes (drop off digest_table)))
      then err chunk_digest_mismatch
      else ok tt

  -- verify_chunk_digest of modules/codec/src/chunk.cpp.
  unfoldable pub verify_chunk_digest : Bytes → Bytes → ℕ → Status
  unfolding bytes_eq
  verify_chunk_digest chunk digest_table index =
      let off = index * oid_bytes in
      if ltb (length digest_table) (off + oid_bytes)
      then err malformed_object
      else if not (bytes_eq (digest chunk) (take oid_bytes (drop off digest_table)))
      then err chunk_digest_mismatch
      else ok tt

  -- A chunk passes exactly when its digest is the entry of the table.
  verify_chunk_lem :
      (chunk table : Bytes) (i : ℕ)
      → i * oid_bytes + oid_bytes ≤ length table
      → (verify_chunk chunk table i ≡ ok tt)
        ↔ (digest chunk ≡ take oid_bytes (drop (i * oid_bytes) table))
  unfolding verify_chunk
  verify_chunk_lem chunk table i h =
      let entry = take oid_bytes (drop (i * oid_bytes) table) in
      let eq = bytes_eq_iff (digest chunk) entry in
      (λ passed. ground (arith, eq), λ same. ground (arith, eq))

  module _ (digest_len : (b : Bytes) → length (digest b) ≡ oid_bytes) where
    digests_from-length :
        (payload : Bytes) (cb i left : ℕ)
        → length (digests_from payload cb i left) ≡ left * oid_bytes
    unfolding digests_from
    digests_from-length payload cb i zero = refl
    digests_from-length payload cb i (suc left) = omega (
      arith,
      length-append {0} (digest (chunk_at payload cb (i * cb)))
          (digests_from payload cb (i + 1) left),
      digest_len (chunk_at payload cb (i * cb)),
      digests_from-length payload cb (i + 1) left,
    )

    -- The entry of the chunk `i + k`.
    digests_from-entry :
        (payload : Bytes) (cb i left k : ℕ)
        → k < left
        → take oid_bytes (drop (k * oid_bytes) (digests_from payload cb i left))
          ≡ digest (chunk_at payload cb ((i + k) * cb))
    unfolding digests_from
    digests_from-entry payload cb i zero k h = absurd (omega arith)
    digests_from-entry payload cb i (suc left) zero h =
        let d = digest (chunk_at payload cb (i * cb)) in
        rw add-zero
          (take-append_len d (digests_from payload cb (i + 1) left) oid_bytes (digest_len _))
    digests_from-entry payload cb i (suc left) (suc k) h =
        let d = digest (chunk_at payload cb (i * cb)) in
        let shift : i + 1 + k ≡ i + suc k = omega arith in
        rw
          (
            drop-append_more d (digests_from payload cb (i + 1) left) oid_bytes (k * oid_bytes)
                (suc k * oid_bytes) (digest_len _) (omega arith),
            ← shift,
          )
          (digests_from-entry payload cb (i + 1) left k (omega arith))

    compute_chunk_digests-pos :
        (payload : Bytes) (cb : ℕ)
        → 0 < length payload
        → compute_chunk_digests payload cb
          ≡ digests_from payload cb 0 (ceil_div (length payload) cb)
    unfolding compute_chunk_digests
    compute_chunk_digests-pos [] cb h = absurd (omega arith)
    compute_chunk_digests-pos (b ∷ bs) cb h = refl

    -- A chunk passes against the table of a payload, at the index of a chunk of that payload,
    -- exactly when it has that chunk's bytes, unless it is a collision with that chunk; the sizes
    -- are such that the count of chunks does not wrap.
    pub verify_chunk-compute :
        (payload chunk : Bytes) (cb i : ℕ)
        → 0 < cb
        → length payload + cb < 2 ^ 64
        → i * cb < length payload
        → (digest chunk ≡ digest (chunk_at payload cb (i * cb))
            → chunk ≡ chunk_at payload cb (i * cb))
        → (verify_chunk chunk (compute_chunk_digests payload cb) i ≡ ok tt)
          ↔ (chunk ≡ chunk_at payload cb (i * cb))
    verify_chunk-compute payload chunk cb i pos fits inside no_collision =
        let table = compute_chunk_digests payload cb in
        let left = ceil_div (length payload) cb in
        let at = compute_chunk_digests-pos payload cb (omega arith) in
        let more = index-lt-ceil_div (length payload) cb i pos fits inside in
        let room : i * oid_bytes + oid_bytes ≤ length table =
          rw at (omega (arith, digests_from-length payload cb 0 left)) in
        let entry = entry_of at (digests_from-entry payload cb 0 left i more) in
        let check = verify_chunk_lem chunk table i room in
        (
          λ passed. no_collision (check.0 passed ∙ entry),
          λ same. check.1 (ap digest same ∙ sym entry),
        )
      where
        entry_of :
            compute_chunk_digests payload cb
              ≡ digests_from payload cb 0 (ceil_div (length payload) cb)
            → take oid_bytes
                (drop (i * oid_bytes) (digests_from payload cb 0 (ceil_div (length payload) cb)))
              ≡ digest (chunk_at payload cb ((0 + i) * cb))
            → take oid_bytes (drop (i * oid_bytes) (compute_chunk_digests payload cb))
              ≡ digest (chunk_at payload cb (i * cb))
        entry_of at e = rw at (e ∙ ap (λ k. digest (chunk_at payload cb (k * cb))) (add.zero i))
