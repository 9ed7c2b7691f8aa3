-- ===== src/Format/Object.antt =====
-- modules/format/src/object.cpp: the header of a loose object, its table of chunk digests, and the
-- body of a loose object's file. The digest (`core::digest`, BLAKE3 over the bytes) is a parameter.
pub mod Chunks
use synapse_fs.Prelude.{
  ℕ, ◌%◌, ◌^◌, ◌≤◌, ◌<◌, ◌≡◌, refl, ◌∙◌, true, not, [], ◌∷◌, ◌++◌, arith, ltb, if◌then◌else◌,
  length, get_or, take, replicate,
}
use synapse_fs.Prelude.Bytes.{Bytes, bytes_eq}
use synapse_fs.Core.Endian.{store_le, load_le, write_at, from_le-store_le}
use synapse_fs.Core.Error.{malformed_object, Result, ok, err}
use synapse_fs.Prelude.Bits.{mod_small}

abbrev pub oid_bytes : ℕ
oid_bytes = 32

abbrev pub header_size : ℕ
header_size = 40

abbrev pub magic : Bytes
magic = 83 ∷ 70 ∷ 83 ∷ 79 ∷ 66 ∷ 74 ∷ 0 ∷ 1 ∷ []

-- `kind` and `compression` are the bytes of the two enums, which the decoder casts unchecked.
pub record ObjectHeader : Type 0 where
  pub kind : ℕ
  pub compression : ℕ
  pub chunk_log2 : ℕ
  pub payload_len : ℕ
  pub stored_len : ℕ
  pub chunk_count : ℕ

unfoldable pub encode : ObjectHeader → Bytes → Bytes
unfolding write_at store_le
encode h out =
    let a = write_at out 0 magic in
    let b = write_at a 8 ((h.kind % 256) ∷ []) in
    let c = write_at b 9 ((h.compression % 256) ∷ []) in
    let d = write_at c 10 (store_le 4 h.chunk_log2) in
    let e = write_at d 14 (store_le 8 h.payload_len) in
    let f = write_at e 22 (store_le 8 h.stored_len) in
    let g = write_at f 30 (store_le 4 h.chunk_count) in write_at g 34 (replicate 6 0)

unfoldable pub decode : Bytes → Result ObjectHeader
unfolding bytes_eq load_le
decode inp =
    if ltb (length inp) header_size
    then err malformed_object
    else if not (bytes_eq (take 8 inp) magic)
    then err malformed_object
    else ok (record {
      kind = get_or inp 8 0;
      compression = get_or inp 9 0;
      chunk_log2 = load_le 4 inp 10;
      payload_len = load_le 8 inp 14;
      stored_len = load_le 8 inp 22;
      chunk_count = load_le 4 inp 30;
    })

-- The fields fit their types.
pub record InRange (h : ObjectHeader) : Type 0 where
  pub kind : h.kind < 256
  pub compression : h.compression < 256
  pub chunk_log2 : h.chunk_log2 < 256 ^ 4
  pub payload_len : h.payload_len < 256 ^ 8
  pub stored_len : h.stored_len < 256 ^ 8
  pub chunk_count : h.chunk_count < 256 ^ 4

-- A prefix of 40 bytes that begins with the magic decodes to what load_le reads in it.
decode_lem :
    (inp : Bytes)
    → header_size ≤ length inp
    → bytes_eq (take 8 inp) magic ≡ true
    → decode inp
      ≡ ok (record {
        kind = get_or inp 8 0;
        compression = get_or inp 9 0;
        chunk_log2 = load_le 4 inp 10;
        payload_len = load_le 8 inp 14;
        stored_len = load_le 8 inp 22;
        chunk_count = load_le 4 inp 30;
      })
unfolding decode
decode_lem inp h m = ground arith

-- What is encoded into a zeroed buffer of 40 bytes, whatever stands behind it in a file, decodes
-- to the header, if its fields fit their types.
pub decode-encode :
    (h : ObjectHeader) (rest : Bytes)
    → InRange h
    → decode (encode h (replicate header_size 0) ++ rest) ≡ ok h
unfolding encode bytes_eq load_le
decode-encode h rest r =
    decode_lem (encode h (replicate header_size 0) ++ rest) (omega arith) refl ∙ λ i. ok (record {
      kind = mod_small 256 h.kind r.kind i;
      compression = mod_small 256 h.compression r.compression i;
      chunk_log2 = from_le-store_le 4 h.chunk_log2 r.chunk_log2 i;
      payload_len = from_le-store_le 8 h.payload_len r.payload_len i;
      stored_len = from_le-store_le 8 h.stored_len r.stored_len i;
      chunk_count = from_le-store_le 4 h.chunk_count r.chunk_count i;
    })
