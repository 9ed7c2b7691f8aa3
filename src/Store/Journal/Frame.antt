-- ===== src/Store/Journal/Frame.antt =====
-- The framing of a journal record: what is written is read back, and a torn write is found out.
use synapse_fs.Core.Oid.{Oid, oid_text}
use synapse_fs.Core.Oid.Text.{parse-oid_text}
use synapse_fs.Core.Error.{journal_torn, ok, err}
use synapse_fs.Store.Journal.{
  JournalOp, merge, pack, JournalRecord, JsonFields, op_text, op_of, oid_or_empty, fields_of, need,
  parse_optional, parse_subsumed, read_fields, frame, encode_record, parse_payload, decode_record,
}
use synapse_fs.Prelude.{
  ℕ, zero, suc, ◌+◌, ◌-◌, ◌%◌, ◌^◌, ◌≤◌, ◌<◌, ◌≡◌, refl, ap, ◌∙◌, inl, inr, true, false, not,
  Option, none, some, List, [], ◌∷◌, ◌++◌, map, arith, ltb, ◌==◌, if◌then◌else◌, Bool-cases, length,
  length-append, take, drop, length-take, take_all, take-append_len, drop-append_len,
  drop-append_more,
}
use synapse_fs.Prelude.Bytes.{Bytes, bytes_eq, bytes_eq_refl, All, IsBytes}
use synapse_fs.Core.Endian.{from_le, store_le, load_le, length-store_le, from_le-store_le}

-- An identity as the code makes them.
pub record IsOid (o : Oid) : Type 0 where
  pub size : length o.raw ≡ 32
  pub bytes : IsBytes o.raw

abbrev pub IsOptional : Option Oid → Type 0
IsOptional none = Unit {0}
IsOptional (some o) = IsOid o

pub record HasOids (r : JournalRecord) : Type 0 where
  pub old : IsOptional r.ref_old
  pub new : IsOptional r.ref_new
  pub subsumed : All IsOid r.subsumed

parse_optional-oid_or_empty :
    (o : Option Oid) → IsOptional o → parse_optional (oid_or_empty o) ≡ ok o
unfolding parse_optional oid_or_empty
parse_optional-oid_or_empty none h = refl
parse_optional-oid_or_empty (some o) h = rw (parse-oid_text o h.size h.bytes) refl

parse_subsumed-texts :
    (os : List Oid) → All IsOid os → parse_subsumed (map (λ o. some (oid_text o)) os) ≡ ok os
unfolding parse_subsumed need
parse_subsumed-texts [] h = refl
parse_subsumed-texts (o ∷ os) h =
    rw (parse-oid_text o h.0.size h.0.bytes, parse_subsumed-texts os h.1) refl

op_of-op_text : (op : JournalOp) → op_of (op_text op) ≡ op
unfolding op_of op_text bytes_eq
op_of-op_text merge = refl
op_of-op_text pack = refl

-- The fields of a record are read as the record.
read_fields-fields_of : (r : JournalRecord) → HasOids r → read_fields (fields_of r) ≡ ok r
unfolding read_fields fields_of need
read_fields-fields_of r h =
    rw
      (
        parse_optional-oid_or_empty r.ref_old h.old,
        parse_optional-oid_or_empty r.ref_new h.new,
        parse_subsumed-texts r.subsumed h.subsumed,
        op_of-op_text r.op,
      )
      refl

-- decode_record, by the length that the first bytes say.
decode_record_if :
    (digest : Bytes → Bytes) (parse_json : Bytes → Option JsonFields) (bytes : Bytes) (len : ℕ)
    → load_le 4 bytes 0 ≡ len
    → decode_record digest parse_json bytes ≡ (
        if ltb (length bytes) 36
        then err journal_torn
        else if not (length bytes == (4 + len) % 2 ^ 32 + 32)
        then err journal_torn
        else if not (
            bytes_eq (digest (take len (drop 4 bytes))) (take 32 (drop ((4 + len) % 2 ^ 32) bytes)))
        then err journal_torn
        else parse_payload parse_json (take len (drop 4 bytes)))
unfolding decode_record
decode_record_if digest parse_json bytes len e = rw (← e) refl

take-take : (n m : ℕ) (xs : Bytes) → m ≤ n → take m (take n xs) ≡ take m xs
take-take n zero xs h = refl
take-take zero (suc m) xs h = absurd (omega arith)
take-take (suc n) (suc m) [] h = refl
take-take (suc n) (suc m) (x ∷ xs) h = ap (λ l. x ∷ l) (take-take n m xs (omega arith))

load_le-take : (n : ℕ) (xs : Bytes) → 4 ≤ n → load_le 4 (take n xs) 0 ≡ load_le 4 xs 0
unfolding load_le
load_le-take n xs h = ap from_le (take-take n 4 xs h)

module _ (digest : Bytes → Bytes)
    (digest_size : (payload : Bytes) → length (digest payload) ≡ 32) where
  pub length-frame : (payload : Bytes) → length (frame digest payload) ≡ 36 + length payload
  unfolding frame
  length-frame payload = omega (
    arith,
    length-append (store_le 4 (length payload)) (payload ++ digest payload),
    length-append payload (digest payload),
    digest_size payload,
    length-store_le 4 (length payload),
  )

  -- The parts of a frame: its length, its payload and the digest.
  load_le-frame :
      (payload : Bytes)
      → length payload < 2 ^ 32
      → load_le 4 (frame digest payload) 0 ≡ length payload
  unfolding frame load_le
  load_le-frame payload small = from_le-store_le 4 (length payload) small

  payload-frame :
      (payload : Bytes) → take (length payload) (drop 4 (frame digest payload)) ≡ payload
  unfolding frame
  payload-frame payload =
      rw
        (
          drop-append_len (store_le 4 (length payload)) (payload ++ digest payload) 4
              (length-store_le 4 (length payload)),
          take-append_len payload (digest payload) (length payload) refl,
        )
        refl

  digest-frame :
      (payload : Bytes)
      → take 32 (drop (4 + length payload) (frame digest payload)) ≡ digest payload
  unfolding frame
  digest-frame payload =
      rw
        (
          drop-append_more (store_le 4 (length payload)) (payload ++ digest payload) 4
              (length payload) (4 + length payload) (length-store_le 4 (length payload)) refl,
          drop-append_len payload (digest payload) (length payload) refl,
        )
        (take_all 32 (digest payload) (omega (arith, digest_size payload)))

  -- A whole frame gives its payload to the parser.
  decode_record-frame :
      (parse_json : Bytes → Option JsonFields) (payload : Bytes)
      → length payload < 2 ^ 32 - 4
      → decode_record digest parse_json (frame digest payload) ≡ parse_payload parse_json payload
  decode_record-frame parse_json payload small =
      let sum : (4 + length payload) % 2 ^ 32 ≡ 4 + length payload = omega arith in
      let long : ltb (36 + length payload) 36 ≡ false = ground arith in
      let fits : (36 + length payload == 4 + length payload + 32) ≡ true = ground arith in
      decode_record_if digest parse_json (frame digest payload) (length payload)
        (load_le-frame payload (omega arith))
      ∙ rw
          (
            length-frame payload,
            sum,
            long,
            fits,
            digest-frame payload,
            payload-frame payload,
            bytes_eq_refl (digest payload),
          )
          refl

  -- What is written for a record, whose payload is below 2 ^ 32 - 4 bytes, is read as the record,
  -- if the JSON library reads what it wrote.
  pub decode_record-encode_record :
      (dump : JsonFields → Bytes) (parse_json : Bytes → Option JsonFields) (r : JournalRecord)
      → parse_json (dump (fields_of r)) ≡ some (fields_of r)
      → length (dump (fields_of r)) < 2 ^ 32 - 4
      → HasOids r
      → decode_record digest parse_json (encode_record digest dump r) ≡ ok r
  unfolding encode_record parse_payload
  decode_record-encode_record dump parse_json r reads small oids =
      decode_record-frame parse_json (dump (fields_of r)) small
      ∙ rw (parse_payload, reads) (read_fields-fields_of r oids)

  -- A write that was torn, so that a proper prefix of the record is in the file, is found out,
  -- whatever the JSON library reads there. The digest has 32 bytes, and the text of the record is
  -- below 2 ^ 32 - 4 bytes.
  pub decode_record-take :
      (dump : JsonFields → Bytes) (parse_json : Bytes → Option JsonFields) (r : JournalRecord)
      (n : ℕ)
      → length (dump (fields_of r)) < 2 ^ 32 - 4
      → n < length (encode_record digest dump r)
      → decode_record digest parse_json (take n (encode_record digest dump r)) ≡ err journal_torn
  unfolding encode_record
  decode_record-take dump parse_json r n small cut =
      let payload = dump (fields_of r) in
      let torn = take n (frame digest payload) in
      let size : length torn ≡ n =
        omega (arith, length-take n (frame digest payload), length-frame payload) in
      elim (Bool-cases (ltb n 36)) [
        | inl short ↦
            decode_record_if digest parse_json torn (load_le 4 torn 0) refl ∙ rw (size, short) refl
        | inr long ↦
            let len : load_le 4 torn 0 ≡ length payload =
              load_le-take n (frame digest payload) (ground arith)
              ∙ load_le-frame payload (omega arith) in
            let sum : (4 + length payload) % 2 ^ 32 ≡ 4 + length payload = omega arith in
            let differs : (n == 4 + length payload + 32) ≡ false =
              ground (arith, length-frame payload) in
            decode_record_if digest parse_json torn (length payload) len
            ∙ rw (size, long, sum, differs) refl
      ]
