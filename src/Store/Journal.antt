-- ===== src/Store/Journal.antt =====
-- modules/store/src/journal.cpp, and the journalled part of run_merge in apps/sfs/cmd/merge.cpp.
-- The digest and the JSON library are parameters: `dump` writes the fields of a record, and
-- `parse_json` reads them, with `none` for a text or a field that it throws on. The journal's
-- directory is its files; a file that cannot be read is left out.
pub mod Frame
pub mod Recover
pub mod Crash
use synapse_fs.Prelude.{
  ℕ, zero, suc, ◌+◌, ◌/◌, ◌%◌, ◌^◌, Bool, true, false, not, Option, none, some, List, [], ◌∷◌, ◌++◌,
  map, ltb, ◌==◌, if◌then◌else◌, length, take, drop,
}
use synapse_fs.Prelude.Bytes.{Bytes, bytes_eq}
use synapse_fs.Core.Endian.{store_le, load_le}
use synapse_fs.Core.Oid.{Oid, oid_eq, parse, oid_text}
use synapse_fs.Core.Error.{
  ErrKind, io, ref_race_lost, journal_torn, not_implemented, Result, ok, err, Status, ◌>>=◌, ◌>>◌,
}
use synapse_fs.Format.Object.{oid_bytes}
use synapse_fs.Store.Files.{Files, write_file, Write, takes_effect, write_status, remove_file}
use synapse_fs.Store.Refs.{RefStore, starts_with, rev_parse, update}

pub data JournalOp : Type 0 where
  merge : JournalOp
  pack : JournalOp

pub record JournalRecord : Type 0 where
  pub format_version : ℕ
  pub op : JournalOp
  pub seq : ℕ
  pub timestamp : Bytes
  pub ref_name : Bytes
  pub ref_old : Option Oid
  pub ref_new : Option Oid
  pub pack_name : Bytes
  pub subsumed : List Oid

-- What the JSON library gives for each field that decode_record asks for; a field that may be missing has
-- its default then.
pub record JsonFields : Type 0 where
  pub format_version : Option ℕ
  pub op : Option Bytes
  pub seq : Option ℕ
  pub timestamp : Option Bytes
  pub ref_name : Option Bytes
  pub ref_old : Option Bytes
  pub ref_new : Option Bytes
  pub pack_name : Option Bytes
  pub subsumed : List (Option Bytes)

-- "merge" and "pack"
abbrev pub merge_text : Bytes
merge_text = 109 ∷ 101 ∷ 114 ∷ 103 ∷ 101 ∷ []

abbrev pub pack_text : Bytes
pack_text = 112 ∷ 97 ∷ 99 ∷ 107 ∷ []

unfoldable pub op_text : JournalOp → Bytes
op_text merge = merge_text
op_text pack = pack_text

unfoldable pub op_of : Bytes → JournalOp
unfolding bytes_eq
op_of s = if bytes_eq s merge_text then merge else pack

-- `ref_old ? ref_old->to_string() : ""`.
unfoldable pub oid_or_empty : Option Oid → Bytes
unfolding oid_text
oid_or_empty none = []
oid_or_empty (some o) = oid_text o

unfoldable pub fields_of : JournalRecord → JsonFields
unfolding op_text oid_or_empty oid_text
fields_of r = record {
  format_version = some r.format_version;
  op = some (op_text r.op);
  seq = some r.seq;
  timestamp = some r.timestamp;
  ref_name = some r.ref_name;
  ref_old = some (oid_or_empty r.ref_old);
  ref_new = some (oid_or_empty r.ref_new);
  pack_name = some r.pack_name;
  subsumed = map (λ o. some (oid_text o)) r.subsumed;
}

-- An access that throws is a torn record.
unfoldable pub need {ℓ} : {A : Type ℓ} → Option A → Result A
need none = err journal_torn
need (some a) = ok a

-- `if (!s.empty()) { auto o = Oid::parse(s); ... }`.
unfoldable pub parse_optional : Bytes → Result (Option Oid)
unfolding parse
parse_optional [] = ok none
parse_optional (c ∷ cs) = parse (c ∷ cs) >>= λ o. ok (some o)

unfoldable pub parse_subsumed : List (Option Bytes) → Result (List Oid)
unfolding need parse
parse_subsumed [] = ok []
parse_subsumed (s ∷ ss) = do text ← need s; o ← parse text; os ← parse_subsumed ss; ok (o ∷ os)

unfoldable pub read_fields : JsonFields → Result JournalRecord
unfolding need op_of parse_optional parse_subsumed
read_fields j = do
  format_version ← need j.format_version
  op ← need j.op
  seq ← need j.seq
  timestamp ← need j.timestamp
  ref_name ← need j.ref_name
  old_s ← need j.ref_old
  ref_old ← parse_optional old_s
  new_s ← need j.ref_new
  ref_new ← parse_optional new_s
  pack_name ← need j.pack_name
  subsumed ← parse_subsumed j.subsumed
  ok (record {
    format_version = format_version;
    op = op_of op;
    seq = seq;
    timestamp = timestamp;
    ref_name = ref_name;
    ref_old = ref_old;
    ref_new = ref_new;
    pack_name = pack_name;
    subsumed = subsumed;
  })

-- std::to_string of a uint64_t, which has 20 digits at most.
unfoldable pub digits : ℕ → ℕ → Bytes
digits zero n = []
digits (suc k) n =
    let more = digits k (n / 10) ++ ((48 + n % 10) ∷ []) in if ltb n 10 then (48 + n) ∷ [] else more

-- "j."
abbrev pub record_prefix : Bytes
record_prefix = 106 ∷ 46 ∷ []

unfoldable pub record_path : ℕ → Bytes
unfolding digits
record_path seq = record_prefix ++ digits 20 seq

unfoldable pub is_race_lost : ErrKind → Bool
is_race_lost ref_race_lost = true
is_race_lost _ = false

-- A race that is lost is fine during recovery; any other error propagates.
unfoldable pub ignore_race : RefStore × Status → RefStore × Status
unfolding is_race_lost
ignore_race (refs, ok u) = (refs, ok u)
ignore_race (refs, err kind) = (refs, (if is_race_lost kind then ok tt else err kind))

-- `current && rec.ref_new && *current == *rec.ref_new`, where there is a new identity.
unfoldable pub is_applied : Result Oid → Oid → Bool
unfolding oid_eq
is_applied (err kind) new = false
is_applied (ok current) new = oid_eq current new

-- The record of run_merge; the other fields keep their defaults.
unfoldable pub merge_record : Bytes → Bytes → Oid → Oid → JournalRecord
merge_record timestamp ref_name ours merge_oid = record {
  format_version = 1;
  op = merge;
  seq = 0;
  timestamp = timestamp;
  ref_name = ref_name;
  ref_old = some ours;
  ref_new = some merge_oid;
  pack_name = [];
  subsumed = [];
}

-- [length of 4 bytes][payload][digest of the payload].
unfoldable pub frame : (digest : Bytes → Bytes) → Bytes → Bytes
unfolding store_le
frame digest payload = store_le 4 (length payload) ++ (payload ++ digest payload)

unfoldable pub encode_record :
    (digest : Bytes → Bytes) (dump : JsonFields → Bytes) → JournalRecord → Bytes
unfolding frame fields_of
encode_record digest dump r = frame digest (dump (fields_of r))

unfoldable pub parse_payload :
    (parse_json : Bytes → Option JsonFields) → Bytes → Result JournalRecord
unfolding need read_fields
parse_payload parse_json payload = need (parse_json payload) >>= read_fields

-- `4u + len` is a sum of 32 bits.
unfoldable pub decode_record :
    (digest : Bytes → Bytes) (parse_json : Bytes → Option JsonFields) → Bytes → Result JournalRecord
unfolding load_le bytes_eq parse_payload
decode_record digest parse_json bytes =
    let len = load_le 4 bytes 0 in
    let behind = (4 + len) % 2 ^ 32 in
    let payload = take len (drop 4 bytes) in
    let stored_digest = take oid_bytes (drop behind bytes) in
    if ltb (length bytes) (4 + oid_bytes)
    then err journal_torn
    else if not (length bytes == behind + oid_bytes)
    then err journal_torn
    else if not (bytes_eq (digest payload) stored_digest)
    then err journal_torn
    else parse_payload parse_json payload

module _ (digest : Bytes → Bytes) (dump : JsonFields → Bytes)
    (parse_json : Bytes → Option JsonFields) (writable : Bytes → Write) where
  unfoldable pub begin : Files → JournalRecord → Files × Result ℕ
  unfolding record_path encode_record takes_effect write_status
  begin dir rec =
      let path = record_path rec.seq in
      let end = writable path in
      let new = write_file path (encode_record digest dump rec) dir in
      ((if takes_effect end then new else dir), (write_status end >> ok rec.seq))

  -- A directory that cannot be synced is logged, and no error.
  unfoldable pub commit : Files → ℕ → Files × Status
  unfolding record_path takes_effect
  commit dir seq =
      let path = record_path seq in
      if takes_effect (writable path) then (remove_file path dir, ok tt) else (dir, err io)

  unfoldable pub pending : Files → Result (List JournalRecord)
  unfolding decode_record starts_with
  pending [] = ok []
  pending ((name, bytes) ∷ files) =
      let rest = pending files in
      let decoded =
        decode_record digest parse_json bytes >>= λ rec. rest >>= λ recs. ok (rec ∷ recs) in
      if starts_with record_prefix name then decoded else rest

  -- The body of recover's loop, but for the removal of the record's file.
  unfoldable pub replay_merge : RefStore → JournalRecord → Result Oid → RefStore × Status
  unfolding is_applied ignore_race update
  replay_merge refs rec current = elim rec.ref_new [
    | none ↦ (refs, ok tt)
    | some new ↦
        if is_applied current new
        then (refs, ok tt)
        else ignore_race (update writable refs rec.ref_name rec.ref_old new)
  ]

  unfoldable pub replay_op :
      JournalOp → Option (Result Oid) → RefStore → JournalRecord → Option (RefStore × Status)
  unfolding replay_merge
  replay_op pack current refs rec = some (refs, err not_implemented)
  replay_op merge none refs rec = none
  replay_op merge (some current) refs rec = some (replay_merge refs rec current)

  -- Two rounds of rev_parse; `none` means that it does not return.
  unfoldable pub replay : RefStore → JournalRecord → Option (RefStore × Status)
  unfolding rev_parse replay_op
  replay refs rec = replay_op rec.op (rev_parse 2 refs rec.ref_name) refs rec

  -- An error of the removal is ignored.
  unfoldable pub clear_record : Files → ℕ → Files
  unfolding record_path takes_effect
  clear_record dir seq =
      let path = record_path seq in
      if takes_effect (writable path) then remove_file path dir else dir

  unfoldable pub replay_all :
      List JournalRecord → Files → RefStore → Option ((Files × RefStore) × Status)
  unfolding replay clear_record
  replay_all [] dir refs = some ((dir, refs), ok tt)
  replay_all (rec ∷ recs) dir refs = elim (replay refs rec) [
    | none ↦ none
    | some (refs', err kind) ↦ some ((dir, refs'), err kind)
    | some (refs', ok u) ↦ replay_all recs (clear_record dir rec.seq) refs'
  ]

  unfoldable pub recover : Files → RefStore → Option ((Files × RefStore) × Status)
  unfolding pending replay_all
  recover dir refs = elim (pending dir) [
    | err kind ↦ some ((dir, refs), err kind)
    | ok records ↦ replay_all records dir refs
  ]

  -- The end of run_merge: the journal's record, the branch's update, the record's removal. `steps`
  -- of these three are made before the process is killed; an error ends it too.
  unfoldable pub after_update : ℕ → Files → ℕ → RefStore × Status → Files × RefStore
  unfolding commit
  after_update steps dir seq (refs, err kind) = (dir, refs)
  after_update steps dir seq (refs, ok u) =
      if steps == 2 then (dir, refs) else ((commit dir seq).0, refs)

  unfoldable pub after_begin :
      ℕ → RefStore → Bytes → Oid → Oid → Files × Result ℕ → Files × RefStore
  unfolding after_update update
  after_begin steps refs ref_name ours merge_oid (dir, err kind) = (dir, refs)
  after_begin steps refs ref_name ours merge_oid (dir, ok seq) =
      if steps == 1
      then (dir, refs)
      else after_update steps dir seq (update writable refs ref_name (some ours) merge_oid)

  unfoldable pub advance_branch :
      ℕ → Files → RefStore → Bytes → Bytes → Oid → Oid → Files × RefStore
  unfolding after_begin begin merge_record
  advance_branch steps dir refs timestamp ref_name ours merge_oid =
      let begun = begin dir (merge_record timestamp ref_name ours merge_oid) in
      if steps == 0 then (dir, refs) else after_begin steps refs ref_name ours merge_oid begun
