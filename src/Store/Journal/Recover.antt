-- ===== src/Store/Journal/Recover.antt =====
-- Journal::recover after a merge that was killed at any point of its last three steps.
use mathlib.Core.Path.{fun_ext}
use synapse_fs.Store.Files.{Files, Write, written, remove_file}
use synapse_fs.Core.Oid.{Oid, oid_eq, oid_eq_iff, oid_text}
use synapse_fs.Core.Error.{ref_race_lost, Result, ok, err, Status}
use synapse_fs.Store.Refs.{RefStore, head_name, starts_with, branch_ref_path, rev_parse, update}
use synapse_fs.Store.Refs.Swap.{
  Branches, branches, same_text, compare_and_swap, is_ok, Swaps, update_lem,
}
use synapse_fs.Store.Journal.{
  merge, JournalRecord, JsonFields, fields_of, record_path, is_race_lost, ignore_race, is_applied,
  encode_record, pending, replay_merge, replay_op, replay, clear_record, replay_all, recover,
}
use synapse_fs.Prelude.{
  ◌-◌, ◌^◌, ◌<◌, ◌≡◌, refl, sym, ap, ◌∙◌, inl, inr, Bool, true, false, Option, none, some, List, [],
  ◌∷◌, if◌then◌else◌, Bool-cases, length,
}
use synapse_fs.Prelude.Bytes.{Bytes, bytes_eq, bytes_eq_refl, eq-bytes_eq, bytes_eq_iff}
use synapse_fs.Store.Journal.Frame.{IsOid, HasOids, decode_record-encode_record}
use synapse_fs.Store.Refs.Resolve.{rev_parse_lem, rev_parse-branch}

-- The branches after a swap of texts, whether it happens or not.
abbrev pub swapped : Branches → Bytes → Bytes → Bytes → Branches
swapped m path old new = (compare_and_swap m path (some old) new).0

same_text-eq : (m : Option Bytes) (t : Bytes) → same_text m (some t) ≡ true → m ≡ some t
unfolding same_text
same_text-eq none t h = cc
same_text-eq (some s) t h = ap some (eq-bytes_eq s t h)

module _ (m : Branches) (path old : Bytes) where
  swapped_miss : (new : Bytes) → same_text (m path) (some old) ≡ false → swapped m path old new ≡ m
  unfolding compare_and_swap
  swapped_miss new differs = rw (swapped, differs) refl

  swapped_hit :
      (new : Bytes)
      → same_text (m path) (some old) ≡ true
      → swapped m path old new ≡ (λ other. if bytes_eq path other then some new else m other)
  unfolding compare_and_swap
  swapped_hit new fits = rw (swapped, fits) refl

  -- Where the new text is held already, nothing changes.
  swapped_end : (new : Bytes) → m path ≡ some new → swapped m path old new ≡ m
  swapped_end new held = elim (Bool-cases (same_text (m path) (some old))) [
    | inl fits ↦
        swapped_hit new fits
        ∙ fun_ext λ other. elim (Bool-cases (bytes_eq path other)) [
          | inl hit ↦ let e = eq-bytes_eq path other hit in rw hit (sym held ∙ ap m e)
          | inr miss ↦ rw miss refl
        ]
    | inr differs ↦ swapped_miss new differs
  ]

-- A second swap after a first finds its work done.
pub swapped_twice :
    (m : Branches) (path old new : Bytes)
    → swapped (swapped m path old new) path old new ≡ swapped m path old new
swapped_twice m path old new = elim (Bool-cases (same_text (m path) (some old))) [
  | inl fits ↦
      let after = swapped_hit m path old new fits in
      swapped_end (swapped m path old new) path old new
        (ap (λ (k : Branches). k path) after ∙ rw (bytes_eq_refl path) refl)
  | inr differs ↦ ap (λ k. swapped k path old new) (swapped_miss m path old new differs)
]

-- What the replay of a merge leaves: the branches as the swap makes them, no error, HEAD as it was.
pub record Replayed (refs : RefStore) (path old new : Bytes) (r : RefStore × Status) : Type 0 where
  pub swaps : branches r.0 ≡ swapped (branches refs) path old new
  pub fine : r.1 ≡ ok tt
  pub same_head : r.0.head ≡ refs.head

ignore_race-update :
    (refs : RefStore) (path : Bytes) (ours merge_oid : Oid) (r : RefStore × Status)
    → Swaps refs path (some ours) merge_oid r
    → Replayed refs path (oid_text ours) (oid_text merge_oid) (ignore_race r)
unfolding ignore_race is_ok is_race_lost
ignore_race-update refs path ours merge_oid (s, ok u) (swap, refused, same_head) = record {
  swaps = ap (λ (p : Branches × Bool). p.0) swap;
  fine = refl;
  same_head = same_head;
}
ignore_race-update refs path ours merge_oid (s, err kind) (swap, refused, same_head) =
    let kept = refused refl in
    let lost : err kind ≡ err ref_race_lost = ap (λ (r : RefStore × Status). r.1) kept in
    let name : kind ≡ ref_race_lost = cc in
    record {
      swaps = ap (λ (p : Branches × Bool). p.0) swap;
      fine = rw name refl;
      same_head = same_head;
    }

-- A replay that finds the new identity there has nothing left to do.
applied-Replayed :
    (refs : RefStore) (ref_name : Bytes) (ours merge_oid : Oid) (current : Result Oid)
    → IsOid ours
    → bytes_eq ref_name head_name ≡ false
    → rev_parse 2 refs ref_name ≡ some current
    → is_applied current merge_oid ≡ true
    → Replayed refs (branch_ref_path ref_name) (oid_text ours) (oid_text merge_oid) (refs, ok tt)
unfolding is_applied
applied-Replayed refs ref_name ours merge_oid current is_oid plain found applied = record {
  swaps = elim (Bool-cases (same_text (branches refs path) (some (oid_text ours)))) [
    | inl fits ↦
        let held = same_text-eq (branches refs path) (oid_text ours) fits in
        let there = rev_parse-branch 1 refs ref_name ours is_oid.size is_oid.bytes plain held in
        let at_ours : current ≡ ok ours = cc in
        let eq : oid_eq ours merge_oid ≡ true = rw at_ours at applied in
        let same = (oid_eq_iff ours merge_oid).0 eq in
        let at_new : branches refs path ≡ some (oid_text merge_oid) = rw (← same) held in
        sym (swapped_end (branches refs) path (oid_text ours) (oid_text merge_oid) at_new)
    | inr differs ↦
        sym (swapped_miss (branches refs) path (oid_text ours) (oid_text merge_oid) differs)
  ];
  fine = refl;
  same_head = refl;
}
  where
    path : Bytes
    path = branch_ref_path ref_name

module _ (digest : Bytes → Bytes) (dump : JsonFields → Bytes)
    (parse_json : Bytes → Option JsonFields) (writable : Bytes → Write)
    (can_write : (path : Bytes) → writable path ≡ written) where
  replay_merge-Replayed :
      (refs : RefStore) (rec : JournalRecord) (ours merge_oid : Oid) (current : Result Oid)
      → rec.ref_old ≡ some ours
      → rec.ref_new ≡ some merge_oid
      → IsOid ours
      → bytes_eq rec.ref_name head_name ≡ false
      → rev_parse 2 refs rec.ref_name ≡ some current
      → Replayed refs
          (branch_ref_path rec.ref_name)
          (oid_text ours)
          (oid_text merge_oid)
          (replay_merge digest dump parse_json writable refs rec current)
  unfolding replay_merge
  replay_merge-Replayed refs rec ours merge_oid current old new is_oid plain found =
      elim (Bool-cases (is_applied current merge_oid)) [
        | inl applied ↦
            rw (new, applied)
              (applied-Replayed refs rec.ref_name ours merge_oid current is_oid plain found applied)
        | inr open_yet ↦
            rw (new, open_yet, old)
              (ignore_race-update refs (branch_ref_path rec.ref_name) ours merge_oid
                (update writable refs rec.ref_name (some ours) merge_oid)
                (update_lem writable can_write refs rec.ref_name (some ours) merge_oid))
      ]

  replay-Replayed :
      (refs : RefStore) (rec : JournalRecord) (ours merge_oid : Oid)
      → rec.op ≡ merge
      → rec.ref_old ≡ some ours
      → rec.ref_new ≡ some merge_oid
      → IsOid ours
      → bytes_eq rec.ref_name head_name ≡ false
      → (refs' : RefStore) × (replay digest dump parse_json writable refs rec ≡ some (refs', ok tt))
        × Replayed refs
            (branch_ref_path rec.ref_name)
            (oid_text ours)
            (oid_text merge_oid)
            (refs', ok tt)
  unfolding replay
  replay-Replayed refs rec ours merge_oid op old new is_oid plain =
      elim (rev_parse_lem refs rec.ref_name 0) [
        | inr (at_head, loops, never) ↦
            let is_head = (bytes_eq_iff rec.ref_name head_name).1 at_head in cc
        | inl (current, found) ↦
            let r = replay_merge digest dump parse_json writable refs rec current in
            let done =
              replay_merge-Replayed refs rec ours merge_oid current old new is_oid plain found in
            let whole : r ≡ (r.0, ok tt) = λ i. (r.0, done.fine i) in
            (
              r.0,
              (λ i. replay_op digest dump parse_json writable (op i) (found i) refs rec)
                  ∙ ap some whole,
              record { swaps = done.swaps; fine = refl; same_head = done.same_head },
            )
      ]

  pub recover_after :
      (dir : Files) (refs : RefStore) (records : List JournalRecord)
      → pending digest dump parse_json writable dir ≡ ok records
      → recover digest dump parse_json writable dir refs
        ≡ replay_all digest dump parse_json writable records dir refs
  unfolding recover
  recover_after dir refs records e = rw (recover, e) refl

  replay_all_one :
      (rec : JournalRecord) (dir : Files) (refs refs' : RefStore)
      → replay digest dump parse_json writable refs rec ≡ some (refs', ok tt)
      → replay_all digest dump parse_json writable (rec ∷ []) dir refs
        ≡ some ((clear_record digest dump parse_json writable dir rec.seq, refs'), ok tt)
  unfolding replay_all
  replay_all_one rec dir refs refs' e = rw (replay_all, e) refl

  -- What recovery leaves: no record, and the branches as the swap makes them.
  abbrev pub Recovers : Files → RefStore → Branches → Option Bytes → Type 0
  Recovers dir refs after head =
      (refs' : RefStore) × (recover digest dump parse_json writable dir refs
        ≡ some (([], refs'), ok tt))
      × (branches refs' ≡ after)
      × (refs'.head ≡ head)

  module _ (digest_size : (payload : Bytes) → length (digest payload) ≡ 32) where
    pending_one :
        (rec : JournalRecord)
        → parse_json (dump (fields_of rec)) ≡ some (fields_of rec)
        → length (dump (fields_of rec)) < 2 ^ 32 - 4
        → HasOids rec
        → pending digest dump parse_json writable
            ((record_path rec.seq, encode_record digest dump rec) ∷ [])
          ≡ ok (rec ∷ [])
    unfolding pending starts_with record_path
    pending_one rec reads small oids =
        rw (decode_record-encode_record digest digest_size dump parse_json rec reads small oids)
          refl

    cleared :
        (rec : JournalRecord)
        → clear_record digest dump parse_json writable
            ((record_path rec.seq, encode_record digest dump rec) ∷ [])
            rec.seq
          ≡ []
    unfolding clear_record remove_file
    cleared rec = rw (can_write (record_path rec.seq), bytes_eq_refl (record_path rec.seq)) refl

    pub recover_one :
        (refs : RefStore) (rec : JournalRecord) (ours merge_oid : Oid)
        → rec.op ≡ merge
        → rec.ref_old ≡ some ours
        → rec.ref_new ≡ some merge_oid
        → IsOid ours
        → bytes_eq rec.ref_name head_name ≡ false
        → parse_json (dump (fields_of rec)) ≡ some (fields_of rec)
        → length (dump (fields_of rec)) < 2 ^ 32 - 4
        → HasOids rec
        → Recovers
            ((record_path rec.seq, encode_record digest dump rec) ∷ [])
            refs
            (swapped
              (branches refs)
              (branch_ref_path rec.ref_name)
              (oid_text ours)
              (oid_text merge_oid))
            refs.head
    recover_one refs rec ours merge_oid op old new is_oid plain reads small oids =
        let (refs', replayed, done) =
          replay-Replayed refs rec ours merge_oid op old new is_oid plain in
        (
          refs',
          recover_after ((record_path rec.seq, encode_record digest dump rec) ∷ []) refs (rec ∷ [])
                (pending_one rec reads small oids)
              ∙ replay_all_one rec ((record_path rec.seq, encode_record digest dump rec) ∷ []) refs
                  refs' replayed
              ∙ ap (λ (left : Files). some ((left, refs'), ok tt)) (cleared rec),
          done.swaps,
          done.same_head,
        )
