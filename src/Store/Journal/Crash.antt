-- ===== src/Store/Journal/Crash.antt =====
-- The last three steps of run_merge, killed after any of them, and the recovery behind.
use synapse_fs.Store.Files.{Files, write_file, Write, written, remove_file}
use synapse_fs.Core.Oid.{Oid, oid_text}
use synapse_fs.Store.Refs.{RefStore, head_name, branch_ref_path, update}
use synapse_fs.Store.Refs.Swap.{Branches, branches, is_ok, Swaps, update_lem}
use synapse_fs.Store.Journal.{
  JournalRecord, JsonFields, fields_of, record_path, merge_record, encode_record, begin, commit,
  pending, replay_all, recover, after_update, after_begin, advance_branch,
}
use synapse_fs.Store.Journal.Frame.{IsOid}
use synapse_fs.Store.Journal.Recover.{swapped, swapped_twice, Recovers, recover_one}
use synapse_fs.Prelude.{
  ℕ, ◌-◌, ◌^◌, ◌<◌, ◌≡◌, refl, ap, ◌∙◌, inl, inr, Bool, true, false, Option, some, [], ◌∷◌, ◌==◌,
  if◌then◌else◌, Bool-cases, length,
}
use synapse_fs.Prelude.Bytes.{Bytes, bytes_eq}
use synapse_fs.Core.Error.{ok, err, Status}

module _ (digest : Bytes → Bytes) (dump : JsonFields → Bytes)
    (parse_json : Bytes → Option JsonFields) (writable : Bytes → Write)
    (can_write : (path : Bytes) → writable path ≡ written)
    (digest_size : (payload : Bytes) → length (digest payload) ≡ 32) (timestamp ref_name : Bytes)
    (ours merge_oid : Oid) (ours_IsOid : IsOid ours) (merge_IsOid : IsOid merge_oid)
    (plain : bytes_eq ref_name head_name ≡ false)
    (reads : parse_json (dump (fields_of (merge_record timestamp ref_name ours merge_oid)))
      ≡ some (fields_of (merge_record timestamp ref_name ours merge_oid)))
    (small : length (dump (fields_of (merge_record timestamp ref_name ours merge_oid)))
      < 2 ^ 32 - 4) where
  abbrev rec : JournalRecord
  rec = merge_record timestamp ref_name ours merge_oid

  abbrev journal : Files
  journal = (record_path 0, encode_record digest dump rec) ∷ []

  abbrev after : RefStore → Branches
  after refs =
      swapped (branches refs) (branch_ref_path ref_name) (oid_text ours) (oid_text merge_oid)

  recover_pending :
      (refs : RefStore)
      → Recovers digest dump parse_json writable can_write journal refs (after refs) refs.head
  unfolding merge_record
  recover_pending refs =
      recover_one digest dump parse_json writable can_write digest_size refs rec ours merge_oid refl
        refl refl ours_IsOid plain reads small
        (record { old = ours_IsOid; new = merge_IsOid; subsumed = tt })

  recover_nothing :
      (refs : RefStore)
      → Recovers digest dump parse_json writable can_write [] refs (branches refs) refs.head
  unfolding recover pending replay_all
  recover_nothing refs = (refs, refl, refl, refl)

  -- Recovery ends where the merge does that is not killed.
  abbrev Ends : RefStore → Files × RefStore → Type 0
  Ends refs left =
      Recovers digest dump parse_json writable can_write left.0 left.1 (after refs) refs.head

  pending-Ends :
      (refs s : RefStore) → after s ≡ after refs → s.head ≡ refs.head → Ends refs (journal, s)
  pending-Ends refs s same same_head =
      let (refs', done, swaps, head) = recover_pending s in
      (refs', done, swaps ∙ same, head ∙ same_head)

  commit-merge_record : (commit digest dump parse_json writable journal 0).0 ≡ []
  unfolding commit remove_file
  commit-merge_record = rw (can_write (record_path 0)) refl

  after_update-Ends :
      (steps : ℕ) (refs : RefStore) (r : RefStore × Status)
      → Swaps refs (branch_ref_path ref_name) (some ours) merge_oid r
      → Ends refs (after_update digest dump parse_json writable steps journal 0 r)
  unfolding after_update is_ok
  after_update-Ends steps refs (s, err kind) (swap, refused, same_head) =
      let same = ap (λ (r : RefStore × Status). r.0) (refused refl) in
      pending-Ends refs s (ap after same) same_head
  after_update-Ends steps refs (s, ok u) (swap, refused, same_head) =
      let now = ap (λ (p : Branches × Bool). p.0) swap in
      elim (Bool-cases (steps == 2)) [
        | inl two ↦ rw two (
            pending-Ends refs s
              (ap (λ m. swapped m (branch_ref_path ref_name) (oid_text ours) (oid_text merge_oid))
                  now
                ∙ swapped_twice (branches refs) (branch_ref_path ref_name) (oid_text ours)
                    (oid_text merge_oid))
              same_head)
        | inr three ↦
            let (refs', done, kept, head) = recover_nothing s in
            rw (three, commit-merge_record) (refs', done, kept ∙ now, head ∙ same_head)
      ]

  begin-merge_record : begin digest dump parse_json writable [] rec ≡ (journal, ok 0)
  unfolding begin write_file merge_record
  begin-merge_record = rw (can_write (record_path 0)) refl

  abbrev killed : ℕ → RefStore → Files × RefStore
  killed steps refs =
      advance_branch digest dump parse_json writable steps [] refs timestamp ref_name ours merge_oid

  killed_first :
      (steps : ℕ) (refs : RefStore) → (steps == 0) ≡ true → killed steps refs ≡ ([], refs)
  unfolding advance_branch
  killed_first steps refs first = rw (killed, first) refl

  killed_later :
      (steps : ℕ) (refs : RefStore)
      → (steps == 0) ≡ false
      → killed steps refs
        ≡ after_begin digest dump parse_json writable steps refs ref_name ours merge_oid
            (journal, ok 0)
  unfolding advance_branch
  killed_later steps refs later = rw (killed, later, begin-merge_record) refl

  after_begin-Ends :
      (steps : ℕ) (refs : RefStore)
      → Ends refs (
          after_begin digest dump parse_json writable steps refs ref_name ours merge_oid
            (journal, ok 0))
  unfolding after_begin
  after_begin-Ends steps refs = elim (Bool-cases (steps == 1)) [
    | inl one ↦ rw one (pending-Ends refs refs refl refl)
    | inr more ↦ rw more (
        after_update-Ends steps refs (update writable refs ref_name (some ours) merge_oid)
          (update_lem writable can_write refs ref_name (some ours) merge_oid))
  ]

  -- A merge that begins with an empty journal is killed after any number of its last steps, or
  -- ends: recovery then returns without an error and leaves no record and HEAD as it was. If no step was
  -- made the branches are as they were; after any step they are as the merge's compare-and-swap
  -- of the branch makes them, once, also where another commit took the branch in between. The
  -- digest has 32 bytes, writes succeed, the JSON library reads the record that it wrote, which is
  -- below 2 ^ 32 - 4 bytes, the identities have 32 bytes, and the branch is not named HEAD.
  pub recover-advance_branch :
      (steps : ℕ) (refs : RefStore)
      → Recovers digest dump parse_json writable can_write
          (advance_branch digest dump parse_json writable steps [] refs timestamp ref_name ours
            merge_oid).0
          (advance_branch digest dump parse_json writable steps [] refs timestamp ref_name ours
            merge_oid).1
          (if steps == 0 then branches refs else after refs)
          refs.head
  recover-advance_branch steps refs = elim (Bool-cases (steps == 0)) [
    | inl first ↦ rw (killed_first steps refs first, first) (recover_nothing refs)
    | inr later ↦ rw (killed_later steps refs later, later) (after_begin-Ends steps refs)
  ]
