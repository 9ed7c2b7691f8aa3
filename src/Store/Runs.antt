-- ===== src/Store/Runs.antt =====
-- Runs of the references, the journal and the collector, and their properties at concrete inputs.
use synapse_fs.Store.Files.{read_file, Write, written}
use synapse_fs.Core.Oid.{Oid, oid_eq, oid_text}
use synapse_fs.Core.Error.{object_not_found, journal_torn, Result, ok, err}
use synapse_fs.Store.Refs.{
  RefStore, head_name, heads_prefix, line_of, branch_ref_path, symbolic, read_head, rev_parse,
  set_head_symbolic, update,
}
use synapse_fs.Store.Refs.Swap.{branches, is_ok, Swaps, update_lem}
use synapse_fs.Store.Refs.Resolve.{rev_parse_lem, rev_parse-update}
use synapse_fs.Prelude.{
  ℕ, ◌<◌, ◌≡◌, refl, sym, ◌≢◌, ◌↔◌, ◌⊎◌, inl, inr, true, false, Option, none, some, List, [], ◌∷◌,
  ◌++◌, arith, if◌then◌else◌, take, replicate,
}
use synapse_fs.Prelude.Bytes.{Bytes, bytes_eq}
use synapse_fs.Store.Dag.Walk.{reachable_objects}
use synapse_fs.Store.Journal.{
  JournalRecord, JsonFields, fields_of, merge_record, encode_record, decode_record, advance_branch,
}
use synapse_fs.Format.Manifest.{Manifest}
use synapse_fs.Store.Dag.Fuel.{ClosedUnder}
use synapse_fs.Store.Dag.{Commit}
use synapse_fs.Store.Journal.Frame.{IsOid, decode_record-encode_record, decode_record-take}
use synapse_fs.Store.Dag.Search.{Member, here}
use synapse_fs.Store.Dag.Walk.Fuel.{reachable_objects-returns}
use synapse_fs.Format.Examples.{a_manifest}
use synapse_fs.Store.Journal.Crash.{recover-advance_branch}
use synapse_fs.Store.Journal.Recover.{swapped, Recovers}
use mathlib.Core.Path.{subst}
use synapse_fs.Store.Gc.{GcReport, Repo, absent, gc_tips, lists, gc}
use synapse_fs.Store.Gc.Sweep.{HoldsFile}
use synapse_fs.Store.Gc.Safety.{gc-keeps_live, gc-dry_run}
use synapse_fs.Store.Dag.Walk.Spec.{its_manifest, IsLive}
use synapse_fs.Store.Dag.Walk.Collect.{reachable_objects_lem}
use synapse_fs.Store.Gc.Prune.{gc-prunes}

-- An identity of 32 equal bytes.
abbrev whole_oid : ℕ → Oid
whole_oid b = record { raw = replicate 32 b }

-- "main"
abbrev main : Bytes
main = 109 ∷ 97 ∷ 105 ∷ 110 ∷ []

abbrev full_main : Bytes
full_main = heads_prefix ++ main

abbrev a_store : RefStore
a_store = record {
  head = none;
  heads = (main, line_of (oid_text (whole_oid 1))) ∷ [];
  objects = [];
}

abbrev always : Bytes → Write
always path = written

update_lem_example :
    Swaps a_store
      (branch_ref_path full_main)
      (some (whole_oid 1))
      (whole_oid 2)
      (update always a_store full_main (some (whole_oid 1)) (whole_oid 2))
update_lem_example =
    update_lem always (λ path. refl) a_store full_main (some (whole_oid 1)) (whole_oid 2)

abbrev at_main : RefStore
at_main = (set_head_symbolic always a_store full_main).0

abbrev updated : RefStore
updated = (update always at_main full_main (some (whole_oid 1)) (whole_oid 2)).0

rev_parse-update_example :
    (rev_parse 2 updated head_name ≡ some (ok (whole_oid 2)))
    × (rev_parse 1 updated main ≡ some (ok (whole_oid 2)))
unfolding update set_head_symbolic bytes_eq branch_ref_path is_ok read_file
rev_parse-update_example =
    rev_parse-update always a_store full_main main (some (whole_oid 1)) (whole_oid 2) 0
      (λ path. refl) (omega arith) refl (omega arith) refl refl refl refl

rev_parse_lem_example :
    ((r : Result Oid) × (rev_parse 2 a_store head_name ≡ some r))
    ⊎ ((head_name ≡ head_name)
        × (read_head a_store ≡ ok (symbolic head_name))
        × ((rounds : ℕ) → rev_parse rounds a_store head_name ≡ none))
rev_parse_lem_example = rev_parse_lem a_store head_name 0

abbrev zeros : Bytes → Bytes
zeros payload = replicate 32 0

abbrev a_record : JournalRecord
a_record = merge_record [] full_main (whole_oid 1) (whole_oid 2)

-- A JSON library that knows one text.
abbrev write_json : JsonFields → Bytes
write_json j = 123 ∷ 125 ∷ []

unfoldable read_json : Bytes → Option JsonFields
unfolding fields_of merge_record
read_json b = some (fields_of a_record)

whole_oid-IsOid : (b : ℕ) → b < 256 → IsOid (whole_oid b)
whole_oid-IsOid b h = record { size = refl; bytes = omega arith }

decode_record-encode_record_example :
    decode_record zeros read_json (encode_record zeros write_json a_record) ≡ ok a_record
unfolding read_json fields_of merge_record
decode_record-encode_record_example =
    decode_record-encode_record zeros (λ p. refl) write_json read_json a_record refl (omega arith)
      (record {
        old = whole_oid-IsOid 1 (omega arith);
        new = whole_oid-IsOid 2 (omega arith);
        subsumed = tt;
      })

decode_record-take_example :
    decode_record zeros read_json (take 37 (encode_record zeros write_json a_record))
    ≡ err journal_torn
unfolding encode_record fields_of merge_record
decode_record-take_example =
    decode_record-take zeros (λ p. refl) write_json read_json a_record 37 (omega arith)
      (omega arith)

recover-advance_branch_example :
    Recovers zeros write_json read_json always
      (λ path. refl)
      (advance_branch zeros write_json read_json always 2 [] a_store [] full_main
        (whole_oid 1)
        (whole_oid 2)).0
      (advance_branch zeros write_json read_json always 2 [] a_store [] full_main
        (whole_oid 1)
        (whole_oid 2)).1
      (swapped
        (branches a_store)
        (branch_ref_path full_main)
        (oid_text (whole_oid 1))
        (oid_text (whole_oid 2)))
      none
unfolding bytes_eq read_json fields_of merge_record
recover-advance_branch_example =
    recover-advance_branch zeros write_json read_json always (λ path. refl) (λ p. refl) [] full_main
      (whole_oid 1) (whole_oid 2) (whole_oid-IsOid 1 (omega arith))
      (whole_oid-IsOid 2 (omega arith)) refl refl (omega arith) 2 a_store

-- Two commits, of one manifest.
abbrev first : Commit
first = record {
  parents = [];
  manifest = whole_oid 10;
  topology = whole_oid 20;
  timestamp = 49 ∷ [];
}

abbrev second : Commit
second = record {
  parents = whole_oid 1 ∷ [];
  manifest = whole_oid 10;
  topology = whole_oid 20;
  timestamp = 50 ∷ [];
}

unfoldable read_commit : Oid → Result Commit
unfolding oid_eq
read_commit a =
    if oid_eq a (whole_oid 1)
    then ok first
    else if oid_eq a (whole_oid 2)
    then ok second
    else err object_not_found

unfoldable read_manifest : Oid → Result Manifest
read_manifest a = ok a_manifest

abbrev history : List Oid
history = whole_oid 1 ∷ whole_oid 2 ∷ []

history-Closed : ClosedUnder read_commit history
unfolding read_commit
history-Closed u p c (inl e) rc m =
    let at : read_commit u ≡ ok first = rw (← e) refl in
    let same : first ≡ c = cc in
    let mp : Member p first.parents = subst (λ (x : Commit). Member p x.parents) (sym same) m in
    elim mp [ ]
history-Closed u p c (inr (inl e)) rc m =
    let at : read_commit u ≡ ok second = rw (← e) refl in
    let same : second ≡ c = cc in
    let mp : Member p second.parents = subst (λ (x : Commit). Member p x.parents) (sym same) m in
    elim mp [ inl f ↦ inl f | inr z ↦ elim z [ ] ]
history-Closed u p c (inr (inr z)) rc m = elim z [ ]

reachable_objects-returns_example :
    (r : Result (List Oid)) × (reachable_objects read_commit read_manifest 3 (whole_oid 2 ∷ [])
      ≡ some r)
reachable_objects-returns_example =
    reachable_objects-returns read_commit read_manifest history history-Closed 3 (whole_oid 2 ∷ [])
      (λ a m. elim m [ inl e ↦ inr (inl e) | inr z ↦ elim z [ ] ]) (omega arith)

live_of : Option (Result (List Oid)) → List Oid
live_of none = []
live_of (some (err kind)) = []
live_of (some (ok live)) = live

-- What the second commit reaches.
unfoldable found : List Oid
unfolding live_of reachable_objects read_commit read_manifest
found = live_of (reachable_objects read_commit read_manifest 3 (whole_oid 2 ∷ []))

found_run : reachable_objects read_commit read_manifest 3 (whole_oid 2 ∷ []) ≡ some (ok found)
unfolding found
found_run = refl

reachable_objects_lem_example :
    Member (whole_oid 10) found ↔ IsLive read_commit read_manifest (whole_oid 2 ∷ []) (whole_oid 10)
reachable_objects_lem_example =
    reachable_objects_lem read_commit read_manifest (whole_oid 2 ∷ []) 3 found found_run
      (whole_oid 10)

-- The branch is at the second commit; its manifest, and an object that nothing names.
abbrev a_repo : Repo
a_repo = record {
  tmp = (record { regular = true; size = some 7; removable = true }) ∷ [];
  incoming = [];
  objects =
      (record { oid = whole_oid 10; size = 5; removable = true })
      ∷ (record { oid = whole_oid 99; size = 6; removable = true })
      ∷ [];
  refs = record {
    head = none;
    heads = (main, line_of (oid_text (whole_oid 2))) ∷ [];
    objects = [];
  };
}

abbrev pruned_repo : Repo
pruned_repo = record a_repo {
  tmp = [];
  objects = (record { oid = whole_oid 10; size = 5; removable = true }) ∷ [];
}

abbrev a_report : GcReport
a_report = record {
  objects_scanned = 2;
  objects_pruned = 1;
  bytes_reclaimed = 13;
  temp_files_removed = 1;
}

pruning :
    gc read_commit read_manifest 3 lists
      (ok tt)
      absent
      (record { prune = true; dry_run = false })
      a_repo
    ≡ some (pruned_repo, ok a_report)
unfolding gc read_commit read_manifest oid_text
pruning = refl

manifest_IsLive : IsLive read_commit read_manifest (gc_tips a_repo.refs) (whole_oid 10)
unfolding gc_tips read_commit oid_text
manifest_IsLive = record {
  tip = whole_oid 2;
  commit = whole_oid 2;
  content = second;
  of_tips = inl refl;
  reached = here;
  is_read = refl;
  names = its_manifest refl;
}

gc-keeps_live_example :
    HoldsFile (record { oid = whole_oid 10; size = 5; removable = true }) pruned_repo.objects
gc-keeps_live_example =
    gc-keeps_live read_commit read_manifest 3 lists (ok tt) absent
      (record { prune = true; dry_run = false }) a_repo pruned_repo (ok a_report)
      (record { oid = whole_oid 10; size = 5; removable = true }) pruning (inl refl) manifest_IsLive

cons_ne_nil : (o : Oid) (os : List Oid) → o ∷ os ≢ []
cons_ne_nil o os h = cc

a_tip : gc_tips a_repo.refs ≢ []
unfolding gc_tips oid_text
a_tip = cons_ne_nil (whole_oid 2) []

gc-prunes_example :
    HoldsFile (record { oid = whole_oid 99; size = 6; removable = true }) pruned_repo.objects ↔ (
      HoldsFile (record { oid = whole_oid 99; size = 6; removable = true }) a_repo.objects
      × (IsLive read_commit read_manifest (gc_tips a_repo.refs) (whole_oid 99) ⊎ (true ≡ false)))
gc-prunes_example =
    gc-prunes read_commit read_manifest 3 lists (ok tt) absent a_repo pruned_repo a_report a_tip
      pruning (record { oid = whole_oid 99; size = 6; removable = true })

dry_running :
    gc read_commit read_manifest 3 lists
      (ok tt)
      absent
      (record { prune = true; dry_run = true })
      a_repo
    ≡ some (a_repo, ok a_report)
unfolding gc read_commit read_manifest oid_text
dry_running = refl

gc-dry_run_example : a_repo ≡ a_repo
gc-dry_run_example =
    gc-dry_run read_commit read_manifest 3 lists (ok tt) absent true a_repo a_repo (ok a_report)
      dry_running
