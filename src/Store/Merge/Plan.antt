-- ===== src/Store/Merge/Plan.antt =====
-- What plan_merge hands back.
use synapse_fs.Format.Manifest.{GroupEntry, Manifest, lookup_group, find_group, validate}
use synapse_fs.Core.Oid.{oid_eq}
use synapse_fs.Store.Merge.{
  MergeStrategy, ours, GroupConflict, union_names, MergeResult, merge_groups, with_groups,
  finish_merge, merge_manifests,
}
use synapse_fs.Store.Merge.Groups.{chosen, merge_groups_lem}
use synapse_fs.Prelude.{
  ◌≡◌, refl, sym, ap, ◌∙◌, inl, inr, false, Option, none, some, List, [], ◌∷◌, arith, Bool-cases,
}
use synapse_fs.Prelude.Bytes.{Bytes}
use synapse_fs.Core.Error.{ok, >>=-eq-ok}

abbrev whole : Manifest → List (Bytes × GroupEntry) → MergeResult
whole om groups = record {
  fast_forward = false;
  new_commit = none;
  merged = some (with_groups om groups);
  conflicts = [];
}

finish_merge-merged :
    (om m : Manifest) (groups : List (Bytes × GroupEntry)) (cs : List GroupConflict)
    (r : MergeResult)
    → finish_merge om groups cs ≡ ok r
    → r.merged ≡ some m
    → (cs ≡ []) × (r.conflicts ≡ []) × (validate m ≡ ok tt) × (with_groups om groups ≡ m)
unfolding finish_merge
finish_merge-merged om m groups (c ∷ cs) r h hm =
    let same : record { fast_forward = false; new_commit = none; merged = none; conflicts = c ∷ cs }
        ≡ r =
      cc in
    let no = ap (λ (x : MergeResult). x.merged) same ∙ hm in cc
finish_merge-merged om m groups [] r h hm =
    let (u, valid, done) =
      >>=-eq-ok (validate (with_groups om groups)) (λ _. ok (whole om groups)) h in
    let same : whole om groups ≡ r = cc in
    let merged = ap (λ (x : MergeResult). x.merged) same ∙ hm in
    let at_m : with_groups om groups ≡ m = cc in
    (refl, ap (λ (x : MergeResult). x.conflicts) (sym same), ap validate (sym at_m) ∙ valid, at_m)

-- A merge that yields a manifest reports no conflict, the manifest is valid and lays the file out
-- as ours does, and under every name it holds what the strategy and the three sides decide there.
pub merge_manifests_lem :
    (strategy : MergeStrategy) (bm om tm m : Manifest) (r : MergeResult)
    → merge_manifests strategy bm om tm ≡ ok r
    → r.merged ≡ some m
    → (r.conflicts ≡ [])
      × (validate m ≡ ok tt)
      × (m.buffer ≡ om.buffer)
      × ((n : Bytes)
          → find_group m n ≡ chosen strategy (find_group bm n) (find_group om n) (find_group tm n))
unfolding merge_manifests find_group
merge_manifests_lem strategy bm om tm m r h hm =
    let groups =
      (merge_groups strategy bm.groups om.groups tm.groups (union_names om.groups tm.groups)
        []).0 in
    let cs =
      (merge_groups strategy bm.groups om.groups tm.groups (union_names om.groups tm.groups)
        []).1 in
    elim (Bool-cases (oid_eq om.file.header_block tm.file.header_block)) [
      | inr differ ↦ ground arith
      | inl same ↦
          let finished : finish_merge om groups cs ≡ ok r = ground arith in
          let (none_left, clean, valid, e) = finish_merge-merged om m groups cs r finished hm in
          (
            clean,
            valid,
            ap (λ (x : Manifest). x.buffer) (sym e),
            λ n.
                ap (λ (x : Manifest). lookup_group n x.groups) (sym e)
                ∙ merge_groups_lem strategy bm.groups om.groups tm.groups n none_left,
          )
    ]

chosen-gone : (b t : Option GroupEntry) → chosen ours b none t ≡ t
unfolding chosen
chosen-gone none none = refl
chosen-gone (some b) none = refl
chosen-gone none (some t) = refl
chosen-gone (some b) (some t) = refl

-- Under the strategy `Ours` a merged manifest has theirs under every name that ours does not have,
-- whether the base had the name or not: a group that ours deleted comes back.
pub merge_manifests-restores :
    (bm om tm m : Manifest) (r : MergeResult) (n : Bytes)
    → merge_manifests ours bm om tm ≡ ok r
    → r.merged ≡ some m
    → find_group om n ≡ none
    → find_group m n ≡ find_group tm n
merge_manifests-restores bm om tm m r n h hm gone =
    (let (clean, valid, layout, held) = merge_manifests_lem ours bm om tm m r h hm in held n)
    ∙ ap (λ o. chosen ours (find_group bm n) o (find_group tm n)) gone
    ∙ chosen-gone (find_group bm n) (find_group tm n)
