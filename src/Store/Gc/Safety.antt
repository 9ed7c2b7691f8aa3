-- ===== src/Store/Gc/Safety.antt =====
-- What gc removes, and what it never removes.
use synapse_fs.Core.Oid.{Oid}
use synapse_fs.Core.Error.{Result, ok, err, Status}
use synapse_fs.Format.Manifest.{Manifest}
use synapse_fs.Store.Dag.{Commit}
use synapse_fs.Store.Dag.Walk.{reachable_objects}
use synapse_fs.Store.Gc.Sweep.{
  HoldsFile, kept_of, sweep_objects-kept_of, HoldsFile-kept_of, kept_of-dry, sweep_temp_dir-dry,
}
use synapse_fs.Store.Gc.{
  ObjectFile, GcOptions, GcReport, Repo, Marker, mount_attached, sweep_temp_dir, sweep_objects,
  gc_tips, PruneStore, not_concrete, list_fails, lists, prune_with, prune_tips, gc_swept, gc_locked,
  gc_attached, gc,
}
use synapse_fs.Prelude.{
  ℕ, ◌≡◌, refl, sym, ◌∙◌, ◌⊎◌, inl, inr, Bool, true, false, Option, none, some, List, [], ◌∷◌,
}
use synapse_fs.Store.Dag.Search.{Member, Member→contains}
use synapse_fs.Store.Dag.Walk.Spec.{IsLive}
use synapse_fs.Store.Dag.Walk.Collect.{reachable_objects_lem}

module _ (read : Oid → Result Commit) (read_manifest : Oid → Result Manifest) where
  -- What a prune leaves is what the live objects say, or all of it.
  prune_with-objects :
      (store : PruneStore) (opts : GcOptions) (repo : Repo) (report : GcReport)
      (found : Option (Result (List Oid))) (repo' : Repo) (r : Result GcReport)
      → prune_with read read_manifest store opts repo report found ≡ some (repo', r)
      → (repo' ≡ repo)
        ⊎ ((live : List Oid) × (found ≡ some (ok live))
            × (repo' ≡ record repo { objects = kept_of live opts.dry_run repo.objects }))
  unfolding prune_with
  prune_with-objects store opts repo report none repo' r h = cc
  prune_with-objects store opts repo report (some (err kind)) repo' r h =
      let same : repo ≡ repo' = cc in inl (sym same)
  prune_with-objects lists opts repo report (some (ok live)) repo' r h =
      let kept = sweep_objects-kept_of live opts.dry_run repo.objects report in
      let same : (record repo { objects = (sweep_objects live opts.dry_run repo.objects report).0 })
          ≡ repo' =
        cc in
      inr (live, refl, sym same ∙ λ i. record repo { objects = kept i })
  prune_with-objects not_concrete opts repo report (some (ok live)) repo' r h =
      let same : repo ≡ repo' = cc in inl (sym same)
  prune_with-objects (list_fails kind) opts repo report (some (ok live)) repo' r h =
      let same : repo ≡ repo' = cc in inl (sym same)

  prune_tips-objects :
      (fuel : ℕ) (store : PruneStore) (opts : GcOptions) (repo : Repo) (report : GcReport)
      (tips : List Oid) (repo' : Repo) (r : Result GcReport)
      → prune_tips read read_manifest fuel store opts repo report tips ≡ some (repo', r)
      → (repo' ≡ repo)
        ⊎ ((live : List Oid) × (reachable_objects read read_manifest fuel tips ≡ some (ok live))
            × (repo' ≡ record repo { objects = kept_of live opts.dry_run repo.objects }))
  unfolding prune_tips
  prune_tips-objects fuel store opts repo report [] repo' r h =
      let same : repo ≡ repo' = cc in inl (sym same)
  prune_tips-objects fuel store opts repo report (t ∷ ts) repo' r h =
      prune_with-objects store opts repo report (reachable_objects read read_manifest fuel (t ∷ ts))
        repo' r h

  -- The repository as gc leaves its temporary files.
  abbrev pub swept : GcOptions → Repo → Repo
  swept opts repo =
      let first = sweep_temp_dir opts.dry_run repo.tmp 0 0 in
      record repo {
        tmp = first.0;
        incoming = (sweep_temp_dir opts.dry_run repo.incoming 0 first.2).0;
      }

  -- How gc may end: nothing done, the temporary files swept, and the objects pruned too.
  abbrev Outcome : ℕ → GcOptions → Repo → Repo → Type 0
  Outcome fuel opts repo repo' =
      (repo' ≡ repo)
      ⊎ ((repo' ≡ swept opts repo)
          ⊎ ((live : List Oid) × (reachable_objects read read_manifest fuel (gc_tips repo.refs)
                ≡ some (ok live))
              × (repo'
                  ≡ record (swept opts repo) { objects = kept_of live opts.dry_run repo.objects })))

  gc_swept-Outcome :
      (fuel : ℕ) (store : PruneStore) (opts : GcOptions) (repo : Repo) (report : GcReport)
      (prune : Bool) (repo' : Repo) (r : Result GcReport)
      → gc_swept read read_manifest fuel store opts (swept opts repo) report prune ≡ some (repo', r)
      → Outcome fuel opts repo repo'
  unfolding gc_swept
  gc_swept-Outcome fuel store opts repo report false repo' r h =
      let same : swept opts repo ≡ repo' = cc in inr (inl (sym same))
  gc_swept-Outcome fuel store opts repo report true repo' r h =
      elim (prune_tips-objects fuel store opts (swept opts repo) report (gc_tips repo.refs) repo' r
        h) [ inl kept ↦ inr (inl kept) | inr pruned ↦ inr (inr pruned) ]

  gc_attached-Outcome :
      (fuel : ℕ) (store : PruneStore) (opts : GcOptions) (repo : Repo) (attached : Result Bool)
      (repo' : Repo) (r : Result GcReport)
      → gc_attached read read_manifest fuel store opts repo attached ≡ some (repo', r)
      → Outcome fuel opts repo repo'
  unfolding gc_attached gc_locked
  gc_attached-Outcome fuel store opts repo (err kind) repo' r h =
      let same : repo ≡ repo' = cc in inl (sym same)
  gc_attached-Outcome fuel store opts repo (ok true) repo' r h =
      let same : repo ≡ repo' = cc in inl (sym same)
  gc_attached-Outcome fuel store opts repo (ok false) repo' r h =
      gc_swept-Outcome fuel store opts repo _ opts.prune repo' r h

  gc-Outcome :
      (fuel : ℕ) (store : PruneStore) (lock : Status) (marker : Marker) (opts : GcOptions)
      (repo : Repo) (repo' : Repo) (r : Result GcReport)
      → gc read read_manifest fuel store lock marker opts repo ≡ some (repo', r)
      → Outcome fuel opts repo repo'
  unfolding gc
  gc-Outcome fuel store (err kind) marker opts repo repo' r h =
      let same : repo ≡ repo' = cc in inl (sym same)
  gc-Outcome fuel store (ok u) marker opts repo repo' r h =
      gc_attached-Outcome fuel store opts repo (mount_attached marker) repo' r h

  HoldsFile-live :
      (opts : GcOptions) (repo repo' : Repo) (live : List Oid) (f : ObjectFile)
      → repo' ≡ record (swept opts repo) { objects = kept_of live opts.dry_run repo.objects }
      → HoldsFile f repo.objects
      → Member f.oid live
      → HoldsFile f repo'.objects
  HoldsFile-live opts repo repo' live f e held m = rw e (
      (HoldsFile-kept_of live opts.dry_run repo.objects f).1
        (held, let test = Member→contains live f.oid m in rw test refl))

  -- Whatever gc is asked for, and however it ends, it removes no object that is live: that a commit
  -- names which a branch that list_heads lists, or a detached HEAD, reaches.
  pub gc-keeps_live :
      (fuel : ℕ) (store : PruneStore) (lock : Status) (marker : Marker) (opts : GcOptions)
      (repo : Repo) (repo' : Repo) (r : Result GcReport) (f : ObjectFile)
      → gc read read_manifest fuel store lock marker opts repo ≡ some (repo', r)
      → HoldsFile f repo.objects
      → IsLive read read_manifest (gc_tips repo.refs) f.oid
      → HoldsFile f repo'.objects
  gc-keeps_live fuel store lock marker opts repo repo' r f h held live =
      elim (gc-Outcome fuel store lock marker opts repo repo' r h) [
        | inl same ↦ rw same held
        | inr (inl same) ↦ rw same held
        | inr (inr (objects, found, same)) ↦ HoldsFile-live opts repo repo' objects f same held (
            (reachable_objects_lem read read_manifest (gc_tips repo.refs) fuel objects found
                f.oid).1
              live)
      ]

  swept-dry :
      (prune : Bool) (repo : Repo) → swept (record { prune = prune; dry_run = true }) repo ≡ repo
  swept-dry prune repo = λ i. record repo {
    tmp = sweep_temp_dir-dry repo.tmp 0 0 i;
    incoming = sweep_temp_dir-dry repo.incoming 0 (sweep_temp_dir true repo.tmp 0 0).2 i;
  }

  -- A dry run changes no file, however it ends.
  pub gc-dry_run :
      (fuel : ℕ) (store : PruneStore) (lock : Status) (marker : Marker) (prune : Bool) (repo : Repo)
      (repo' : Repo) (r : Result GcReport)
      → gc read read_manifest fuel store lock marker (record { prune = prune; dry_run = true }) repo
        ≡ some (repo', r)
      → repo' ≡ repo
  gc-dry_run fuel store lock marker prune repo repo' r h =
      elim (gc-Outcome fuel store lock marker (record { prune = prune; dry_run = true }) repo repo'
        r h) [
          | inl same ↦ same
          | inr (inl same) ↦ same ∙ swept-dry prune repo
          | inr (inr (live, found, same)) ↦
              same
              ∙ (λ i. record (swept-dry prune repo i) { objects = kept_of-dry live repo.objects i })
        ]
