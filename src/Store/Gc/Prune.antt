-- ===== src/Store/Gc/Prune.antt =====
-- What a prune that reports has removed.
use synapse_fs.Core.Oid.{Oid}
use synapse_fs.Core.Error.{Result, ok, err, Status}
use synapse_fs.Format.Manifest.{Manifest}
use synapse_fs.Store.Dag.{Commit, contains}
use synapse_fs.Store.Dag.Search.{contains→Member, Member→contains}
use synapse_fs.Store.Dag.Walk.{reachable_objects}
use synapse_fs.Store.Dag.Walk.Spec.{IsLive}
use synapse_fs.Store.Dag.Walk.Collect.{reachable_objects_lem}
use synapse_fs.Store.Gc.Sweep.{HoldsFile, kept_of, sweep_objects-kept_of, HoldsFile-kept_of}
use synapse_fs.Store.Gc.Safety.{swept}
use synapse_fs.Store.Gc.{
  ObjectFile, GcOptions, GcReport, Repo, Marker, mount_attached, sweep_objects, gc_tips, PruneStore,
  not_concrete, list_fails, lists, prune_with, prune_tips, gc_swept, gc_locked, gc_attached, gc,
}
use synapse_fs.Prelude.{
  ℕ, ◌≡◌, refl, sym, ap, ◌∙◌, ◌≢◌, ◌↔◌, ◌⊎◌, inl, inr, Bool, true, false, not, ◌&&◌, ◌||◌, Option,
  none, some, List, [], ◌∷◌,
}

-- The loop's test, outside a dry run.
stays_iff :
    (known removable : Bool)
    → ((((known || (not false && not removable)) || false) ≡ true)
        ↔ ((known ≡ true) ⊎ (removable ≡ false)))
stays_iff true removable = (λ h. inl refl, λ h. refl)
stays_iff false true =
    (λ h. let no_way : false ≡ true = h in absurd (cc), λ h. elim h [ inl e ↦ e | inr e ↦ sym e ])
stays_iff false false = (λ h. inr refl, λ h. refl)

module _ (read : Oid → Result Commit) (read_manifest : Oid → Result Manifest) where
  -- The objects were pruned by those that are live.
  abbrev Pruned : GcOptions → Repo → Repo → Option (Result (List Oid)) → Type 0
  Pruned opts repo repo' found =
      (live : List Oid) × (found ≡ some (ok live))
      × (repo'.objects ≡ kept_of live opts.dry_run repo.objects)

  prune_with-Pruned :
      (store : PruneStore) (opts : GcOptions) (repo : Repo) (report : GcReport)
      (found : Option (Result (List Oid))) (repo' : Repo) (r : GcReport)
      → prune_with read read_manifest store opts repo report found ≡ some (repo', ok r)
      → Pruned opts repo repo' found
  unfolding prune_with
  prune_with-Pruned store opts repo report none repo' r h = cc
  prune_with-Pruned store opts repo report (some (err kind)) repo' r h = cc
  prune_with-Pruned lists opts repo report (some (ok live)) repo' r h =
      let kept = sweep_objects-kept_of live opts.dry_run repo.objects report in
      let same : (record repo { objects = (sweep_objects live opts.dry_run repo.objects report).0 })
          ≡ repo' =
        cc in
      (live, refl, ap (λ (x : Repo). x.objects) (sym same) ∙ kept)
  prune_with-Pruned not_concrete opts repo report (some (ok live)) repo' r h = cc
  prune_with-Pruned (list_fails kind) opts repo report (some (ok live)) repo' r h = cc

  prune_tips-Pruned :
      (fuel : ℕ) (store : PruneStore) (opts : GcOptions) (repo : Repo) (report : GcReport)
      (tips : List Oid) (repo' : Repo) (r : GcReport)
      → tips ≢ []
      → prune_tips read read_manifest fuel store opts repo report tips ≡ some (repo', ok r)
      → Pruned opts repo repo' (reachable_objects read read_manifest fuel tips)
  unfolding prune_tips
  prune_tips-Pruned fuel store opts repo report [] repo' r some_tip h = absurd (some_tip refl)
  prune_tips-Pruned fuel store opts repo report (t ∷ ts) repo' r some_tip h =
      prune_with-Pruned store opts repo report (reachable_objects read read_manifest fuel (t ∷ ts))
        repo' r h

  gc_attached-Pruned :
      (fuel : ℕ) (store : PruneStore) (dry_run : Bool) (repo : Repo) (attached : Result Bool)
      (repo' : Repo) (r : GcReport)
      → gc_tips repo.refs ≢ []
      → gc_attached read read_manifest fuel store
          (record { prune = true; dry_run = dry_run })
          repo
          attached
        ≡ some (repo', ok r)
      → Pruned
          (record { prune = true; dry_run = dry_run })
          repo
          repo'
          (reachable_objects read read_manifest fuel (gc_tips repo.refs))
  unfolding gc_attached gc_locked gc_swept
  gc_attached-Pruned fuel store dry_run repo (err kind) repo' r some_tip h = cc
  gc_attached-Pruned fuel store dry_run repo (ok true) repo' r some_tip h = cc
  gc_attached-Pruned fuel store dry_run repo (ok false) repo' r some_tip h =
      prune_tips-Pruned fuel store (record { prune = true; dry_run = dry_run })
        (swept read read_manifest (record { prune = true; dry_run = dry_run }) repo) _
        (gc_tips repo.refs) repo' r some_tip h

  gc-Pruned :
      (fuel : ℕ) (store : PruneStore) (lock : Status) (marker : Marker) (dry_run : Bool)
      (repo repo' : Repo) (r : GcReport)
      → gc_tips repo.refs ≢ []
      → gc read read_manifest fuel store lock marker
          (record { prune = true; dry_run = dry_run })
          repo
        ≡ some (repo', ok r)
      → Pruned
          (record { prune = true; dry_run = dry_run })
          repo
          repo'
          (reachable_objects read read_manifest fuel (gc_tips repo.refs))
  unfolding gc
  gc-Pruned fuel store (err kind) marker dry_run repo repo' r some_tip h = cc
  gc-Pruned fuel store (ok u) marker dry_run repo repo' r some_tip h =
      gc_attached-Pruned fuel store dry_run repo (mount_attached marker) repo' r some_tip h

  -- After a prune that is not a dry run, had a tip to start from and gave a report, just those
  -- objects stay that are live or could not be removed.
  pub gc-prunes :
      (fuel : ℕ) (store : PruneStore) (lock : Status) (marker : Marker) (repo repo' : Repo)
      (report : GcReport)
      → gc_tips repo.refs ≢ []
      → gc read read_manifest fuel store lock marker (record { prune = true; dry_run = false }) repo
        ≡ some (repo', ok report)
      → (f : ObjectFile)
      → HoldsFile f repo'.objects ↔ (
          HoldsFile f repo.objects
          × (IsLive read read_manifest (gc_tips repo.refs) f.oid ⊎ (f.removable ≡ false)))
  gc-prunes fuel store lock marker repo repo' report some_tip h f =
      let (live, found, same) =
        gc-Pruned fuel store lock marker false repo repo' report some_tip h in
      let is_live =
        reachable_objects_lem read read_manifest (gc_tips repo.refs) fuel live found f.oid in
      let kept = HoldsFile-kept_of live false repo.objects f in
      let test = stays_iff (contains live f.oid) f.removable in
      rw same (
        λ m.
            let (held, t) = kept.0 m in
            (
              held,
              elim (test.0 t) [
                | inl known ↦ inl (is_live.0 (contains→Member live f.oid known))
                | inr stuck ↦ inr stuck
              ],
            ),
        λ m. kept.1 (
          m.0,
          test.1 (elim m.1 [
            | inl l ↦ inl (Member→contains live f.oid (is_live.1 l))
            | inr stuck ↦ inr stuck
          ]),
        ),
      )
