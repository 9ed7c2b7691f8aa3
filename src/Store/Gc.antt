-- ===== src/Store/Gc.antt =====
-- modules/store/src/gc.cpp. The lock, the mount's marker with the liveness of its process, the
-- commits and the manifests are parameters; so is which removals succeed. The sum of bytes is a
-- uint64_t; the counts are of files.
pub mod Sweep
pub mod Safety
pub mod Prune
use synapse_fs.Core.Oid.{Oid}
use synapse_fs.Core.Error.{
  ErrKind, repository_locked, malformed_object, not_implemented, Result, ok, err, Status,
}
use synapse_fs.Format.Manifest.{Manifest}
use synapse_fs.Store.Dag.{Commit, contains}
use synapse_fs.Store.Dag.Walk.{reachable_objects}
use synapse_fs.Store.Refs.{RefStore, Head, symbolic, detached, read_head, Ref, list_heads}
use synapse_fs.Prelude.{
  ℕ, ◌+◌, ◌%◌, ◌^◌, Bool, true, false, not, ◌&&◌, ◌||◌, Option, none, some, List, [], ◌∷◌, ◌++◌,
  map, if◌then◌else◌,
}

pub record TempFile : Type 0 where
  pub regular : Bool
  pub size : Option ℕ
  pub removable : Bool

-- A loose object's file; its size counts as 0 where it cannot be asked.
pub record ObjectFile : Type 0 where
  pub oid : Oid
  pub size : ℕ
  pub removable : Bool

pub record GcOptions : Type 0 where
  pub prune : Bool
  pub dry_run : Bool

pub record GcReport : Type 0 where
  pub objects_scanned : ℕ
  pub objects_pruned : ℕ
  pub bytes_reclaimed : ℕ
  pub temp_files_removed : ℕ

pub record Repo : Type 0 where
  pub tmp : List TempFile
  pub incoming : List TempFile
  pub objects : List ObjectFile
  pub refs : RefStore

-- What the marker's process answers to `kill(pid, 0)`.
pub data Process : Type 0 where
  alive : Process
  not_ours : Process
  gone : Process

-- No marker; one that holds no pid; one that holds the pid of a process.
pub data Marker : Type 0 where
  absent : Marker
  unreadable : Marker
  of_process : Process → Marker

unfoldable pub mount_attached : Marker → Result Bool
mount_attached absent = ok false
mount_attached unreadable = err malformed_object
mount_attached (of_process alive) = ok true
mount_attached (of_process not_ours) = ok true
mount_attached (of_process gone) = ok false

-- One file of sweep_temp_dir: whether it stays, and the bytes that it is counted for.
unfoldable pub sweep_file : Bool → TempFile → Bool × Option ℕ
sweep_file dry_run f =
    let counted : Bool × Option ℕ = elim f.size [
      | none ↦ (true, none)
      | some sz ↦
          if dry_run
          then (true, some sz)
          else if f.removable
          then (false, some sz)
          else (true, none)
    ] in
    if not f.regular then (true, none) else counted

unfoldable pub add_bytes : ℕ → Option ℕ → ℕ
add_bytes bytes none = bytes
add_bytes bytes (some sz) = (bytes + sz) % 2 ^ 64

unfoldable pub add_one : ℕ → Option ℕ → ℕ
add_one n none = n
add_one n (some sz) = n + 1

-- The files that stay, the number of those that are counted, and the sum of bytes.
unfoldable pub sweep_temp_dir : Bool → List TempFile → ℕ → ℕ → List TempFile × ℕ × ℕ
unfolding sweep_file add_bytes add_one
sweep_temp_dir dry_run [] removed bytes = ([], removed, bytes)
sweep_temp_dir dry_run (f ∷ fs) removed bytes =
    let (stays, counted) = sweep_file dry_run f in
    let (kept, removed', bytes') =
      sweep_temp_dir dry_run fs (add_one removed counted) (add_bytes bytes counted) in
    ((if stays then f ∷ kept else kept), removed', bytes')

-- The loop over the objects.
unfoldable pub sweep_objects :
    List Oid → Bool → List ObjectFile → GcReport → List ObjectFile × GcReport
unfolding contains
sweep_objects live dry_run [] report = ([], report)
sweep_objects live dry_run (f ∷ fs) report =
    let scanned = record report { objects_scanned = report.objects_scanned + 1 } in
    let pruned = record scanned {
      objects_pruned = scanned.objects_pruned + 1;
      bytes_reclaimed = (scanned.bytes_reclaimed + f.size) % 2 ^ 64;
    } in
    let stays = contains live f.oid || (not dry_run && not f.removable) in
    let (kept, report') = sweep_objects live dry_run fs (if stays then scanned else pruned) in
    ((if stays || dry_run then f ∷ kept else kept), report')

-- A detached HEAD is a tip, like the branches.
unfoldable pub head_tips : Result Head → List Oid
head_tips (err kind) = []
head_tips (ok (symbolic name)) = []
head_tips (ok (detached o)) = o ∷ []

unfoldable pub gc_tips : RefStore → List Oid
unfolding list_heads read_head head_tips
gc_tips refs = map (λ (h : Ref). h.target) (list_heads refs) ++ head_tips (read_head refs)

-- What the store that gc was given is: not a BlockStore, or one whose list_all fails or does not.
pub data PruneStore : Type 0 where
  not_concrete : PruneStore
  list_fails : ErrKind → PruneStore
  lists : PruneStore

module _ (read : Oid → Result Commit) (read_manifest : Oid → Result Manifest) where
  -- The end of gc, once the live objects are known. `store` is the cast to a BlockStore, with
  -- its list_all.
  unfoldable pub prune_with :
      PruneStore
      → GcOptions
      → Repo
      → GcReport
      → Option (Result (List Oid))
      → Option (Repo × Result GcReport)
  unfolding sweep_objects
  prune_with store opts repo report none = none
  prune_with store opts repo report (some (err kind)) = some (repo, err kind)
  prune_with store opts repo report (some (ok live)) =
      let (kept, report') = sweep_objects live opts.dry_run repo.objects report in
      elim store [
        | not_concrete ↦ some (repo, err not_implemented)
        | list_fails kind ↦ some (repo, err kind)
        | lists ↦ some (record repo { objects = kept }, ok report')
      ]

  unfoldable pub prune_tips :
      ℕ → PruneStore → GcOptions → Repo → GcReport → List Oid → Option (Repo × Result GcReport)
  unfolding prune_with reachable_objects
  prune_tips fuel store opts repo report [] = some (repo, ok report)
  prune_tips fuel store opts repo report (t ∷ ts) =
      prune_with store opts repo report (reachable_objects read read_manifest fuel (t ∷ ts))

  -- `if (!opts.prune) return report;` and what follows.
  unfoldable pub gc_swept :
      ℕ → PruneStore → GcOptions → Repo → GcReport → Bool → Option (Repo × Result GcReport)
  unfolding prune_tips gc_tips
  gc_swept fuel store opts repo report false = some (repo, ok report)
  gc_swept fuel store opts repo report true =
      prune_tips fuel store opts repo report (gc_tips repo.refs)

  -- gc behind its lock and its test of the mount.
  unfoldable pub gc_locked : ℕ → PruneStore → GcOptions → Repo → Option (Repo × Result GcReport)
  unfolding sweep_temp_dir gc_swept
  gc_locked fuel store opts repo =
      let (tmp, removed, bytes) = sweep_temp_dir opts.dry_run repo.tmp 0 0 in
      let (incoming, removed', bytes') = sweep_temp_dir opts.dry_run repo.incoming 0 bytes in
      let swept = record repo { tmp = tmp; incoming = incoming } in
      let report : GcReport = record {
        objects_scanned = 0;
        objects_pruned = 0;
        bytes_reclaimed = bytes';
        temp_files_removed = removed + removed';
      } in
      gc_swept fuel store opts swept report opts.prune

  unfoldable pub gc_attached :
      ℕ → PruneStore → GcOptions → Repo → Result Bool → Option (Repo × Result GcReport)
  unfolding gc_locked
  gc_attached fuel store opts repo (err kind) = some (repo, err kind)
  gc_attached fuel store opts repo (ok true) = some (repo, err repository_locked)
  gc_attached fuel store opts repo (ok false) = gc_locked fuel store opts repo

  unfoldable pub gc :
      ℕ → PruneStore → Status → Marker → GcOptions → Repo → Option (Repo × Result GcReport)
  unfolding gc_attached mount_attached
  gc fuel store (err kind) marker opts repo = some (repo, err kind)
  gc fuel store (ok u) marker opts repo = gc_attached fuel store opts repo (mount_attached marker)
