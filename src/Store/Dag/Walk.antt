-- ===== src/Store/Dag/Walk.antt =====
-- walk_commits and reachable_objects of modules/store/src/dag.cpp. The commit store and the manifest store are the
-- parameters `read` and `read_manifest`. The priority queue is the list of its entries, and its top
-- is the greatest of them; a loop takes a unit of fuel for each round.
pub mod Spec
pub mod Push
pub mod Visit
pub mod Collect
pub mod Fuel
use synapse_fs.Core.Oid.{Oid}
use synapse_fs.Core.Error.{ErrKind, Result, ok, err}
use synapse_fs.Format.Manifest.{GroupEntry, Manifest}
use synapse_fs.Store.Dag.{Commit, contains}
use synapse_fs.Prelude.{
  ℕ, zero, suc, Bool, true, false, not, ◌&&◌, ◌||◌, Option, none, some, List, [], ◌∷◌, ltb, ◌==◌,
  if◌then◌else◌,
}
use synapse_fs.Prelude.Bytes.{Bytes, bytes_eq}

-- `<` of two strings, or of the bytes of two identities.
unfoldable pub bytes_lt : Bytes → Bytes → Bool
bytes_lt [] [] = false
bytes_lt [] (y ∷ ys) = true
bytes_lt (x ∷ xs) [] = false
bytes_lt (x ∷ xs) (y ∷ ys) = ltb x y || ((x == y) && bytes_lt xs ys)

pub record QueueEntry : Type 0 where
  pub timestamp : Bytes
  pub oid : Oid

-- `<` of two pairs.
unfoldable pub entry_lt : QueueEntry → QueueEntry → Bool
unfolding bytes_lt bytes_eq
entry_lt a b =
    bytes_lt a.timestamp b.timestamp
    || (bytes_eq a.timestamp b.timestamp && bytes_lt a.oid.raw b.oid.raw)

-- `pq.top()` and what `pq.pop()` leaves, by one pass with the greatest so far.
unfoldable pub pop_max : QueueEntry → List QueueEntry → QueueEntry × List QueueEntry
unfolding entry_lt
pop_max best [] = (best, [])
pop_max best (e ∷ es) =
    let up = entry_lt best e in
    let (top, rest) = pop_max (if up then e else best) es in (top, (if up then best else e) ∷ rest)

-- A visitor's state with whether to go on to the parents.
abbrev pub Visitor : Type 0 → Type 0
Visitor S = Oid → Commit → S → S × Bool

-- The loop over the tips, and over the parents of a commit.
unfoldable pub push_new :
    (read : Oid → Result Commit)
    → List Oid
    → List Oid
    → List QueueEntry
    → Result (List Oid × List QueueEntry)
unfolding contains
push_new read [] seen pq = ok (seen, pq)
push_new read (p ∷ ps) seen pq =
    let skip = push_new read ps seen pq in
    let push : Result (List Oid × List QueueEntry) = elim (read p) [
      | err e ↦ err e
      | ok c ↦ push_new read ps (p ∷ seen) ((record { timestamp = c.timestamp; oid = p }) ∷ pq)
    ] in
    if contains seen p then skip else push

module _ {S : Type 0} (read : Oid → Result Commit) (visit : Visitor S) where
  unfoldable pub walk_loop : ℕ → S → List Oid → List QueueEntry → Option (Result S)
  unfolding pop_max push_new
  walk_loop zero s seen pq = none
  walk_loop (suc fuel) s seen [] = some (ok s)
  walk_loop (suc fuel) s seen (e ∷ es) =
      let (top, rest) = pop_max e es in
      elim (read top.oid) [
        | err kind ↦ some (err kind)
        | ok c ↦
            let (s', keep_going) = visit top.oid c s in
            let stop = walk_loop fuel s' seen rest in
            let go_on : Option (Result S) = elim (push_new read c.parents seen rest) [
              | err kind ↦ some (err kind)
              | ok (seen', pq') ↦ walk_loop fuel s' seen' pq'
            ] in
            if not keep_going then stop else go_on
      ]

  unfoldable pub walk_commits : ℕ → S → List Oid → Option (Result S)
  unfolding walk_loop
  walk_commits fuel s tips = elim (push_new read tips [] []) [
    | err kind ↦ some (err kind)
    | ok (seen, pq) ↦ walk_loop fuel s seen pq
  ]

-- What reachable_objects collects.
pub record Found : Type 0 where
  pub objects : List Oid
  pub failed : Option ErrKind

unfoldable pub insert_optional : Option Oid → List Oid → List Oid
insert_optional none objects = objects
insert_optional (some o) objects = o ∷ objects

unfoldable pub insert_groups : List (Bytes × GroupEntry) → List Oid → List Oid
unfolding insert_optional
insert_groups [] objects = objects
insert_groups ((name, g) ∷ gs) objects =
    insert_groups gs (insert_optional g.diff_block (insert_optional g.block objects))

module _ (read : Oid → Result Commit) (read_manifest : Oid → Result Manifest) where
  unfoldable pub visit_commit : Visitor Found
  unfolding insert_groups
  visit_commit commit_oid c s =
      let named = c.topology ∷ c.manifest ∷ commit_oid ∷ s.objects in
      elim (read_manifest c.manifest) [
        | err e ↦ (record { objects = named; failed = some e }, false)
        | ok m ↦ (record s { objects = insert_groups m.groups (m.file.header_block ∷ named) }, true)
      ]

  unfoldable pub found_or_failed : Option (Result Found) → Option (Result (List Oid))
  found_or_failed none = none
  found_or_failed (some (err e)) = some (err e)
  found_or_failed (some (ok s)) = elim s.failed [
    | some e ↦ some (err e)
    | none ↦ some (ok s.objects)
  ]

  unfoldable pub reachable_objects : ℕ → List Oid → Option (Result (List Oid))
  unfolding walk_commits visit_commit found_or_failed
  reachable_objects fuel tips =
      found_or_failed
        (walk_commits read visit_commit fuel (record { objects = []; failed = none }) tips)
