-- ===== src/Store/Dag/Walk/Spec.antt =====
-- What reachable_objects promises: the objects that the commits name which the tips reach.
use synapse_fs.Core.Oid.{Oid}
use synapse_fs.Core.Error.{Result, ok}
use synapse_fs.Format.Manifest.{GroupEntry, Manifest}
use synapse_fs.Store.Dag.{Commit}
use synapse_fs.Store.Dag.Search.{Member, Reach}
use synapse_fs.Prelude.{◌≡◌, Option, none, some, List, [], ◌∷◌, ◌++◌}
use synapse_fs.Prelude.Bytes.{Bytes}

abbrev pub optional_objects : Option Oid → List Oid
optional_objects none = []
optional_objects (some o) = o ∷ []

abbrev pub groups_objects : List (Bytes × GroupEntry) → List Oid
groups_objects [] = []
groups_objects ((name, g) ∷ gs) =
    optional_objects g.block ++ (optional_objects g.diff_block ++ groups_objects gs)

-- A commit names itself, its manifest and topology, and the manifest's header and blocks.
pub data Names (read_manifest : Oid → Result Manifest) (a : Oid) (c : Commit) (o : Oid)
    : Type 0 where
  itself : a ≡ o → Names read_manifest a c o
  its_manifest : c.manifest ≡ o → Names read_manifest a c o
  its_topology : c.topology ≡ o → Names read_manifest a c o
  its_header :
      (m : Manifest)
      → read_manifest c.manifest ≡ ok m
      → m.file.header_block ≡ o
      → Names read_manifest a c o
  its_block :
      (m : Manifest)
      → read_manifest c.manifest ≡ ok m
      → Member o (groups_objects m.groups)
      → Names read_manifest a c o

-- A commit that a tip reaches names the object.
pub record IsLive (read : Oid → Result Commit) (read_manifest : Oid → Result Manifest)
    (tips : List Oid) (o : Oid) : Type 0 where
  pub tip : Oid
  pub commit : Oid
  pub content : Commit
  pub of_tips : Member tip tips
  pub reached : Reach read tip commit
  pub is_read : read commit ≡ ok content
  pub names : Names read_manifest commit content o
