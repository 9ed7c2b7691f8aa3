-- ===== src/Core/Kind.antt =====
-- The kinds of objects in modules/core/include/synapsefs/core/oid.hpp, with their tags in
-- modules/core/src/oid.cpp.
use Prim.Native.String.{String}
use text.Mathlib.Text.{◌==◌ as str_eq}
use synapse_fs.Prelude.{◌≡◌, refl, if◌then◌else◌}
use synapse_fs.Core.Error.{malformed_object, Result, ok, err}

pub data ObjectKind : Type 0 where
  raw_kind diff_kind header_kind manifest_kind commit_kind topology_kind tree_kind : ObjectKind

unfoldable pub kind_tag : ObjectKind → String
kind_tag raw_kind = "raw"
kind_tag diff_kind = "diff"
kind_tag header_kind = "header"
kind_tag manifest_kind = "manifest"
kind_tag commit_kind = "commit"
kind_tag topology_kind = "topology"
kind_tag tree_kind = "tree"

unfoldable pub object_kind_from_string : String → Result ObjectKind
object_kind_from_string s =
    if str_eq s "raw"
    then ok raw_kind
    else if str_eq s "diff"
    then ok diff_kind
    else if str_eq s "header"
    then ok header_kind
    else if str_eq s "manifest"
    then ok manifest_kind
    else if str_eq s "commit"
    then ok commit_kind
    else if str_eq s "topology"
    then ok topology_kind
    else if str_eq s "tree"
    then ok tree_kind
    else err malformed_object

-- The tag of every kind reads back as that kind.
pub object_kind_from_string-kind_tag :
    (k : ObjectKind) → object_kind_from_string (kind_tag k) ≡ ok k
unfolding object_kind_from_string kind_tag
object_kind_from_string-kind_tag raw_kind = refl
object_kind_from_string-kind_tag diff_kind = refl
object_kind_from_string-kind_tag header_kind = refl
object_kind_from_string-kind_tag manifest_kind = refl
object_kind_from_string-kind_tag commit_kind = refl
object_kind_from_string-kind_tag topology_kind = refl
object_kind_from_string-kind_tag tree_kind = refl
