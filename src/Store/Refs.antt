-- ===== src/Store/Refs.antt =====
-- modules/store/src/refs.cpp: HEAD, the branches below refs/heads, and the resolution of a name.
-- A path below refs/heads is the text that the code joins to it. How a write of HEAD or of a
-- branch ends is the parameter `writable`; a directory below refs/heads is not a file and is
-- left out, and so are paths that name one file in two ways.
pub mod Swap
pub mod Resolve
use synapse_fs.Prelude.{
  ℕ, zero, suc, Bool, true, not, ◌&&◌, ◌||◌, Option, none, some, List, [], ◌∷◌, ◌++◌, leb, ◌==◌,
  if◌then◌else◌, length, take, drop,
}
use synapse_fs.Prelude.Bytes.{Bytes, bytes_eq}
use synapse_fs.Core.Oid.{Oid, prefix, parse, oid_text}
use synapse_fs.Core.Error.{
  io, ref_not_found, ref_race_lost, malformed_object, Result, ok, err, Status, ◌>>=◌,
}
use synapse_fs.Store.Files.{
  Files, read_file, write_file, Write, takes_effect, write_status, remove_file,
}

-- The files that a RefStore reads and writes: HEAD, the branches by their path below refs/heads,
-- and the names of the fanout directories of objects with the leaves below each.
pub record RefStore : Type 0 where
  pub head : Option Bytes
  pub heads : Files
  pub objects : List (Bytes × Bytes)

-- "HEAD"
abbrev pub head_name : Bytes
head_name = 72 ∷ 69 ∷ 65 ∷ 68 ∷ []

-- "refs/heads/"
abbrev pub heads_prefix : Bytes
heads_prefix = 114 ∷ 101 ∷ 102 ∷ 115 ∷ 47 ∷ 104 ∷ 101 ∷ 97 ∷ 100 ∷ 115 ∷ 47 ∷ []

-- "ref: "
abbrev pub symbolic_prefix : Bytes
symbolic_prefix = 114 ∷ 101 ∷ 102 ∷ 58 ∷ 32 ∷ []

-- One step of the trimming, from the end: a line break with nothing behind it goes.
unfoldable pub trim_step : ℕ → Bytes → Bytes
trim_step c [] = if (c == 10) || (c == 13) then [] else c ∷ []
trim_step c (d ∷ ds) = c ∷ d ∷ ds

-- `while (!s.empty() && (s.back() == '\n' || s.back() == '\r')) s.pop_back();`
unfoldable pub trim : Bytes → Bytes
unfolding trim_step
trim [] = []
trim (c ∷ cs) = trim_step c (trim cs)

unfoldable pub read_trimmed : Option Bytes → Result Bytes
unfolding trim
read_trimmed none = err ref_not_found
read_trimmed (some s) = ok (trim s)

-- What write_line puts in the file.
abbrev pub line_of : Bytes → Bytes
line_of line = line ++ (10 ∷ [])

-- `s.substr(0, p.size()) == p`.
unfoldable pub starts_with : Bytes → Bytes → Bool
unfolding bytes_eq
starts_with p s = bytes_eq (take (length p) s) p

-- The path below refs/heads.
unfoldable pub branch_ref_path : Bytes → Bytes
unfolding starts_with
branch_ref_path name_or_ref =
    if starts_with heads_prefix name_or_ref
    then drop (length heads_prefix) name_or_ref
    else name_or_ref

-- `is_detached` tells the two apart: the code fills exactly one of its two options.
pub data Head : Type 0 where
  symbolic : Bytes → Head
  detached : Oid → Head

unfoldable pub head_of : Bytes → Result Head
unfolding starts_with parse
head_of content =
    if starts_with symbolic_prefix content
    then ok (symbolic (drop (length symbolic_prefix) content))
    else (parse content >>= λ o. ok (detached o))

unfoldable pub read_head : RefStore → Result Head
unfolding read_trimmed head_of
read_head s = read_trimmed s.head >>= head_of

-- The identities that an abbreviation may stand for: the scan of the fanout directories.
unfoldable pub matches : Bytes → List (Bytes × Bytes) → List Oid
unfolding starts_with parse bytes_eq
matches hex_prefix [] = []
matches hex_prefix ((top, leaf) ∷ rest) =
    let more = matches hex_prefix rest in
    let other_top = leb 2 (length hex_prefix) && not (bytes_eq top (take 2 hex_prefix)) in
    let found : List Oid = elim (parse (prefix ++ (top ++ leaf))) [
      | ok o ↦ o ∷ more
      | err e ↦ more
    ] in
    if other_top then more else if starts_with hex_prefix (top ++ leaf) then found else more

unfoldable pub pick_match : List Oid → Result Oid
pick_match [] = err ref_not_found
pick_match (o ∷ []) = ok o
pick_match (o ∷ p ∷ os) = err malformed_object

-- The part of rev_parse behind the branches: an identity, or an abbreviation of one.
unfoldable pub parse_or_abbrev : RefStore → Bytes → Result Oid
unfolding matches pick_match starts_with parse
parse_or_abbrev s spec =
    if not (starts_with prefix spec)
    then err ref_not_found
    else if length spec == 67
    then parse spec
    else pick_match (matches (drop 3 spec) s.objects)

unfoldable pub branch_or_oid : RefStore → Bytes → Option Bytes → Result Oid
unfolding read_trimmed parse_or_abbrev parse
branch_or_oid s spec none = parse_or_abbrev s spec
branch_or_oid s spec (some content) = read_trimmed (some content) >>= parse

-- rev_parse, in rounds: a symbolic HEAD is resolved in turn. `none` means that the fuel ran out.
unfoldable pub rev_parse : ℕ → RefStore → Bytes → Option (Result Oid)
unfolding read_head branch_or_oid branch_ref_path bytes_eq
rev_parse zero s spec = none
rev_parse (suc fuel) s spec =
    let at_head : Option (Result Oid) = elim (read_head s) [
      | err e ↦ some (err e)
      | ok (detached o) ↦ some (ok o)
      | ok (symbolic name) ↦ rev_parse fuel s name
    ] in
    if bytes_eq spec head_name
    then at_head
    else some (branch_or_oid s spec (read_file (branch_ref_path spec) s.heads))

pub record Ref : Type 0 where
  pub name : Bytes
  pub target : Oid

-- A file of the directory itself, not of a directory below it.
unfoldable pub is_direct : Bytes → Bool
is_direct [] = true
is_direct (c ∷ cs) = not (c == 47) && is_direct cs

-- The loop of list_heads over the directory's entries.
unfoldable pub list_files : Files → List Ref
unfolding trim is_direct parse
list_files [] = []
list_files ((name, content) ∷ files) =
    let rest = list_files files in
    let listed : List Ref = elim (parse (trim content)) [
      | ok o ↦ (record { name = name; target = o }) ∷ rest
      | err e ↦ rest
    ] in
    if is_direct name then listed else rest

unfoldable pub list_heads : RefStore → List Ref
unfolding list_files
list_heads s = list_files s.heads

module _ (writable : Bytes → Write) where
  -- write_line to a branch.
  unfoldable pub write_branch : RefStore → Bytes → Bytes → RefStore × Status
  unfolding takes_effect write_status
  write_branch s path line =
      let end = writable path in
      let new = record s { heads = write_file path (line_of line) s.heads } in
      ((if takes_effect end then new else s), write_status end)

  -- write_line to HEAD.
  unfoldable pub write_head : RefStore → Bytes → RefStore × Status
  unfolding takes_effect write_status
  write_head s line =
      let end = writable head_name in
      ((if takes_effect end then record s { head = some (line_of line) } else s), write_status end)

  unfoldable pub set_head_symbolic : RefStore → Bytes → RefStore × Status
  unfolding write_head
  set_head_symbolic s ref_name = write_head s (symbolic_prefix ++ ref_name)

  unfoldable pub set_head_detached : RefStore → Oid → RefStore × Status
  unfolding write_head oid_text
  set_head_detached s oid = write_head s (oid_text oid)

  -- update, by what it expects and what the file holds.
  unfoldable pub update_at : RefStore → Bytes → Option Oid → Option Bytes → Oid → RefStore × Status
  unfolding write_branch trim oid_text bytes_eq
  update_at s path none none desired = write_branch s path (oid_text desired)
  update_at s path none (some content) desired = (s, err ref_race_lost)
  update_at s path (some o) none desired = (s, err ref_race_lost)
  update_at s path (some o) (some content) desired =
      if not (bytes_eq (trim content) (oid_text o))
      then (s, err ref_race_lost)
      else write_branch s path (oid_text desired)

  unfoldable pub update : RefStore → Bytes → Option Oid → Oid → RefStore × Status
  unfolding update_at branch_ref_path
  update s ref_name expected desired =
      let path = branch_ref_path ref_name in
      update_at s path expected (read_file path s.heads) desired

  unfoldable pub create_branch : RefStore → Bytes → Oid → RefStore × Status
  unfolding update
  create_branch s name at = update s name none at

  -- Whether the file can be removed is decided as for a write.
  unfoldable pub delete_branch : RefStore → Bytes → RefStore × Status
  unfolding branch_ref_path takes_effect
  delete_branch s name =
      let path = branch_ref_path name in
      let gone : RefStore × Status =
        if takes_effect (writable path)
        then (record s { heads = remove_file path s.heads }, ok tt)
        else (s, err io) in
      elim (read_file path s.heads) [ none ↦ (s, err ref_not_found) | some content ↦ gone ]
