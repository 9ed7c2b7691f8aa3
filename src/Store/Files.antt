-- ===== src/Store/Files.antt =====
-- modules/util/src/atomic_io.cpp and modules/util/src/file.cpp, as the store uses them: the files
-- below a directory, by their path from it. A reader sees a file that atomic_write replaces either
-- as it was or as it is, so a write is one step. Directories are made as they are
-- needed, and only files are kept here.
use synapse_fs.Core.Error.{io, ok, err, Status}
use synapse_fs.Prelude.{
  ◌≡◌, refl, inl, inr, Bool, true, false, Option, none, some, List, [], ◌∷◌, arith, if◌then◌else◌,
  Bool-cases,
}
use synapse_fs.Prelude.Bytes.{Bytes, bytes_eq, bytes_eq_refl, eq-bytes_eq}

abbrev pub Files : Type 0
Files = List (Bytes × Bytes)

-- util::read_file, or a std::ifstream that reads it all.
unfoldable pub read_file : Bytes → Files → Option Bytes
unfolding bytes_eq
read_file path [] = none
read_file path ((name, content) ∷ files) =
    let rest = read_file path files in if bytes_eq name path then some content else rest

-- The files after util::atomic_write with `overwrite`, where it takes effect.
unfoldable pub write_file : Bytes → Bytes → Files → Files
unfolding bytes_eq
write_file path content [] = (path, content) ∷ []
write_file path content ((name, old) ∷ files) =
    let rest = (name, old) ∷ write_file path content files in
    if bytes_eq name path then (path, content) ∷ files else rest

-- How a write ends: the file is replaced; it is replaced but the directory cannot be synced, which
-- is an error too; or nothing is done. A removal, which does not sync or ignores it, has two ends.
pub data Write : Type 0 where
  written not_synced not_written : Write

unfoldable pub takes_effect : Write → Bool
takes_effect written = true
takes_effect not_synced = true
takes_effect not_written = false

unfoldable pub write_status : Write → Status
write_status written = ok tt
write_status not_synced = err io
write_status not_written = err io

-- std::filesystem::remove; a directory has one entry of a name.
unfoldable pub remove_file : Bytes → Files → Files
unfolding bytes_eq
remove_file path [] = []
remove_file path ((name, content) ∷ files) =
    let rest = remove_file path files in if bytes_eq name path then rest else (name, content) ∷ rest

pub read_file-write_file :
    (other path content : Bytes) (files : Files)
    → read_file other (write_file path content files)
      ≡ (if bytes_eq path other then some content else read_file other files)
unfolding read_file write_file
read_file-write_file other path content [] = refl
read_file-write_file other path content ((name, old) ∷ files) =
    elim (Bool-cases (bytes_eq name path)) [
      | inl same ↦
          let e = eq-bytes_eq name path same in
          let there : bytes_eq name other ≡ bytes_eq path other = rw e refl in ground arith
      | inr differ ↦
          let ih = read_file-write_file other path content files in
          elim (Bool-cases (bytes_eq name other)) [
            | inl hit ↦ elim (Bool-cases (bytes_eq path other)) [
              | inl both ↦
                  let a = eq-bytes_eq name other hit in
                  let b = eq-bytes_eq path other both in
                  let no_way : bytes_eq name path ≡ true = rw (a, b) (bytes_eq_refl other) in cc
              | inr miss ↦ ground arith
            ]
            | inr miss ↦ ground arith
          ]
    ]

pub read_file-remove_file :
    (other path : Bytes) (files : Files)
    → read_file other (remove_file path files)
      ≡ (if bytes_eq path other then none else read_file other files)
unfolding read_file remove_file
read_file-remove_file other path [] = elim (Bool-cases (bytes_eq path other)) [
  | inl y ↦ ground arith
  | inr n ↦ ground arith
]
read_file-remove_file other path ((name, content) ∷ files) =
    elim (Bool-cases (bytes_eq name path)) [
      | inl same ↦
          let e = eq-bytes_eq name path same in
          let there : bytes_eq name other ≡ bytes_eq path other = rw e refl in
          let ih = read_file-remove_file other path files in ground arith
      | inr differ ↦
          let ih = read_file-remove_file other path files in
          elim (Bool-cases (bytes_eq name other)) [
            | inl hit ↦ elim (Bool-cases (bytes_eq path other)) [
              | inl both ↦
                  let a = eq-bytes_eq name other hit in
                  let b = eq-bytes_eq path other both in
                  let no_way : bytes_eq name path ≡ true = rw (a, b) (bytes_eq_refl other) in cc
              | inr miss ↦ ground arith
            ]
            | inr miss ↦ ground arith
          ]
    ]
