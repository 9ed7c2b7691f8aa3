-- ===== src/Codec/Reconstruct/Runs.antt =====
-- Runs of the reading of groups and files, and their properties at concrete inputs.
use synapse_fs.Prelude.{
  ℕ, ◌<◌, ◌≡◌, refl, sym, ap, ◌∙◌, ◌⊎◌, inl, inr, none, some, [], ◌∷◌, arith, if◌then◌else◌,
  Bool-cases, length, take, drop, replicate,
}
use synapse_fs.Codec.Runs.{the_digest}
use synapse_fs.Prelude.Bytes.{Bytes, bytes_eq}
use synapse_fs.Core.Error.{malformed_object, Result, ok, err}
use synapse_fs.Format.Manifest.{
  full, delta, DeltaBase, GroupEntry, BufferEntry, Manifest, find_group,
}
use synapse_fs.Codec.Reconstruct.Group.{ReadCtx, read_range, reconstruct_file}
use synapse_fs.Core.Oid.{Oid}
use synapse_fs.Codec.Reconstruct.Whole.{reconstruct_file_lem}
use synapse_fs.Codec.Reconstruct.Chain.{read_chain, read_chain_settles}

-- A file of a header and two entries, each with a group of full bytes.
abbrev a_block : Oid
a_block = record { raw = replicate 32 7 }

abbrev b_block : Oid
b_block = record { raw = replicate 32 9 }

abbrev full_of : Oid → GroupEntry
full_of oid = record {
  mode = full;
  block = some oid;
  base = none;
  diff_block = none;
  chain_depth = 0;
}

abbrev first_entry : BufferEntry
first_entry = record { tensor = 97 ∷ []; off = 0; nbytes = 2; group = 103 ∷ [] }

abbrev second_entry : BufferEntry
second_entry = record { tensor = 98 ∷ []; off = 2; nbytes = 3; group = 104 ∷ [] }

abbrev two_entries : Manifest
two_entries = record {
  format_version = 1;
  file = record { name = 102 ∷ []; header_block = a_block; total_bytes = 5 };
  buffer = first_entry ∷ second_entry ∷ [];
  groups = (103 ∷ [], full_of a_block) ∷ (104 ∷ [], full_of b_block) ∷ [];
}

-- A block holds the bytes of its identity.
abbrev blocks : ReadCtx
blocks = record {
  get_block = λ oid kind. ok (8 ∷ 8 ∷ []);
  read_block = λ oid kind offset out. ok (take (length out) (drop offset oid.raw), length out);
  history = none;
  topology = none;
  max_depth = 5;
  parse_diff_artifact = λ bytes. err malformed_object;
  decompress_frame = λ bytes size. ok bytes;
  digest = the_digest;
}

abbrev no_base : Manifest → Bytes → ℕ → Bytes → Result (Bytes × ℕ)
no_base manifest name offset out = err malformed_object

abbrev content_of : Bytes → Bytes
content_of name = if bytes_eq name (103 ∷ []) then replicate 32 7 else replicate 32 9

first_served :
    (offset : ℕ) (out : Bytes)
    → read_range blocks no_base two_entries (103 ∷ []) offset out
      ≡ ok (take (length out) (drop offset (replicate 32 7)), length out)
unfolding read_range
first_served offset out = refl

second_served :
    (offset : ℕ) (out : Bytes)
    → read_range blocks no_base two_entries (104 ∷ []) offset out
      ≡ ok (take (length out) (drop offset (replicate 32 9)), length out)
unfolding read_range
second_served offset out = refl

reconstruct_file_lem_example :
    reconstruct_file blocks no_base (λ bytes. ok tt) 10 two_entries
    ≡ some (ok (8 ∷ 8 ∷ 7 ∷ 7 ∷ 9 ∷ 9 ∷ 9 ∷ []))
unfolding find_group bytes_eq
reconstruct_file_lem_example =
    reconstruct_file_lem blocks no_base (λ bytes. ok tt) (λ bytes. refl) two_entries content_of 10
      (8 ∷ 8 ∷ []) refl
      (
        record {
          group = full_of a_block;
          known = refl;
          room = omega arith;
          reads = λ offset out h. first_served offset out;
        },
        (
          record {
            group = full_of b_block;
            known = refl;
            room = omega arith;
            reads = λ offset out h. second_served offset out;
          },
          tt,
        ),
      )
      (omega arith, (omega arith, tt)) ((refl, tt), (tt, tt))

-- A delta on the group above.
abbrev delta_group : GroupEntry
delta_group = record {
  mode = delta;
  block = none;
  base = some (record { commit = a_block; group = 103 ∷ [] });
  diff_block = some a_block;
  chain_depth = 1;
}

abbrev tuned : Manifest
tuned = record two_entries { groups = (103 ∷ [], delta_group) ∷ [] }

abbrev full_group : GroupEntry
full_group = full_of a_block

abbrev older_one : Manifest
older_one = record two_entries { groups = (103 ∷ [], full_group) ∷ [] }

abbrev chained : ReadCtx
chained = record blocks { history = some (λ oid. ok older_one) }

only_group :
    (m : Manifest) (g h : GroupEntry) (name : Bytes)
    → m.groups ≡ (103 ∷ [], h) ∷ []
    → find_group m name ≡ some g
    → g ≡ h
unfolding find_group
only_group m g h name groups found =
    let there = rw groups at found in
    elim (Bool-cases (bytes_eq (103 ∷ []) name)) [
      | inl same ↦ let e = rw same at there in cc
      | inr other ↦ let e = rw other at there in cc
    ]

-- The two manifests.
abbrev Known : Manifest → Type 0
Known m = (m ≡ tuned) ⊎ (m ≡ older_one)

chained-descends :
    (m m' : Manifest) (name : Bytes) (g : GroupEntry) (base : DeltaBase)
    (manifest_for : Oid → Result Manifest)
    → Known m
    → find_group m name ≡ some g
    → g.mode ≡ delta
    → g.base ≡ some base
    → chained.history ≡ some manifest_for
    → manifest_for base.commit ≡ ok m'
    → Known m'
      × ((g' : GroupEntry) → find_group m' base.group ≡ some g' → g'.chain_depth < g.chain_depth)
chained-descends m m' name g base manifest_for (inl first) found is_delta based hist parent =
    let same : g ≡ delta_group = only_group m g delta_group name (ap (λ k. k.groups) first) found in
    let history : chained.history ≡ some (λ oid. ok older_one) = refl in
    let always : manifest_for ≡ (λ oid. ok older_one) = cc in
    let sent : ok m' ≡ ok older_one =
      sym parent ∙ ap (λ (f : Oid → Result Manifest). f base.commit) always in
    let older : m' ≡ older_one = cc in
    (
      inr older,
      λ g' found'.
          let last : g' ≡ full_group =
            only_group m' g' full_group base.group (ap (λ k. k.groups) older) found' in
          omega (arith, ap (λ k. k.chain_depth) last, ap (λ k. k.chain_depth) same),
    )
chained-descends m m' name g base manifest_for (inr last) found is_delta based hist parent =
    let same : g ≡ full_group = only_group m g full_group name (ap (λ k. k.groups) last) found in
    let clash : full ≡ delta = sym (ap (λ k. k.mode) same) ∙ is_delta in cc

read_chain_settles_example :
    read_chain chained no_base 7 tuned (103 ∷ []) 0 (0 ∷ 0 ∷ [])
    ≡ read_chain chained (λ m name offset out. ok ([], 0)) 8 tuned (103 ∷ []) 0 (0 ∷ 0 ∷ [])
read_chain_settles_example =
    read_chain_settles chained Known chained-descends no_base (λ m name offset out. ok ([], 0)) 7 8
      tuned (103 ∷ []) 0 (0 ∷ 0 ∷ []) (inl refl) (omega arith) (omega arith)
