-- ===== src/Codec/Reconstruct/Group.antt =====
-- read_delta_range, read_range_impl, reconstruct_file and chain_depth of
-- modules/codec/src/reconstruct.cpp. The pointers that a ReadCtx always has are given. The block
-- store, the parser of an artifact, the decompression and the digest are parameters, and so is
-- the reading of a group by the manifest of its base commit, `read_group`, by which the code
-- recurs. A read is given the bytes that it writes into. The sink may refuse what it is given.
use synapse_fs.Core.Kind.{ObjectKind, raw_kind, diff_kind, header_kind}
use synapse_fs.Prelude.{
  ℕ, zero, suc, ◌+◌, ◌-◌, min, not, Option, none, some, List, [], ◌∷◌, ◌++◌, ltb, ◌==◌,
  if◌then◌else◌, take, drop, replicate,
}
use synapse_fs.Prelude.Bytes.{Bytes, bytes_eq}
use synapse_fs.Core.Error.{
  malformed_object, chain_too_deep, internal, Result, ok, err, Status, ◌>>=◌,
}
use synapse_fs.Core.Oid.{Oid}
use synapse_fs.Core.Topology.{Topology}
use synapse_fs.Format.Manifest.{
  full, delta, DeltaBase, GroupEntry, BufferEntry, Manifest, find_group,
}
use synapse_fs.Codec.Reconstruct.{TensorDiff, DiffArtifact, read_tensor_range}
use synapse_fs.Codec.Reconstruct.Secondary.{resolve_secondary_permutation}

unfoldable pub find_tensor : Bytes → List TensorDiff → Option TensorDiff
unfolding bytes_eq
find_tensor name [] = none
find_tensor name (t ∷ ts) =
    let rest = find_tensor name ts in if bytes_eq t.shape_name name then some t else rest

unfoldable pub chain_depth : Manifest → Bytes → Result ℕ
unfolding find_group
chain_depth manifest name = elim (find_group manifest name) [
  | none ↦ err malformed_object
  | some g ↦ ok g.chain_depth
]

-- What a ReadCtx has beside the manifest, and what the libraries do.
pub record ReadCtx : Type 0 where
  pub get_block : Oid → ObjectKind → Result Bytes
  pub read_block : Oid → ObjectKind → ℕ → Bytes → Result (Bytes × ℕ)
  pub history : Option (Oid → Result Manifest)
  pub topology : Option Topology
  pub max_depth : ℕ
  pub parse_diff_artifact : Bytes → Result DiffArtifact
  pub decompress_frame : Bytes → ℕ → Result Bytes
  pub digest : Bytes → Bytes

-- `kStreamChunk`
abbrev pub stream_chunk : ℕ
stream_chunk = 4194304

-- `std::vector<std::byte> buf(n)`
unfoldable pub fresh_buffer : ℕ → Bytes
fresh_buffer n = replicate n 0

module _ (ctx : ReadCtx) (read_group : Manifest → Bytes → ℕ → Bytes → Result (Bytes × ℕ)) where
  unfoldable pub read_from_base :
      Manifest → DeltaBase → Oid → Bytes → ℕ → Bytes → (Oid → Result Manifest) → Result (Bytes × ℕ)
  unfolding find_tensor read_tensor_range resolve_secondary_permutation
  read_from_base manifest base diff name offset out manifest_for = do
    diff_bytes ← ctx.get_block diff diff_kind
    artifact ← ctx.parse_diff_artifact diff_bytes
    tdiff ← elim (find_tensor name artifact.tensors) as (λ _. Result TensorDiff) [
      | none ↦ err malformed_object
      | some t ↦ ok t
    ]
    base_manifest ← manifest_for base.commit
    let read_base = λ (at n : ℕ). read_group base_manifest base.group at (replicate n 0)
    read_tensor_range ctx.digest ctx.decompress_frame read_base artifact tdiff
        (resolve_secondary_permutation ctx.get_block ctx.parse_diff_artifact ctx.topology manifest
          tdiff)
        offset out

  unfoldable pub read_delta :
      Manifest
      → ℕ
      → Bytes
      → ℕ
      → Bytes
      → Option DeltaBase
      → Option Oid
      → Option (Oid → Result Manifest)
      → Result (Bytes × ℕ)
  unfolding read_from_base
  read_delta manifest depth name offset out none diff history = err malformed_object
  read_delta manifest depth name offset out (some base) none history = err malformed_object
  read_delta manifest depth name offset out (some base) (some diff) none =
      if ltb ctx.max_depth depth then err chain_too_deep else err internal
  read_delta manifest depth name offset out (some base) (some diff) (some manifest_for) =
      let rest = read_from_base manifest base diff name offset out manifest_for in
      if ltb ctx.max_depth depth then err chain_too_deep else rest

  unfoldable pub read_delta_range : Manifest → GroupEntry → Bytes → ℕ → Bytes → Result (Bytes × ℕ)
  unfolding read_delta
  read_delta_range manifest g name offset out =
      read_delta manifest g.chain_depth name offset out g.base g.diff_block ctx.history

  unfoldable pub read_found : Manifest → Bytes → ℕ → Bytes → Option GroupEntry → Result (Bytes × ℕ)
  unfolding read_delta_range
  read_found manifest name offset out none = err malformed_object
  read_found manifest name offset out (some g) = elim g.mode [
    | delta ↦ read_delta_range manifest g name offset out
    | full ↦ elim g.block [
      | none ↦ err malformed_object
      | some block ↦ ctx.read_block block raw_kind offset out
    ]
  ]

  unfoldable pub read_range : Manifest → Bytes → ℕ → Bytes → Result (Bytes × ℕ)
  unfolding read_found find_group
  read_range manifest name offset out =
      read_found manifest name offset out (find_group manifest name)

  -- The loop over the chunks of an entry, with the buffer that is used again for each, and with
  -- what the sink has been given so far.
  unfoldable pub stream_entry :
      (Bytes → Status)
      → ℕ
      → Manifest
      → BufferEntry
      → ℕ
      → Bytes
      → Bytes
      → Option (Result (Bytes × Bytes))
  stream_entry sink zero manifest entry done buf out = none
  stream_entry sink (suc fuel) manifest entry done buf out =
      let want = min stream_chunk (entry.nbytes - done) in
      let round : Option (Result (Bytes × Bytes)) =
        elim (read_range manifest entry.group done (take want buf)) [
          | err kind ↦ some (err kind)
          | ok (bytes, n) ↦
              let next : Option (Result (Bytes × Bytes)) = elim (sink bytes) [
                | err kind ↦ some (err kind)
                | ok u ↦
                    stream_entry sink fuel manifest entry (done + want) (bytes ++ drop want buf)
                      (out ++ bytes)
              ] in
              if not (n == want) then some (err malformed_object) else next
        ] in
      if not (ltb done entry.nbytes) then some (ok (buf, out)) else round

  unfoldable pub stream_buffer :
      (Bytes → Status) → ℕ → Manifest → List BufferEntry → Bytes → Bytes → Option (Result Bytes)
  unfolding stream_entry find_group
  stream_buffer sink fuel manifest [] buf out = some (ok out)
  stream_buffer sink fuel manifest (entry ∷ entries) buf out =
      let streamed : Option (Result Bytes) =
        elim (stream_entry sink fuel manifest entry 0 buf out) [
          | none ↦ none
          | some (err kind) ↦ some (err kind)
          | some (ok (buf', out')) ↦ stream_buffer sink fuel manifest entries buf' out'
        ] in
      elim (find_group manifest entry.group) [
        | none ↦ some (err malformed_object)
        | some g ↦ streamed
      ]

  unfoldable pub reconstruct_file : (Bytes → Status) → ℕ → Manifest → Option (Result Bytes)
  unfolding stream_buffer
  reconstruct_file sink fuel manifest =
      elim (ctx.get_block manifest.file.header_block header_kind) [
        | err kind ↦ some (err kind)
        | ok header ↦ elim (sink header) [
          | err kind ↦ some (err kind)
          | ok u ↦
              stream_buffer sink fuel manifest manifest.buffer (fresh_buffer stream_chunk) header
        ]
      ]
