-- ===== src/Format/Examples.antt =====
-- Runs of the formats, and their properties at concrete inputs.
use synapse_fs.Format.Object.{oid_bytes, header_size, ObjectHeader, encode, decode, decode-encode}
use synapse_fs.Format.Object.Chunks.{
  chunk_at, compute_chunk_digests, verify_chunk, verify_chunk-compute,
}
use synapse_fs.Format.Manifest.{full, GroupEntry, Manifest, validate}
use synapse_fs.Core.Oid.{Oid}
use synapse_fs.Format.Manifest.Layout.{extent, Contiguous, start_of, validate-Contiguous}
use synapse_fs.Prelude.{
  ℕ, ◌+◌, ◌*◌, ◌≡◌, refl, ◌≢◌, ◌↔◌, ◌⊎◌, true, none, some, List, [], ◌∷◌, ◌++◌, arith, length,
  get_elem?, length-append, take, replicate, length-take,
}
use synapse_fs.Prelude.Bytes.{Bytes}
use synapse_fs.Core.Error.{ok}
use synapse_fs.Format.Diff.{
  FrameIndexEntry, validate_tiling, frame_for_unit, identity, explicit, PermutationRef,
  read_permutation, write_permutation,
}
use synapse_fs.Core.Permutation.{is_valid_permutation}
use synapse_fs.Format.Diff.Tiling.{HoldsUnit, frame_for_unit-validate_tiling}
use synapse_fs.Format.Diff.StoredPermutation.{
  IsBijection, read_permutation-IsBijection, read_permutation-write_permutation,
}
use synapse_fs.Core.Tensor.{indices_from}

abbrev a_header : ObjectHeader
a_header = record {
  kind = 1;
  compression = 2;
  chunk_log2 = 20;
  payload_len = 5000000;
  stored_len = 70000;
  chunk_count = 5;
}

decode-encode_example : decode (encode a_header (replicate header_size 0) ++ (7 ∷ [])) ≡ ok a_header
decode-encode_example = decode-encode a_header (7 ∷ []) record {
  kind = omega arith;
  compression = omega arith;
  chunk_log2 = omega arith;
  payload_len = omega arith;
  stored_len = omega arith;
  chunk_count = omega arith;
}

-- A digest of 32 bytes: the start of what it is given, filled up.
abbrev start_digest : Bytes → Bytes
start_digest bs = take 32 (bs ++ replicate 32 0)

start_digest-length : (bs : Bytes) → length (start_digest bs) ≡ oid_bytes
start_digest-length bs =
    omega (arith, length-take 32 (bs ++ replicate 32 0), length-append bs (replicate 32 0))

abbrev payload : Bytes
payload = 1 ∷ 2 ∷ 3 ∷ 4 ∷ 5 ∷ []

verify_chunk-compute_example :
    (verify_chunk start_digest (5 ∷ []) (compute_chunk_digests start_digest payload 2) 2 ≡ ok tt)
    ↔ (5 ∷ [] ≡ chunk_at payload 2 (2 * 2))
verify_chunk-compute_example =
    verify_chunk-compute start_digest start_digest-length payload (5 ∷ []) 2 2 (omega arith)
      (omega arith) (omega arith) (λ h. refl)

abbrev oid_of : ℕ → Oid
oid_of n = record { raw = replicate 32 n }

abbrev full_group : GroupEntry
full_group = record {
  mode = full;
  block = some (oid_of 1);
  base = none;
  diff_block = none;
  chain_depth = 0;
}

abbrev pub a_manifest : Manifest
a_manifest = record {
  format_version = 1;
  file = record { name = 109 ∷ []; header_block = oid_of 9; total_bytes = 128 };
  buffer =
      record { tensor = 97 ∷ []; off = 64; nbytes = 24; group = 103 ∷ [] }
      ∷ record { tensor = 98 ∷ []; off = 88; nbytes = 40; group = 103 ∷ [] }
      ∷ [];
  groups = (103 ∷ [], full_group) ∷ [];
}

pub a_manifest-valid : validate a_manifest ≡ ok tt
unfolding validate
a_manifest-valid = refl

validate-Contiguous_example :
    (a_manifest.buffer ≢ [])
    × Contiguous a_manifest.groups (start_of a_manifest.buffer) a_manifest.buffer
    × (start_of a_manifest.buffer + extent a_manifest.buffer ≡ a_manifest.file.total_bytes)
validate-Contiguous_example = validate-Contiguous a_manifest (omega arith) a_manifest-valid

abbrev frame : ℕ → ℕ → FrameIndexEntry
frame first last = record { unit_begin = first; unit_end = last; off = 0; len = 9; digest = [] }

-- A tiling that passes although its second frame ends before it begins.
abbrev odd_frames : List FrameIndexEntry
odd_frames = frame 0 10 ∷ frame 10 5 ∷ frame 5 20 ∷ []

odd_frames-pass : validate_tiling odd_frames 20 ≡ ok tt
unfolding validate_tiling
odd_frames-pass = refl

frame_for_unit-validate_tiling_example :
    (k : ℕ) × (f : FrameIndexEntry) × (frame_for_unit odd_frames 12 ≡ some k)
    × (get_elem? odd_frames k ≡ some f)
    × HoldsUnit 12 f
frame_for_unit-validate_tiling_example =
    frame_for_unit-validate_tiling odd_frames 20 12 odd_frames-pass (omega arith)

seventh : frame_for_unit odd_frames 7 ≡ some 0
unfolding frame_for_unit
seventh = refl

abbrev a_permutation : List ℕ
a_permutation = 2 ∷ 0 ∷ 1 ∷ []

a_permutation-valid : is_valid_permutation a_permutation 3 ≡ true
unfolding is_valid_permutation
a_permutation-valid = refl

read_permutation-write_permutation_example :
    (a_permutation ≡ indices_from 0 3
      → ((write_permutation (9 ∷ []) a_permutation).0.kind ≡ identity)
        × ((write_permutation (9 ∷ []) a_permutation).1 ≡ 9 ∷ [])
        × ((n : ℕ)
            → read_permutation
                (record (write_permutation (9 ∷ []) a_permutation).0 { n = n })
                ((write_permutation (9 ∷ []) a_permutation).1 ++ 8 ∷ [])
              ≡ ok []))
    × (a_permutation ≢ indices_from 0 3
        → ((write_permutation (9 ∷ []) a_permutation).0.kind ≡ explicit)
          × (read_permutation
                (write_permutation (9 ∷ []) a_permutation).0
                ((write_permutation (9 ∷ []) a_permutation).1 ++ 8 ∷ [])
              ≡ ok a_permutation))
read_permutation-write_permutation_example =
    read_permutation-write_permutation (9 ∷ []) (8 ∷ []) a_permutation a_permutation-valid
      (omega arith) (omega arith)

abbrev a_payload : Bytes
a_payload = 7 ∷ 1 ∷ 0 ∷ 0 ∷ 0 ∷ []

abbrev a_ref : PermutationRef
a_ref = record { kind = explicit; n = 2; width = 2; off = 1; len = 4 }

abbrev swapped : List ℕ
swapped = 1 ∷ 0 ∷ []

a_ref-reads : read_permutation a_ref a_payload ≡ ok (1 ∷ 0 ∷ [])
unfolding read_permutation
a_ref-reads = refl

read_permutation-IsBijection_example :
    ((a_ref.kind ≡ identity) × (swapped ≡ []))
    ⊎ ((a_ref.kind ≡ explicit) × IsBijection swapped a_ref.n)
read_permutation-IsBijection_example =
    read_permutation-IsBijection a_ref a_payload swapped a_ref-reads
