-- ===== src/Store/Loose.antt =====
-- LooseStore of modules/store/src/loose.cpp: objects in files of their own, read whole and checked
-- against their address, or in ranges and checked by chunks. A file is its bytes, and a missing one
-- `none`; reads of a file give its bytes up to its end. The digest and the address of a payload
-- are parameters.
pub mod Ranges
mod Runs
use synapse_fs.Core.Error.{
  io, object_not_found, object_kind_mismatch, malformed_object, hash_mismatch, not_implemented,
  Result, ok, err, Status, ◌>>=◌, ◌>>◌, guard,
}
use synapse_fs.Prelude.{
  ℕ, zero, suc, ◌+◌, ◌-◌, ◌*◌, ◌/◌, ◌%◌, ◌^◌, min, not, Option, none, some, [], ◌++◌, ltb, leb,
  ◌==◌, if◌then◌else◌, length, take, drop,
}
use synapse_fs.Prelude.Bytes.{Bytes}
use synapse_fs.Format.Object.{oid_bytes, header_size, ObjectHeader, decode}
use synapse_fs.Core.Oid.{Oid, oid_eq}
use synapse_fs.Format.Object.Chunks.{verify_chunk}

-- `ObjectKind` as its byte, and `Compression::None`.
abbrev pub no_compression : ℕ
no_compression = 0

-- pread_all: up to `size` bytes from `offset` on.
abbrev pub pread : Bytes → ℕ → ℕ → Bytes
pread file offset size = take size (drop offset file)

-- The tests of a header that get and read_range have in common.
unfoldable pub check_header : ObjectHeader → ℕ → Status
check_header hdr expected_kind =
    if not (hdr.kind == expected_kind)
    then err object_kind_mismatch
    else if not (hdr.compression == no_compression)
    then err not_implemented
    else ok tt

-- Where the payload of an object begins in its file.
abbrev pub payload_offset : ObjectHeader → ℕ
payload_offset hdr = (header_size + hdr.chunk_count * oid_bytes) % 2 ^ 64

unfoldable pub get : (ℕ → Bytes → Oid) → Option Bytes → Oid → ℕ → Result Bytes
unfolding decode check_header oid_eq
get compute_oid none oid expected_kind = err object_not_found
get compute_oid (some bytes) oid expected_kind = do
  hdr ← decode bytes
  _ ← check_header hdr expected_kind
  let payload = drop (payload_offset hdr) bytes
  guard (length bytes == (payload_offset hdr + hdr.payload_len) % 2 ^ 64) malformed_object
  guard (oid_eq (compute_oid expected_kind payload) oid) hash_mismatch
  ok payload

module _ (digest : Bytes → Bytes) (file : Bytes) (hdr : ObjectHeader) (digests : Bytes) where
  -- One round: the chunk at `abs_off`, and the part of it that begins there and has `left` bytes
  -- at most.
  unfoldable pub read_chunk : ℕ → ℕ → Result Bytes
  unfolding verify_chunk
  read_chunk abs_off left = do
    let chunk_bytes = 2 ^ hdr.chunk_log2
    let chunk_idx = abs_off / chunk_bytes % 2 ^ 32
    let chunk_start = chunk_idx * chunk_bytes % 2 ^ 64
    let chunk_len = min chunk_bytes ((hdr.payload_len + 2 ^ 64 - chunk_start) % 2 ^ 64)
    let chunk_buf = pread file ((payload_offset hdr + chunk_start) % 2 ^ 64) chunk_len
    guard (length chunk_buf == chunk_len) io
    _ ← verify_chunk digest chunk_buf digests chunk_idx
    let within = (abs_off + 2 ^ 64 - chunk_start) % 2 ^ 64
    ok (take (min left ((chunk_len + 2 ^ 64 - within) % 2 ^ 64)) (drop within chunk_buf))

  -- The loop over the chunks of a range, with the bytes that it has copied.
  unfoldable pub read_chunks : ℕ → ℕ → ℕ → Bytes → Option (Result Bytes)
  read_chunks zero offset want out = none
  read_chunks (suc fuel) offset want out =
      let done = length out in
      let round : Option (Result Bytes) =
        elim (read_chunk ((offset + done) % 2 ^ 64) (want - done)) [
          | err kind ↦ some (err kind)
          | ok bytes ↦ read_chunks fuel offset want (out ++ bytes)
        ] in
      if not (ltb done want) then some (ok out) else round

module _ (digest : Bytes → Bytes) where
  -- read_range after the header: the range is cut off at the end of the payload.
  unfoldable pub read_payload : ℕ → Bytes → ObjectHeader → ℕ → ℕ → Option (Result Bytes)
  unfolding read_chunks
  read_payload fuel file hdr offset size =
      let want = min size (hdr.payload_len - offset) in
      let digest_bytes = hdr.chunk_count * oid_bytes in
      let digests = pread file header_size digest_bytes in
      let chunks : Option (Result Bytes) =
        read_chunks digest file hdr digests fuel offset want [] in
      if leb hdr.payload_len offset
      then some (ok [])
      else if not (length digests == digest_bytes)
      then some (err malformed_object)
      else chunks

  unfoldable pub read_range : ℕ → Option Bytes → ℕ → ℕ → ℕ → Option (Result Bytes)
  unfolding read_payload decode check_header
  read_range fuel none expected_kind offset size = some (err object_not_found)
  read_range fuel (some file) expected_kind offset size =
      let hdr_buf = pread file 0 header_size in
      let checked : Result ObjectHeader =
        decode hdr_buf >>= λ hdr. check_header hdr expected_kind >> ok hdr in
      let rest : Option (Result Bytes) = elim checked [
        | err kind ↦ some (err kind)
        | ok hdr ↦ read_payload fuel file hdr offset size
      ] in
      if not (length hdr_buf == header_size) then some (err malformed_object) else rest
