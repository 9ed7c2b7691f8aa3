-- ===== src/Store/Loose/Runs.antt =====
-- A range of a small object, read across its chunks.
use synapse_fs.Store.Loose.{pread, read_payload}
use synapse_fs.Prelude.{
  ℕ, zero, suc, ◌+◌, ◌-◌, ◌%◌, ◌^◌, ◌<◌, min, ◌≡◌, refl, sym, ap, [], ◌∷◌, ◌++◌, arith, length,
  get_or, replicate, length-replicate,
}
use synapse_fs.Prelude.Bytes.{Bytes}
use synapse_fs.Format.Object.{ObjectHeader, header_size}
use synapse_fs.Format.Object.Chunks.{compute_chunk_digests, chunk_at}
use synapse_fs.Store.Loose.Ranges.{Reads, read_payload_lem}

abbrev the_digest : Bytes → Bytes
the_digest bytes = replicate 32 (get_or bytes 0 0)

abbrev three : Bytes
three = 1 ∷ 2 ∷ 3 ∷ []

abbrev header : ObjectHeader
header = record {
  kind = 1;
  compression = 0;
  chunk_log2 = 1;
  payload_len = 3;
  stored_len = 3;
  chunk_count = 2;
}

abbrev object_file : Bytes
object_file = replicate 40 0 ++ (replicate 32 1 ++ (replicate 32 3 ++ three))

tables : pread object_file header_size 64 ≡ compute_chunk_digests the_digest three 2
unfolding compute_chunk_digests
tables = refl

chunks_there :
    (off : ℕ)
    → off < 3
    → pread object_file ((104 + off) % 2 ^ 64) (min 2 (3 - off)) ≡ chunk_at three 2 off
chunks_there zero h = refl
chunks_there (suc zero) h = refl
chunks_there (suc (suc zero)) h = refl
chunks_there (suc (suc (suc off))) h = absurd (omega arith)

read_payload_lem_example :
    Reads the_digest
      (λ b. length-replicate 32 (get_or b 0 0))
      object_file
      header
      three
      (omega arith)
      (omega arith)
      (omega arith)
      refl
      (λ off h e. chunks_there off h)
      1
      2
      (read_payload the_digest 9 object_file header 1 8)
read_payload_lem_example =
    read_payload_lem the_digest (λ b. length-replicate 32 (get_or b 0 0)) object_file header three
      (omega arith) (omega arith) (omega arith) refl (λ off h e. chunks_there off h) 9 1 8 tables
      (ap length (sym tables)) (omega arith) (omega arith)
