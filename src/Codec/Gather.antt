-- ===== src/Codec/Gather.antt =====
-- gather_base_bytes of modules/codec/src/reconstruct.cpp: the base bytes of a frame, in the order of
-- the target. The reading of the base group, which recurs for a base that is a delta itself, is the
-- parameter `read_base`, from an offset and a size to the bytes and the number that was read.
pub mod Slices
pub mod Units
pub mod Fill
use synapse_fs.Prelude.{
  ℕ, zero, suc, ◌+◌, ◌-◌, ◌*◌, ◌%◌, ◌^◌, not, Option, none, some, List, [], ◌∷◌, ◌++◌, ◌==◌,
  if◌then◌else◌, length, take, drop,
}
use synapse_fs.Prelude.Bytes.{Bytes}
use synapse_fs.Core.Error.{malformed_object, internal, Result, ok, err, ◌>>=◌}
use synapse_fs.Core.Tensor.{unit_bytes, UnitRun}
use synapse_fs.Codec.Permute.{dependency_runs}

-- `unit_to_scratch_off`, with the latest entries at the front.
abbrev pub Offsets : Type 0
Offsets = List (ℕ × ℕ)

unfoldable pub find_offset : ℕ → Offsets → Option ℕ
find_offset u [] = none
find_offset u ((v, off) ∷ offs) = let rest = find_offset u offs in if v == u then some off else rest

-- The loop over the units of a run, from `k` on.
unfoldable pub add_units : ℕ → ℕ → ℕ → ℕ → ℕ → Offsets → Offsets
add_units first off unit_bytes k zero offs = offs
add_units first off unit_bytes k (suc left) offs =
    add_units first off unit_bytes (k + 1) left
      (((first + k) % 2 ^ 32, off + k * unit_bytes) ∷ offs)

-- The copies into the result; each takes the place behind the one before it.
unfoldable pub place_units : ℕ → Bytes → Offsets → List ℕ → Result Bytes
unfolding find_offset
place_units unit_bytes scratch offs [] = ok []
place_units unit_bytes scratch offs (u ∷ us) = elim (find_offset u offs) [
  | none ↦ err internal
  | some off ↦ place_units unit_bytes scratch offs us >>= λ rest.
      ok (take unit_bytes (drop off scratch) ++ rest)
]

module _ (read_base : ℕ → ℕ → Result (Bytes × ℕ)) where
  -- A read that must not be short.
  unfoldable pub read_whole : ℕ → ℕ → Result Bytes
  read_whole offset size = read_base offset size >>= λ got.
      if not (got.1 == size) then err malformed_object else ok got.0

  -- The loop over the runs.
  unfoldable pub fill_runs : ℕ → List UnitRun → Bytes → Offsets → Result (Bytes × Offsets)
  unfolding read_whole add_units
  fill_runs unit_bytes [] scratch offs = ok (scratch, offs)
  fill_runs unit_bytes (run ∷ runs) scratch offs =
      read_whole (run.first * unit_bytes % 2 ^ 64) (run.count * unit_bytes % 2 ^ 64) >>= λ got.
      fill_runs unit_bytes runs (scratch ++ got)
        (add_units run.first (length scratch) unit_bytes 0 run.count offs)

  unfoldable pub gather_base_bytes : List ℕ → ℕ → ℕ → ℕ → Result Bytes
  unfolding read_whole fill_runs place_units dependency_runs
  gather_base_bytes [] unit_begin unit_end unit_bytes =
      let count = (unit_end + 2 ^ 64 - unit_begin) % 2 ^ 64 in
      read_whole (unit_begin * unit_bytes % 2 ^ 64) (count * unit_bytes % 2 ^ 64)
  gather_base_bytes (p ∷ ps) unit_begin unit_end unit_bytes =
      let count = (unit_end + 2 ^ 64 - unit_begin) % 2 ^ 64 in
      fill_runs unit_bytes (dependency_runs (p ∷ ps) unit_begin count) [] [] >>= λ filled.
      place_units unit_bytes filled.0 filled.1 (take count (drop unit_begin (p ∷ ps)))
