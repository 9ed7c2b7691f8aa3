-- ===== src/Core/Examples.antt =====
-- Runs of core's operations, and the properties at concrete inputs.
use synapse_fs.Core.Error.{ok}
use synapse_fs.Prelude.{
  ℕ, zero, suc, ◌≡◌, refl, ◌↔◌, true, false, some, List, [], ◌∷◌, arith, get_elem?, drop, replicate,
}
use synapse_fs.Core.Permutation.Inverse.{invert_permutation_lem}
use synapse_fs.Core.Permutation.{is_valid_permutation, invert_permutation}
use synapse_fs.Core.Dtype.{bf16, dtype_from_string}
use synapse_fs.Core.Tensor.{to_runs, run_units, IsMaximal, to_runs_lem}
use synapse_fs.Prelude.Bytes.{Bytes, All, IsBytes}
use synapse_fs.Core.Oid.{Oid, parse, oid_text}
use synapse_fs.Core.Topology.{Topology, validate_topology, TensorOk, validate_topology_lem}
use synapse_fs.Core.Oid.Text.{parse-oid_text}

bf16_reads : dtype_from_string "BF16" ≡ ok bf16
unfolding dtype_from_string
bf16_reads = refl

abbrev some_units : List ℕ
some_units = 3 ∷ 4 ∷ 5 ∷ 9 ∷ 8 ∷ []

to_runs_lem_example : (run_units (to_runs some_units) ≡ some_units) × IsMaximal (to_runs some_units)
to_runs_lem_example = to_runs_lem some_units

abbrev a_cycle : List ℕ
a_cycle = 2 ∷ 0 ∷ 1 ∷ []

a_cycle-valid : is_valid_permutation a_cycle 3 ≡ true
unfolding is_valid_permutation
a_cycle-valid = refl

invert_permutation_lem_example :
    (get_elem? a_cycle 1 ≡ some 0) ↔ (get_elem? (invert_permutation a_cycle) 0 ≡ some 1)
invert_permutation_lem_example = invert_permutation_lem a_cycle 3 1 0 a_cycle-valid

abbrev an_oid : Oid
an_oid = record { raw = 171 ∷ replicate 31 7 }

an_oid-IsBytes : IsBytes an_oid.raw
an_oid-IsBytes = (omega arith, all_sevens 31)
  where
    all_sevens : (n : ℕ) → IsBytes (replicate n 7)
    all_sevens zero = tt
    all_sevens (suc n) = (omega arith, all_sevens n)

parse-oid_text_example : parse (oid_text an_oid) ≡ ok an_oid
parse-oid_text_example = parse-oid_text an_oid refl an_oid-IsBytes

-- The text of `an_oid` with its first digit as a capital.
abbrev capital_text : Bytes
capital_text = 98 ∷ 51 ∷ 58 ∷ 65 ∷ drop 4 (oid_text an_oid)

capital-parses : parse capital_text ≡ ok an_oid
unfolding parse oid_text
capital-parses = refl

-- One group of 4 units, and a tensor of 8 rows in blocks of 2.
abbrev a_topology : Topology
a_topology = record {
  groups = (103 ∷ [], record { size = 4; pinned = false }) ∷ [];
  tensors = (119 ∷ [], record { dim = 0; group = 103 ∷ []; block = 2 } ∷ []) ∷ [];
}

abbrev a_shapes : List (Bytes × List ℕ)
a_shapes = (119 ∷ [], 8 ∷ 3 ∷ []) ∷ []

a_topology-valid : validate_topology a_topology a_shapes ≡ ok tt
unfolding validate_topology
a_topology-valid = refl

validate_topology_lem_example : All (TensorOk a_topology.groups a_shapes) a_topology.tensors
validate_topology_lem_example = validate_topology_lem a_topology a_shapes a_topology-valid
