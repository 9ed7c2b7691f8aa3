-- ===== src/Core/Topology.antt =====
-- modules/core/include/synapsefs/core/topology.hpp and Topology of modules/core/src/topology.cpp:
-- which axes of which tensors a permutation group moves. An std::unordered_map is the list of its
-- pairs, in the order in which it is walked.
use synapse_fs.Prelude.{
  ℕ, ◌*◌, ◌%◌, ◌^◌, ◌<◌, ◌≡◌, inl, inr, Bool, not, Option, none, some, List, [], ◌∷◌, arith, leb,
  ◌==◌, if◌then◌else◌, Bool-cases, Option-cases, length, get_or,
}
use synapse_fs.Prelude.Bytes.{Bytes, bytes_eq, All}
use synapse_fs.Core.Error.{
  topology_parse, topology_incomplete, block_factor_mismatch, ok, err, Status, ◌>>◌, >>=-eq-ok,
}

pub record PermGroup : Type 0 where
  pub size : ℕ
  pub pinned : Bool

pub record AxisBinding : Type 0 where
  pub dim : ℕ
  pub group : Bytes
  pub block : ℕ

pub record Topology : Type 0 where
  pub groups : List (Bytes × PermGroup)
  pub tensors : List (Bytes × List AxisBinding)

-- `find` of a map.
unfoldable pub lookup {ℓ} : {A : Type ℓ} → Bytes → List (Bytes × A) → Option A
unfolding bytes_eq
lookup name [] = none
lookup name ((key, a) ∷ rest) =
    let later = lookup name rest in if bytes_eq key name then some a else later

unfoldable pub check_sizes : List (Bytes × PermGroup) → Status
check_sizes [] = ok tt
check_sizes ((name, g) ∷ gs) =
    let rest = check_sizes gs in if g.size == 0 then err topology_parse else rest

-- The product is of type uint64_t.
unfoldable pub check_axis : List (Bytes × PermGroup) → List ℕ → AxisBinding → Status
unfolding lookup
check_axis groups shape axis =
    if leb (length shape) axis.dim then err topology_parse else elim (lookup axis.group groups) [
      | none ↦ err topology_parse
      | some g ↦
          if not (get_or shape axis.dim 0 == g.size * axis.block % 2 ^ 64)
          then err block_factor_mismatch
          else ok tt
    ]

unfoldable pub check_axes : List (Bytes × PermGroup) → List ℕ → List AxisBinding → Status
unfolding check_axis
check_axes groups shape [] = ok tt
check_axes groups shape (a ∷ more) = check_axis groups shape a >> check_axes groups shape more

unfoldable pub check_tensors :
    List (Bytes × PermGroup) → List (Bytes × List ℕ) → List (Bytes × List AxisBinding) → Status
unfolding lookup check_axes
check_tensors groups shapes [] = ok tt
check_tensors groups shapes ((name, axes) ∷ rest) = elim (lookup name shapes) [
  | none ↦ err topology_incomplete
  | some shape ↦ check_axes groups shape axes >> check_tensors groups shapes rest
]

unfoldable pub validate_topology : Topology → List (Bytes × List ℕ) → Status
unfolding check_sizes check_tensors
validate_topology t shapes = check_sizes t.groups >> check_tensors t.groups shapes t.tensors

-- What an axis must be: an axis of the shape, bound to a group that is not empty, and as long as
-- the group's units are.
abbrev pub AxisOk : List (Bytes × PermGroup) → List ℕ → AxisBinding → Type 0
AxisOk groups shape axis =
    (axis.dim < length shape)
    × ((g : PermGroup) × (lookup axis.group groups ≡ some g)
        × (0 < g.size)
        × (get_or shape axis.dim 0 ≡ g.size * axis.block % 2 ^ 64))

lookup-check_sizes :
    (groups : List (Bytes × PermGroup)) (name : Bytes) (g : PermGroup)
    → check_sizes groups ≡ ok tt
    → lookup name groups ≡ some g
    → 0 < g.size
unfolding lookup check_sizes
lookup-check_sizes [] name g h at = cc
lookup-check_sizes ((key, x) ∷ xs) name g h at =
    let rest : check_sizes xs ≡ ok tt = ground arith in
    elim (Bool-cases (bytes_eq key name)) [
      | inl here ↦ let same : x ≡ g = ground arith in rw (← same) (ground arith)
      | inr other ↦ lookup-check_sizes xs name g rest (ground arith)
    ]

check_axis-AxisOk :
    (groups : List (Bytes × PermGroup)) (shape : List ℕ) (axis : AxisBinding)
    → check_sizes groups ≡ ok tt
    → check_axis groups shape axis ≡ ok tt
    → AxisOk groups shape axis
unfolding check_axis
check_axis-AxisOk groups shape axis sizes h = elim (Option-cases (lookup axis.group groups)) [
  | inl missing ↦ ground arith
  | inr (g, at) ↦
      let pos = lookup-check_sizes groups axis.group g sizes at in
      (ground arith, (g, at, pos, ground arith))
]

check_axes-All :
    (groups : List (Bytes × PermGroup)) (shape : List ℕ) (axes : List AxisBinding)
    → check_sizes groups ≡ ok tt
    → check_axes groups shape axes ≡ ok tt
    → All (AxisOk groups shape) axes
unfolding check_axes
check_axes-All groups shape [] sizes h = tt
check_axes-All groups shape (a ∷ more) sizes h =
    let (u, first, rest) =
      >>=-eq-ok (check_axis groups shape a) (λ _. check_axes groups shape more) h in
    (check_axis-AxisOk groups shape a sizes first, check_axes-All groups shape more sizes rest)

-- What a tensor must be: one that has a shape, and all of its axes right.
abbrev pub TensorOk :
    List (Bytes × PermGroup) → List (Bytes × List ℕ) → Bytes × List AxisBinding → Type 0
TensorOk groups shapes p =
    (shape : List ℕ) × (lookup p.0 shapes ≡ some shape) × All (AxisOk groups shape) p.1

check_tensors-All :
    (groups : List (Bytes × PermGroup)) (shapes : List (Bytes × List ℕ))
    (ts : List (Bytes × List AxisBinding))
    → check_sizes groups ≡ ok tt
    → check_tensors groups shapes ts ≡ ok tt
    → All (TensorOk groups shapes) ts
unfolding check_tensors
check_tensors-All groups shapes [] sizes h = tt
check_tensors-All groups shapes ((name, axes) ∷ ts) sizes h =
    elim (Option-cases (lookup name shapes)) [
      | inl missing ↦ ground arith
      | inr (shape, at) ↦
          let found : (check_axes groups shape axes >> check_tensors groups shapes ts) ≡ ok tt =
            rw (at, check_tensors) at h in
          let (u, first, rest) =
            >>=-eq-ok (check_axes groups shape axes) (λ _. check_tensors groups shapes ts) found in
          (
            (shape, at, check_axes-All groups shape axes sizes first),
            check_tensors-All groups shapes ts sizes rest,
          )
    ]

-- In a topology that passes, every tensor has a shape, and every axis that it binds is an axis of
-- that shape, belongs to a group that is there and is not empty, and has that group's size times
-- its block factor as its length.
pub validate_topology_lem :
    (t : Topology) (shapes : List (Bytes × List ℕ))
    → validate_topology t shapes ≡ ok tt
    → All (TensorOk t.groups shapes) t.tensors
unfolding validate_topology
validate_topology_lem t shapes h =
    let (u, sizes, rest) =
      >>=-eq-ok (check_sizes t.groups) (λ _. check_tensors t.groups shapes t.tensors) h in
    check_tensors-All t.groups shapes t.tensors sizes rest
