-- ===== src/Core/Tensor.antt =====
-- modules/core/include/synapsefs/core/tensor.hpp and modules/core/src/tensor.cpp: the extent of a
-- tensor, and the collapse of unit indices into runs.
use native.Mathlib.Nat.{add-zero}
use native.Mathlib.Numerals.{add-one}
use synapse_fs.Prelude.{
  ℕ, zero, suc, ◌+◌, ◌*◌, ◌/◌, ◌%◌, ◌^◌, ◌<◌, ◌≡◌, refl, ap, ◌≢◌, inl, inr, not, none, some, List,
  [], ◌∷◌, ◌++◌, arith, ◌==◌, if◌then◌else◌, Bool-cases, get_elem?,
}
use synapse_fs.Core.Error.{shape_mismatch, Result, ok, err}
use synapse_fs.Core.Dtype.{DType}

-- The name in `shape_owner` is for messages, and left out.
pub record TensorMeta : Type 0 where
  pub shape : List ℕ
  pub dtype : DType
  pub data_off : ℕ
  pub nbytes : ℕ

-- `for (auto d : shape) n *= d`, on 64 bits.
unfoldable pub multiply_all : ℕ → List ℕ → ℕ
multiply_all n [] = n
multiply_all n (d ∷ ds) = multiply_all (n * d % 2 ^ 64) ds

unfoldable pub elem_count : TensorMeta → ℕ
unfolding multiply_all
elem_count m = elim m.shape [ [] ↦ 0 | d ∷ ds ↦ multiply_all 1 (d ∷ ds) ]

unfoldable pub unit_bytes : TensorMeta → ℕ → Result ℕ
unit_bytes m dim = elim (get_elem? m.shape dim) [
  | none ↦ err shape_mismatch
  | some units ↦
      if units == 0
      then err shape_mismatch
      else if not (m.nbytes % units == 0)
      then err shape_mismatch
      else ok (m.nbytes / units)
]

pub record UnitRun : Type 0 where
  pub first : ℕ
  pub count : ℕ

-- The loop of to_runs, with its variables `start` and `count`.
unfoldable pub runs_from : ℕ → ℕ → List ℕ → List UnitRun
runs_from start count [] = record { first = start; count = count } ∷ []
runs_from start count (i ∷ is) =
    let longer = runs_from start (count + 1) is in
    let fresh = record { first = start; count = count } ∷ runs_from i 1 is in
    if i == start + count then longer else fresh

unfoldable pub to_runs : List ℕ → List UnitRun
unfolding runs_from
to_runs [] = []
to_runs (i ∷ is) = runs_from i 1 is

-- The indices from `first`, `count` of them.
abbrev pub indices_from : ℕ → ℕ → List ℕ
indices_from first zero = []
indices_from first (suc count) = first ∷ indices_from (suc first) count

abbrev pub run_units : List UnitRun → List ℕ
run_units [] = []
run_units (r ∷ rs) = indices_from r.first r.count ++ run_units rs

-- No run is empty, and none begins where the one before it ends.
abbrev pub IsMaximal : List UnitRun → Type 0
IsMaximal [] = Unit
IsMaximal (r ∷ []) = 0 < r.count
IsMaximal (r ∷ q ∷ rs) = (0 < r.count) × (q.first ≢ r.first + r.count) × IsMaximal (q ∷ rs)

indices_from-append :
    (first count : ℕ) (is : List ℕ)
    → indices_from first (suc count) ++ is ≡ indices_from first count ++ (first + count) ∷ is
indices_from-append first zero is = simp add-zero
indices_from-append first (suc count) is =
    let e : suc first + count ≡ first + suc count = omega arith in
    rw (← e) (ap (λ l. first ∷ l) (indices_from-append (suc first) count is))

run_units-runs_from :
    (start count : ℕ) (is : List ℕ)
    → run_units (runs_from start count is) ≡ indices_from start count ++ is
unfolding runs_from
run_units-runs_from start count [] = refl
run_units-runs_from start count (i ∷ is) = elim (Bool-cases (i == start + count)) [
  | inl joins ↦
      rw (joins, run_units-runs_from start (count + 1) is)
        (let e : i ≡ start + count = ground arith in
          rw (e, add-one) (indices_from-append start count is))
  | inr apart ↦ rw (apart, run_units-runs_from i 1 is) refl
]

-- The first run begins at `start`.
runs_from-cons :
    (start count : ℕ) (is : List ℕ)
    → (c : ℕ) × (rs : List UnitRun) × (runs_from start count is
        ≡ record { first = start; count = c } ∷ rs)
unfolding runs_from
runs_from-cons start count [] = (count, [], refl)
runs_from-cons start count (i ∷ is) = elim (Bool-cases (i == start + count)) [
  | inl joins ↦ rw joins (runs_from-cons start (count + 1) is)
  | inr apart ↦ rw apart (count, runs_from i 1 is, refl)
]

IsMaximal-cons :
    (start count i : ℕ) (rs : List UnitRun)
    → 0 < count
    → i ≢ start + count
    → (c : ℕ) × (qs : List UnitRun) × (rs ≡ record { first = i; count = c } ∷ qs)
    → IsMaximal rs
    → IsMaximal (record { first = start; count = count } ∷ rs)
IsMaximal-cons start count i rs pos apart (c, qs, e) m = rw e (pos, apart, rw e at m)

runs_from-IsMaximal :
    (start count : ℕ) (is : List ℕ) → 0 < count → IsMaximal (runs_from start count is)
unfolding runs_from
runs_from-IsMaximal start count [] h = h
runs_from-IsMaximal start count (i ∷ is) h = elim (Bool-cases (i == start + count)) [
  | inl joins ↦ rw joins (runs_from-IsMaximal start (count + 1) is (omega arith))
  | inr apart ↦ rw apart (
      IsMaximal-cons start count i (runs_from i 1 is) h (ground arith) (runs_from-cons i 1 is)
        (runs_from-IsMaximal i 1 is (omega arith)))
]

-- The units of the runs are the given indices, in their order, and the runs are as long as they
-- can be: none is empty, and none begins where the one before it ends.
pub to_runs_lem : (is : List ℕ) → (run_units (to_runs is) ≡ is) × IsMaximal (to_runs is)
unfolding to_runs
to_runs_lem [] = (refl, tt)
to_runs_lem (i ∷ is) = (run_units-runs_from i 1 is, runs_from-IsMaximal i 1 is (omega arith))
