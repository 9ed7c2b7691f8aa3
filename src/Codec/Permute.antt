-- ===== src/Codec/Permute.antt =====
-- modules/codec/src/permute.cpp: gathering the units of a base by a permutation, and the runs of
-- base units that a range of the target needs. std::sort is insertion.
use synapse_fs.Prelude.{
  ℕ, ◌+◌, ◌*◌, ◌≤◌, ◌≡◌, refl, ap, ◌∙◌, ◌↔◌, ◌⊎◌, inl, inr, List, [], ◌∷◌, arith, leb, ◌==◌,
  if◌then◌else◌, Bool-cases, take, drop,
}
use synapse_fs.Prelude.Bytes.{Bytes}
use synapse_fs.Core.Endian.{write_at}
use synapse_fs.Core.Tensor.{unit_bytes, UnitRun, to_runs, run_units, IsMaximal, to_runs_lem}

-- The loop of permute_units from the index `i` on.
unfoldable pub permute_from : ℕ → Bytes → Bytes → List ℕ → ℕ → Bytes
unfolding write_at
permute_from i dst src [] unit_bytes = dst
permute_from i dst src (p ∷ ps) unit_bytes =
    permute_from (i + 1)
      (write_at dst (i * unit_bytes) (take unit_bytes (drop (p * unit_bytes) src))) src ps
      unit_bytes

unfoldable pub permute_units : Bytes → Bytes → List ℕ → ℕ → Bytes
unfolding permute_from
permute_units dst src perm unit_bytes = permute_from 0 dst src perm unit_bytes

unfoldable pub insert_index : ℕ → List ℕ → List ℕ
insert_index i [] = i ∷ []
insert_index i (x ∷ xs) = let rest = insert_index i xs in if leb i x then i ∷ x ∷ xs else x ∷ rest

unfoldable pub sort_indices : List ℕ → List ℕ
unfolding insert_index
sort_indices [] = []
sort_indices (x ∷ xs) = insert_index x (sort_indices xs)

unfoldable pub dependency_runs : List ℕ → ℕ → ℕ → List UnitRun
unfolding sort_indices to_runs
dependency_runs perm first count = to_runs (sort_indices (take count (drop first perm)))

-- One of the indices.
abbrev pub Named : ℕ → List ℕ → Type 0
Named u [] = ⊥
Named u (x ∷ xs) = (x ≡ u) ⊎ Named u xs

insert_index-Named : (u i : ℕ) (xs : List ℕ) → Named u (insert_index i xs) ↔ (i ≡ u) ⊎ Named u xs
unfolding insert_index
insert_index-Named u i [] = (λ m. m, λ m. m)
insert_index-Named u i (x ∷ xs) = elim (Bool-cases (leb i x)) [
  | inl here ↦ rw (here, insert_index) (λ m. m, λ m. m)
  | inr later ↦
      let rest = insert_index-Named u i xs in
      rw (later, insert_index)
        (
          λ m. elim m [
            | inl e ↦ inr (inl e)
            | inr r ↦ elim (rest.0 r) [ inl e ↦ inl e | inr s ↦ inr (inr s) ]
          ],
          λ m. elim m [
            | inl e ↦ inr (rest.1 (inl e))
            | inr (inl e) ↦ inl e
            | inr (inr s) ↦ inr (rest.1 (inr s))
          ],
        )
]

sort_indices-Named : (u : ℕ) (xs : List ℕ) → Named u (sort_indices xs) ↔ Named u xs
unfolding sort_indices
sort_indices-Named u [] = (λ m. m, λ m. m)
sort_indices-Named u (x ∷ xs) =
    let step = insert_index-Named u x (sort_indices xs) in
    let rest = sort_indices-Named u xs in
    (
      λ m. elim (step.0 m) [ inl e ↦ inl e | inr r ↦ inr (rest.0 r) ],
      λ m. elim m [ inl e ↦ step.1 (inl e) | inr r ↦ step.1 (inr (rest.1 r)) ],
    )

-- The runs hold the named base units, and no others, and are as long as they can be.
pub dependency_runs-Named :
    (perm : List ℕ) (first count u : ℕ)
    → (Named u (run_units (dependency_runs perm first count))
        ↔ Named u (take count (drop first perm)))
      × IsMaximal (dependency_runs perm first count)
unfolding dependency_runs
dependency_runs-Named perm first count u =
    let slice = take count (drop first perm) in
    let (units, maximal) = to_runs_lem (sort_indices slice) in
    (rw units (sort_indices-Named u slice), maximal)

abbrev pub IsSorted : List ℕ → Type 0
IsSorted [] = Unit
IsSorted (x ∷ []) = Unit
IsSorted (x ∷ y ∷ l) = (x ≤ y) × IsSorted (y ∷ l)

-- How often an index stands in a list.
abbrev pub occurrences : ℕ → List ℕ → ℕ
occurrences u [] = 0
occurrences u (x ∷ xs) = (if x == u then 1 else 0) + occurrences u xs

insert_index-occurrences :
    (u i : ℕ) (xs : List ℕ) → occurrences u (insert_index i xs) ≡ occurrences u (i ∷ xs)
unfolding insert_index
insert_index-occurrences u i [] = refl
insert_index-occurrences u i (x ∷ xs) = elim (Bool-cases (leb i x)) [
  | inl here ↦ rw here refl
  | inr later ↦ let rest = insert_index-occurrences u i xs in rw later (omega arith)
]

sort_indices-occurrences :
    (u : ℕ) (xs : List ℕ) → occurrences u (sort_indices xs) ≡ occurrences u xs
unfolding sort_indices
sort_indices-occurrences u [] = refl
sort_indices-occurrences u (x ∷ xs) =
    let rest = sort_indices-occurrences u xs in
    insert_index-occurrences u x (sort_indices xs) ∙ ap (λ n. (if x == u then 1 else 0) + n) rest

insert_index-IsSorted : (i : ℕ) (xs : List ℕ) → IsSorted xs → IsSorted (insert_index i xs)
unfolding insert_index
insert_index-IsSorted i [] s = tt
insert_index-IsSorted i (x ∷ []) s = elim (Bool-cases (leb i x)) [
  | inl here ↦ rw here (ground arith, tt)
  | inr later ↦ rw later (ground arith, tt)
]
insert_index-IsSorted i (x ∷ y ∷ l) s = elim (Bool-cases (leb i x)) [
  | inl here ↦ rw here (ground arith, s)
  | inr later ↦
      let rest = insert_index-IsSorted i (y ∷ l) s.1 in
      elim (Bool-cases (leb i y)) [
        | inl between ↦ let tail = rw between at rest in rw (later, between) (ground arith, tail)
        | inr behind ↦ let tail = rw behind at rest in rw (later, behind) (s.0, tail)
      ]
]

sort_indices-IsSorted : (xs : List ℕ) → IsSorted (sort_indices xs)
unfolding sort_indices
sort_indices-IsSorted [] = tt
sort_indices-IsSorted (x ∷ xs) =
    insert_index-IsSorted x (sort_indices xs) (sort_indices-IsSorted xs)

-- The units of the runs that a range of the target depends on ascend, and are the base units that
-- the permutation names in that range, each as often as there; and no run is empty or begins where
-- the one before it ends.
pub dependency_runs_lem :
    (perm : List ℕ) (first count : ℕ)
    → IsSorted (run_units (dependency_runs perm first count))
      × ((u : ℕ)
          → occurrences u (run_units (dependency_runs perm first count))
            ≡ occurrences u (take count (drop first perm)))
      × IsMaximal (dependency_runs perm first count)
unfolding dependency_runs
dependency_runs_lem perm first count =
    let slice = take count (drop first perm) in
    let (units, maximal) = to_runs_lem (sort_indices slice) in
    (
      rw units (sort_indices-IsSorted slice),
      λ u. rw units (sort_indices-occurrences u slice),
      maximal,
    )
