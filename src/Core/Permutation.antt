-- ===== src/Core/Permutation.antt =====
-- modules/core/src/topology.cpp: permutations of [0, n) as they are read from files.
pub mod Inverse
use synapse_fs.Prelude.{
  ℕ, zero, suc, ◌+◌, ◌-◌, ◌*◌, ◌%◌, ◌^◌, Bool, true, false, not, ◌||◌, List, [], ◌∷◌, ◌++◌, leb,
  ◌==◌, if◌then◌else◌, length, set, get_or, replicate,
}

-- `for b in [0, block)` of expand_permutation, on uint32_t.
expand_one : ℕ → ℕ → ℕ → List ℕ
expand_one p block zero = []
expand_one p block (suc left) =
    ((p * block + (block - suc left)) % 2 ^ 32) ∷ expand_one p block left

unfoldable pub expand_permutation : List ℕ → ℕ → List ℕ
unfolding expand_one
expand_permutation [] block = []
expand_permutation (p ∷ ps) block = expand_one p block block ++ expand_permutation ps block

-- The loop of is_valid_permutation over `perm`, with its vector `seen`.
unfoldable pub check_perm : ℕ → List Bool → List ℕ → Bool
check_perm n seen [] = true
check_perm n seen (p ∷ ps) =
    let rest = check_perm n (set seen p true) ps in
    if leb n p || get_or seen p false then false else rest

unfoldable pub is_valid_permutation : List ℕ → ℕ → Bool
unfolding check_perm
is_valid_permutation perm n =
    if not (length perm == n) then false else check_perm n (replicate n false) perm

-- The loop of invert_permutation, from the index `i` on.
unfoldable pub invert_from : ℕ → List ℕ → List ℕ → List ℕ
invert_from i [] inv = inv
invert_from i (p ∷ ps) inv = invert_from (i + 1) ps (set inv p i)

unfoldable pub invert_permutation : List ℕ → List ℕ
unfolding invert_from
invert_permutation perm = invert_from 0 perm (replicate (length perm) 0)
