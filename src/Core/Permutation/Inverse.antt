-- ===== src/Core/Permutation/Inverse.antt =====
-- modules/core/src/topology.cpp: what the check of a permutation gives, and its inverse.
use mathlib.Core.Bool.{false≢true}
use native.Mathlib.Nat.{add-zero}
use Prim.Native.Nat.add
use synapse_fs.Prelude.{
  ℕ, zero, suc, ◌+◌, ◌≤◌, ◌<◌, ◌≡◌, refl, sym, ap, ◌∙◌, ◌≢◌, ◌↔◌, ◌⊎◌, inl, inr, Bool, true, false,
  some, List, [], ◌∷◌, arith, length, get_elem?, set, length-set, get_elem?-set_self,
  get_elem?-set_ne, get_or, replicate, length-replicate, get_elem?-lt,
}
use synapse_fs.Prelude.Bytes.{All}
use synapse_fs.Core.Permutation.{check_perm, is_valid_permutation, invert_from, invert_permutation}

-- How many entries are marked.
abbrev marks : List Bool → ℕ
marks [] = 0
marks (true ∷ bs) = suc (marks bs)
marks (false ∷ bs) = marks bs

marks-le : (bs : List Bool) → marks bs ≤ length bs
marks-le [] = omega arith
marks-le (true ∷ bs) = omega (arith, marks-le bs)
marks-le (false ∷ bs) = omega (arith, marks-le bs)

marks_full :
    (bs : List Bool) (j : ℕ) → marks bs ≡ length bs → j < length bs → get_or bs j false ≡ true
marks_full [] j h l = absurd (omega arith)
marks_full (true ∷ bs) zero h l = refl
marks_full (true ∷ bs) (suc j) h l = marks_full bs j (omega arith) (omega arith)
marks_full (false ∷ bs) j h l = absurd (omega (arith, marks-le bs))

marks-set :
    (bs : List Bool) (p : ℕ)
    → p < length bs
    → get_or bs p false ≡ false
    → marks (set bs p true) ≡ suc (marks bs)
marks-set [] p l h = absurd (omega arith)
marks-set (true ∷ bs) zero l h = cc
marks-set (false ∷ bs) zero l h = refl
marks-set (true ∷ bs) (suc p) l h = ap suc (marks-set bs p (omega arith) h)
marks-set (false ∷ bs) (suc p) l h = marks-set bs p (omega arith) h

marks-replicate : (n : ℕ) → marks (replicate n false) ≡ 0
marks-replicate zero = refl
marks-replicate (suc n) = marks-replicate n

get_or-replicate : (n j : ℕ) → get_or (replicate n false) j false ≡ false
get_or-replicate zero j = refl
get_or-replicate (suc n) zero = refl
get_or-replicate (suc n) (suc j) = get_or-replicate n j

-- A mark that is there after one more was made.
get_or-set-true :
    (bs : List Bool) (p j : ℕ)
    → get_or (set bs p true) j false ≡ true
    → (p ≡ j) ⊎ (get_or bs j false ≡ true)
get_or-set-true [] p j h = inr h
get_or-set-true (b ∷ bs) zero zero h = inl refl
get_or-set-true (b ∷ bs) zero (suc j) h = inr h
get_or-set-true (b ∷ bs) (suc p) zero h = inr h
get_or-set-true (b ∷ bs) (suc p) (suc j) h = elim (get_or-set-true bs p j h) [
  | inl e ↦ inl (ap suc e)
  | inr m ↦ inr m
]

get_or-set_self : (bs : List Bool) (p : ℕ) → p < length bs → get_or (set bs p true) p false ≡ true
get_or-set_self [] p l = absurd (omega arith)
get_or-set_self (b ∷ bs) zero l = refl
get_or-set_self (b ∷ bs) (suc p) l = get_or-set_self bs p (omega arith)

get_or-set_keep :
    (bs : List Bool) (p j : ℕ) → get_or bs j false ≡ true → get_or (set bs p true) j false ≡ true
get_or-set_keep [] p j h = h
get_or-set_keep (b ∷ bs) zero zero h = refl
get_or-set_keep (b ∷ bs) zero (suc j) h = h
get_or-set_keep (b ∷ bs) (suc p) zero h = h
get_or-set_keep (b ∷ bs) (suc p) (suc j) h = get_or-set_keep bs p j h

-- One round of the check.
check_perm-cons :
    (n p : ℕ) (seen : List Bool) (ps : List ℕ)
    → check_perm n seen (p ∷ ps) ≡ true
    → (p < n) × (get_or seen p false ≡ false) × (check_perm n (set seen p true) ps ≡ true)
unfolding check_perm
check_perm-cons n p seen ps h = ground arith

-- A value that is marked does not come again.
check_perm-fresh :
    (n j : ℕ) (seen : List Bool) (ps : List ℕ)
    → check_perm n seen ps ≡ true
    → get_or seen j false ≡ true
    → All (λ p. p ≢ j) ps
check_perm-fresh n j seen [] h m = tt
check_perm-fresh n j seen (p ∷ ps) h m =
    let (l, f, rest) = check_perm-cons n p seen ps h in
    (
      λ e. false≢true (sym f ∙ (rw e m)),
      check_perm-fresh n j (set seen p true) ps rest (get_or-set_keep seen p j m),
    )

-- Every value below `n` is marked already or comes.
check_perm-covers :
    (n j : ℕ) (seen : List Bool) (ps : List ℕ)
    → check_perm n seen ps ≡ true
    → length seen ≡ n
    → length ps + marks seen ≡ n
    → j < n
    → (get_or seen j false ≡ true) ⊎ ((k : ℕ) × (get_elem? ps k ≡ some j))
check_perm-covers n j seen [] h len count l = inl (marks_full seen j (omega arith) (omega arith))
check_perm-covers n j seen (p ∷ ps) h len count l =
    let (lt, f, rest) = check_perm-cons n p seen ps h in
    elim (check_perm-covers n j (set seen p true) ps rest (omega (arith, length-set seen p true))
      (omega (arith, marks-set seen p (omega arith) f)) l) [
        | inr (k, e) ↦ inr (suc k, e)
        | inl m ↦ elim (get_or-set-true seen p j m) [
          | inl e ↦ inr (0, ap some e)
          | inr old ↦ inl old
        ]
      ]

-- Writing the inverse from index `i` on.

invert_from-length : (i : ℕ) (ps inv : List ℕ) → length (invert_from i ps inv) ≡ length inv
unfolding invert_from
invert_from-length i [] inv = refl
invert_from-length i (p ∷ ps) inv = invert_from-length (i + 1) ps (set inv p i) ∙ length-set inv p i

-- A cell that no value names is left alone.
invert_from-keep :
    (i j : ℕ) (ps inv : List ℕ)
    → All (λ p. p ≢ j) ps
    → get_elem? (invert_from i ps inv) j ≡ get_elem? inv j
unfolding invert_from
invert_from-keep i j [] inv h = refl
invert_from-keep i j (p ∷ ps) inv h =
    invert_from-keep (i + 1) j ps (set inv p i) h.1 ∙ get_elem?-set_ne inv i h.0

-- The cell of the value at index `k` gets that index.
invert_from-get :
    (n i k v : ℕ) (seen : List Bool) (ps inv : List ℕ)
    → check_perm n seen ps ≡ true
    → length seen ≡ n
    → length inv ≡ n
    → get_elem? ps k ≡ some v
    → get_elem? (invert_from i ps inv) v ≡ some (i + k)
unfolding invert_from
invert_from-get n i k v seen [] inv h ls li e = cc
invert_from-get n i zero v seen (p ∷ ps) inv h ls li e =
    let (lt, f, rest) = check_perm-cons n p seen ps h in
    let pv : p ≡ v = ground arith in
    let fresh =
      check_perm-fresh n p (set seen p true) ps rest (get_or-set_self seen p (omega arith)) in
    rw
      (
        ← pv,
        invert_from-keep (i + 1) p ps (set inv p i) fresh,
        get_elem?-set_self inv p i (omega arith),
        add-zero,
      )
      refl
invert_from-get n i (suc k) v seen (p ∷ ps) inv h ls li e =
    let (lt, f, rest) = check_perm-cons n p seen ps h in
    let shift : i + 1 + k ≡ i + suc k = omega arith in
    rw (← shift) (
      invert_from-get n (i + 1) k v (set seen p true) ps (set inv p i) rest
        (length-set seen p true ∙ ls) (length-set inv p i ∙ li) e)

is_valid_permutation-parts :
    (perm : List ℕ) (n : ℕ)
    → is_valid_permutation perm n ≡ true
    → (length perm ≡ n) × (check_perm n (replicate n false) perm ≡ true)
unfolding is_valid_permutation
is_valid_permutation-parts perm n h = ground arith

-- A permutation that passes the check has every value below `n` at some index.
pub is_valid_permutation-covers :
    (perm : List ℕ) (n j : ℕ)
    → is_valid_permutation perm n ≡ true
    → j < n
    → (k : ℕ) × (get_elem? perm k ≡ some j)
is_valid_permutation-covers perm n j h l =
    let (len, check) = is_valid_permutation-parts perm n h in
    elim (check_perm-covers n j (replicate n false) perm check (length-replicate n false)
      (omega (arith, marks-replicate n)) l) [
        | inl m ↦ absurd (false≢true (sym (get_or-replicate n j) ∙ m))
        | inr found ↦ found
      ]

pub length-invert_permutation : (perm : List ℕ) → length (invert_permutation perm) ≡ length perm
unfolding invert_permutation
length-invert_permutation perm = invert_from-length 0 perm _ ∙ length-replicate (length perm) 0

pub get_elem?-invert_permutation :
    (perm : List ℕ) (n k v : ℕ)
    → is_valid_permutation perm n ≡ true
    → get_elem? perm k ≡ some v
    → get_elem? (invert_permutation perm) v ≡ some k
unfolding invert_permutation
get_elem?-invert_permutation perm n k v h e =
    let (len, check) = is_valid_permutation-parts perm n h in
    rw (← add.zero k) (
      invert_from-get n 0 k v (replicate n false) perm (replicate (length perm) 0) check
        (length-replicate n false) (length-replicate (length perm) 0 ∙ len) e)

-- For a permutation that passes the check, the inverse holds `k` at `v` exactly when the
-- permutation holds `v` at `k`.
pub invert_permutation_lem :
    (perm : List ℕ) (n k v : ℕ)
    → is_valid_permutation perm n ≡ true
    → (get_elem? perm k ≡ some v) ↔ (get_elem? (invert_permutation perm) v ≡ some k)
invert_permutation_lem perm n k v h = (get_elem?-invert_permutation perm n k v h, back)
  where
    back : get_elem? (invert_permutation perm) v ≡ some k → get_elem? perm k ≡ some v
    back e =
        let (len, check) = is_valid_permutation-parts perm n h in
        let below : v < n = omega (arith, get_elem?-lt _ v k e, length-invert_permutation perm) in
        let (j, found) = is_valid_permutation-covers perm n v h below in
        let same = get_elem?-invert_permutation perm n j v h found in
        let ej : j ≡ k = ground arith in rw ej at found
