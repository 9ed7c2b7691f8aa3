-- ===== src/Format/Diff/StoredPermutation.antt =====
-- What read_permutation hands out.
use synapse_fs.Format.Diff.{
  PermKind, identity, explicit, PermutationRef, read_values, read_permutation, identity_from,
  write_values, width_for, identity_ref, explicit_ref, write_permutation,
}
use synapse_fs.Core.Permutation.{check_perm, is_valid_permutation, invert_permutation}
use synapse_fs.Core.Error.{ok}
use synapse_fs.Prelude.{
  ℕ, zero, suc, ◌+◌, ◌*◌, ◌^◌, ◌≤◌, ◌<◌, ◌≡◌, refl, sym, ap, ◌∙◌, ◌≢◌, ◌⊎◌, inl, inr, Bool, true,
  false, some, List, [], ◌∷◌, ◌++◌, arith, leb, ◌==◌, if◌then◌else◌, Bool-cases, length, get_elem?,
  set, length-append, replicate, get_elem?-lt, take-append_len, drop-append_len,
}
use synapse_fs.Prelude.Bytes.{Bytes, All}
use mathlib.Core.List.{append_assoc}
use synapse_fs.Core.Tensor.{indices_from}
use synapse_fs.Core.Endian.{store_le, load_le, length-store_le, from_le-store_le}
use synapse_fs.Prelude.Bits.{mod_small}
use synapse_fs.Core.Permutation.Inverse.{
  is_valid_permutation-covers, length-invert_permutation, invert_permutation_lem,
}

load_le-store_le :
    (w v : ℕ) (pre rest : Bytes)
    → v < 256 ^ w
    → load_le w (pre ++ (store_le w v ++ rest)) (length pre) ≡ v
unfolding load_le
load_le-store_le w v pre rest fits =
    rw
      (
        drop-append_len pre (store_le w v ++ rest) (length pre) refl,
        take-append_len (store_le w v) rest w (length-store_le w v),
      )
      (from_le-store_le w v fits)

-- The two widths of a stored value.
abbrev IsWidth : ℕ → Type 0
IsWidth w = (w ≡ 2) ⊎ (w ≡ 4)

load_width :
    (w p i : ℕ) (buf : Bytes)
    → IsWidth w
    → (if w == 2 then load_le 2 buf (p + i * 2) else load_le 4 buf (p + i * 4))
      ≡ load_le w buf (p + i * w)
load_width w p i buf (inl two) = rw two refl
load_width w p i buf (inr four) = rw four refl

store_width : (w v : ℕ) → IsWidth w → store_le (if w == 2 then 2 else 4) v ≡ store_le w v
store_width w v (inl two) = rw two refl
store_width w v (inr four) = rw four refl

read_values-write_values :
    (w : ℕ) (pre ps rest : Bytes) (p i : ℕ)
    → IsWidth w
    → p + i * w ≡ length pre
    → All (λ v. v < 256 ^ w) ps
    → read_values w (pre ++ (write_values w ps ++ rest)) p i (length ps) ≡ ps
unfolding read_values write_values
read_values-write_values w pre [] rest p i hw at fits = refl
read_values-write_values w pre (v ∷ ps) rest p i hw at fits =
    let buf = pre ++ (write_values w (v ∷ ps) ++ rest) in
    let placed : buf ≡ pre ++ (store_le w v ++ (write_values w ps ++ rest)) =
      ap (λ b. pre ++ ((b ++ write_values w ps) ++ rest)) (store_width w v hw)
      ∙ ap (λ b. pre ++ b) (append_assoc (store_le w v) (write_values w ps) rest) in
    let moved : buf ≡ (pre ++ store_le w v) ++ (write_values w ps ++ rest) =
      placed ∙ sym (append_assoc pre (store_le w v) (write_values w ps ++ rest)) in
    let head : load_le w buf (p + i * w) ≡ v =
      rw (placed, at) (load_le-store_le w v pre (write_values w ps ++ rest) fits.0) in
    let next : p + (i + 1) * w ≡ length (pre ++ store_le w v) =
      grind (arith, length-append pre (store_le w v), length-store_le w v) in
    let tail : read_values w buf p (i + 1) (length ps) ≡ ps =
      rw moved
        (read_values-write_values w (pre ++ store_le w v) ps rest p (i + 1) hw next fits.1) in
    λ j. (load_width w p i buf hw ∙ head) j ∷ tail j

check_perm-below :
    (n : ℕ) (seen : List Bool) (perm : List ℕ)
    → check_perm n seen perm ≡ true
    → All (λ v. v < n) perm
unfolding check_perm
check_perm-below n seen [] h = tt
check_perm-below n seen (p ∷ ps) h =
    (ground arith, check_perm-below n (set seen p true) ps (ground arith))

kind-cases : (kind : PermKind) → (kind ≡ identity) ⊎ (kind ≡ explicit)
kind-cases identity = inl refl
kind-cases explicit = inr refl

read_permutation_identity :
    (ref : PermutationRef) (payload : Bytes) (perm : List ℕ)
    → ref.kind ≡ identity
    → read_permutation ref payload ≡ ok perm
    → perm ≡ []
unfolding read_permutation
read_permutation_identity ref payload perm k h = let read = rw k at h in cc

read_permutation-valid :
    (ref : PermutationRef) (payload : Bytes) (perm : List ℕ)
    → ref.kind ≡ explicit
    → read_permutation ref payload ≡ ok perm
    → is_valid_permutation perm ref.n ≡ true
unfolding read_permutation
read_permutation-valid ref payload perm k h = ground arith

is_valid_permutation-length :
    (perm : List ℕ) (n : ℕ) → is_valid_permutation perm n ≡ true → length perm ≡ n
unfolding is_valid_permutation
is_valid_permutation-length perm n h = ground arith

-- The list holds every number below `n` at just one place, and no other number.
abbrev pub IsBijection : List ℕ → ℕ → Type 0
IsBijection perm n =
    (length perm ≡ n)
    × ((k v : ℕ) → get_elem? perm k ≡ some v → v < n)
    × ((v : ℕ) → v < n → (k : ℕ) × (get_elem? perm k ≡ some v))
    × ((j k v : ℕ) → get_elem? perm j ≡ some v → get_elem? perm k ≡ some v → j ≡ k)

is_valid_permutation-IsBijection :
    (perm : List ℕ) (n : ℕ) → is_valid_permutation perm n ≡ true → IsBijection perm n
is_valid_permutation-IsBijection perm n valid =
    let len = is_valid_permutation-length perm n valid in
    let into = λ (k v : ℕ) (at : get_elem? perm k ≡ some v).
      (invert_permutation_lem perm n k v valid).0 at in
    (
      len,
      λ k v at. omega (
        arith,
        get_elem?-lt (invert_permutation perm) v k (into k v at),
        length-invert_permutation perm,
        len,
      ),
      λ v below. is_valid_permutation-covers perm n v valid below,
      λ j k v at also. let one = into j v at in let two = into k v also in cc,
    )

-- Whatever the payload and the reference are, what is read out of a payload is nothing for the
-- identity, and else a bijection of the reference's count: every number below the count is at
-- just one place, and no other number.
pub read_permutation-IsBijection :
    (ref : PermutationRef) (payload : Bytes) (perm : List ℕ)
    → read_permutation ref payload ≡ ok perm
    → ((ref.kind ≡ identity) × (perm ≡ [])) ⊎ ((ref.kind ≡ explicit) × IsBijection perm ref.n)
read_permutation-IsBijection ref payload perm h = elim (kind-cases ref.kind) [
  | inl same ↦ inl (same, read_permutation_identity ref payload perm same h)
  | inr moved ↦ inr (
    moved,
    is_valid_permutation-IsBijection perm ref.n (read_permutation-valid ref payload perm moved h),
  )
]

identity_from-true :
    (i : ℕ) (perm : List ℕ) → identity_from i perm ≡ true → perm ≡ indices_from i (length perm)
unfolding identity_from
identity_from-true i [] h = refl
identity_from-true i (p ∷ ps) h =
    let same : p ≡ i = ground arith in
    let next : i + 1 ≡ suc i = omega arith in
    let rest : identity_from (suc i) ps ≡ true = rw (← next) (ground arith) in
    λ j. same j ∷ identity_from-true (suc i) ps rest j

write_permutation-identity :
    (payload : Bytes) (perm : List ℕ)
    → length perm < 2 ^ 32
    → identity_from 0 perm ≡ true
    → write_permutation payload perm ≡ (identity_ref (length perm), payload)
unfolding write_permutation
write_permutation-identity payload perm small same =
    let count = mod_small (2 ^ 32) (length perm) small in rw (same, count) refl

write_permutation-explicit :
    (payload : Bytes) (perm : List ℕ)
    → length perm < 2 ^ 32
    → identity_from 0 perm ≡ false
    → write_permutation payload perm ≡ (
      explicit_ref (length perm) (length payload),
      payload ++ write_values (width_for (length perm)) perm,
    )
unfolding write_permutation
write_permutation-explicit payload perm small moved =
    let count = mod_small (2 ^ 32) (length perm) small in rw (moved, count) refl

read_permutation-explicit :
    (n off : ℕ) (buf : Bytes) (perm : List ℕ)
    → read_values (width_for n) buf off 0 n ≡ perm
    → is_valid_permutation perm n ≡ true
    → n * width_for n < 2 ^ 64
    → off + n * width_for n ≤ length buf
    → off + n * width_for n < 2 ^ 64
    → read_permutation (explicit_ref n off) buf ≡ ok perm
unfolding read_permutation
read_permutation-explicit n off buf perm e valid small inside fits =
    let len = mod_small (2 ^ 64) (n * width_for n) small in
    let end = mod_small (2 ^ 64) (off + n * width_for n) fits in
    let at : is_valid_permutation (read_values (width_for n) buf off 0 n) n ≡ true = rw e valid in
    ground arith

length-write_values :
    (w : ℕ) (perm : List ℕ) → IsWidth w → length (write_values w perm) ≡ length perm * w
unfolding write_values
length-write_values w [] hw = omega arith
length-write_values w (p ∷ ps) hw =
    let rest = length-write_values w ps hw in
    let here : length (store_le (if w == 2 then 2 else 4) p) ≡ w =
      rw (store_width w p hw) (length-store_le w p) in
    grind (arith, length-append (store_le (if w == 2 then 2 else 4) p) (write_values w ps))

width_for-IsWidth : (n : ℕ) → IsWidth (width_for n)
unfolding width_for
width_for-IsWidth n = elim (Bool-cases (leb n 65536)) [
  | inl two ↦ inl (ground arith)
  | inr four ↦ inr (ground arith)
]

width_for-room : (n : ℕ) → n < 2 ^ 32 → (n * width_for n ≤ 4 * n) × (n ≤ 256 ^ width_for n)
unfolding width_for
width_for-room n small = elim (Bool-cases (leb n 65536)) [
  | inl two ↦ rw two (omega arith, ground arith)
  | inr four ↦ rw four (omega arith, omega arith)
]

All-below_mono : (n m : ℕ) (vs : List ℕ) → n ≤ m → All (λ v. v < n) vs → All (λ v. v < m) vs
All-below_mono n m [] h all = tt
All-below_mono n m (v ∷ vs) h all = (omega (arith, all.0), All-below_mono n m vs h all.1)

is_valid_permutation-below :
    (n : ℕ) (perm : List ℕ) → is_valid_permutation perm n ≡ true → All (λ v. v < n) perm
unfolding is_valid_permutation
is_valid_permutation-below n perm h = check_perm-below n (replicate n false) perm (ground arith)

read_permutation-explicit_ref :
    (payload rest : Bytes) (perm : List ℕ)
    → is_valid_permutation perm (length perm) ≡ true
    → length perm < 2 ^ 32
    → length payload + 4 * length perm < 2 ^ 64
    → read_permutation
        (explicit_ref (length perm) (length payload))
        ((payload ++ write_values (width_for (length perm)) perm) ++ rest)
      ≡ ok perm
read_permutation-explicit_ref payload rest perm valid small room =
    let n = length perm in
    let w = width_for n in
    let hw = width_for-IsWidth n in
    let bounds = width_for-room n small in
    let fits = All-below_mono n (256 ^ w) perm bounds.1 (is_valid_permutation-below n perm valid) in
    let at : length payload + 0 * w ≡ length payload = omega arith in
    let read = read_values-write_values w payload perm rest (length payload) 0 hw at fits in
    let assoc = append_assoc payload (write_values w perm) rest in
    let inside : length payload + n * w ≤ length ((payload ++ write_values w perm) ++ rest) =
      omega (
        arith,
        length-append (payload ++ write_values w perm) rest,
        length-append payload (write_values w perm),
        length-write_values w perm hw,
      ) in
    read_permutation-explicit n (length payload) ((payload ++ write_values w perm) ++ rest) perm
      (rw assoc read) valid (omega (arith, bounds.0)) inside (omega (arith, bounds.0))

identity_from-indices_from : (i n : ℕ) → identity_from i (indices_from i n) ≡ true
unfolding identity_from
identity_from-indices_from i zero = refl
identity_from-indices_from i (suc n) =
    let same : (i == i) ≡ true = ground arith in
    let next : i + 1 ≡ suc i = omega arith in rw (same, next) (identity_from-indices_from (suc i) n)

-- A permutation is written behind a payload, and more may be written behind it. The identity is
-- written as nothing: the payload stays, and the reader gives nothing, for every count that the
-- reference may hold then. Any other permutation is read back. The count fits 32 bits and the
-- payload 64.
pub read_permutation-write_permutation :
    (payload rest : Bytes) (perm : List ℕ)
    → is_valid_permutation perm (length perm) ≡ true
    → length perm < 2 ^ 32
    → length payload + 4 * length perm < 2 ^ 64
    → (perm ≡ indices_from 0 (length perm)
        → ((write_permutation payload perm).0.kind ≡ identity)
          × ((write_permutation payload perm).1 ≡ payload)
          × ((n : ℕ)
              → read_permutation
                  (record (write_permutation payload perm).0 { n = n })
                  ((write_permutation payload perm).1 ++ rest)
                ≡ ok []))
      × (perm ≢ indices_from 0 (length perm)
          → ((write_permutation payload perm).0.kind ≡ explicit)
            × (read_permutation
                  (write_permutation payload perm).0
                  ((write_permutation payload perm).1 ++ rest)
                ≡ ok perm))
unfolding read_permutation
read_permutation-write_permutation payload rest perm valid small room = (
  λ same.
      let none_moved : identity_from 0 perm ≡ true =
        ap (identity_from 0) same ∙ identity_from-indices_from 0 (length perm) in
      rw (write_permutation-identity payload perm small none_moved) (refl, refl, λ n. refl),
  λ other. elim (Bool-cases (identity_from 0 perm)) [
    | inl none_moved ↦ absurd (other (identity_from-true 0 perm none_moved))
    | inr moved ↦
        rw (write_permutation-explicit payload perm small moved)
          (refl, read_permutation-explicit_ref payload rest perm valid small room)
  ],
)
