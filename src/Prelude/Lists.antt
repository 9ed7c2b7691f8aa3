-- ===== src/Prelude/Lists.antt =====
-- Lists measured and indexed by native numbers, under the library's names.
use Prim.Native.Nat.{ℕ, zero, suc, ◌+◌, ◌-◌, ◌≤◌, ◌<◌, min}
use Prim.Native.Nat.add
use mathlib.Core.Path.{◌≡◌, refl, ap, ap₂}
use mathlib.Core.Logic.{◌≢◌, ◌⊎◌, inl, inr}
use mathlib.Core.List.{List, [], ◌∷◌, ◌++◌, map}
use mathlib.Core.Option.{Option, none, some}
use native.Mathlib.Omega.{arith}

module _ {ℓ} {A : Type ℓ} where
  abbrev pub length : List A → ℕ
  length [] = 0
  length (x ∷ xs) = suc (length xs)

  abbrev pub get_elem? : List A → ℕ → Option A
  get_elem? [] i = none
  get_elem? (x ∷ xs) zero = some x
  get_elem? (x ∷ xs) (suc i) = get_elem? xs i

  -- A write out of bounds changes nothing.
  abbrev pub set : List A → ℕ → A → List A
  set [] i v = []
  set (x ∷ xs) zero v = v ∷ xs
  set (x ∷ xs) (suc i) v = x ∷ set xs i v

  pub length-append : (xs ys : List A) → length (xs ++ ys) ≡ length xs + length ys
  length-append [] ys = omega arith
  length-append (x ∷ xs) ys = omega (arith, length-append xs ys)

module _ {ℓ} {A : Type ℓ} where
  pub length-set : (xs : List A) (i : ℕ) (v : A) → length (set xs i v) ≡ length xs
  length-set [] i v = refl
  length-set (x ∷ xs) zero v = refl
  length-set (x ∷ xs) (suc i) v = ap suc (length-set xs i v)

  pub get_elem?-set_self :
      (xs : List A) (i : ℕ) (v : A) → i < length xs → get_elem? (set xs i v) i ≡ some v
  get_elem?-set_self [] i v h = elim h [ ]
  get_elem?-set_self (x ∷ xs) zero v h = refl
  get_elem?-set_self (x ∷ xs) (suc i) v h = get_elem?-set_self xs i v (omega arith)

  pub get_elem?-set_ne :
      (xs : List A) {i j : ℕ} (v : A) → i ≢ j → get_elem? (set xs i v) j ≡ get_elem? xs j
  get_elem?-set_ne [] v h = refl
  get_elem?-set_ne (x ∷ xs) {i = zero} {j = zero} v h = absurd (h refl)
  get_elem?-set_ne (x ∷ xs) {i = zero} {j = suc j} v h = refl
  get_elem?-set_ne (x ∷ xs) {i = suc i} {j = zero} v h = refl
  get_elem?-set_ne (x ∷ xs) {i = suc i} {j = suc j} v h = get_elem?-set_ne xs v (λ e. h (ap suc e))

module _ {ℓ} {A : Type ℓ} where
  abbrev pub get_or : List A → ℕ → A → A
  get_or [] i d = d
  get_or (x ∷ xs) zero d = x
  get_or (x ∷ xs) (suc i) d = get_or xs i d

  abbrev pub take : ℕ → List A → List A
  take zero xs = []
  take (suc n) [] = []
  take (suc n) (x ∷ xs) = x ∷ take n xs

  abbrev pub drop : ℕ → List A → List A
  drop zero xs = xs
  drop (suc n) [] = []
  drop (suc n) (x ∷ xs) = drop n xs

  abbrev pub replicate : ℕ → A → List A
  replicate zero a = []
  replicate (suc n) a = a ∷ replicate n a

  pub take-append-drop : (n : ℕ) (xs : List A) → take n xs ++ drop n xs ≡ xs
  take-append-drop zero xs = refl
  take-append-drop (suc n) [] = refl
  take-append-drop (suc n) (x ∷ xs) = rw (take-append-drop n xs)

  pub length-take : (n : ℕ) (xs : List A) → length (take n xs) ≡ min n (length xs)
  length-take zero xs = omega arith
  length-take (suc n) [] = omega arith
  length-take (suc n) (x ∷ xs) = omega (arith, length-take n xs)

  pub length-drop : (n : ℕ) (xs : List A) → length (drop n xs) ≡ length xs - n
  length-drop zero xs = omega arith
  length-drop (suc n) [] = omega arith
  length-drop (suc n) (x ∷ xs) = omega (arith, length-drop n xs)

  pub length-replicate : (n : ℕ) (a : A) → length (replicate n a) ≡ n
  length-replicate zero a = refl
  length-replicate (suc n) a = ap suc (length-replicate n a)

  pub length-map {κ} : {B : Type κ} (xs : List A) (f : A → B) → length (map f xs) ≡ length xs
  length-map [] f = refl
  length-map (x ∷ xs) f = ap suc (length-map xs f)

module _ {ℓ} {A : Type ℓ} where
  pub get_elem?-append :
      (xs ys : List A) (k : ℕ) (a : A)
      → get_elem? (xs ++ ys) k ≡ some a
      → (get_elem? xs k ≡ some a) ⊎ ((j : ℕ) × (get_elem? ys j ≡ some a))
  get_elem?-append [] ys k a h = inr (k, h)
  get_elem?-append (x ∷ xs) ys zero a h = inl h
  get_elem?-append (x ∷ xs) ys (suc k) a h = get_elem?-append xs ys k a h

  pub get_elem?-append_left :
      (xs ys : List A) (k : ℕ) (a : A) → get_elem? xs k ≡ some a → get_elem? (xs ++ ys) k ≡ some a
  get_elem?-append_left [] ys k a h = cc
  get_elem?-append_left (x ∷ xs) ys zero a h = h
  get_elem?-append_left (x ∷ xs) ys (suc k) a h = get_elem?-append_left xs ys k a h

  pub get_elem?-append_right :
      (xs ys : List A) (k : ℕ) (a : A)
      → get_elem? ys k ≡ some a
      → get_elem? (xs ++ ys) (length xs + k) ≡ some a
  get_elem?-append_right [] ys k a h = rw (add.zero k) h
  get_elem?-append_right (x ∷ xs) ys k a h =
      rw (add.suc (length xs) k) (get_elem?-append_right xs ys k a h)

  pub get_elem?-lt : (xs : List A) (i : ℕ) (v : A) → get_elem? xs i ≡ some v → i < length xs
  get_elem?-lt [] i v h = cc
  get_elem?-lt (x ∷ xs) zero v h = omega arith
  get_elem?-lt (x ∷ xs) (suc i) v h = omega (arith, get_elem?-lt xs i v h)

-- Two lists of one length are equal if they agree at every index.
pub eq_of_get_or {ℓ} :
    {A : Type ℓ} (d : A) (xs ys : List A)
    → length xs ≡ length ys
    → ((j : ℕ) → j < length xs → get_or xs j d ≡ get_or ys j d)
    → xs ≡ ys
eq_of_get_or d [] [] l h = refl
eq_of_get_or d [] (y ∷ ys) l h = absurd (omega arith)
eq_of_get_or d (x ∷ xs) [] l h = absurd (omega arith)
eq_of_get_or d (x ∷ xs) (y ∷ ys) l h =
    ap₂ ◌∷◌ (h 0 (omega arith))
      (eq_of_get_or d xs ys (omega arith) (λ j b. h (suc j) (omega arith)))

pub get_or-take {ℓ} :
    {A : Type ℓ} (d : A) (n : ℕ) (xs : List A) (j : ℕ)
    → j < n
    → get_or (take n xs) j d ≡ get_or xs j d
get_or-take d zero xs j h = absurd (omega arith)
get_or-take d (suc n) [] j h = refl
get_or-take d (suc n) (x ∷ xs) zero h = refl
get_or-take d (suc n) (x ∷ xs) (suc j) h = get_or-take d n xs j (omega arith)

module _ {ℓ} {A : Type ℓ} where
  pub take_all : (n : ℕ) (xs : List A) → length xs ≤ n → take n xs ≡ xs
  take_all zero [] h = refl
  take_all zero (x ∷ xs) h = absurd (omega arith)
  take_all (suc n) [] h = refl
  take_all (suc n) (x ∷ xs) h = ap (λ l. x ∷ l) (take_all n xs (omega arith))

  pub drop_all : (n : ℕ) (xs : List A) → length xs ≤ n → drop n xs ≡ []
  drop_all zero [] h = refl
  drop_all zero (x ∷ xs) h = absurd (omega arith)
  drop_all (suc n) [] h = refl
  drop_all (suc n) (x ∷ xs) h = drop_all n xs (omega arith)

pub get_or-append_left {ℓ} :
    {A : Type ℓ} (d : A) (xs ys : List A) (j : ℕ)
    → j < length xs
    → get_or (xs ++ ys) j d ≡ get_or xs j d
get_or-append_left d [] ys j h = absurd (omega arith)
get_or-append_left d (x ∷ xs) ys zero h = refl
get_or-append_left d (x ∷ xs) ys (suc j) h = get_or-append_left d xs ys j (omega arith)

module _ {ℓ} {A : Type ℓ} where
  pub take-append_len : (xs ys : List A) (n : ℕ) → length xs ≡ n → take n (xs ++ ys) ≡ xs
  take-append_len [] ys zero h = refl
  take-append_len [] ys (suc n) h = absurd (omega arith)
  take-append_len (x ∷ xs) ys zero h = absurd (omega arith)
  take-append_len (x ∷ xs) ys (suc n) h = ap (λ l. x ∷ l) (take-append_len xs ys n (omega arith))

  pub drop-append_len : (xs ys : List A) (n : ℕ) → length xs ≡ n → drop n (xs ++ ys) ≡ ys
  drop-append_len [] ys zero h = refl
  drop-append_len [] ys (suc n) h = absurd (omega arith)
  drop-append_len (x ∷ xs) ys zero h = absurd (omega arith)
  drop-append_len (x ∷ xs) ys (suc n) h = drop-append_len xs ys n (omega arith)

  pub drop-append_more :
      (xs ys : List A) (n m k : ℕ) → length xs ≡ n → k ≡ n + m → drop k (xs ++ ys) ≡ drop m ys
  drop-append_more [] ys n m k h e = let same : k ≡ m = omega arith in rw same refl
  drop-append_more (x ∷ xs) ys n m zero h e = absurd (omega arith)
  drop-append_more (x ∷ xs) ys n m (suc k) h e =
      drop-append_more xs ys (n - 1) m k (omega arith) (omega arith)
