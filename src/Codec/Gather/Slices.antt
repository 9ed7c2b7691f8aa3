-- ===== src/Codec/Gather/Slices.antt =====
-- Slices of byte strings: a slice of a slice, and of a string that is part of a longer one.
use synapse_fs.Prelude.{
  ℕ, zero, suc, ◌+◌, ◌≤◌, ◌≡◌, refl, ap, List, [], ◌∷◌, ◌++◌, arith, length, take, drop,
}

module _ {ℓ} {A : Type ℓ} where
  take-append_left : (a : ℕ) (xs ys : List A) → a ≤ length xs → take a (xs ++ ys) ≡ take a xs
  take-append_left zero xs ys h = refl
  take-append_left (suc a) [] ys h = absurd (omega arith)
  take-append_left (suc a) (x ∷ xs) ys h = ap (λ l. x ∷ l) (take-append_left a xs ys (omega arith))

  pub take-drop-append :
      (a o : ℕ) (xs ys : List A)
      → o + a ≤ length xs
      → take a (drop o (xs ++ ys)) ≡ take a (drop o xs)
  take-drop-append a zero xs ys h = take-append_left a xs ys (omega arith)
  take-drop-append zero (suc o) [] ys h = absurd (omega arith)
  take-drop-append (suc a) (suc o) [] ys h = absurd (omega arith)
  take-drop-append a (suc o) (x ∷ xs) ys h = take-drop-append a o xs ys (omega arith)

  take-take_le : (a c : ℕ) (xs : List A) → a ≤ c → take a (take c xs) ≡ take a xs
  take-take_le zero c xs h = refl
  take-take_le (suc a) zero xs h = absurd (omega arith)
  take-take_le (suc a) (suc c) [] h = refl
  take-take_le (suc a) (suc c) (x ∷ xs) h = ap (λ l. x ∷ l) (take-take_le a c xs (omega arith))

  pub take-drop-take :
      (a b c : ℕ) (xs : List A) → b + a ≤ c → take a (drop b (take c xs)) ≡ take a (drop b xs)
  take-drop-take a zero c xs h = take-take_le a c xs (omega arith)
  take-drop-take a (suc b) zero xs h = absurd (omega arith)
  take-drop-take a (suc b) (suc c) [] h = refl
  take-drop-take a (suc b) (suc c) (x ∷ xs) h = take-drop-take a b c xs (omega arith)

  drop_nil : (b : ℕ) → drop {A = A} b [] ≡ []
  drop_nil zero = refl
  drop_nil (suc b) = refl

  pub drop-drop : (b c k : ℕ) (xs : List A) → k ≡ c + b → drop b (drop c xs) ≡ drop k xs
  drop-drop b zero k xs h = let same : b ≡ k = omega arith in ap (λ n. drop n xs) same
  drop-drop b (suc c) zero xs h = absurd (omega arith)
  drop-drop b (suc c) (suc k) [] h = drop_nil b
  drop-drop b (suc c) (suc k) (x ∷ xs) h = drop-drop b c k xs (omega arith)
