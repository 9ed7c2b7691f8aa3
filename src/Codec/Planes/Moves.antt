-- ===== src/Codec/Planes/Moves.antt =====
-- The loops of modules/codec/src/compress.cpp that copy bytes: what a list of moves leaves where.
use synapse_fs.Codec.Planes.{Move, copy, inner_loop, outer_loop}
use synapse_fs.Prelude.{
  ℕ, zero, suc, ◌+◌, ◌≤◌, ◌<◌, ◌≡◌, refl, sym, ap, ◌∙◌, ◌≢◌, ◌⊎◌, inl, inr, some, List, [], ◌∷◌,
  arith, length, get_elem?, set, length-set, get_or, get_elem?-append, get_elem?-append_left,
  get_elem?-append_right,
}
use synapse_fs.Prelude.Bytes.{Bytes, All}
use native.Mathlib.Decide.{ℕ_discrete}
use mathlib.Core.Path.{ap₂, subst}

pub length-copy : (ms : List Move) (src dst : Bytes) → length (copy ms src dst) ≡ length dst
unfolding copy
length-copy [] src dst = refl
length-copy (m ∷ ms) src dst = length-copy ms src _ ∙ length-set dst m.to _

pub get_or-set :
    (xs : Bytes) (i j v : ℕ)
    → j < length xs
    → ((i ≡ j) × (get_or (set xs i v) j 0 ≡ v)) ⊎ (get_or (set xs i v) j 0 ≡ get_or xs j 0)
get_or-set [] i j v h = absurd (omega arith)
get_or-set (x ∷ xs) zero zero v h = inl (refl, refl)
get_or-set (x ∷ xs) zero (suc j) v h = inr refl
get_or-set (x ∷ xs) (suc i) zero v h = inr refl
get_or-set (x ∷ xs) (suc i) (suc j) v h = elim (get_or-set xs i j v (omega arith)) [
  | inl (e, g) ↦ inl (ap suc e, g)
  | inr g ↦ inr g
]

-- A byte after the moves is the one that was there, or that a move brought; and if a move goes to
-- it, a move brought it.
pub copy_cases :
    (ms : List Move) (src dst : Bytes) (j : ℕ)
    → j < length dst
    → ((get_or (copy ms src dst) j 0 ≡ get_or dst j 0) × All (λ m. m.to ≢ j) ms)
      ⊎ ((k : ℕ) × (m : Move) × (get_elem? ms k ≡ some m)
          × (m.to ≡ j)
          × (get_or (copy ms src dst) j 0 ≡ get_or src m.from 0))
unfolding copy
copy_cases [] src dst j h = inl (refl, tt)
copy_cases (m ∷ ms) src dst j h =
    elim (copy_cases ms src (set dst m.to (get_or src m.from 0)) j
      (omega (arith, length-set dst m.to (get_or src m.from 0)))) [
        | inr (k, m', at, to, e) ↦ inr (suc k, m', at, to, e)
        | inl (e, none_later) ↦ elim (ℕ_discrete m.to j) [
          | yes hit ↦ inr (0, m, refl, hit, e ∙ written hit)
          | no miss ↦ inl (e ∙ kept miss, (miss, none_later))
        ]
      ]
  where
    v : ℕ
    v = get_or src m.from 0

    written : m.to ≡ j → get_or (set dst m.to v) j 0 ≡ v
    written hit = rw (← hit) (set_self dst m.to v (rw (← hit) at h))
      where
        set_self : (xs : Bytes) (i v : ℕ) → i < length xs → get_or (set xs i v) i 0 ≡ v
        set_self [] i v l = absurd (omega arith)
        set_self (x ∷ xs) zero v l = refl
        set_self (x ∷ xs) (suc i) v l = set_self xs i v (omega arith)

    kept : m.to ≢ j → get_or (set dst m.to v) j 0 ≡ get_or dst j 0
    kept miss = elim (get_or-set dst m.to j v h) [ inl (hit, _) ↦ absurd (miss hit) | inr e ↦ e ]

-- The moves of a nest are those of its body at every plane and element, and no others.
module _ (body : ℕ → ℕ → Move) where
  pub inner_loop-get :
      (plane i left k : ℕ) (m : Move)
      → get_elem? (inner_loop body plane i left) k ≡ some m
      → (x : ℕ) × (x < i + left) × (m ≡ body plane x)
  unfolding inner_loop
  inner_loop-get plane i zero k m e = cc
  inner_loop-get plane i (suc left) zero m e = (i, omega arith, ground arith)
  inner_loop-get plane i (suc left) (suc k) m e =
      let (x, h, eq) = inner_loop-get plane (i + 1) left k m e in (x, omega arith, eq)

  pub inner_loop-has :
      (plane i left x : ℕ)
      → i ≤ x
      → x < i + left
      → (k : ℕ) × (get_elem? (inner_loop body plane i left) k ≡ some (body plane x))
  unfolding inner_loop
  inner_loop-has plane i zero x lo hi = absurd (omega arith)
  inner_loop-has plane i (suc left) x lo hi = elim (ℕ_discrete i x) [
    | yes same ↦ (0, ap (λ y. some (body plane y)) same)
    | no apart ↦
        let (k, e) = inner_loop-has plane (i + 1) left x (omega arith) (omega arith) in (suc k, e)
  ]

  pub outer_loop-get :
      (n plane left k : ℕ) (m : Move)
      → get_elem? (outer_loop body n plane left) k ≡ some m
      → (q : ℕ) × (x : ℕ) × (q < plane + left) × (x < n) × (m ≡ body q x)
  unfolding outer_loop
  outer_loop-get n plane zero k m e = cc
  outer_loop-get n plane (suc left) k m e = elim (get_elem?-append _ _ k m e) [
    | inl here ↦
        let (x, h, eq) = inner_loop-get plane 0 n k m here in
        (plane, x, omega arith, omega arith, eq)
    | inr (k', there) ↦
        let (q, x, hq, hx, eq) = outer_loop-get n (plane + 1) left k' m there in
        (q, x, omega arith, hx, eq)
  ]

  pub outer_loop-has :
      (n plane left q x : ℕ)
      → plane ≤ q
      → q < plane + left
      → x < n
      → (k : ℕ) × (get_elem? (outer_loop body n plane left) k ≡ some (body q x))
  unfolding outer_loop
  outer_loop-has n plane zero q x lo hi hx = absurd (omega arith)
  outer_loop-has n plane (suc left) q x lo hi hx = elim (ℕ_discrete plane q) [
    | yes same ↦
        let (k, e) = inner_loop-has plane 0 n x (omega arith) (omega arith) in
        (k, get_elem?-append_left _ _ k (body q x) (e ∙ ap (λ p. some (body p x)) same))
    | no apart ↦
        let (k, e) = outer_loop-has n (plane + 1) left q x (omega arith) (omega arith) hx in
        (
          length (inner_loop body plane 0 n) + k,
          get_elem?-append_right (inner_loop body plane 0 n) _ k (body q x) e,
        )
  ]

pub All-get :
    (P : Move → Type 0) (ms : List Move) (k : ℕ) (m : Move)
    → All P ms
    → get_elem? ms k ≡ some m
    → P m
All-get P [] k m a e = cc
All-get P (x ∷ ms) zero m a e = subst P (ground arith) a.0
All-get P (x ∷ ms) (suc k) m a e = All-get P ms k m a.1 e

-- A nest that writes no byte twice brings to each byte what its move says.
pub nest_copies :
    (body : ℕ → ℕ → Move) (n e : ℕ) (src dst : Bytes)
    → ((q x p y : ℕ)
        → q < e
        → x < n
        → p < e
        → y < n
        → (body q x).to ≡ (body p y).to
        → (q ≡ p) × (x ≡ y))
    → (q x : ℕ) → q < e
    → x < n
    → (body q x).to < length dst
    → get_or (copy (outer_loop body n 0 e) src dst) (body q x).to 0 ≡ get_or src (body q x).from 0
nest_copies body n e src dst once q x hq hx room =
    elim (copy_cases (outer_loop body n 0 e) src dst (body q x).to room) [
      | inl (same, missed) ↦
          let (k, at) = outer_loop-has body n 0 e q x (omega arith) (omega arith) hx in
          absurd (
            All-get (λ m. m.to ≢ (body q x).to) (outer_loop body n 0 e) k (body q x) missed at refl)
      | inr (k, m, at, to, brought) ↦
          let (p, y, hp, hy, eq) = outer_loop-get body n 0 e k m at in
          let (eq_q, eq_x) =
            once p y q x (omega arith) hy hq hx (ap (λ (u : Move). u.to) (sym eq) ∙ to) in
          brought
          ∙ ap (λ (u : Move). get_or src u.from 0) eq
          ∙ ap₂ (λ a b. get_or src (body a b).from 0) eq_q eq_x
    ]
