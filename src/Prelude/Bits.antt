-- ===== src/Prelude/Bits.antt =====
-- Facts about the bitwise operations at variables, which the tactics take for unknowns.
use Prim.Native.Nat.{
  ℕ, zero, suc, ◌+◌, ◌-◌, ◌*◌, ◌/◌, ◌%◌, ◌^◌, ◌≤◌, ◌<◌, bit_xor, digits, differ, bit_xor-bitwise,
}
use mathlib.Core.Path.{◌≡◌, refl, ◌∙◌}
use mathlib.Core.Bool.{Bool, true, ◌&&◌}
use native.Mathlib.Omega.{arith}
use native.Mathlib.Nat.{pow-suc, mod-eq_of_lt}
use native.Mathlib.Decide.{dec_le}

-- Over a small range, check every value by evaluation.
unfoldable pub all_below : ℕ → (ℕ → Bool) → Bool
all_below zero test = true
all_below (suc k) test = all_below k test && test k

pub all_below_sound :
    (k : ℕ) (test : ℕ → Bool) (v : ℕ) → all_below k test ≡ true → v < k → test v ≡ true
unfolding all_below
all_below_sound zero test v all lt = absurd (omega arith)
all_below_sound (suc k) test v all lt = ground (arith, all_below_sound k test v)

-- The digits of `bit_xor` on a count of digits to go.
abbrev xor_digits : ℕ → ℕ → ℕ → ℕ
xor_digits n a b = digits (λ b. b) differ n a b

-- Counts that both reach the top digit of `x` agree.
xor_digits-enough : (x y n k : ℕ) → x ≤ n → x ≤ k → xor_digits n x y ≡ xor_digits k x y
xor_digits-enough zero y zero zero hn hk = refl
xor_digits-enough zero y zero (suc k) hn hk = refl
xor_digits-enough zero y (suc n) zero hn hk = refl
xor_digits-enough zero y (suc n) (suc k) hn hk = refl
xor_digits-enough (suc x) y zero k hn hk = absurd (omega arith)
xor_digits-enough (suc x) y (suc n) zero hn hk = absurd (omega arith)
xor_digits-enough (suc x) y (suc n) (suc k) hn hk =
    let half = suc x / 2 in
    omega (arith, xor_digits-enough half (y / 2) n k (omega arith) (omega arith))

pub bit_xor-zero_left : (b : ℕ) → bit_xor 0 b ≡ b
bit_xor-zero_left b = bit_xor-bitwise 0 b

differ_bits : (x y : ℕ) → x < 2 → y < 2 → differ x y ≡ (x + y) % 2
differ_bits zero y p q = omega arith
differ_bits (suc zero) zero p q = refl
differ_bits (suc zero) (suc zero) p q = refl
differ_bits (suc zero) (suc (suc y)) p q = absurd (omega arith)
differ_bits (suc (suc x)) y p q = absurd (omega arith)

-- The law for the lowest digit.
pub bit_xor_step : (a b : ℕ) → bit_xor a b ≡ bit_xor (a / 2) (b / 2) * 2 + (a + b) % 2
bit_xor_step zero b = omega (arith, bit_xor-zero_left b, bit_xor-zero_left (b / 2))
bit_xor_step (suc a) b = omega (
  arith,
  bit_xor-bitwise (suc a) b,
  bit_xor-bitwise (suc a / 2) (b / 2),
  xor_digits-enough (suc a / 2) (b / 2) a (suc a / 2) (omega arith) (omega arith),
  differ_bits (suc a % 2) (b % 2) (omega arith) (omega arith),
)

-- By induction on a bound of both numbers.
xor_cancel_below : (n a b : ℕ) → a ≤ n → b ≤ n → bit_xor a (bit_xor a b) ≡ b
xor_cancel_below n zero b p q = omega (arith, bit_xor-zero_left b, bit_xor-zero_left (bit_xor 0 b))
xor_cancel_below zero (suc a) b p q = absurd (omega arith)
xor_cancel_below (suc n) (suc a) b p q =
    let x = bit_xor (suc a) b in
    let step = bit_xor_step (suc a) b in
    let half : x / 2 ≡ bit_xor (suc a / 2) (b / 2) = omega arith in
    let inner = xor_cancel_below n (suc a / 2) (b / 2) (omega arith) (omega arith) in
    let whole = bit_xor_step (suc a) x in
    let whole' : bit_xor (suc a) x ≡ b / 2 * 2 + (suc a + x) % 2 =
      whole ∙ (rw (half, inner) refl) in
    omega arith

pub bit_xor_cancel : (a b : ℕ) → bit_xor a (bit_xor a b) ≡ b
bit_xor_cancel a b = xor_cancel_below (a + b) a b (omega arith) (omega arith)

pub bit_xor-zero_right : (a : ℕ) → bit_xor a 0 ≡ a
bit_xor-zero_right a = xor_zero a a (omega arith)
  where
    xor_zero : (n a : ℕ) → a ≤ n → bit_xor a 0 ≡ a
    xor_zero n zero h = bit_xor-zero_left 0
    xor_zero zero (suc a) h = absurd (omega arith)
    xor_zero (suc n) (suc a) h =
        omega (arith, bit_xor_step (suc a) 0, xor_zero n (suc a / 2) (omega arith))

-- A mask of `w` ones turns the digits over.
pub bit_xor_ones : (w x : ℕ) → x < 2 ^ w → bit_xor x (2 ^ w - 1) ≡ 2 ^ w - 1 - x
bit_xor_ones zero zero h = bit_xor-zero_left 0
bit_xor_ones zero (suc x) h = absurd (omega arith)
bit_xor_ones (suc w) x h =
    let double = pow-suc 2 w in
    let half : (2 ^ suc w - 1) / 2 ≡ 2 ^ w - 1 = omega arith in
    let low : x / 2 < 2 ^ w = omega arith in
    let step = bit_xor_step x (2 ^ suc w - 1) in
    let step' : bit_xor x (2 ^ suc w - 1) ≡ (2 ^ w - 1 - x / 2) * 2 + (x + (2 ^ suc w - 1)) % 2 =
      step ∙ (rw (half, bit_xor_ones w (x / 2) low) refl) in
    omega arith

-- So it does below a digit that stands above the mask.
pub bit_xor_ones_above :
    (w x : ℕ) → x < 2 ^ w → bit_xor (2 ^ w + x) (2 ^ w - 1) ≡ 2 ^ w + (2 ^ w - 1 - x)
bit_xor_ones_above zero zero h = bit_xor-zero_right 1
bit_xor_ones_above zero (suc x) h = absurd (omega arith)
bit_xor_ones_above (suc w) x h =
    let double = pow-suc 2 w in
    let half : (2 ^ suc w - 1) / 2 ≡ 2 ^ w - 1 = omega arith in
    let high : (2 ^ suc w + x) / 2 ≡ 2 ^ w + x / 2 = omega arith in
    let low : x / 2 < 2 ^ w = omega arith in
    let step = bit_xor_step (2 ^ suc w + x) (2 ^ suc w - 1) in
    let step' : bit_xor (2 ^ suc w + x) (2 ^ suc w - 1)
        ≡ (2 ^ w + (2 ^ w - 1 - x / 2)) * 2 + (2 ^ suc w + x + (2 ^ suc w - 1)) % 2 =
      step ∙ (rw (half, high, bit_xor_ones_above w (x / 2) low) refl) in
    omega arith

-- Remainders of sums below twice the modulus.
pub mod_small : (m a : ℕ) → a < m → a % m ≡ a
mod_small m a h = mod-eq_of_lt h

pub mod_once : (m a : ℕ) → a < m → (m + a) % m ≡ a
mod_once m a h = grind arith

-- Adding what was subtracted, modulo `m`.
pub mod_sub_add : (m a b : ℕ) → a < m → b < m → (b + (a + m - b) % m) % m ≡ a
mod_sub_add m a b p q = elim (dec_le b a) [
  | yes le ↦
      let e : a + m - b ≡ m + (a - b) = omega arith in
      let f : b + (a - b) ≡ a = omega arith in
      rw (e, mod_once m (a - b) (omega arith), f) (mod_small m a p)
  | no gt ↦
      let e : b + (a + m - b) ≡ m + a = omega arith in
      rw (mod_small m (a + m - b) (omega arith), e) (mod_once m a p)
]

pub two_pow_pos : (w : ℕ) → 0 < 2 ^ w
two_pow_pos zero = omega arith
two_pow_pos (suc w) = omega (arith, two_pow_pos w, pow-suc 2 w)
