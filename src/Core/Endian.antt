-- ===== src/Core/Endian.antt =====
-- modules/core/include/synapsefs/core/endian.hpp. A value of an unsigned type of `w` bytes is a
-- number, and its little-endian bytes are its digits to the base 256, the lowest first, on every
-- host.
use native.Mathlib.Nat.{pow-suc}
use synapse_fs.Prelude.{
  ℕ, zero, suc, ◌+◌, ◌*◌, ◌/◌, ◌%◌, ◌^◌, ◌≤◌, ◌<◌, ◌≡◌, refl, ap, Option, none, some, [], ◌∷◌, ◌++◌,
  arith, ltb, if◌then◌else◌, length, take, drop, length-take, take-append_len, drop-append_len,
}
use synapse_fs.Prelude.Bytes.{Bytes, IsBytes}

-- The digits of the range that load_le reads.
unfoldable pub from_le : Bytes → ℕ
from_le [] = 0
from_le (b ∷ bs) = b + 256 * from_le bs

-- The bytes that store_le writes for a value of `w` bytes.
unfoldable pub store_le : ℕ → ℕ → Bytes
store_le zero v = []
store_le (suc w) v = (v % 256) ∷ store_le w (v / 256)

-- load_le<T> at `off`, for a T of `w` bytes; it does not look at the end of the range.
unfoldable pub load_le : ℕ → Bytes → ℕ → ℕ
unfolding from_le
load_le w buf off = from_le (take w (drop off buf))

-- std::memcpy into a buffer, at `off`.
unfoldable pub write_at : Bytes → ℕ → Bytes → Bytes
write_at buf off src = take off buf ++ (src ++ drop (off + length src) buf)

-- The bounds-checked read: `off + sizeof(T)` is a size_t of 64 bits, and wraps.
unfoldable pub try_load_le : ℕ → Bytes → ℕ → Option ℕ
unfolding load_le
try_load_le w buf off =
    if ltb (length buf) ((off + w) % 2 ^ 64) then none else some (load_le w buf off)

pub length-store_le : (w v : ℕ) → length (store_le w v) ≡ w
unfolding store_le
length-store_le zero v = refl
length-store_le (suc w) v = ap suc (length-store_le w (v / 256))

pub IsBytes-store_le : (w v : ℕ) → IsBytes (store_le w v)
unfolding store_le
IsBytes-store_le zero v = tt
IsBytes-store_le (suc w) v = (omega arith, IsBytes-store_le w (v / 256))

-- A value of `w` bytes is read back from the bytes that are written for it.
pub from_le-store_le : (w v : ℕ) → v < 256 ^ w → from_le (store_le w v) ≡ v
unfolding from_le store_le
from_le-store_le zero v h = omega arith
from_le-store_le (suc w) v h =
    let smaller : v / 256 < 256 ^ w = omega (arith, pow-suc 256 w) in
    omega (arith, from_le-store_le w (v / 256) smaller)

-- store_le at an offset inside the buffer, then load_le at that offset, is the value.
pub load_le-write_at :
    (w v off : ℕ) (buf : Bytes)
    → v < 256 ^ w
    → off + w ≤ length buf
    → load_le w (write_at buf off (store_le w v)) off ≡ v
unfolding load_le write_at
load_le-write_at w v off buf fits room =
    rw
      (
        drop-append_len (take off buf) (store_le w v ++ drop (off + length (store_le w v)) buf) off
            (omega (arith, length-take off buf)),
        take-append_len (store_le w v) (drop (off + length (store_le w v)) buf) w
            (length-store_le w v),
      )
      (from_le-store_le w v fits)

pub from_le-lt : (bs : Bytes) → IsBytes bs → from_le bs < 256 ^ length bs
unfolding from_le
from_le-lt [] h = omega arith
from_le-lt (b ∷ bs) h = omega (arith, from_le-lt bs h.1, pow-suc 256 (length bs))

-- The bytes of a value are the bytes that it was read from.
pub store_le-from_le : (bs : Bytes) → IsBytes bs → store_le (length bs) (from_le bs) ≡ bs
unfolding store_le from_le
store_le-from_le [] h = refl
store_le-from_le (b ∷ bs) h =
    let low : (b + 256 * from_le bs) % 256 ≡ b = omega (arith, h.0) in
    let high : (b + 256 * from_le bs) / 256 ≡ from_le bs = omega (arith, h.0) in
    rw (low, high, store_le-from_le bs h.1) refl
