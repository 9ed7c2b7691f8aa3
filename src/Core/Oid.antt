-- ===== src/Core/Oid.antt =====
-- modules/core/include/synapsefs/core/oid.hpp and modules/core/src/oid.cpp: object identities and
-- their text. The digest that makes an identity is a library's, and is left out.
pub mod Text
use Prim.Native.Nat.{bit_or}
use synapse_fs.Prelude.{
  ℕ, ◌+◌, ◌-◌, ◌*◌, ◌/◌, ◌%◌, ◌≡◌, ap, ◌↔◌, Bool, true, not, ◌&&◌, ◌||◌, Option, none, some, [],
  ◌∷◌, ◌++◌, ltb, leb, ◌==◌, if◌then◌else◌, length, take, drop,
}
use synapse_fs.Prelude.Bytes.{Bytes, bytes_eq, bytes_eq_iff}
use synapse_fs.Core.Error.{malformed_object, Result, ok, err, ◌>>=◌, ◌>>◌}

pub record Oid : Type 0 where
  pub raw : Bytes

unfoldable pub oid_eq : Oid → Oid → Bool
unfolding bytes_eq
oid_eq a b = bytes_eq a.raw b.raw

pub oid_eq_iff : (a b : Oid) → (oid_eq a b ≡ true) ↔ (a ≡ b)
unfolding oid_eq
oid_eq_iff a b =
    let (there, back) = bytes_eq_iff a.raw b.raw in
    (λ h. λ i. record { raw = there h i }, λ e. back (ap (λ (o : Oid). o.raw) e))

-- "b3:"
abbrev pub prefix : Bytes
prefix = 98 ∷ 51 ∷ 58 ∷ []

-- The value of a digit; -1 is `none`.
unfoldable pub hex_nibble : ℕ → Option ℕ
hex_nibble c =
    if leb 48 c && leb c 57
    then some (c - 48)
    else if leb 97 c && leb c 102
    then some (c - 97 + 10)
    else if leb 65 c && leb c 70
    then some (c - 65 + 10)
    else none

-- `(hi << 4) | lo` as a byte.
unfoldable pub join_nibbles : Option ℕ → Option ℕ → Result ℕ
join_nibbles (some hi) (some lo) = ok (bit_or (hi * 16) lo % 256)
join_nibbles none lo = err malformed_object
join_nibbles (some hi) none = err malformed_object

-- The loop of parse over the digits, two in each round; their number has been tested.
unfoldable pub parse_hex : Bytes → Result Bytes
unfolding hex_nibble join_nibbles
parse_hex [] = ok []
parse_hex (h ∷ []) = ok []
parse_hex (h ∷ l ∷ rest) = do
  b ← join_nibbles (hex_nibble h) (hex_nibble l)
  bs ← parse_hex rest
  ok (b ∷ bs)

unfoldable pub parse : Bytes → Result Oid
unfolding parse_hex bytes_eq
parse s =
    if not (length s == 67) || not (bytes_eq (take 3 s) prefix)
    then err malformed_object
    else (parse_hex (drop 3 s) >>= λ bs. ok (record { raw = bs }))

unfoldable pub from_bytes : Bytes → Result Oid
from_bytes b = if not (length b == 32) then err malformed_object else ok (record { raw = b })

-- `kHex[v]`.
unfoldable pub hex_digit : ℕ → ℕ
hex_digit v = if ltb v 10 then 48 + v else 87 + v

unfoldable pub hex_text : Bytes → Bytes
unfolding hex_digit
hex_text [] = []
hex_text (b ∷ bs) = hex_digit (b / 16) ∷ hex_digit (b % 16) ∷ hex_text bs

unfoldable pub oid_text : Oid → Bytes
unfolding hex_text
oid_text o = prefix ++ hex_text o.raw

-- "b3:" and the first 12 digits.
unfoldable pub abbrev_text : Oid → Bytes
unfolding oid_text
abbrev_text o = take 15 (oid_text o)

unfoldable pub fanout_path : Oid → Bytes
unfolding hex_text
fanout_path o = hex_text (take 1 o.raw) ++ (47 ∷ hex_text (drop 1 o.raw))
