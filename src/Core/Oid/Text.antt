-- ===== src/Core/Oid/Text.antt =====
-- The text of an identity reads back as it, and what is read is an identity.
use Prim.Native.Nat.{bit_or}
use synapse_fs.Core.Oid.{
  Oid, prefix, hex_nibble, join_nibbles, parse_hex, parse, hex_digit, hex_text, oid_text,
}
use synapse_fs.Core.Error.{ok, ◌>>=◌, >>=-eq-ok}
use synapse_fs.Prelude.{
  ℕ, ◌+◌, ◌-◌, ◌*◌, ◌/◌, ◌%◌, ◌<◌, ◌≡◌, refl, sym, ap, ◌∙◌, inl, inr, true, ◌&&◌, some, [], ◌∷◌,
  ◌++◌, map, arith, ltb, leb, ◌==◌, if◌then◌else◌, ==_iff, Bool-cases, Option-cases, length, take,
  drop, take-append-drop, length-drop,
}
use synapse_fs.Prelude.Bytes.{Bytes, bytes_eq, bytes_eq_iff, IsBytes}
use synapse_fs.Prelude.Bits.{all_below, all_below_sound}

bit_or_table : all_below 256 (λ v. bit_or (v / 16 * 16) (v % 16) == v) ≡ true
unfolding all_below
bit_or_table = refl

bit_or-join : (v : ℕ) → v < 256 → bit_or (v / 16 * 16) (v % 16) ≡ v
bit_or-join v h = (==_iff _ v).0 (all_below_sound 256 _ v bit_or_table h)

hex_nibble-hex_digit : (v : ℕ) → v < 16 → hex_nibble (hex_digit v) ≡ some v
unfolding hex_nibble hex_digit
hex_nibble-hex_digit v h = elim (Bool-cases (ltb v 10)) [
  | inl low ↦ ground arith
  | inr high ↦ ground arith
]

parse_hex-hex_text : (bs : Bytes) → IsBytes bs → parse_hex (hex_text bs) ≡ ok bs
unfolding parse_hex hex_text
parse_hex-hex_text [] h = refl
parse_hex-hex_text (b ∷ bs) h =
    let hi = hex_nibble-hex_digit (b / 16) (omega (arith, h.0)) in
    let lo = hex_nibble-hex_digit (b % 16) (omega arith) in
    let byte = bit_or-join b h.0 in
    let small : b % 256 ≡ b = omega (arith, h.0) in
    rw (hi, lo, join_nibbles, byte, small, parse_hex-hex_text bs h.1) refl

length-hex_text : (bs : Bytes) → length (hex_text bs) ≡ 2 * length bs
unfolding hex_text
length-hex_text [] = refl
length-hex_text (b ∷ bs) = omega (arith, length-hex_text bs)

-- The text of an identity of 32 bytes is read as that identity.
pub parse-oid_text : (o : Oid) → length o.raw ≡ 32 → IsBytes o.raw → parse (oid_text o) ≡ ok o
unfolding parse oid_text
parse-oid_text o len bytes =
    let size = length-hex_text o.raw in
    let digits = parse_hex-hex_text o.raw bytes in
    let whole : length (hex_text o.raw) ≡ 64 = omega arith in rw (whole, digits, parse) refl

-- The small letter of a digit.
abbrev pub lower : ℕ → ℕ
lower c = if leb 65 c && leb c 70 then c + 32 else c

hex_digit-hex_nibble : (c v : ℕ) → hex_nibble c ≡ some v → (v < 16) × (hex_digit v ≡ lower c)
unfolding hex_nibble hex_digit
hex_digit-hex_nibble c v h = ground arith

join_nibbles-ok :
    (c d b : ℕ)
    → join_nibbles (hex_nibble c) (hex_nibble d) ≡ ok b
    → (b < 256) × (hex_digit (b / 16) ≡ lower c) × (hex_digit (b % 16) ≡ lower d)
unfolding join_nibbles
join_nibbles-ok c d b h = elim (Option-cases (hex_nibble c)) [
  | inl e ↦ ground arith
  | inr (hi, eh) ↦ elim (Option-cases (hex_nibble d)) [
    | inl e ↦ ground arith
    | inr (lo, el) ↦
        let (small_hi, digit_hi) = hex_digit-hex_nibble c hi eh in
        let (small_lo, digit_lo) = hex_digit-hex_nibble d lo el in
        let v = hi * 16 + lo in
        let top : v / 16 ≡ hi = omega arith in
        let low : v % 16 ≡ lo = omega arith in
        let joined : bit_or (hi * 16) lo ≡ v = rw (top, low) at (bit_or-join v (omega arith)) in
        let got : join_nibbles (some hi) (some lo) ≡ ok b = rw (eh, el) at h in
        let value : bit_or (hi * 16) lo % 256 ≡ b = cc in
        let same : b ≡ v = omega arith in
        (omega arith, rw (same, top) digit_hi, rw (same, low) digit_lo)
  ]
]

hex_text-parse_hex :
    (k : ℕ) (hs bs : Bytes)
    → length hs ≡ 2 * k
    → parse_hex hs ≡ ok bs
    → (length bs ≡ k) × IsBytes bs × (hex_text bs ≡ map lower hs)
unfolding parse_hex hex_text
hex_text-parse_hex k [] bs len h =
    let none_left : [] ≡ bs = cc in rw (← none_left) (omega arith, tt, refl)
hex_text-parse_hex k (c ∷ []) bs len h = let odd : ⊥ = omega arith in elim odd [ ]
hex_text-parse_hex k (c ∷ d ∷ hs) bs len h =
    let (b, hb, h2) =
      >>=-eq-ok (join_nibbles (hex_nibble c) (hex_nibble d)) (λ b. parse_hex hs >>= λ r. ok (b ∷ r))
        h in
    let (r, hr, h3) = >>=-eq-ok (parse_hex hs) (λ r. ok (b ∷ r)) h2 in
    let same : b ∷ r ≡ bs = cc in
    let (small, top, low) = join_nibbles-ok c d b hb in
    let (size, bytes, text) = hex_text-parse_hex (k - 1) hs r (omega arith) hr in
    rw (← same) (omega arith, (small, bytes), λ j. top j ∷ low j ∷ text j)

parse-parts :
    (s : Bytes) (o : Oid)
    → parse s ≡ ok o
    → (length s ≡ 67)
      × (bytes_eq (take 3 s) prefix ≡ true)
      × ((parse_hex (drop 3 s) >>= λ bs. ok (record { raw = bs })) ≡ ok o)
unfolding parse
parse-parts s o h = elim (Bool-cases (bytes_eq (take 3 s) prefix)) [
  | inl start ↦ elim (Bool-cases (length s == 67)) [
    | inl size ↦ ((==_iff (length s) 67).0 size, start, rw (start, size) at h)
    | inr other ↦ ground arith
  ]
  | inr other ↦ ground arith
]

-- What is read as an identity has 32 bytes, and its text is what was read, in small letters: an
-- identity has one text in small letters and no other is accepted but for the case of letters.
pub oid_text-parse :
    (s : Bytes) (o : Oid)
    → parse s ≡ ok o
    → (length o.raw ≡ 32) × IsBytes o.raw × (oid_text o ≡ map lower s)
unfolding parse oid_text
oid_text-parse s o h =
    let (size, start, digits) = parse-parts s o h in
    let (bs, read, made) =
      >>=-eq-ok (parse_hex (drop 3 s)) (λ bs. ok (record { raw = bs })) digits in
    let (count, bytes, text) =
      hex_text-parse_hex 32 (drop 3 s) bs (omega (arith, length-drop 3 s)) read in
    let same : (record { raw = bs }) ≡ o = cc in
    let split : prefix ++ drop 3 s ≡ s =
      ap (λ p. p ++ drop 3 s) (sym ((bytes_eq_iff (take 3 s) prefix).0 start))
      ∙ take-append-drop 3 s in
    rw (← same) (count, bytes, ap (λ t. prefix ++ t) text ∙ ap (map lower) split)
