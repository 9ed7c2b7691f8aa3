-- ===== src/Store/Refs/Swap.antt =====
-- RefStore::update, against a compare-and-swap on a function from paths to texts.
use mathlib.Core.Path.{fun_ext}
use synapse_fs.Store.Files.{read_file, write_file, Write, written, read_file-write_file}
use synapse_fs.Core.Oid.{Oid, hex_digit, hex_text, oid_text}
use synapse_fs.Core.Error.{ref_race_lost, ok, err, Status}
use synapse_fs.Store.Refs.{
  RefStore, trim_step, trim, line_of, branch_ref_path, write_branch, update_at, update,
}
use synapse_fs.Prelude.{
  ℕ, ◌/◌, ◌%◌, ◌≤◌, ◌≡◌, refl, inl, inr, Bool, true, false, Option, none, some, [], ◌∷◌, arith,
  if◌then◌else◌, Bool-cases, Option-cases,
}
use synapse_fs.Prelude.Bytes.{Bytes, bytes_eq, All}

-- No byte is a line break.
abbrev pub HasNoBreak : Bytes → Type 0
HasNoBreak s = All (λ c. 14 ≤ c) s

-- A line without breaks is what is read of the file that write_line makes for it.
pub trim-line_of : (s : Bytes) → HasNoBreak s → trim (line_of s) ≡ s
unfolding trim trim_step
trim-line_of [] h = refl
trim-line_of (c ∷ []) h = ground (arith, h.0)
trim-line_of (c ∷ d ∷ ds) h = rw (trim-line_of (d ∷ ds) h.1) refl

hex_digit-HasNoBreak : (v : ℕ) → 14 ≤ hex_digit v
unfolding hex_digit
hex_digit-HasNoBreak v = ground arith

hex_text-HasNoBreak : (bs : Bytes) → HasNoBreak (hex_text bs)
unfolding hex_text
hex_text-HasNoBreak [] = tt
hex_text-HasNoBreak (b ∷ bs) =
    (hex_digit-HasNoBreak (b / 16), (hex_digit-HasNoBreak (b % 16), hex_text-HasNoBreak bs))

pub oid_text-HasNoBreak : (o : Oid) → HasNoBreak (oid_text o)
unfolding oid_text
oid_text-HasNoBreak o = (omega arith, (omega arith, (omega arith, hex_text-HasNoBreak o.raw)))

-- What a store promises of its branches: a function from a path to the text that it holds.
abbrev pub Branches : Type 0
Branches = Bytes → Option Bytes

abbrev pub text_of : Option Bytes → Option Bytes
text_of none = none
text_of (some content) = some (trim content)

abbrev pub expected_text : Option Oid → Option Bytes
expected_text none = none
expected_text (some o) = some (oid_text o)

abbrev pub branches : RefStore → Branches
branches s path = text_of (read_file path s.heads)

unfoldable pub same_text : Option Bytes → Option Bytes → Bool
same_text none none = true
same_text none (some b) = false
same_text (some a) none = false
same_text (some a) (some b) = bytes_eq a b

-- The swap happens if the path holds what is expected of it, and it alone changes.
unfoldable pub compare_and_swap : Branches → Bytes → Option Bytes → Bytes → Branches × Bool
unfolding same_text
compare_and_swap m path expected desired =
    if same_text (m path) expected
    then (λ other. if bytes_eq path other then some desired else m other, true)
    else (m, false)

unfoldable pub is_ok : Status → Bool
is_ok (ok u) = true
is_ok (err e) = false

swapped :
    (s : RefStore) (path : Bytes) (desired : Oid)
    → branches (record s { heads = write_file path (line_of (oid_text desired)) s.heads })
      ≡ (λ other. if bytes_eq path other then some (oid_text desired) else branches s other)
swapped s path desired = fun_ext λ other.
    rw (read_file-write_file other path (line_of (oid_text desired)) s.heads)
      (elim (Bool-cases (bytes_eq path other)) [
        | inl hit ↦ rw (hit, trim-line_of (oid_text desired) (oid_text-HasNoBreak desired)) refl
        | inr miss ↦ rw miss refl
      ])

-- What a step of a store does is the swap, an error leaves the store as it was, and HEAD stays.
abbrev pub Swaps : RefStore → Bytes → Option Oid → Oid → RefStore × Status → Type 0
Swaps s path expected desired r =
    (◌≡◌ {A = Branches × Bool} (branches r.0, is_ok r.1)
      (compare_and_swap (branches s) path (expected_text expected) (oid_text desired)))
    × (is_ok r.1 ≡ false → r ≡ (s, err ref_race_lost))
    × (r.0.head ≡ s.head)

refused-Swaps :
    (s : RefStore) (path : Bytes) (expected : Option Oid) (desired : Oid)
    → same_text (branches s path) (expected_text expected) ≡ false
    → Swaps s path expected desired (s, err ref_race_lost)
unfolding compare_and_swap is_ok
refused-Swaps s path expected desired differ = (rw differ refl, λ e. refl, refl)

module _ (writable : Bytes → Write) (can_write : (path : Bytes) → writable path ≡ written) where
  write-Swaps :
      (s : RefStore) (path : Bytes) (expected : Option Oid) (desired : Oid)
      → same_text (branches s path) (expected_text expected) ≡ true
      → Swaps s path expected desired (write_branch writable s path (oid_text desired))
  unfolding compare_and_swap write_branch is_ok
  write-Swaps s path expected desired fits = (
    rw (fits, can_write path) (λ i. (swapped s path desired i, true)),
    rw (can_write path) (λ e. cc),
    rw (can_write path) refl,
  )

  update_at-Swaps :
      (s : RefStore) (path : Bytes) (expected : Option Oid) (desired : Oid)
      → Swaps s path expected desired
          (update_at writable s path expected (read_file path s.heads) desired)
  unfolding update_at same_text
  update_at-Swaps s path none desired = elim (Option-cases (read_file path s.heads)) [
    | inl absent ↦ rw (absent, update_at) (write-Swaps s path none desired (rw absent refl))
    | inr (content, held) ↦ rw (held, update_at) (refused-Swaps s path none desired (rw held refl))
  ]
  update_at-Swaps s path (some o) desired = elim (Option-cases (read_file path s.heads)) [
    | inl absent ↦ rw (absent, update_at) (refused-Swaps s path (some o) desired (rw absent refl))
    | inr (content, held) ↦ elim (Bool-cases (bytes_eq (trim content) (oid_text o))) [
      | inl same ↦ rw (held, update_at, same) (write-Swaps s path (some o) desired (rw held same))
      | inr other ↦
          rw (held, update_at, other) (refused-Swaps s path (some o) desired (rw held other))
    ]
  ]

  -- If writes succeed, update is a compare-and-swap on what the branches hold: a branch that holds
  -- the text of the expected identity, or does not exist where none is expected, holds the text
  -- of the desired one afterwards, and no other branch changes. Otherwise the error is RefRaceLost
  -- and the store stays as it is. HEAD stays in either case.
  pub update_lem :
      (s : RefStore) (ref_name : Bytes) (expected : Option Oid) (desired : Oid)
      → Swaps s
          (branch_ref_path ref_name)
          expected
          desired
          (update writable s ref_name expected desired)
  unfolding update
  update_lem s ref_name expected desired =
      update_at-Swaps s (branch_ref_path ref_name) expected desired
