-- ===== src/Format/Manifest/Layout.antt =====
-- What Manifest::validate gives of the buffer layout.
use synapse_fs.Format.Manifest.{
  full, delta, GroupEntry, BufferEntry, Manifest, lookup_group, check_buffer, check_group,
  check_groups, validate_buffer, validate,
}
use synapse_fs.Prelude.{
  ℕ, ◌+◌, ◌%◌, ◌^◌, ◌<◌, ◌≡◌, sym, ◌∙◌, ◌≢◌, not, none, List, [], ◌∷◌, arith, ◌==◌, if◌then◌else◌,
}
use synapse_fs.Prelude.Bytes.{Bytes, All}
use synapse_fs.Core.Error.{tensor_not_in_buffer_layout, ok, err, >>=-eq-ok}
use synapse_fs.Prelude.Bits.{mod_small}

-- The sum of the extents.
abbrev pub extent : List BufferEntry → ℕ
extent [] = 0
extent (e ∷ es) = e.nbytes + extent es

-- The entries follow each other from `start` on with no gap, none is empty, and each names a group.
abbrev pub Contiguous : List (Bytes × GroupEntry) → ℕ → List BufferEntry → Type 0
Contiguous groups start [] = Unit
Contiguous groups start (e ∷ es) =
    (e.off ≡ start)
    × (0 < e.nbytes)
    × (lookup_group e.group groups ≢ none)
    × Contiguous groups (start + e.nbytes) es

check_buffer-cons :
    (groups : List (Bytes × GroupEntry)) (cursor : ℕ) (e : BufferEntry) (es : List BufferEntry)
    (last : ℕ)
    → check_buffer groups cursor (e ∷ es) ≡ ok last
    → (e.off ≡ cursor)
      × (0 < e.nbytes)
      × (lookup_group e.group groups ≢ none)
      × (check_buffer groups ((cursor + e.nbytes) % 2 ^ 64) es ≡ ok last)
unfolding check_buffer
check_buffer-cons groups cursor e es last h = ground arith

-- With a file that fits into 64 bits, the loop passes exactly for a contiguous buffer.
check_buffer-Contiguous :
    (groups : List (Bytes × GroupEntry)) (cursor : ℕ) (es : List BufferEntry) (last : ℕ)
    → cursor + extent es < 2 ^ 64
    → check_buffer groups cursor es ≡ ok last
    → Contiguous groups cursor es × (last ≡ cursor + extent es)
unfolding check_buffer
check_buffer-Contiguous groups cursor [] last fits h = (tt, ground arith)
check_buffer-Contiguous groups cursor (e ∷ es) last fits h =
    let (off, pos, known, rest) = check_buffer-cons groups cursor e es last h in
    let small = mod_small (2 ^ 64) (cursor + e.nbytes) (omega arith) in
    let (c, l) =
      check_buffer-Contiguous groups (cursor + e.nbytes) es last (omega arith) (rw small at rest) in
    ((off, pos, known, c), omega arith)

abbrev pub start_of : List BufferEntry → ℕ
start_of [] = 0
start_of (e ∷ es) = e.off

validate_buffer-Contiguous :
    (es : List BufferEntry) (m : Manifest)
    → start_of es + extent es < 2 ^ 64
    → validate_buffer es m ≡ ok tt
    → (es ≢ [])
      × Contiguous m.groups (start_of es) es
      × (start_of es + extent es ≡ m.file.total_bytes)
      × (check_groups m.groups ≡ ok tt)
unfolding validate_buffer
validate_buffer-Contiguous [] m fits h = cc
validate_buffer-Contiguous (e ∷ es) m fits h =
    let (last, passed, rest) = >>=-eq-ok (check_buffer m.groups e.off (e ∷ es)) _ h in
    let (layout, end) = check_buffer-Contiguous m.groups e.off (e ∷ es) last fits passed in
    let (total, groups) = size_matches last rest in (λ eq. cc, layout, sym end ∙ total, groups)
  where
    size_matches :
        (last : ℕ)
        → (if not (last == m.file.total_bytes)
            then err tensor_not_in_buffer_layout
            else check_groups m.groups)
          ≡ ok tt
        → (last ≡ m.file.total_bytes) × (check_groups m.groups ≡ ok tt)
    size_matches last q = ground arith

-- A manifest that passes has a buffer, whose entries lie one behind the other with no gap from
-- the first offset to the total size, none empty and each of a known group; the header and the
-- buffer are assumed to fit into 64 bits.
pub validate-Contiguous :
    (m : Manifest)
    → start_of m.buffer + extent m.buffer < 2 ^ 64
    → validate m ≡ ok tt
    → (m.buffer ≢ [])
      × Contiguous m.groups (start_of m.buffer) m.buffer
      × (start_of m.buffer + extent m.buffer ≡ m.file.total_bytes)
unfolding validate
validate-Contiguous m fits h =
    let (some_entry, layout, size, _) = validate_buffer-Contiguous m.buffer m fits h in
    (some_entry, layout, size)

-- What a group must be to pass, by its mode.
abbrev pub GroupOk : GroupEntry → Type 0
GroupOk g =
    ((g.mode ≡ full) → (g.block ≢ none) × (g.chain_depth ≡ 0))
    × ((g.mode ≡ delta) → (g.base ≢ none) × (g.diff_block ≢ none))

check_group-GroupOk : (g : GroupEntry) → check_group g ≡ ok tt → GroupOk g
unfolding check_group
check_group-GroupOk g h = (λ f. ground arith, λ d. ground arith)

check_groups-All :
    (gs : List (Bytes × GroupEntry)) → check_groups gs ≡ ok tt → All (λ p. GroupOk p.1) gs
unfolding check_groups
check_groups-All [] h = tt
check_groups-All ((name, g) ∷ gs) h =
    let (u, first, rest) = >>=-eq-ok (check_group g) (λ _. check_groups gs) h in
    (check_group-GroupOk g first, check_groups-All gs rest)

-- And each of its groups has, if it is full, a block and the depth 0, and, if it is a delta, a
-- base and a diff block.
pub validate-groups :
    (m : Manifest)
    → start_of m.buffer + extent m.buffer < 2 ^ 64
    → validate m ≡ ok tt
    → All (λ p. GroupOk p.1) m.groups
unfolding validate
validate-groups m fits h =
    check_groups-All m.groups (validate_buffer-Contiguous m.buffer m fits h).3
