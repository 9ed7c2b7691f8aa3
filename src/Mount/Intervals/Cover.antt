-- ===== src/Mount/Intervals/Cover.antt =====
-- Every offset of the file lies in the interval that `find` gives for it.
use synapse_fs.Format.Manifest.{GroupEntry, BufferEntry, Manifest, validate}
use synapse_fs.Format.Manifest.Layout.{extent, Contiguous, start_of, validate-Contiguous}
use Prim.Native.Nat.add
use synapse_fs.Mount.Intervals.{
  Interval, IntervalTable, group_index_for, grow, build_from, insert_interval, sort_intervals,
  header_len_of, pushed, build, last_not_behind, find,
}
use synapse_fs.Prelude.{
  ℕ, ◌+◌, ◌%◌, ◌^◌, ◌≤◌, ◌<◌, ◌≡◌, refl, sym, ◌∙◌, ◌≢◌, inl, inr, false, none, some, List, [], ◌∷◌,
  arith, ltb, ltb→lt, Bool-cases, set, get_or,
}
use synapse_fs.Prelude.Bytes.{Bytes}
use synapse_fs.Core.Error.{ok, >>=-eq-ok}
use mathlib.Core.Path.{subst}

-- Intervals that follow each other with no gap, from `start` to `stop`, none empty.
abbrev pub Chain : ℕ → List Interval → ℕ → Type 0
Chain start [] stop = start ≡ stop
Chain start (iv ∷ ivs) stop =
    (iv.file_offset ≡ start) × (0 < iv.length) × Chain (start + iv.length) ivs stop

abbrev pub Holds : ℕ → Interval → Type 0
Holds offset iv = (iv.file_offset ≤ offset) × (offset < iv.file_offset + iv.length)

-- Inserting in front of a chain changes no order.
insert_interval-Chain :
    (iv : Interval) (ivs : List Interval) (stop : ℕ)
    → Chain (iv.file_offset + iv.length) ivs stop
    → insert_interval iv ivs ≡ iv ∷ ivs
unfolding insert_interval
insert_interval-Chain iv [] stop c = refl
insert_interval-Chain iv (x ∷ xs) stop c = ground arith

sort_intervals-Chain :
    (start stop : ℕ) (ivs : List Interval) → Chain start ivs stop → sort_intervals ivs ≡ ivs
unfolding sort_intervals
sort_intervals-Chain start stop [] c = refl
sort_intervals-Chain start stop (iv ∷ ivs) c =
    rw (sort_intervals-Chain (start + iv.length) stop ivs c.2)
      (insert_interval-Chain iv ivs stop (rw c.0 c.2))

-- The scan through a chain that begins where `p` ends.
last_not_behind-Chain :
    (offset start stop : ℕ) (p : Interval) (ivs : List Interval)
    → Chain start ivs stop
    → p.file_offset ≤ offset
    → p.file_offset + p.length ≡ start
    → offset < stop
    → (iv : Interval) × (last_not_behind offset (some p) ivs ≡ some iv) × Holds offset iv
unfolding last_not_behind
last_not_behind-Chain offset start stop p [] c lo eq hi = (p, refl, (lo, omega arith))
last_not_behind-Chain offset start stop p (iv ∷ ivs) c lo eq hi =
    elim (Bool-cases (ltb offset iv.file_offset)) [
      | inl behind ↦ rw behind (p, refl, (lo, ground arith))
      | inr not_behind ↦ rw not_behind (
          last_not_behind-Chain offset (start + iv.length) stop iv ivs c.2 (ground arith)
            (omega arith) hi)
    ]

find-Chain :
    (t : IntervalTable) (ivs : List Interval) (offset : ℕ)
    → t.intervals ≡ ivs
    → Chain 0 ivs t.total_bytes
    → offset < t.total_bytes
    → (iv : Interval) × (find t offset ≡ some iv) × Holds offset iv
unfolding find last_not_behind
find-Chain t [] offset e c h = absurd (omega arith)
find-Chain t (iv ∷ ivs) offset e c h =
    let (found, at, holds) =
      last_not_behind-Chain offset (0 + iv.length) t.total_bytes iv ivs c.2 (omega arith)
        (omega arith) h in
    (found, found_at found at holds, holds)
  where
    found_at :
        (found : Interval)
        → last_not_behind offset (some iv) ivs ≡ some found
        → Holds offset found
        → find t offset ≡ some found
    found_at found at holds = rw e (ground (arith, at))

find-outside : (t : IntervalTable) (offset : ℕ) → t.total_bytes ≤ offset → find t offset ≡ none
unfolding find
find-outside t offset h = ground arith

build_from-Chain :
    (groups : List (Bytes × GroupEntry)) (start : ℕ) (es : List BufferEntry) (gs : List Bytes)
    (cursors : List ℕ)
    → Contiguous groups start es
    → Chain start (build_from es gs cursors).0 (start + extent es)
unfolding build_from
build_from-Chain groups start [] gs cursors c = omega arith
build_from-Chain groups start (e ∷ es) gs cursors c =
    let found = group_index_for e.group gs in
    let cursors' = grow found.0 cursors in
    let at = get_or cursors' found.0 0 in
    let rest =
      build_from-Chain groups (start + e.nbytes) es found.1
        (set cursors' found.0 ((at + e.nbytes) % 2 ^ 64)) c.3 in
    let sum : start + (e.nbytes + extent es) ≡ start + e.nbytes + extent es = omega arith in
    rw sum (c.0, c.1, rest)

header_len_of_lem : (m : Manifest) → m.buffer ≢ [] → header_len_of m ≡ start_of m.buffer
unfolding header_len_of
header_len_of_lem m some_entry = ground arith

pushed-Chain :
    (m : Manifest)
    → m.buffer ≢ []
    → Contiguous m.groups (start_of m.buffer) m.buffer
    → Chain 0 (pushed m) (start_of m.buffer + extent m.buffer)
unfolding pushed
pushed-Chain m some_entry c =
    let len = header_len_of_lem m some_entry in
    let start = start_of m.buffer in
    let entries = build_from-Chain m.groups start m.buffer [] [] c in
    elim (Bool-cases (ltb 0 start)) [
      | inl pos ↦
          rw (len, pos)
            (
              refl,
              ltb→lt 0 start pos,
              subst (λ s. Chain s (build_from m.buffer [] []).0 (start + extent m.buffer))
                  (sym (add.zero start)) entries,
            )
      | inr none_before ↦
          rw (len, none_before)
            (subst (λ s. Chain s (build_from m.buffer [] []).0 (start + extent m.buffer))
              (zero_start none_before) entries)
    ]
  where
    zero_start : ltb 0 (start_of m.buffer) ≡ false → start_of m.buffer ≡ 0
    zero_start h = ground arith

build_parts :
    (m : Manifest) (t : IntervalTable)
    → build m ≡ ok t
    → (validate m ≡ ok tt)
      × (t.intervals ≡ sort_intervals (pushed m))
      × (t.groups ≡ (build_from m.buffer [] []).1)
      × (t.total_bytes ≡ m.file.total_bytes)
unfolding build
build_parts m t h =
    let (u, valid, eq) = >>=-eq-ok (validate m) _ h in
    (valid, ground arith, ground arith, ground arith)

-- The intervals of the table, which the sort leaves as they were pushed, have no gap.
build-Chain :
    (m : Manifest) (t : IntervalTable)
    → start_of m.buffer + extent m.buffer < 2 ^ 64
    → build m ≡ ok t
    → (t.intervals ≡ pushed m) × Chain 0 t.intervals t.total_bytes
build-Chain m t fits h =
    let (valid, sorted, groups, total) = build_parts m t h in
    let (some_entry, layout, size) = validate-Contiguous m fits valid in
    let chain = rw size at (pushed-Chain m some_entry layout) in
    let same = sorted ∙ sort_intervals-Chain 0 m.file.total_bytes (pushed m) chain in
    (same, rw (same, total) chain)

-- The table of a valid manifest gives, for every offset below the total size, an interval that
-- holds it, and none from there on; the header and the buffer are assumed to fit into 64 bits.
pub find-build :
    (m : Manifest) (t : IntervalTable) (offset : ℕ)
    → start_of m.buffer + extent m.buffer < 2 ^ 64
    → build m ≡ ok t
    → (offset < m.file.total_bytes → (iv : Interval) × (find t offset ≡ some iv) × Holds offset iv)
      × (m.file.total_bytes ≤ offset → find t offset ≡ none)
find-build m t offset fits h =
    let (same, chain) = build-Chain m t fits h in
    let (valid, sorted, groups, total) = build_parts m t h in
    (
      λ inside. find-Chain t t.intervals offset refl chain (rw total inside),
      λ outside. find-outside t offset (rw total outside),
    )
