-- ===== src/Codec/Gather/Fill.antt =====
-- gather_base_bytes against the bytes of the base group.
use mathlib.Core.Path.{subst}
use synapse_fs.Core.Error.{Result, ok}
use synapse_fs.Core.Tensor.{unit_bytes, UnitRun, indices_from, run_units, IsMaximal}
use synapse_fs.Codec.Permute.{dependency_runs, Named, dependency_runs-Named}
use synapse_fs.Codec.Gather.{
  Offsets, find_offset, add_units, place_units, read_whole, fill_runs, gather_base_bytes,
}
use synapse_fs.Codec.Gather.Units.{
  unit_at, units_at, Located, Known, Fits, Located-append, Located-cons, Known-cons, unit_in_run,
}
use synapse_fs.Prelude.{
  ℕ, zero, suc, ◌+◌, ◌-◌, ◌*◌, ◌%◌, ◌^◌, ◌≤◌, ◌<◌, ◌≡◌, refl, sym, ap, ◌∙◌, ◌⊎◌, inl, inr, true,
  some, List, [], ◌∷◌, ◌++◌, arith, ◌==◌, length, take, drop, length-take, length-drop,
}
use synapse_fs.Prelude.Bytes.{Bytes, All}
use synapse_fs.Prelude.Bits.{mod_small}

module _ (content : Bytes) (unit_bytes : ℕ) (scratch got : Bytes) (run : UnitRun)
    (is_got : got ≡ take (run.count * unit_bytes) (drop (run.first * unit_bytes) content))
    (sized : length got ≡ run.count * unit_bytes) (fits : Fits content unit_bytes run) where
  add_units-Located :
      (left k : ℕ) (offs : Offsets)
      → k + left ≡ run.count
      → Located content unit_bytes (scratch ++ got) offs
      → Located content unit_bytes
          (scratch ++ got)
          (add_units run.first (length scratch) unit_bytes k left offs)
        × ((u : ℕ)
            → Known offs u ⊎ Named u (indices_from (run.first + k) left)
            → Known (add_units run.first (length scratch) unit_bytes k left offs) u)
  unfolding add_units
  add_units-Located zero k offs h located =
      (located, λ u m. elim m [ inl x ↦ x | inr z ↦ elim z [ ] ])
  add_units-Located (suc left) k offs h located =
      let (room, bytes) =
        unit_in_run content unit_bytes scratch got run is_got sized fits k (omega arith) in
      let small : (run.first + k) % 2 ^ 32 ≡ run.first + k =
        mod_small (2 ^ 32) (run.first + k) (omega (arith, fits.1)) in
      let next : run.first + (k + 1) ≡ suc (run.first + k) = omega arith in
      let entry = (run.first + k) % 2 ^ 32 in
      let (there, known) =
        add_units-Located left (k + 1) ((entry, length scratch + k * unit_bytes) ∷ offs)
          (omega arith)
          (Located-cons content unit_bytes (scratch ++ got) offs entry
            (length scratch + k * unit_bytes) room
            (bytes ∙ ap (unit_at content unit_bytes) (sym small)) located) in
      (
        there,
        λ u m. known u (elim m [
          | inl old ↦ inl (Known-cons offs entry (length scratch + k * unit_bytes) u (inr old))
          | inr (inl e) ↦
              inl (Known-cons offs entry (length scratch + k * unit_bytes) u (inl (small ∙ e)))
          | inr (inr later) ↦ inr (rw next later)
        ]),
      )

Named-append : (u : ℕ) (xs ys : List ℕ) → Named u (xs ++ ys) → Named u xs ⊎ Named u ys
Named-append u [] ys m = inr m
Named-append u (x ∷ xs) ys (inl e) = inl (inl e)
Named-append u (x ∷ xs) ys (inr m) = elim (Named-append u xs ys m) [
  | inl l ↦ inl (inr l)
  | inr r ↦ inr r
]

indices_from-Named : (first count k : ℕ) → k < count → Named (first + k) (indices_from first count)
indices_from-Named first zero k h = absurd (omega arith)
indices_from-Named first (suc count) zero h = inl (omega arith)
indices_from-Named first (suc count) (suc k) h =
    let step : first + suc k ≡ suc first + k = omega arith in
    inr (
      subst (λ n. Named n (indices_from (suc first) count)) (sym step)
        (indices_from-Named (suc first) count k (omega arith)))

Named-append_left : (u : ℕ) (xs ys : List ℕ) → Named u xs → Named u (xs ++ ys)
Named-append_left u [] ys m = elim m [ ]
Named-append_left u (x ∷ xs) ys (inl e) = inl e
Named-append_left u (x ∷ xs) ys (inr m) = inr (Named-append_left u xs ys m)

Named-append_right : (u : ℕ) (xs ys : List ℕ) → Named u ys → Named u (xs ++ ys)
Named-append_right u [] ys m = m
Named-append_right u (x ∷ xs) ys m = inr (Named-append_right u xs ys m)

-- Each unit is a number of 32 bits, and lies within the group.
abbrev pub Within : Bytes → ℕ → List ℕ → Type 0
Within content unit_bytes us =
    (u : ℕ) → Named u us → (u < 2 ^ 32) × ((u + 1) * unit_bytes ≤ length content)

run-Fits :
    (content : Bytes) (unit_bytes : ℕ) (run : UnitRun) (rest : List ℕ)
    → 0 < run.count
    → Within content unit_bytes (indices_from run.first run.count ++ rest)
    → Fits content unit_bytes run
run-Fits content unit_bytes run rest some_unit inside =
    let last = run.first + (run.count - 1) in
    let (small, room) = inside last (
      Named-append_left last (indices_from run.first run.count) rest
        (indices_from-Named run.first run.count (run.count - 1) (omega arith))) in
    let whole : last + 1 ≡ run.first + run.count = omega arith in (rw whole at room, omega arith)

runs-Fits :
    (content : Bytes) (unit_bytes : ℕ) (runs : List UnitRun)
    → IsMaximal runs
    → Within content unit_bytes (run_units runs)
    → All (Fits content unit_bytes) runs
runs-Fits content unit_bytes [] m inside = tt
runs-Fits content unit_bytes (r ∷ []) m inside = (run-Fits content unit_bytes r [] m inside, tt)
runs-Fits content unit_bytes (r ∷ (q ∷ rs)) m inside = (
  run-Fits content unit_bytes r (run_units (q ∷ rs)) m.0 inside,
  runs-Fits content unit_bytes (q ∷ rs) m.2 (λ u n.
      inside u (Named-append_right u (indices_from r.first r.count) (run_units (q ∷ rs)) n)),
)

find_offset-nil : (u off : ℕ) → find_offset u [] ≡ some off → ⊥
unfolding find_offset
find_offset-nil u off h = cc

place_units-Known :
    (content : Bytes) (unit_bytes : ℕ) (scratch : Bytes) (offs : Offsets) (us : List ℕ)
    → Located content unit_bytes scratch offs
    → ((u : ℕ) → Named u us → Known offs u)
    → place_units unit_bytes scratch offs us ≡ ok (units_at content unit_bytes us)
unfolding place_units
place_units-Known content unit_bytes scratch offs [] located known = refl
place_units-Known content unit_bytes scratch offs (u ∷ us) located known =
    let (off, found) = known u (inl refl) in
    let rest =
      place_units-Known content unit_bytes scratch offs us located (λ v m. known v (inr m)) in
    rw (place_units, found, rest, (located u off found).1) refl

module _ (content : Bytes) (unit_bytes : ℕ) (read_base : ℕ → ℕ → Result (Bytes × ℕ))
    (serves : (offset size : ℕ)
      → offset + size ≤ length content
      → read_base offset size ≡ ok (take size (drop offset content), size))
    (small : length content < 2 ^ 64) where
  read_whole-serves :
      (offset size : ℕ)
      → offset + size ≤ length content
      → read_whole read_base (offset % 2 ^ 64) (size % 2 ^ 64)
        ≡ ok (take size (drop offset content))
  unfolding read_whole
  read_whole-serves offset size h =
      let whole : (size == size) ≡ true = ground arith in
      rw
        (
          mod_small (2 ^ 64) offset (omega arith),
          mod_small (2 ^ 64) size (omega arith),
          serves offset size h,
          whole,
        )
        refl

  fill_runs-Located :
      (runs : List UnitRun) (scratch : Bytes) (offs : Offsets)
      → All (Fits content unit_bytes) runs
      → Located content unit_bytes scratch offs
      → (scratch' : Bytes) × (offs' : Offsets) × (fill_runs read_base unit_bytes runs scratch offs
          ≡ ok (scratch', offs'))
        × Located content unit_bytes scratch' offs'
        × ((u : ℕ) → Known offs u ⊎ Named u (run_units runs) → Known offs' u)
  unfolding fill_runs
  fill_runs-Located [] scratch offs fits located =
      (scratch, offs, refl, located, λ u m. elim m [ inl x ↦ x | inr z ↦ elim z [ ] ])
  fill_runs-Located (run ∷ runs) scratch offs fits located =
      let size = run.count * unit_bytes in
      let offset = run.first * unit_bytes in
      let got = take size (drop offset content) in
      let bound : offset + size ≤ length content = grind (arith, fits.0.0) in
      let len : length got ≡ size =
        omega (arith, length-take size (drop offset content), length-drop offset content) in
      let (there, added) =
        add_units-Located content unit_bytes scratch got run refl len fits.0 run.count 0 offs
          (omega arith) (Located-append content unit_bytes scratch got offs located) in
      let (scratch', offs', filled, placed, known) =
        fill_runs-Located runs (scratch ++ got)
          (add_units run.first (length scratch) unit_bytes 0 run.count offs) fits.1 there in
      (
        scratch',
        offs',
        rw (read_whole-serves offset size bound) filled,
        placed,
        λ u m. known u (elim m [
          | inl old ↦ inl (added u (inl old))
          | inr n ↦ elim (Named-append u (indices_from run.first run.count) (run_units runs) n) [
            | inl here ↦ inl (
                added u
                  (inr (let start : run.first + 0 ≡ run.first = omega arith in rw start here)))
            | inr later ↦ inr later
          ]
        ]),
      )

  -- Where the base group's reader gives the group's bytes, the gather of a range of the target by a
  -- permutation that is not empty gives, unit by unit, the base unit that the permutation
  -- names, though it reads them in runs and in another order. The units have numbers of 32 bits
  -- and lie within the group, which is below 2 ^ 64 bytes, and the range is one.
  pub gather_base_bytes_lem :
      (p : ℕ) (ps : List ℕ) (unit_begin unit_end : ℕ)
      → unit_begin ≤ unit_end
      → unit_end < 2 ^ 64
      → Within content unit_bytes (take (unit_end - unit_begin) (drop unit_begin (p ∷ ps)))
      → gather_base_bytes read_base (p ∷ ps) unit_begin unit_end unit_bytes
        ≡ ok (units_at content unit_bytes (take (unit_end - unit_begin) (drop unit_begin (p ∷ ps))))
  unfolding gather_base_bytes
  gather_base_bytes_lem p ps unit_begin unit_end order bound inside =
      let count : (unit_end + 2 ^ 64 - unit_begin) % 2 ^ 64 ≡ unit_end - unit_begin = omega arith in
      let slice = take (unit_end - unit_begin) (drop unit_begin (p ∷ ps)) in
      let runs = dependency_runs (p ∷ ps) unit_begin (unit_end - unit_begin) in
      let units = λ (u : ℕ). dependency_runs-Named (p ∷ ps) unit_begin (unit_end - unit_begin) u in
      let fits =
        runs-Fits content unit_bytes runs (units 0).1 (λ u n. inside u ((units u).0.0 n)) in
      let (scratch, offs, filled, located, known) =
        fill_runs-Located runs [] [] fits (λ u off h. absurd (find_offset-nil u off h)) in
      rw (count, filled)
        (place_units-Known content unit_bytes scratch offs slice located
          (λ u n. known u (inr ((units u).0.1 n))))
