-- ===== src/Format/Diff/Tiling.antt =====
-- What a tiling that passes gives the reader: a frame for each unit.
use synapse_fs.Format.Diff.{
  FrameIndexEntry, check_frames, validate_tiling, frame_from, frame_for_unit,
}
use mathlib.Core.Path.{subst}
use synapse_fs.Core.Error.{ok}
use synapse_fs.Prelude.{
  ℕ, zero, suc, ◌+◌, ◌≤◌, ◌<◌, ◌≡◌, refl, sym, ap, ◌∙◌, inl, inr, false, ◌&&◌, some, List, [], ◌∷◌,
  arith, ltb, leb, Bool-cases, get_elem?,
}

-- The unit is in the frame.
abbrev pub HoldsUnit : ℕ → FrameIndexEntry → Type 0
HoldsUnit unit f = (f.unit_begin ≤ unit) × (unit < f.unit_end)

frame_from-skip :
    (i : ℕ) (f : FrameIndexEntry) (fs : List FrameIndexEntry) (unit : ℕ)
    → ltb unit f.unit_end ≡ false
    → frame_from i (f ∷ fs) unit ≡ frame_from (i + 1) fs unit
unfolding frame_from
frame_from-skip i f fs unit past = ground arith

frame_from-first :
    (i : ℕ) (frames : List FrameIndexEntry) (unit k j : ℕ) (f : FrameIndexEntry)
    → frame_from i frames unit ≡ some k
    → get_elem? frames j ≡ some f
    → HoldsUnit unit f
    → k ≤ i + j
unfolding frame_from
frame_from-first i [] unit k j f found at holds = cc
frame_from-first i (x ∷ xs) unit k zero f found at holds =
    let same : x ≡ f = cc in
    let here : HoldsUnit unit x = subst (HoldsUnit unit) (sym same) holds in ground arith
frame_from-first i (x ∷ xs) unit k (suc j) f found at holds =
    elim (Bool-cases (leb x.unit_begin unit && ltb unit x.unit_end)) [
      | inl here ↦ ground arith
      | inr past ↦
          let rest : frame_from (i + 1) xs unit ≡ some k = ground arith in
          let low = frame_from-first (i + 1) xs unit k j f rest at holds in omega arith
    ]

frame_from-check_frames :
    (i group_size unit : ℕ) (f : FrameIndexEntry) (fs : List FrameIndexEntry)
    → check_frames group_size f fs ≡ ok tt
    → f.unit_begin ≤ unit
    → unit < group_size
    → (k : ℕ) × (g : FrameIndexEntry) × (frame_from i (f ∷ fs) unit ≡ some (i + k))
      × (get_elem? (f ∷ fs) k ≡ some g)
      × HoldsUnit unit g
unfolding check_frames frame_from
frame_from-check_frames i size unit f [] h low high =
    (0, f, ground arith, refl, (low, ground arith))
frame_from-check_frames i size unit f (g ∷ gs) h low high =
    elim (Bool-cases (ltb unit f.unit_end)) [
      | inl here ↦ (0, f, ground arith, refl, (low, ground arith))
      | inr past ↦
          let joined : f.unit_end ≡ g.unit_begin = ground arith in
          let rest : check_frames size g gs ≡ ok tt = ground arith in
          let begun : g.unit_begin ≤ unit = ground arith in
          let (k, e, found, at, holds) =
            frame_from-check_frames (i + 1) size unit g gs rest begun high in
          let index : i + 1 + k ≡ i + suc k = omega arith in
          (suc k, e, frame_from-skip i f (g ∷ gs) unit past ∙ found ∙ ap some index, at, holds)
    ]

-- In a tiling that passes, every unit of the group is in the frame that the reader is sent to.
-- There need not be a frame for it alone: a frame may end before it begins.
pub frame_for_unit-validate_tiling :
    (frames : List FrameIndexEntry) (group_size unit : ℕ)
    → validate_tiling frames group_size ≡ ok tt
    → unit < group_size
    → (k : ℕ) × (f : FrameIndexEntry) × (frame_for_unit frames unit ≡ some k)
      × (get_elem? frames k ≡ some f)
      × HoldsUnit unit f
unfolding validate_tiling frame_for_unit
frame_for_unit-validate_tiling [] size unit h high = let no : ⊥ = ground arith in elim no [ ]
frame_for_unit-validate_tiling (f ∷ fs) size unit h high =
    let begun : f.unit_begin ≤ unit = ground arith in
    let rest : check_frames size f fs ≡ ok tt = ground arith in
    let (k, e, found, at, holds) = frame_from-check_frames 0 size unit f fs rest begun high in
    let index : 0 + k ≡ k = omega arith in (k, e, found ∙ ap some index, at, holds)

-- And the frame is the first that holds the unit: no frame before it does.
pub frame_for_unit-first :
    (frames : List FrameIndexEntry) (unit k j : ℕ) (f : FrameIndexEntry)
    → frame_for_unit frames unit ≡ some k
    → get_elem? frames j ≡ some f
    → HoldsUnit unit f
    → k ≤ j
unfolding frame_for_unit
frame_for_unit-first frames unit k j f found at holds =
    let low = frame_from-first 0 frames unit k j f found at holds in omega arith
