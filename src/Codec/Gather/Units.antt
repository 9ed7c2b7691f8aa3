-- ===== src/Codec/Gather/Units.antt =====
-- The base bytes that are gathered are the units that the permutation names, in its order.
use synapse_fs.Core.Tensor.{unit_bytes, UnitRun}
use synapse_fs.Codec.Gather.{Offsets, find_offset}
use synapse_fs.Codec.Gather.Slices.{take-drop-append, take-drop-take, drop-drop}
use synapse_fs.Prelude.{
  ℕ, ◌+◌, ◌*◌, ◌^◌, ◌≤◌, ◌<◌, ◌≡◌, refl, sym, ap, ◌∙◌, ◌⊎◌, inl, inr, true, false, some, List, [],
  ◌∷◌, ◌++◌, arith, ◌==◌, ==_iff, Bool-cases, length, length-append, take, drop, drop-append_more,
}
use synapse_fs.Prelude.Bytes.{Bytes}

-- The unit `u` of a group's bytes.
abbrev pub unit_at : Bytes → ℕ → ℕ → Bytes
unit_at content unit_bytes u = take unit_bytes (drop (u * unit_bytes) content)

-- The units, one after the other.
abbrev pub units_at : Bytes → ℕ → List ℕ → Bytes
units_at content unit_bytes [] = []
units_at content unit_bytes (u ∷ us) =
    unit_at content unit_bytes u ++ units_at content unit_bytes us

-- The offset of a unit in the scratch bytes is where its bytes are.
abbrev pub Located : Bytes → ℕ → Bytes → Offsets → Type 0
Located content unit_bytes scratch offs =
    (u off : ℕ)
    → find_offset u offs ≡ some off
    → (off + unit_bytes ≤ length scratch)
      × (take unit_bytes (drop off scratch) ≡ unit_at content unit_bytes u)

abbrev pub Known : Offsets → ℕ → Type 0
Known offs u = (off : ℕ) × (find_offset u offs ≡ some off)

-- A run lies within the group, and its units are numbers of 32 bits.
abbrev pub Fits : Bytes → ℕ → UnitRun → Type 0
Fits content unit_bytes run =
    ((run.first + run.count) * unit_bytes ≤ length content) × (run.first + run.count ≤ 2 ^ 32)

pub Located-append :
    (content : Bytes) (unit_bytes : ℕ) (scratch more : Bytes) (offs : Offsets)
    → Located content unit_bytes scratch offs
    → Located content unit_bytes (scratch ++ more) offs
Located-append content unit_bytes scratch more offs located u off h =
    let (room, bytes) = located u off h in
    (
      omega (arith, length-append scratch more),
      take-drop-append unit_bytes off scratch more room ∙ bytes,
    )

-- One unit more is located.
pub Located-cons :
    (content : Bytes) (unit_bytes : ℕ) (scratch : Bytes) (offs : Offsets) (v at : ℕ)
    → at + unit_bytes ≤ length scratch
    → take unit_bytes (drop at scratch) ≡ unit_at content unit_bytes v
    → Located content unit_bytes scratch offs
    → Located content unit_bytes scratch ((v, at) ∷ offs)
unfolding find_offset
Located-cons content unit_bytes scratch offs v at room bytes located u off h =
    elim (Bool-cases (v == u)) [
      | inl same ↦
          let e = (==_iff v u).0 same in
          let place : at ≡ off = let there : some at ≡ some off = rw same at h in cc in
          rw (← place, ← e) (room, bytes)
      | inr other ↦ located u off (rw other at h)
    ]

pub Known-cons : (offs : Offsets) (v at u : ℕ) → (v ≡ u) ⊎ Known offs u → Known ((v, at) ∷ offs) u
unfolding find_offset
Known-cons offs v at u h = elim (Bool-cases (v == u)) [
  | inl same ↦ (at, rw same refl)
  | inr other ↦ elim h [
    | inl e ↦
        let no_way = (==_iff v u).1 e in
        let clash : false ≡ true = sym other ∙ no_way in absurd (cc)
    | inr (off, k) ↦ (off, rw other k)
  ]
]

-- Where the bytes of a run are behind `off`, all its units are located there.
module _ (content : Bytes) (unit_bytes : ℕ) (scratch got : Bytes) (run : UnitRun)
    (is_got : got ≡ take (run.count * unit_bytes) (drop (run.first * unit_bytes) content))
    (sized : length got ≡ run.count * unit_bytes) (fits : Fits content unit_bytes run) where
  pub unit_in_run :
      (k : ℕ)
      → k < run.count
      → (length scratch + k * unit_bytes + unit_bytes ≤ length (scratch ++ got))
        × (take unit_bytes (drop (length scratch + k * unit_bytes) (scratch ++ got))
            ≡ unit_at content unit_bytes (run.first + k))
  unit_in_run k h =
      let inside : k * unit_bytes + unit_bytes ≤ run.count * unit_bytes = grind arith in
      let place : (run.first + k) * unit_bytes ≡ run.first * unit_bytes + k * unit_bytes =
        grind arith in
      (
        omega (arith, length-append scratch got),
        rw
            (drop-append_more scratch got (length scratch) (k * unit_bytes)
              (length scratch + k * unit_bytes) refl refl)
            (ap (λ g. take unit_bytes (drop (k * unit_bytes) g)) is_got
              ∙ (take-drop-take unit_bytes (k * unit_bytes) (run.count * unit_bytes)
                    (drop (run.first * unit_bytes) content) inside
                  ∙ ap (take unit_bytes) (
                      drop-drop (k * unit_bytes) (run.first * unit_bytes)
                        ((run.first + k) * unit_bytes) content place))),
      )
