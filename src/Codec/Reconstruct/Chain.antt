-- ===== src/Codec/Reconstruct/Chain.antt =====
-- The recursion of read_range_impl of modules/codec/src/reconstruct.cpp along a chain of bases, by
-- rounds: a round reads a group, and the next reads the group's base. `limit` answers
-- when the rounds have run out.
use synapse_fs.Core.Error.{Result, ok, Result-cases}
use synapse_fs.Prelude.{
  ℕ, zero, suc, ◌+◌, ◌-◌, ◌≤◌, ◌<◌, ◌≡◌, refl, ◌⊎◌, inl, inr, Option, none, some, arith, ltb,
  Bool-cases, Option-cases,
}
use synapse_fs.Prelude.Bytes.{Bytes}
use synapse_fs.Codec.Reconstruct.Group.{
  ReadCtx, read_from_base, read_delta, read_delta_range, read_found, read_range,
}
use synapse_fs.Format.Manifest.{GroupMode, full, delta, DeltaBase, GroupEntry, Manifest, find_group}
use mathlib.Core.Path.{fun_ext}
use synapse_fs.Core.Oid.{Oid}

-- How a group of a manifest is read, from an offset into given bytes.
abbrev pub Reader : Type 0
Reader = Manifest → Bytes → ℕ → Bytes → Result (Bytes × ℕ)

unfoldable pub read_chain : ReadCtx → Reader → ℕ → Reader
unfolding read_range
read_chain ctx limit zero manifest name offset out = limit manifest name offset out
read_chain ctx limit (suc rounds) manifest name offset out =
    read_range ctx (read_chain ctx limit rounds) manifest name offset out

mode-cases : (mode : GroupMode) → (mode ≡ full) ⊎ (mode ≡ delta)
mode-cases full = inl refl
mode-cases delta = inr refl

module _ (ctx : ReadCtx) (left right : Reader) (name : Bytes) (offset : ℕ) (out : Bytes) where
  -- The readers agree on the base of a group.
  Agree : GroupEntry → Type 0
  Agree g =
      (base : DeltaBase) (manifest_for : Oid → Result Manifest) (m : Manifest)
      → g.chain_depth ≤ ctx.max_depth
      → g.base ≡ some base
      → ctx.history ≡ some manifest_for
      → manifest_for base.commit ≡ ok m
      → left m base.group ≡ right m base.group

  read_from_base_cong :
      (manifest : Manifest) (base : DeltaBase) (diff : Oid) (manifest_for : Oid → Result Manifest)
      → ((m : Manifest) → manifest_for base.commit ≡ ok m → left m base.group ≡ right m base.group)
      → read_from_base ctx left manifest base diff name offset out manifest_for
        ≡ read_from_base ctx right manifest base diff name offset out manifest_for
  unfolding read_from_base
  read_from_base_cong manifest base diff manifest_for agree =
      elim (Result-cases (manifest_for base.commit)) [
        | inl (kind, h) ↦ rw h refl
        | inr (m, h) ↦ rw (h, agree m h) refl
      ]

  read_delta_cong :
      (manifest : Manifest) (depth : ℕ) (b : Option DeltaBase) (d : Option Oid)
      (history : Option (Oid → Result Manifest))
      → ((base : DeltaBase) (manifest_for : Oid → Result Manifest) (m : Manifest)
          → depth ≤ ctx.max_depth
          → b ≡ some base
          → history ≡ some manifest_for
          → manifest_for base.commit ≡ ok m
          → left m base.group ≡ right m base.group)
      → read_delta ctx left manifest depth name offset out b d history
        ≡ read_delta ctx right manifest depth name offset out b d history
  unfolding read_delta
  read_delta_cong manifest depth none d history agree = refl
  read_delta_cong manifest depth (some base) none history agree = refl
  read_delta_cong manifest depth (some base) (some diff) none agree = refl
  read_delta_cong manifest depth (some base) (some diff) (some manifest_for) agree =
      elim (Bool-cases (ltb ctx.max_depth depth)) [
        | inl deep ↦ rw deep refl
        | inr near ↦
            let within : depth ≤ ctx.max_depth = ground arith in
            rw near (
              read_from_base_cong manifest base diff manifest_for
                (λ m h. agree base manifest_for m within refl refl h))
      ]

  read_range_cong :
      (manifest : Manifest)
      → ((g : GroupEntry) → find_group manifest name ≡ some g → g.mode ≡ delta → Agree g)
      → read_range ctx left manifest name offset out ≡ read_range ctx right manifest name offset out
  unfolding read_range read_found read_delta_range Agree
  read_range_cong manifest agree = elim (Option-cases (find_group manifest name)) [
    | inl none_there ↦ rw none_there refl
    | inr (g, found) ↦ elim (mode-cases g.mode) [
      | inl is_full ↦ rw (found, is_full) refl
      | inr is_delta ↦
          rw (found, is_delta)
            (read_delta_cong manifest g.chain_depth g.base g.diff_block ctx.history
              (agree g found is_delta))
    ]
  ]

module _ (ctx : ReadCtx) (good : Manifest → Type 0)
    (descends : (m m' : Manifest) (name : Bytes) (g : GroupEntry) (base : DeltaBase)
        (manifest_for : Oid → Result Manifest)
      → good m
      → find_group m name ≡ some g
      → g.mode ≡ delta
      → g.base ≡ some base
      → ctx.history ≡ some manifest_for
      → manifest_for base.commit ≡ ok m'
      → good m'
        × ((g' : GroupEntry)
            → find_group m' base.group ≡ some g'
            → g'.chain_depth < g.chain_depth)) where
  -- The rounds that a group takes are not more than its depth, as long as that is allowed.
  read_chain_bounded :
      (before after : Reader) (bound r s : ℕ) (m : Manifest) (name : Bytes) (offset : ℕ)
      (out : Bytes)
      → good m
      → ((g : GroupEntry)
          → find_group m name ≡ some g
          → g.chain_depth ≤ ctx.max_depth
          → g.chain_depth < bound)
      → bound < r
      → bound < s
      → read_chain ctx before r m name offset out ≡ read_chain ctx after s m name offset out
  unfolding read_chain Agree
  read_chain_bounded before after bound zero s m name offset out fine few hr hs =
      absurd (omega arith)
  read_chain_bounded before after bound (suc r) zero m name offset out fine few hr hs =
      absurd (omega arith)
  read_chain_bounded before after bound (suc r) (suc s) m name offset out fine few hr hs =
      read_range_cong ctx (read_chain ctx before r) (read_chain ctx after s) name offset out m
        (λ g found is_delta base manifest_for m' near based hist parent.
          let (fine', shallow) : good m'
              × ((g' : GroupEntry)
                  → find_group m' base.group ≡ some g'
                  → g'.chain_depth < g.chain_depth) =
            descends m m' name g base manifest_for fine found is_delta based hist parent in
          let depth = few g found near in
          fun_ext (λ off. fun_ext (λ n.
            read_chain_bounded before after (bound - 1) r s m' base.group off n fine'
              (λ g' found' near'. omega (arith, shallow g' found', depth)) (omega (arith, depth))
              (omega (arith, depth)))))

  -- Where the depth that a manifest records for a group decreases from a delta to its base, and the
  -- manifests of base commits are again such, more rounds than the greatest depth allowed and
  -- one are enough: what a group is read as depends neither on their number nor on what
  -- answers when they run out.
  pub read_chain_settles :
      (before after : Reader) (r s : ℕ) (m : Manifest) (name : Bytes) (offset : ℕ) (out : Bytes)
      → good m
      → ctx.max_depth + 1 < r
      → ctx.max_depth + 1 < s
      → read_chain ctx before r m name offset out ≡ read_chain ctx after s m name offset out
  read_chain_settles before after r s m name offset out fine hr hs =
      read_chain_bounded before after (ctx.max_depth + 1) r s m name offset out fine
        (λ g found near. omega arith) hr hs
