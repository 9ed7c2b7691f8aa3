-- ===== src/Store/Gc/Sweep.antt =====
-- What the loops of gc let be.
use synapse_fs.Core.Oid.{Oid}
use synapse_fs.Store.Dag.{contains}
use synapse_fs.Store.Gc.{TempFile, ObjectFile, GcReport, sweep_file, sweep_temp_dir, sweep_objects}
use synapse_fs.Prelude.{
  ℕ, ◌≡◌, refl, sym, ap, ◌∙◌, ◌↔◌, ◌⊎◌, inl, inr, Bool, true, false, not, ◌&&◌, ◌||◌, List, [], ◌∷◌,
  if◌then◌else◌, Bool-cases, Option-cases,
}

-- A file of a list.
abbrev pub HoldsFile : ObjectFile → List ObjectFile → Type 0
HoldsFile f [] = ⊥
HoldsFile f (g ∷ gs) = (g ≡ f) ⊎ HoldsFile f gs

-- The test by which the loop lets a file be.
abbrev pub keeps : List Oid → Bool → ObjectFile → Bool
keeps live dry_run f = (contains live f.oid || (not dry_run && not f.removable)) || dry_run

abbrev pub kept_of : List Oid → Bool → List ObjectFile → List ObjectFile
kept_of live dry_run [] = []
kept_of live dry_run (f ∷ fs) =
    if keeps live dry_run f then f ∷ kept_of live dry_run fs else kept_of live dry_run fs

-- What stays does not depend on the counts.
pub sweep_objects-kept_of :
    (live : List Oid) (dry_run : Bool) (fs : List ObjectFile) (report : GcReport)
    → (sweep_objects live dry_run fs report).0 ≡ kept_of live dry_run fs
unfolding sweep_objects
sweep_objects-kept_of live dry_run [] report = refl
sweep_objects-kept_of live dry_run (f ∷ fs) report =
    ap (λ kept. if keeps live dry_run f then f ∷ kept else kept)
      (sweep_objects-kept_of live dry_run fs _)

pub HoldsFile-kept_of :
    (live : List Oid) (dry_run : Bool) (fs : List ObjectFile) (f : ObjectFile)
    → HoldsFile f (kept_of live dry_run fs) ↔ (HoldsFile f fs × (keeps live dry_run f ≡ true))
HoldsFile-kept_of live dry_run [] f = (λ m. elim m [ ], λ m. elim m.0 [ ])
HoldsFile-kept_of live dry_run (g ∷ gs) f =
    let ih = HoldsFile-kept_of live dry_run gs f in
    elim (Bool-cases (keeps live dry_run g)) [
      | inl stays ↦ rw stays (
        λ m. elim m [
          | inl e ↦ (inl e, ap (λ x. keeps live dry_run x) (sym e) ∙ stays)
          | inr r ↦ let (h, k) = ih.0 r in (inr h, k)
        ],
        λ m. elim m.0 [ inl e ↦ inl e | inr r ↦ inr (ih.1 (r, m.1)) ],
      )
      | inr goes ↦ rw goes (
        λ m. let (h, k) = ih.0 m in (inr h, k),
        λ m. elim m.0 [
          | inl e ↦
              let clash : false ≡ true = sym goes ∙ ap (λ x. keeps live dry_run x) e ∙ m.1 in
              absurd (cc)
          | inr r ↦ ih.1 (r, m.1)
        ],
      )
    ]

dry_keeps : (b : Bool) → (b || true) ≡ true
dry_keeps true = refl
dry_keeps false = refl

-- A dry run lets every file be.
pub kept_of-dry : (live : List Oid) (fs : List ObjectFile) → kept_of live true fs ≡ fs
kept_of-dry live [] = refl
kept_of-dry live (f ∷ fs) =
    rw (dry_keeps (contains live f.oid || (not true && not f.removable)), kept_of-dry live fs) refl

sweep_file-dry : (f : TempFile) → (sweep_file true f).0 ≡ true
unfolding sweep_file
sweep_file-dry f = elim (Bool-cases f.regular) [
  | inl y ↦ elim (Option-cases f.size) [ inl e ↦ simp (y, e) | inr (sz, e) ↦ simp (y, e) ]
  | inr n ↦ simp (n)
]

pub sweep_temp_dir-dry :
    (fs : List TempFile) (removed bytes : ℕ) → (sweep_temp_dir true fs removed bytes).0 ≡ fs
unfolding sweep_temp_dir
sweep_temp_dir-dry [] removed bytes = refl
sweep_temp_dir-dry (f ∷ fs) removed bytes =
    rw (sweep_file-dry f) (ap (λ l. f ∷ l) (sweep_temp_dir-dry fs _ _))
