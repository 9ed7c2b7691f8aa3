-- ===== src/Store/Merge/Names.antt =====
-- The names that the loop of plan_merge goes over.
use synapse_fs.Format.Manifest.{GroupEntry, lookup_group}
use synapse_fs.Store.Merge.{added_names}
use synapse_fs.Prelude.{
  ◌≡◌, refl, ◌⊎◌, inl, inr, true, none, List, [], ◌∷◌, ◌++◌, map, arith, Bool-cases, Option-cases,
}
use synapse_fs.Prelude.Bytes.{Bytes, bytes_eq, bytes_eq_iff}

-- A name of a list of names.
abbrev pub Named : Bytes → List Bytes → Type 0
Named n [] = ⊥
Named n (x ∷ xs) = (bytes_eq x n ≡ true) ⊎ Named n xs

pub Named-append-left : (n : Bytes) (xs ys : List Bytes) → Named n xs → Named n (xs ++ ys)
Named-append-left n [] ys m = elim m [ ]
Named-append-left n (x ∷ xs) ys (inl e) = inl e
Named-append-left n (x ∷ xs) ys (inr m) = inr (Named-append-left n xs ys m)

pub Named-append-right : (n : Bytes) (xs ys : List Bytes) → Named n ys → Named n (xs ++ ys)
Named-append-right n [] ys m = m
Named-append-right n (x ∷ xs) ys m = inr (Named-append-right n xs ys m)

pub Named-map :
    (n : Bytes) (os : List (Bytes × GroupEntry))
    → (lookup_group n os ≡ none) ⊎ Named n (map (λ p. p.0) os)
unfolding lookup_group
Named-map n [] = inl refl
Named-map n ((name, g) ∷ os) = elim (Bool-cases (bytes_eq name n)) [
  | inl hit ↦ inr (inl hit)
  | inr miss ↦ elim (Named-map n os) [ inl e ↦ inl (ground arith) | inr m ↦ inr (inr m) ]
]

pub Named-added_names :
    (n : Bytes) (os ts : List (Bytes × GroupEntry))
    → lookup_group n os ≡ none
    → (lookup_group n ts ≡ none) ⊎ Named n (added_names os ts)
unfolding lookup_group added_names
Named-added_names n os [] h = inl refl
Named-added_names n os ((name, g) ∷ ts) h = elim (Bool-cases (bytes_eq name n)) [
  | inl hit ↦
      let at_n : lookup_group name os ≡ none = rw ((bytes_eq_iff name n).0 hit) h in
      inr (rw (at_n, added_names) (inl hit))
  | inr miss ↦ elim (Named-added_names n os ts h) [
    | inl e ↦ inl (ground arith)
    | inr m ↦ inr (elim (Option-cases (lookup_group name os)) [
      | inl fresh ↦ rw (fresh, added_names) (inr m)
      | inr (o, old) ↦ rw (old, added_names) m
    ])
  ]
]
