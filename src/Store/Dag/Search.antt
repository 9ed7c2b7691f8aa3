-- ===== src/Store/Dag/Search.antt =====
-- Ancestry as a relation, and membership in the lists of a search.
use synapse_fs.Core.Error.{Result, ok}
use synapse_fs.Core.Oid.{Oid, oid_eq, oid_eq_iff}
use synapse_fs.Store.Dag.{Commit, contains, push_all}
use synapse_fs.Prelude.{◌≡◌, refl, ◌↔◌, ◌⊎◌, inl, inr, true, List, [], ◌∷◌, ◌++◌, arith, Bool-cases}

abbrev pub Member : Oid → List Oid → Type 0
Member a [] = ⊥
Member a (x ∷ xs) = (x ≡ a) ⊎ Member a xs

pub contains→Member : (xs : List Oid) (a : Oid) → contains xs a ≡ true → Member a xs
unfolding contains
contains→Member [] a h = cc
contains→Member (x ∷ xs) a h = elim (Bool-cases (oid_eq x a)) [
  | inl same ↦ inl ((oid_eq_iff x a).0 same)
  | inr other ↦ inr (contains→Member xs a (ground arith))
]

pub Member→contains : (xs : List Oid) (a : Oid) → Member a xs → contains xs a ≡ true
unfolding contains
Member→contains (x ∷ xs) a (inl e) = rw ((oid_eq_iff x a).1 e) refl
Member→contains (x ∷ xs) a (inr m) = ground (arith, Member→contains xs a m)
Member→contains [] a m = elim m [ ]

pub Member-append : (xs ys : List Oid) (a : Oid) → Member a (xs ++ ys) ↔ (Member a xs ⊎ Member a ys)
Member-append xs ys a = (there xs, back xs)
  where
    there : (xs : List Oid) → Member a (xs ++ ys) → Member a xs ⊎ Member a ys
    there [] m = inr m
    there (x ∷ xs) (inl e) = inl (inl e)
    there (x ∷ xs) (inr m) = elim (there xs m) [ inl l ↦ inl (inr l) | inr r ↦ inr r ]

    back : (xs : List Oid) → Member a xs ⊎ Member a ys → Member a (xs ++ ys)
    back [] (inl m) = elim m [ ]
    back [] (inr m) = m
    back (x ∷ xs) (inl (inl e)) = inl e
    back (x ∷ xs) (inl (inr m)) = inr (back xs (inl m))
    back (x ∷ xs) (inr m) = inr (back xs (inr m))

pub Member-push_all :
    (ps stack : List Oid) (a : Oid) → Member a (push_all ps stack) ↔ (Member a ps ⊎ Member a stack)
unfolding push_all
Member-push_all ps stack a = (there ps stack, back ps stack)
  where
    there : (ps stack : List Oid) → Member a (push_all ps stack) → Member a ps ⊎ Member a stack
    there [] stack m = inr m
    there (p ∷ ps) stack m = elim (there ps (p ∷ stack) m) [
      | inl l ↦ inl (inr l)
      | inr (inl e) ↦ inl (inl e)
      | inr (inr r) ↦ inr r
    ]

    back : (ps stack : List Oid) → Member a ps ⊎ Member a stack → Member a (push_all ps stack)
    back [] stack (inl m) = elim m [ ]
    back [] stack (inr m) = m
    back (p ∷ ps) stack (inl (inl e)) = back ps (p ∷ stack) (inr (inl e))
    back (p ∷ ps) stack (inl (inr m)) = back ps (p ∷ stack) (inl m)
    back (p ∷ ps) stack (inr m) = back ps (p ∷ stack) (inr (inr m))

-- `Reach read s a`: the commit `a` is `s`, or a parent of a commit that is reached from `s`.
pub data Reach (read : Oid → Result Commit) (s : Oid) : Oid → Type 0 where
  here : Reach read s s
  parent :
      {u a : Oid} (c : Commit)
      → Reach read s u
      → read u ≡ ok c
      → Member a c.parents
      → Reach read s a
