-- ===== src/Store/Dag/Walk/Visit.antt =====
-- What the visitor of reachable_objects adds for a commit: the objects that the commit names.
use synapse_fs.Core.Oid.{Oid}
use synapse_fs.Core.Error.{ErrKind, Result, ok, Result-cases}
use synapse_fs.Format.Manifest.{GroupEntry, Manifest}
use synapse_fs.Store.Dag.{Commit}
use synapse_fs.Store.Dag.Search.{Member, Member-append}
use synapse_fs.Store.Dag.Walk.{Found, insert_optional, insert_groups, visit_commit}
use synapse_fs.Store.Dag.Walk.Spec.{
  optional_objects, groups_objects, Names, itself, its_manifest, its_topology, its_header,
  its_block,
}
use synapse_fs.Prelude.{
  ◌≡◌, refl, ◌↔◌, ◌⊎◌, inl, inr, true, false, Option, none, some, List, [], ◌∷◌, ◌++◌,
}
use synapse_fs.Prelude.Bytes.{Bytes}

Member-insert_optional :
    (b : Option Oid) (objects : List Oid) (o : Oid)
    → Member o (insert_optional b objects) ↔ (Member o objects ⊎ Member o (optional_objects b))
unfolding insert_optional
Member-insert_optional none objects o = (λ m. inl m, λ m. elim m [ inl x ↦ x | inr z ↦ elim z [ ] ])
Member-insert_optional (some b) objects o = (
  λ m. elim m [ inl e ↦ inr (inl e) | inr x ↦ inl x ],
  λ m. elim m [ inl x ↦ inr x | inr (inl e) ↦ inl e | inr (inr z) ↦ elim z [ ] ],
)

pub Member-insert_groups :
    (gs : List (Bytes × GroupEntry)) (objects : List Oid) (o : Oid)
    → Member o (insert_groups gs objects) ↔ (Member o objects ⊎ Member o (groups_objects gs))
unfolding insert_groups
Member-insert_groups [] objects o = (λ m. inl m, λ m. elim m [ inl x ↦ x | inr z ↦ elim z [ ] ])
Member-insert_groups ((name, g) ∷ gs) objects o =
    let ih = Member-insert_groups gs outer o in (there ih, back ih)
  where
    inner : List Oid
    inner = insert_optional g.block objects

    outer : List Oid
    outer = insert_optional g.diff_block inner

    rest : List Oid
    rest = optional_objects g.diff_block ++ groups_objects gs

    there :
        (Member o (insert_groups gs outer) ↔ (Member o outer ⊎ Member o (groups_objects gs)))
        → Member o (insert_groups gs outer)
        → Member o objects ⊎ Member o (optional_objects g.block ++ rest)
    there ih m = elim (ih.0 m) [
      | inr later ↦ inr (
          (Member-append (optional_objects g.block) rest o).1 (
            inr (
              (Member-append (optional_objects g.diff_block) (groups_objects gs) o).1 (inr later))))
      | inl now ↦ elim ((Member-insert_optional g.diff_block inner o).0 now) [
        | inr d ↦ inr (
            (Member-append (optional_objects g.block) rest o).1 (
              inr
                ((Member-append (optional_objects g.diff_block) (groups_objects gs) o).1 (inl d))))
        | inl i ↦ elim ((Member-insert_optional g.block objects o).0 i) [
          | inl old ↦ inl old
          | inr b ↦ inr ((Member-append (optional_objects g.block) rest o).1 (inl b))
        ]
      ]
    ]

    back :
        (Member o (insert_groups gs outer) ↔ (Member o outer ⊎ Member o (groups_objects gs)))
        → Member o objects ⊎ Member o (optional_objects g.block ++ rest)
        → Member o (insert_groups gs outer)
    back ih m = ih.1 (elim m [
      | inl old ↦ inl (
          (Member-insert_optional g.diff_block inner o).1
            (inl ((Member-insert_optional g.block objects o).1 (inl old))))
      | inr new ↦ elim ((Member-append (optional_objects g.block) rest o).0 new) [
        | inl b ↦ inl (
            (Member-insert_optional g.diff_block inner o).1
              (inl ((Member-insert_optional g.block objects o).1 (inr b))))
        | inr r ↦ elim ((Member-append (optional_objects g.diff_block) (groups_objects gs) o).0 r) [
          | inl d ↦ inl ((Member-insert_optional g.diff_block inner o).1 (inr d))
          | inr later ↦ inr later
        ]
      ]
    ])

module _ (read_manifest : Oid → Result Manifest) (v : Oid) (c : Commit) (s : Found) where
  abbrev added : Manifest → List Oid
  added m = insert_groups m.groups (m.file.header_block ∷ c.topology ∷ c.manifest ∷ v ∷ s.objects)

  added_there :
      (m : Manifest) (o : Oid)
      → read_manifest c.manifest ≡ ok m
      → Member o (added m)
      → Member o s.objects ⊎ Names read_manifest v c o
  added_there m o e h =
      elim ((Member-insert_groups m.groups
          (m.file.header_block ∷ c.topology ∷ c.manifest ∷ v ∷ s.objects) o).0
        h) [
          | inr b ↦ inr (its_block m e b)
          | inl (inl hd) ↦ inr (its_header m e hd)
          | inl (inr (inl t)) ↦ inr (its_topology t)
          | inl (inr (inr (inl mf))) ↦ inr (its_manifest mf)
          | inl (inr (inr (inr (inl i)))) ↦ inr (itself i)
          | inl (inr (inr (inr (inr old)))) ↦ inl old
        ]

  added_back :
      (m : Manifest) (o : Oid)
      → read_manifest c.manifest ≡ ok m
      → Member o s.objects ⊎ Names read_manifest v c o
      → Member o (added m)
  added_back m o e h =
      (Member-insert_groups m.groups (m.file.header_block ∷ c.topology ∷ c.manifest ∷ v ∷ s.objects)
          o).1
        (elim h [
          | inl old ↦ inl (inr (inr (inr (inr old))))
          | inr (itself i) ↦ inl (inr (inr (inr (inl i))))
          | inr (its_manifest i) ↦ inl (inr (inr (inl i)))
          | inr (its_topology i) ↦ inl (inr (inl i))
          | inr (its_header m' e' i) ↦ let same : m ≡ m' = cc in inl (inl (rw same i))
          | inr (its_block m' e' i) ↦ let same : m ≡ m' = cc in inr (rw same i)
        ])

  -- A visit fails and stops there, or adds just what the commit names and goes on.
  pub visit_commit-cases :
      (read : Oid → Result Commit)
      → ((e : ErrKind) × (s' : Found) × (visit_commit read read_manifest v c s ≡ (s', false))
          × (s'.failed ≡ some e))
        ⊎ ((s' : Found) × (visit_commit read read_manifest v c s ≡ (s', true))
            × (s'.failed ≡ s.failed)
            × ((o : Oid) → Member o s'.objects ↔ (Member o s.objects ⊎ Names read_manifest v c o)))
  unfolding visit_commit
  visit_commit-cases read = elim (Result-cases (read_manifest c.manifest)) [
    | inl (e, failed) ↦ inl (
      e,
      record { objects = c.topology ∷ c.manifest ∷ v ∷ s.objects; failed = some e },
      rw (visit_commit, failed) refl,
      refl,
    )
    | inr (m, found) ↦ inr (
      record s { objects = added m },
      rw (visit_commit, found) refl,
      refl,
      λ o. (added_there m o found, added_back m o found),
    )
  ]
