-- ===== src/Store/Merge/Groups.antt =====
-- Which groups a merge holds: merge_groups name by name.
use synapse_fs.Format.Manifest.{GroupEntry, lookup_group}
use synapse_fs.Store.Merge.{
  resolve_group, MergeStrategy, refuse, ours, theirs, settle, pick, added_names, union_names,
  bytes_ltb, assign, store_pick, merge_groups,
}
use synapse_fs.Prelude.{
  ◌≡◌, refl, sym, ap, ◌∙◌, ◌⊎◌, inl, inr, true, false, Option, none, some, List, [], ◌∷◌, map,
  arith, if◌then◌else◌, Bool-cases, Option-cases,
}
use synapse_fs.Prelude.Bytes.{Bytes, bytes_eq, bytes_eq_iff, bytes_eq_comm}
use synapse_fs.Store.Merge.Names.{
  Named, Named-append-left, Named-append-right, Named-map, Named-added_names,
}

pub lookup_group-assign :
    (name : Bytes) (g : GroupEntry) (gs : List (Bytes × GroupEntry)) (n : Bytes)
    → lookup_group n (assign name g gs) ≡ (if bytes_eq name n then some g else lookup_group n gs)
unfolding lookup_group assign
lookup_group-assign name g [] n = refl
lookup_group-assign name g ((key, old) ∷ gs) n =
    let rest = lookup_group-assign name g gs n in
    elim (Bool-cases (bytes_eq key name)) [
      | inl same ↦
          let e : key ≡ name = (bytes_eq_iff key name).0 same in
          let at_n : bytes_eq key n ≡ bytes_eq name n = rw e refl in ground arith
      | inr other ↦ elim (Bool-cases (bytes_ltb name key)) [
        | inl before ↦ ground arith
        | inr later ↦ elim (Bool-cases (bytes_eq key n)) [
          | inl at_key ↦
              let e : key ≡ n = (bytes_eq_iff key n).0 at_key in
              let miss : bytes_eq name n ≡ false =
                bytes_eq_comm name n ∙ ap (λ k. bytes_eq k name) (sym e) ∙ other in
              ground arith
          | inr past ↦ ground arith
        ]
      ]
    ]

-- The strategy and the two sides decide what a group of a merge is.
unfoldable pub chosen : MergeStrategy → (b o t : Option GroupEntry) → Option GroupEntry
unfolding settle pick resolve_group
chosen strategy b o t = elim (settle strategy o t (resolve_group b o t)) [
  | none ↦ none
  | some decision ↦ pick o t decision
]

module _ (strategy : MergeStrategy) (bs os ts : List (Bytes × GroupEntry)) where
  -- What a merge ought to hold under a name.
  abbrev pub chosen_at : Bytes → Option GroupEntry
  chosen_at n = chosen strategy (lookup_group n bs) (lookup_group n os) (lookup_group n ts)

  lookup_group-store_pick :
      (name : Bytes) (o : Option GroupEntry) (gs : List (Bytes × GroupEntry)) (n : Bytes)
      → lookup_group n (store_pick name o gs) ≡ (elim o [
        | none ↦ lookup_group n gs
        | some g ↦ if bytes_eq name n then some g else lookup_group n gs
      ])
  unfolding store_pick
  lookup_group-store_pick name none gs n = refl
  lookup_group-store_pick name (some g) gs n = lookup_group-assign name g gs n

  merge_groups-step :
      (name : Bytes) (names : List Bytes) (merged : List (Bytes × GroupEntry))
      → (merge_groups strategy bs os ts (name ∷ names) merged).1 ≡ []
      → (merge_groups strategy bs os ts (name ∷ names) merged
          ≡ merge_groups strategy bs os ts names (store_pick name (chosen_at name) merged))
  unfolding merge_groups chosen
  merge_groups-step name names merged h =
      let b = lookup_group name bs in
      let o = lookup_group name os in
      let t = lookup_group name ts in
      elim (Option-cases (settle strategy o t (resolve_group b o t))) [
        | inl n ↦ ground arith
        | inr (d, s) ↦ ground arith
      ]

  stored-same :
      (name n : Bytes) (merged : List (Bytes × GroupEntry))
      → bytes_eq name n ≡ true
      → (lookup_group n merged ≡ chosen_at n) ⊎ (lookup_group n merged ≡ none)
      → lookup_group n (store_pick name (chosen_at name) merged) ≡ chosen_at n
  stored-same name n merged same known =
      let at_n : chosen_at name ≡ chosen_at n = rw ((bytes_eq_iff name n).0 same) refl in
      let stored = lookup_group-store_pick name (chosen_at name) merged n in
      elim (Option-cases (chosen_at name)) [ inl o ↦ ground arith | inr (g, s) ↦ ground arith ]

  stored-other :
      (name n : Bytes) (merged : List (Bytes × GroupEntry))
      → bytes_eq name n ≡ false
      → lookup_group n (store_pick name (chosen_at name) merged) ≡ lookup_group n merged
  stored-other name n merged other =
      let stored = lookup_group-store_pick name (chosen_at name) merged n in
      elim (Option-cases (chosen_at name)) [ inl o ↦ ground arith | inr (g, s) ↦ ground arith ]

  merge_groups-holds :
      (names : List Bytes) (merged : List (Bytes × GroupEntry)) (n : Bytes)
      → (merge_groups strategy bs os ts names merged).1 ≡ []
      → (lookup_group n merged ≡ chosen_at n) ⊎ ((lookup_group n merged ≡ none) × Named n names)
      → lookup_group n (merge_groups strategy bs os ts names merged).0 ≡ chosen_at n
  unfolding merge_groups
  merge_groups-holds [] merged n h (inl e) = e
  merge_groups-holds [] merged n h (inr (e, m)) = elim m [ ]
  merge_groups-holds (name ∷ names) merged n h known =
      let step = merge_groups-step name names merged h in
      let h2 : (merge_groups strategy bs os ts names (store_pick name (chosen_at name) merged)).1
          ≡ [] =
        rw (← step) h in
      let next : (lookup_group n (store_pick name (chosen_at name) merged) ≡ chosen_at n)
          ⊎ ((lookup_group n (store_pick name (chosen_at name) merged) ≡ none) × Named n names) =
        elim (Bool-cases (bytes_eq name n)) [
          | inl same ↦
              inl
                (stored-same name n merged same (elim known [ inl e ↦ inl e | inr (e, m) ↦ inr e ]))
          | inr other ↦
              let kept = stored-other name n merged other in
              elim known [
                | inl e ↦ inl (kept ∙ e)
                | inr (e, inl hit) ↦ cc
                | inr (e, inr m) ↦ inr (kept ∙ e, m)
              ]
        ] in
      rw step (merge_groups-holds names (store_pick name (chosen_at name) merged) n h2 next)

-- Every name that a side has is among the names of the loop.
Named-union_names :
    (strategy : MergeStrategy) (bs os ts : List (Bytes × GroupEntry)) (n : Bytes)
    → (none ≡ chosen_at strategy bs os ts n) ⊎ Named n (union_names os ts)
unfolding union_names chosen
Named-union_names strategy bs os ts n = elim (Named-map n os) [
  | inr m ↦ inr (Named-append-left n (map (λ p. p.0) os) (added_names os ts) m)
  | inl no_ours ↦ elim (Named-added_names n os ts no_ours) [
    | inr m ↦ inr (Named-append-right n (map (λ p. p.0) os) (added_names os ts) m)
    | inl no_theirs ↦ inl (rw (no_ours, no_theirs) (nothing (lookup_group n bs)))
  ]
]
  where
    nothing : (b : Option GroupEntry) → none ≡ chosen strategy b none none
    nothing b = elim strategy [ refuse ↦ refl | ours ↦ refl | theirs ↦ refl ]

-- A merge that reports no conflict holds under every name what the strategy and the three sides
-- decide there: the settled side's entry, and nothing that no side has.
pub merge_groups_lem :
    (strategy : MergeStrategy) (bs os ts : List (Bytes × GroupEntry)) (n : Bytes)
    → (merge_groups strategy bs os ts (union_names os ts) []).1 ≡ []
    → lookup_group n (merge_groups strategy bs os ts (union_names os ts) []).0
      ≡ chosen strategy (lookup_group n bs) (lookup_group n os) (lookup_group n ts)
unfolding lookup_group
merge_groups_lem strategy bs os ts n h =
    merge_groups-holds strategy bs os ts (union_names os ts) [] n h
      (elim (Named-union_names strategy bs os ts n) [ inl e ↦ inl e | inr m ↦ inr (refl, m) ])
