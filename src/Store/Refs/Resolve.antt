-- ===== src/Store/Refs/Resolve.antt =====
-- RefStore::rev_parse: when it returns, and that it reads what update and set_head_symbolic wrote.
use synapse_fs.Store.Files.{read_file, Write, written}
use synapse_fs.Core.Oid.{Oid, oid_text}
use synapse_fs.Core.Oid.Text.{parse-oid_text}
use synapse_fs.Core.Error.{Result, ok, err, ◌>>=◌, Result-cases}
use synapse_fs.Store.Refs.{
  RefStore, head_name, symbolic_prefix, trim, read_trimmed, branch_ref_path, symbolic, detached,
  head_of, read_head, branch_or_oid, rev_parse, write_head, set_head_symbolic, update,
}
use synapse_fs.Store.Refs.Swap.{
  HasNoBreak, trim-line_of, expected_text, branches, same_text, compare_and_swap, is_ok, update_lem,
}
use synapse_fs.Prelude.{
  ℕ, zero, suc, ◌≡◌, refl, ap, ◌∙◌, ◌⊎◌, inl, inr, Bool, true, false, Option, none, some, ◌++◌,
  arith, Bool-cases, Option-cases, length,
}
use synapse_fs.Prelude.Bytes.{Bytes, bytes_eq, bytes_eq_refl, eq-bytes_eq, IsBytes}

-- A name other than HEAD takes one round.
rev_parse_other :
    (fuel : ℕ) (s : RefStore) (spec : Bytes)
    → bytes_eq spec head_name ≡ false
    → rev_parse (suc fuel) s spec
      ≡ some (branch_or_oid s spec (read_file (branch_ref_path spec) s.heads))
unfolding rev_parse
rev_parse_other fuel s spec other = rw other refl

-- HEAD naming HEAD is followed for ever.
rev_parse_loop :
    (s : RefStore)
    → read_head s ≡ ok (symbolic head_name)
    → (fuel : ℕ) → rev_parse fuel s head_name ≡ none
unfolding rev_parse
rev_parse_loop s loops zero = refl
rev_parse_loop s loops (suc fuel) = rw (loops, rev_parse_loop s loops fuel) refl

-- Two rounds give an answer to every name, but for HEAD where HEAD names itself as its branch:
-- there no number of rounds gives one.
pub rev_parse_lem :
    (s : RefStore) (spec : Bytes) (fuel : ℕ)
    → ((r : Result Oid) × (rev_parse (suc (suc fuel)) s spec ≡ some r))
      ⊎ ((spec ≡ head_name)
          × (read_head s ≡ ok (symbolic head_name))
          × ((rounds : ℕ) → rev_parse rounds s spec ≡ none))
unfolding rev_parse
rev_parse_lem s spec fuel = elim (Bool-cases (bytes_eq spec head_name)) [
  | inr other ↦ inl (
    branch_or_oid s spec (read_file (branch_ref_path spec) s.heads),
    rev_parse_other (suc fuel) s spec other,
  )
  | inl at_head ↦
      let e = eq-bytes_eq spec head_name at_head in
      elim (Result-cases (read_head s)) [
        | inl (kind, failed) ↦ inl (err kind, rw (at_head, failed) refl)
        | inr (detached o, found) ↦ inl (ok o, rw (at_head, found) refl)
        | inr (symbolic name, found) ↦ elim (Bool-cases (bytes_eq name head_name)) [
          | inr other ↦ inl (
            branch_or_oid s name (read_file (branch_ref_path name) s.heads),
            rw (at_head, found) (rev_parse_other fuel s name other),
          )
          | inl again ↦
              let same = eq-bytes_eq name head_name again in
              let loops : read_head s ≡ ok (symbolic head_name) = rw (← same) found in
              inr (e, loops, λ rounds. rw e (rev_parse_loop s loops rounds))
        ]
      ]
]

-- A branch that holds the text of an identity resolves to it.
pub rev_parse-branch :
    (fuel : ℕ) (s : RefStore) (spec : Bytes) (o : Oid)
    → length o.raw ≡ 32
    → IsBytes o.raw
    → bytes_eq spec head_name ≡ false
    → branches s (branch_ref_path spec) ≡ some (oid_text o)
    → rev_parse (suc fuel) s spec ≡ some (ok o)
unfolding branch_or_oid read_trimmed
rev_parse-branch fuel s spec o len bytes other held =
    elim (Option-cases (read_file (branch_ref_path spec) s.heads)) [
      | inl absent ↦ let nothing : none ≡ some (oid_text o) = rw absent at held in cc
      | inr (content, found) ↦
          let same : some (trim content) ≡ some (oid_text o) = rw found at held in
          let text : trim content ≡ oid_text o = cc in
          rw
            (
              rev_parse_other fuel s spec other,
              found,
              branch_or_oid,
              text,
              parse-oid_text o len bytes,
            )
            refl
    ]

-- HEAD reads back as the branch that set_head_symbolic wrote.
read_head-set_head_symbolic :
    (writable : Bytes → Write) (s : RefStore) (name : Bytes)
    → writable head_name ≡ written
    → HasNoBreak name
    → read_head (set_head_symbolic writable s name).0 ≡ ok (symbolic name)
unfolding read_head set_head_symbolic write_head
read_head-set_head_symbolic writable s name can_write breaks =
    rw
      (
        can_write,
        read_trimmed,
        trim-line_of (symbolic_prefix ++ name)
            (omega arith, (omega arith, (omega arith, (omega arith, (omega arith, breaks))))),
      )
      refl

-- A swap that succeeds leaves the desired text at its path.
held_after :
    (s t : RefStore) (path : Bytes) (expected : Option Bytes) (desired : Bytes)
    → ◌≡◌ {A = (Bytes → Option Bytes) × Bool}
        (branches t, true)
        (compare_and_swap (branches s) path expected desired)
    → branches t path ≡ some desired
unfolding compare_and_swap
held_after s t path expected desired e = elim (Bool-cases (same_text (branches s path) expected)) [
  | inl fits ↦
      let at_path = ap (λ (r : (Bytes → Option Bytes) × Bool). r.0 path) (rw fits at e) in
      rw (bytes_eq_refl path) at at_path
  | inr differs ↦
      let no_way = ap (λ (r : (Bytes → Option Bytes) × Bool). r.1) (rw differs at e) in cc
]

rev_parse_symbolic :
    (fuel : ℕ) (s : RefStore) (name : Bytes)
    → read_head s ≡ ok (symbolic name)
    → rev_parse (suc fuel) s head_name ≡ rev_parse fuel s name
unfolding rev_parse
rev_parse_symbolic fuel s name at_head = rw at_head refl

read_head_same : (s t : RefStore) → t.head ≡ s.head → read_head t ≡ read_head s
unfolding read_head
read_head_same s t e = ap (λ h. read_trimmed h >>= head_of) e

-- HEAD is set to a branch, and an update of the branch succeeds, as the branches' writes do: then
-- HEAD, and every name of the branch's path but "HEAD", resolve to the desired identity of 32
-- bytes. The branch is not named HEAD, and each byte of its name is 14 or more, so that no line
-- break is in it.
pub rev_parse-update :
    (writable : Bytes → Write) (s : RefStore) (name spec : Bytes) (expected : Option Oid)
    (desired : Oid) (fuel : ℕ)
    → ((path : Bytes) → writable path ≡ written)
    → HasNoBreak name
    → length desired.raw ≡ 32
    → IsBytes desired.raw
    → bytes_eq name head_name ≡ false
    → bytes_eq spec head_name ≡ false
    → branch_ref_path spec ≡ branch_ref_path name
    → is_ok (update writable (set_head_symbolic writable s name).0 name expected desired).1 ≡ true
    → (rev_parse
          (suc (suc fuel))
          (update writable (set_head_symbolic writable s name).0 name expected desired).0
          head_name
        ≡ some (ok desired))
      × (rev_parse
            (suc fuel)
            (update writable (set_head_symbolic writable s name).0 name expected desired).0
            spec
          ≡ some (ok desired))
rev_parse-update writable s name spec expected desired fuel can_write breaks len bytes plain other
      same_path done =
    let s1 = (set_head_symbolic writable s name).0 in
    let s2 = (update writable s1 name expected desired).0 in
    let (swap, refused, same_head) = update_lem writable can_write s1 name expected desired in
    let held : branches s2 (branch_ref_path name) ≡ some (oid_text desired) =
      held_after s1 s2 (branch_ref_path name) (expected_text expected) (oid_text desired)
        (rw done at swap) in
    let at_head : read_head s2 ≡ ok (symbolic name) =
      read_head_same s1 s2 same_head
      ∙ read_head-set_head_symbolic writable s name (can_write head_name) breaks in
    (
      rev_parse_symbolic (suc fuel) s2 name at_head
          ∙ rev_parse-branch fuel s2 name desired len bytes plain held,
      rev_parse-branch fuel s2 spec desired len bytes other (rw same_path held),
    )
