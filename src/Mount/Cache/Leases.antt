-- ===== src/Mount/Cache/Leases.antt =====
-- Reference counts are the leases that readers hold: an entry that is held is not removed.
use synapse_fs.Mount.Cache.Listing.{
  one, times, WellListed, held-erase_entry, held-found, erase-WellListed,
}
use synapse_fs.Prelude.{
  ℕ, zero, suc, ◌≡◌, refl, sym, ap, ◌∙◌, inl, inr, true, false, none, some, List, [], ◌∷◌, arith,
  ltb, ◌==◌, Bool-cases, Option-cases,
}
use synapse_fs.Prelude.Bytes.{bytes_eq_refl}
use synapse_fs.Mount.Cache.{
  FrameKey, key_eq, Entry, Cache, find_entry, erase_entry, evictable, victim, drop_entry,
  evict_rounds, update_entry,
}
use synapse_fs.Core.Oid.{oid_eq}
use synapse_fs.Mount.Cache.Evict.{key_eq→eq, victim-find, find_entry-erase_entry}

-- A bag of keys, one for each lease. An entry has as many references as there are leases of its
-- key, and a key that has a lease has an entry.
abbrev pub Leased : Cache → List FrameKey → Type 0
Leased c ls =
    (k : FrameKey)
    → ((e : Entry) → find_entry k c.entries ≡ some e → e.refcount ≡ times k ls)
      × (find_entry k c.entries ≡ none → times k ls ≡ 0)

pub one_refl : (k : FrameKey) → one k k ≡ 1
unfolding key_eq oid_eq
one_refl k =
    let artifact = bytes_eq_refl k.artifact.raw in
    let tensor : (k.tensor_index == k.tensor_index) ≡ true = ground arith in
    let frame : (k.frame_index == k.frame_index) ≡ true = ground arith in
    rw (artifact, tensor, frame) refl

find_entry-update_self :
    (j : FrameKey) (f : Entry → Entry) (es : List Entry) (e : Entry)
    → ((x : Entry) → (f x).key ≡ x.key)
    → find_entry j es ≡ some e
    → find_entry j (update_entry j f es) ≡ some (f e)
unfolding find_entry update_entry
find_entry-update_self j f [] e same h = cc
find_entry-update_self j f (x ∷ xs) e same h = elim (Bool-cases (key_eq x.key j)) [
  | inl at ↦
      let this : x ≡ e = ground arith in
      let hit : key_eq (f x).key j ≡ true = ap (λ i. key_eq i j) (same x) ∙ at in
      rw (at, update_entry) (rw (hit, find_entry) (ap (λ y. some (f y)) this))
  | inr other ↦
      let rest = find_entry-update_self j f xs e same (ground arith) in
      rw (other, update_entry) (rw (other, find_entry) rest)
]

find_entry-update_other :
    (j k : FrameKey) (f : Entry → Entry) (es : List Entry)
    → ((x : Entry) → (f x).key ≡ x.key)
    → key_eq j k ≡ false
    → find_entry k (update_entry j f es) ≡ find_entry k es
unfolding find_entry update_entry
find_entry-update_other j k f [] same h = refl
find_entry-update_other j k f (x ∷ xs) same h = elim (Bool-cases (key_eq x.key j)) [
  | inl at ↦
      let miss : key_eq x.key k ≡ false = rw (key_eq→eq x.key j at) h in
      let moved : key_eq (f x).key k ≡ false = ap (λ i. key_eq i k) (same x) ∙ miss in
      rw (at, update_entry) (rw (miss, moved, find_entry) refl)
  | inr other ↦
      let rest = find_entry-update_other j k f xs same h in
      rw (other, update_entry)
        (elim (Bool-cases (key_eq x.key k)) [
          | inl there ↦ rw (there, find_entry) refl
          | inr past ↦ rw (past, find_entry) rest
        ])
]

pub update-Leased :
    (j : FrameKey) (f : Entry → Entry) (c d : Cache) (ls ms : List FrameKey) (e : Entry)
    → ((x : Entry) → (f x).key ≡ x.key)
    → Leased c ls
    → find_entry j c.entries ≡ some e
    → d.entries ≡ update_entry j f c.entries
    → (f e).refcount ≡ times j ms
    → ((k : FrameKey) → key_eq j k ≡ false → times k ms ≡ times k ls)
    → Leased d ms
update-Leased j f c d ls ms e same leased found entries count others k =
    elim (Bool-cases (key_eq j k)) [
      | inl at ↦
          let here : find_entry k d.entries ≡ some (f e) =
            ap (find_entry k) entries
            ∙ (ap (λ i. find_entry i (update_entry j f c.entries)) (sym (key_eq→eq j k at))
                ∙ find_entry-update_self j f c.entries e same found) in
          (
            λ x h.
                let this : x ≡ f e = cc in
                ap (λ (y : Entry). y.refcount) this
                ∙ (count ∙ ap (λ i. times i ms) (key_eq→eq j k at)),
            λ h. absurd (cc),
          )
      | inr other ↦
          let there : find_entry k d.entries ≡ find_entry k c.entries =
            ap (find_entry k) entries ∙ find_entry-update_other j k f c.entries same other in
          (
            λ x h. (leased k).0 x (sym there ∙ h) ∙ sym (others k other),
            λ h. others k other ∙ (leased k).1 (sym there ∙ h),
          )
    ]

erased_missing :
    (j : FrameKey) (c : Cache) (e : Entry)
    → WellListed c
    → find_entry j c.entries ≡ some e
    → find_entry j (erase_entry j c.entries) ≡ none
erased_missing j c e well found = elim (Option-cases (find_entry j (erase_entry j c.entries))) [
  | inl gone ↦ gone
  | inr (x, still) ↦
      let fewer = held-erase_entry j j c.entries (held-found j c.entries e found) in
      let more = held-found j (erase_entry j c.entries) x still in
      absurd (omega (arith, fewer, more, one_refl j, (well j).1))
]

pub erase-Leased :
    (j : FrameKey) (c d : Cache) (ls : List FrameKey) (e : Entry)
    → WellListed c
    → Leased c ls
    → find_entry j c.entries ≡ some e
    → d.entries ≡ erase_entry j c.entries
    → e.refcount ≡ 0
    → Leased d ls
erase-Leased j c d ls e well leased found entries free k = elim (Bool-cases (key_eq j k)) [
  | inl at ↦
      let gone : find_entry k d.entries ≡ none =
        ap (find_entry k) entries
        ∙ (ap (λ i. find_entry i (erase_entry j c.entries)) (sym (key_eq→eq j k at))
            ∙ erased_missing j c e well found) in
      (
        λ x h. absurd (cc),
        λ h. ap (λ i. times i ls) (sym (key_eq→eq j k at)) ∙ (sym ((leased j).0 e found) ∙ free),
      )
  | inr other ↦
      let there : find_entry k d.entries ≡ find_entry k c.entries =
        ap (find_entry k) entries ∙ find_entry-erase_entry j k c.entries other in
      (λ x h. (leased k).0 x (sym there ∙ h), λ h. (leased k).1 (sym there ∙ h))
]

evictable-free : (e : Entry) → evictable e ≡ true → e.refcount ≡ 0
unfolding evictable
evictable-free e h = ground arith

pub evict_rounds-Leased :
    (rounds : ℕ) (c : Cache) (ls : List FrameKey)
    → WellListed c
    → Leased c ls
    → Leased (evict_rounds rounds c) ls
unfolding evict_rounds drop_entry
evict_rounds-Leased zero c ls well leased = leased
evict_rounds-Leased (suc rounds) c ls well leased =
    elim (Bool-cases (ltb c.budget_bytes c.bytes_resident)) [
      | inr fits ↦ rw (fits, evict_rounds) leased
      | inl over ↦ elim (Option-cases (victim c.entries c.lru)) [
        | inl stuck ↦ rw (over, stuck, evict_rounds) leased
        | inr (e, v) ↦
            let (found, free) = victim-find c.entries c.lru e v in
            rw (over, v, evict_rounds)
              (evict_rounds-Leased rounds (drop_entry c e) ls
                (erase-WellListed e.key c (drop_entry c e) e well found refl refl)
                (erase-Leased e.key c (drop_entry c e) ls e well leased found refl
                  (evictable-free e free)))
      ]
    ]
