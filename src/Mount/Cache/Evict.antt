-- ===== src/Mount/Cache/Evict.antt =====
-- What an eviction leaves: the entries that are in use, and a count of bytes that is right.
use synapse_fs.Mount.Cache.{
  FrameKey, key_eq, Entry, Cache, find_entry, erase_entry, evictable, victim, drop_entry,
  evict_rounds, evict_if_needed,
}
use synapse_fs.Core.Oid.{oid_eq_iff}
use synapse_fs.Prelude.{
  ℕ, zero, suc, ◌+◌, ◌-◌, ◌%◌, ◌^◌, ◌≤◌, ◌<◌, ◌≡◌, refl, sym, ap, ◌∙◌, ◌⊎◌, inl, inr, true, false,
  none, some, List, [], ◌∷◌, arith, ltb, if◌then◌else◌, Bool-cases, Option-cases, length,
}

pub key_eq→eq : (a b : FrameKey) → key_eq a b ≡ true → a ≡ b
unfolding key_eq
key_eq→eq a b h =
    let artifact = (oid_eq_iff a.artifact b.artifact).0 (ground arith) in
    let tensor : a.tensor_index ≡ b.tensor_index = ground arith in
    let frame : a.frame_index ≡ b.frame_index = ground arith in
    λ i. record { artifact = artifact i; tensor_index = tensor i; frame_index = frame i }

pub find_entry-key :
    (k : FrameKey) (es : List Entry) (e : Entry) → find_entry k es ≡ some e → e.key ≡ k
unfolding find_entry
find_entry-key k [] e h = cc
find_entry-key k (x ∷ xs) e h = elim (Bool-cases (key_eq x.key k)) [
  | inl here ↦ let same : x ≡ e = ground arith in rw (← same) (key_eq→eq x.key k here)
  | inr other ↦ find_entry-key k xs e (ground arith)
]

pub victim-find :
    (es : List Entry) (ks : List FrameKey) (e : Entry)
    → victim es ks ≡ some e
    → (find_entry e.key es ≡ some e) × (evictable e ≡ true)
unfolding victim
victim-find es [] e h = cc
victim-find es (k ∷ ks) e h = elim (Option-cases (victim es ks)) [
  | inr (d, later) ↦ let same : d ≡ e = ground arith in victim-find es ks e (later ∙ ap some same)
  | inl none_later ↦ elim (Option-cases (find_entry k es)) [
    | inl missing ↦ ground arith
    | inr (d, found) ↦ elim (Bool-cases (evictable d)) [
      | inr kept ↦ ground arith
      | inl free ↦
          let same : d ≡ e = ground arith in
          let at : find_entry k es ≡ some e = found ∙ ap some same in
          (ap (λ j. find_entry j es) (find_entry-key k es e at) ∙ at, rw (← same) free)
    ]
  ]
]

length-erase_entry :
    (k : FrameKey) (es : List Entry) (e : Entry)
    → find_entry k es ≡ some e
    → suc (length (erase_entry k es)) ≡ length es
unfolding find_entry erase_entry
length-erase_entry k [] e h = cc
length-erase_entry k (x ∷ xs) e h = elim (Bool-cases (key_eq x.key k)) [
  | inl here ↦ rw (here, erase_entry) refl
  | inr other ↦
      let rest = length-erase_entry k xs e (ground arith) in rw (other, erase_entry) (ap suc rest)
]

pub find_entry-erase_entry :
    (j k : FrameKey) (es : List Entry)
    → key_eq j k ≡ false
    → find_entry k (erase_entry j es) ≡ find_entry k es
unfolding find_entry erase_entry
find_entry-erase_entry j k [] h = refl
find_entry-erase_entry j k (x ∷ xs) h = elim (Bool-cases (key_eq x.key j)) [
  | inl here ↦ let miss : key_eq x.key k ≡ false = rw (key_eq→eq x.key j here) h in ground arith
  | inr other ↦
      let rest = find_entry-erase_entry j k xs h in
      elim (Bool-cases (key_eq x.key k)) [ inl at ↦ ground arith | inr past ↦ ground arith ]
]

-- The bytes of the frames that have been filled.
abbrev pub ready_bytes : List Entry → ℕ
ready_bytes [] = 0
ready_bytes (e ∷ es) = (if e.ready then e.size else 0) + ready_bytes es

ready_bytes-erase_entry :
    (k : FrameKey) (es : List Entry) (e : Entry)
    → find_entry k es ≡ some e
    → e.ready ≡ true
    → ready_bytes (erase_entry k es) + e.size ≡ ready_bytes es
unfolding find_entry erase_entry
ready_bytes-erase_entry k [] e h r = cc
ready_bytes-erase_entry k (x ∷ xs) e h r = elim (Bool-cases (key_eq x.key k)) [
  | inl here ↦
      let same : x ≡ e = ground arith in
      let size : x.size ≡ e.size = ap (λ (y : Entry). y.size) same in
      let full : x.ready ≡ true = rw same r in rw (here, full) (omega arith)
  | inr other ↦ let rest = ready_bytes-erase_entry k xs e (ground arith) r in rw other (omega arith)
]

-- An entry that a reader holds, or that is still filling.
abbrev pub InUse : Entry → Type 0
InUse e = (0 < e.refcount) ⊎ (e.ready ≡ false)

InUse-evictable : (e : Entry) → InUse e → evictable e ≡ false
unfolding evictable
InUse-evictable e (inl held) = ground arith
InUse-evictable e (inr filling) = ground arith

evictable-InUse : (e : Entry) → evictable e ≡ false → InUse e
unfolding evictable
evictable-InUse e h = elim (Bool-cases e.ready) [
  | inr filling ↦ inr filling
  | inl full ↦ inl (ground arith)
]

-- The key stands in the list.
abbrev pub Listed : FrameKey → List FrameKey → Type 0
Listed k [] = ⊥
Listed k (x ∷ xs) = (x ≡ k) ⊎ Listed k xs

-- The goal of an eviction: the budget is kept, or every entry of the list is in use.
abbrev pub Settled : Cache → Type 0
Settled c =
    (c.bytes_resident ≤ c.budget_bytes)
    ⊎ ((k : FrameKey) (e : Entry) → Listed k c.lru → find_entry k c.entries ≡ some e → InUse e)

victim-none :
    (es : List Entry) (ks : List FrameKey) (k : FrameKey) (e : Entry)
    → victim es ks ≡ none
    → Listed k ks
    → find_entry k es ≡ some e
    → InUse e
unfolding victim
victim-none es [] k e h m found = elim m [ ]
victim-none es (x ∷ xs) k e h m found = elim (Option-cases (victim es xs)) [
  | inr (d, later) ↦ absurd (ground arith)
  | inl none_later ↦ elim m [
    | inr later ↦ victim-none es xs k e none_later later found
    | inl here ↦ elim (Bool-cases (evictable e)) [
      | inr used ↦ evictable-InUse e used
      | inl free ↦ let at : find_entry x es ≡ some e = rw here found in absurd (ground arith)
    ]
  ]
]

abbrev pub Accounted : Cache → Type 0
Accounted c = c.bytes_resident ≡ ready_bytes c.entries

find_entry-nil : (k : FrameKey) (e : Entry) → find_entry k [] ≡ some e → ⊥
unfolding find_entry
find_entry-nil k e h = cc

evictable-ready : (e : Entry) → evictable e ≡ true → e.ready ≡ true
unfolding evictable
evictable-ready e h = ground arith

no_entries : (es : List Entry) → length es ≤ 0 → es ≡ []
no_entries [] h = refl
no_entries (e ∷ es) h = let no : ⊥ = omega arith in elim no [ ]

evict_rounds-Settled :
    (rounds : ℕ) (c : Cache) → length c.entries ≤ rounds → Settled (evict_rounds rounds c)
unfolding evict_rounds drop_entry
evict_rounds-Settled zero c h =
    let empty = no_entries c.entries h in
    inr (λ k e m found. absurd (find_entry-nil k e (ap (find_entry k) (sym empty) ∙ found)))
evict_rounds-Settled (suc rounds) c h = elim (Bool-cases (ltb c.budget_bytes c.bytes_resident)) [
  | inr fits ↦ rw (fits, evict_rounds) (inl (ground arith))
  | inl over ↦ elim (Option-cases (victim c.entries c.lru)) [
    | inl stuck ↦
        rw (over, stuck, evict_rounds)
          (inr (λ k e m found. victim-none c.entries c.lru k e stuck m found))
    | inr (e, v) ↦
        let found = (victim-find c.entries c.lru e v).0 in
        let fewer = length-erase_entry e.key c.entries e found in
        rw (over, v, evict_rounds) (evict_rounds-Settled rounds (drop_entry c e) (omega arith))
  ]
]

evict_rounds-Accounted :
    (rounds : ℕ) (c : Cache)
    → ready_bytes c.entries < 2 ^ 64
    → Accounted c
    → Accounted (evict_rounds rounds c)
unfolding evict_rounds drop_entry
evict_rounds-Accounted zero c small h = h
evict_rounds-Accounted (suc rounds) c small h =
    elim (Bool-cases (ltb c.budget_bytes c.bytes_resident)) [
      | inr fits ↦ rw (fits, evict_rounds) h
      | inl over ↦ elim (Option-cases (victim c.entries c.lru)) [
        | inl stuck ↦ rw (over, stuck, evict_rounds) h
        | inr (e, v) ↦
            let (found, free) = victim-find c.entries c.lru e v in
            let less = ready_bytes-erase_entry e.key c.entries e found (evictable-ready e free) in
            let count : (c.bytes_resident + 2 ^ 64 - e.size) % 2 ^ 64
                ≡ ready_bytes (erase_entry e.key c.entries) =
              omega arith in
            rw (over, v, evict_rounds)
              (evict_rounds-Accounted rounds (drop_entry c e) (omega arith) count)
      ]
    ]

victim-other :
    (es : List Entry) (k : FrameKey) (e p : Entry)
    → find_entry e.key es ≡ some e
    → evictable e ≡ true
    → find_entry k es ≡ some p
    → evictable p ≡ false
    → key_eq e.key k ≡ false
victim-other es k e p found free h used = elim (Bool-cases (key_eq e.key k)) [
  | inr other ↦ other
  | inl same ↦
      let at : find_entry k es ≡ some e = rw (← key_eq→eq e.key k same) found in
      let one : e ≡ p = ground arith in let clash : evictable e ≡ false = rw one used in cc
]

evict_rounds-keeps :
    (rounds : ℕ) (c : Cache) (k : FrameKey) (p : Entry)
    → find_entry k c.entries ≡ some p
    → evictable p ≡ false
    → find_entry k (evict_rounds rounds c).entries ≡ some p
unfolding evict_rounds drop_entry
evict_rounds-keeps zero c k p h used = h
evict_rounds-keeps (suc rounds) c k p h used =
    elim (Bool-cases (ltb c.budget_bytes c.bytes_resident)) [
      | inr fits ↦ rw (fits, evict_rounds) h
      | inl over ↦ elim (Option-cases (victim c.entries c.lru)) [
        | inl stuck ↦ rw (over, stuck, evict_rounds) h
        | inr (e, v) ↦
            let (found, free) = victim-find c.entries c.lru e v in
            let other : key_eq e.key k ≡ false = victim-other c.entries k e p found free h used in
            rw (over, v, evict_rounds)
              (evict_rounds-keeps rounds (drop_entry c e) k p
                (find_entry-erase_entry e.key k c.entries other ∙ h) used)
      ]
    ]

-- However small the budget is, an eviction ends within the budget or with every entry of the list
-- pinned or still filling, the count of bytes stays right, and an entry that is pinned or still filling stays as it is. The
-- count was right, and the frames fit into 64 bits.
pub evict_if_needed_lem :
    (c : Cache)
    → ready_bytes c.entries < 2 ^ 64
    → Accounted c
    → Settled (evict_if_needed c)
      × Accounted (evict_if_needed c)
      × ((k : FrameKey) (p : Entry)
          → find_entry k c.entries ≡ some p
          → InUse p
          → find_entry k (evict_if_needed c).entries ≡ some p)
unfolding evict_if_needed
evict_if_needed_lem c small h = (
  evict_rounds-Settled (length c.entries) c (omega arith),
  evict_rounds-Accounted (length c.entries) c small h,
  λ k p at used. evict_rounds-keeps (length c.entries) c k p at (InUse-evictable p used),
)
