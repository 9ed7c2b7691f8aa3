-- ===== src/Mount/Cache/Listing.antt =====
-- The list of keys and the map of entries hold the same keys, each once.
use synapse_fs.Prelude.{
  ℕ, ◌+◌, ◌≤◌, ◌<◌, ◌≡◌, refl, sym, ap, ◌∙◌, inl, inr, none, some, List, [], ◌∷◌, arith,
  if◌then◌else◌, Bool-cases,
}
use synapse_fs.Mount.Cache.{
  FrameKey, key_eq, Entry, Cache, find_entry, erase_entry, erase_key, update_entry,
}
use synapse_fs.Mount.Cache.Evict.{key_eq→eq}

-- `key_eq`, as a number.
abbrev pub one : FrameKey → FrameKey → ℕ
one j k = if key_eq j k then 1 else 0

abbrev pub times : FrameKey → List FrameKey → ℕ
times k [] = 0
times k (x ∷ xs) = one x k + times k xs

abbrev pub held : FrameKey → List Entry → ℕ
held k [] = 0
held k (e ∷ es) = one e.key k + held k es

-- Each key stands as often in the list as in the map, and at most once.
abbrev pub WellListed : Cache → Type 0
WellListed c = (k : FrameKey) → (times k c.lru ≡ held k c.entries) × (held k c.entries ≤ 1)

pub times-erase_key :
    (j k : FrameKey) (xs : List FrameKey)
    → 0 < times j xs
    → times k (erase_key j xs) + one j k ≡ times k xs
unfolding erase_key
times-erase_key j k [] h = absurd (omega arith)
times-erase_key j k (x ∷ xs) h = elim (Bool-cases (key_eq x j)) [
  | inl here ↦ rw (here, erase_key, key_eq→eq x j here) (omega arith)
  | inr other ↦
      let later = rw other at h in
      let rest = times-erase_key j k xs (omega arith) in rw (other, erase_key) (omega arith)
]

pub held-erase_entry :
    (j k : FrameKey) (es : List Entry)
    → 0 < held j es
    → held k (erase_entry j es) + one j k ≡ held k es
unfolding erase_entry
held-erase_entry j k [] h = absurd (omega arith)
held-erase_entry j k (e ∷ es) h = elim (Bool-cases (key_eq e.key j)) [
  | inl here ↦ rw (here, erase_entry, key_eq→eq e.key j here) (omega arith)
  | inr other ↦
      let later = rw other at h in
      let rest = held-erase_entry j k es (omega arith) in rw (other, erase_entry) (omega arith)
]

held-update_entry :
    (j k : FrameKey) (f : Entry → Entry) (es : List Entry)
    → ((e : Entry) → (f e).key ≡ e.key)
    → held k (update_entry j f es) ≡ held k es
unfolding update_entry
held-update_entry j k f [] same = refl
held-update_entry j k f (e ∷ es) same = elim (Bool-cases (key_eq e.key j)) [
  | inl here ↦ rw (here, update_entry, same e) refl
  | inr other ↦ let rest = held-update_entry j k f es same in rw (other, update_entry) (omega arith)
]

pub held-found :
    (k : FrameKey) (es : List Entry) (e : Entry) → find_entry k es ≡ some e → 0 < held k es
unfolding find_entry
held-found k [] e h = cc
held-found k (x ∷ xs) e h = elim (Bool-cases (key_eq x.key k)) [
  | inl here ↦ rw here (omega arith)
  | inr other ↦ let rest = held-found k xs e (ground arith) in rw other (omega arith)
]

held-missing : (k : FrameKey) (es : List Entry) → find_entry k es ≡ none → held k es ≡ 0
unfolding find_entry
held-missing k [] h = refl
held-missing k (x ∷ xs) h = elim (Bool-cases (key_eq x.key k)) [
  | inl here ↦ absurd (ground arith)
  | inr other ↦ let rest = held-missing k xs (ground arith) in rw other (omega arith)
]

-- The key of an entry moves to the front of the list.
pub touch-WellListed :
    (k j : FrameKey) (c : Cache) (e : Entry)
    → WellListed c
    → find_entry j c.entries ≡ some e
    → times k (j ∷ erase_key j c.lru) ≡ times k c.lru
touch-WellListed k j c e well found =
    let there : 0 < times j c.lru = omega (arith, (well j).0, held-found j c.entries e found) in
    omega (arith, times-erase_key j k c.lru there)

-- An entry and its key are removed.
pub erase-WellListed :
    (j : FrameKey) (c d : Cache) (e : Entry)
    → WellListed c
    → find_entry j c.entries ≡ some e
    → d.entries ≡ erase_entry j c.entries
    → d.lru ≡ erase_key j c.lru
    → WellListed d
erase-WellListed j c d e well found entries lru k =
    let in_map = held-found j c.entries e found in
    let in_list : 0 < times j c.lru = omega (arith, (well j).0, in_map) in
    let fewer = held-erase_entry j k c.entries in_map in
    let shorter = times-erase_key j k c.lru in_list in
    rw (entries, lru) (omega (arith, fewer, shorter, (well k).0), omega (arith, fewer, (well k).1))

-- A change of the entries that leaves their keys.
pub update-WellListed :
    (j : FrameKey) (f : Entry → Entry) (c d : Cache)
    → ((e : Entry) → (f e).key ≡ e.key)
    → WellListed c
    → d.entries ≡ update_entry j f c.entries
    → ((k : FrameKey) → times k d.lru ≡ times k c.lru)
    → WellListed d
update-WellListed j f c d same well entries lru k =
    let kept = held-update_entry j k f c.entries same in
    rw (entries) (omega (arith, kept, lru k, (well k).0), omega (arith, kept, (well k).1))

-- A new entry is put in front.
pub insert-WellListed :
    (j : FrameKey) (c d : Cache) (e : Entry)
    → WellListed c
    → find_entry j c.entries ≡ none
    → e.key ≡ j
    → d.entries ≡ e ∷ c.entries
    → d.lru ≡ j ∷ c.lru
    → WellListed d
insert-WellListed j c d e well missing key entries lru k =
    rw (entries, lru, key)
      (elim (Bool-cases (key_eq j k)) [
        | inl here ↦
            let none_there : held k c.entries ≡ 0 =
              ap (λ i. held i c.entries) (sym (key_eq→eq j k here))
              ∙ held-missing j c.entries missing in
            rw here (omega (arith, none_there, (well k).0), omega (arith, none_there))
        | inr other ↦ rw other (omega (arith, (well k).0), omega (arith, (well k).1))
      ])
