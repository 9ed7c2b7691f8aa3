-- ===== src/Mount/Cache.antt =====
-- modules/mount/include/synapsefs/mount/blockcache.hpp and modules/mount/src/blockcache.cpp: the
-- cache of frames. Each function is a section that the code runs under the cache's mutex, so an
-- interleaving of readers is a sequence of them; a fill runs between two sections. The map is the
-- list of its entries, and the bytes of a frame are their number. The count of bytes
-- is a uint64_t, and a reference count a uint32_t.
pub mod Evict
pub mod Publish
pub mod Listing
pub mod Leases
pub mod Kept
pub mod Sound
pub mod Steps
pub mod Sections
use synapse_fs.Prelude.{
  ℕ, zero, suc, ◌+◌, ◌-◌, ◌%◌, ◌^◌, Bool, true, false, ◌&&◌, Option, none, some, List, [], ◌∷◌, ltb,
  ◌==◌, if◌then◌else◌, length,
}
use synapse_fs.Core.Oid.{Oid, oid_eq}

pub record FrameKey : Type 0 where
  pub artifact : Oid
  pub tensor_index : ℕ
  pub frame_index : ℕ

unfoldable pub key_eq : FrameKey → FrameKey → Bool
unfolding oid_eq
key_eq a b =
    oid_eq a.artifact b.artifact
    && a.tensor_index == b.tensor_index
    && a.frame_index == b.frame_index

pub record Entry : Type 0 where
  pub key : FrameKey
  pub size : ℕ
  pub ready : Bool
  pub failed : Bool
  pub refcount : ℕ

pub record Cache : Type 0 where
  pub budget_bytes : ℕ
  pub entries : List Entry
  pub lru : List FrameKey
  pub bytes_resident : ℕ
  pub hits : ℕ
  pub misses : ℕ
  pub single_flight_waits : ℕ
  pub evictions : ℕ

-- `map.find(key)`.
unfoldable pub find_entry : FrameKey → List Entry → Option Entry
unfolding key_eq
find_entry k [] = none
find_entry k (e ∷ es) = let rest = find_entry k es in if key_eq e.key k then some e else rest

-- `map.erase(it)` for the entry of a key.
unfoldable pub erase_entry : FrameKey → List Entry → List Entry
unfolding key_eq
erase_entry k [] = []
erase_entry k (e ∷ es) = let rest = erase_entry k es in if key_eq e.key k then es else e ∷ rest

-- `lru.erase(it)` for the place of a key.
unfoldable pub erase_key : FrameKey → List FrameKey → List FrameKey
unfolding key_eq
erase_key k [] = []
erase_key k (x ∷ xs) = let rest = erase_key k xs in if key_eq x k then xs else x ∷ rest

-- The test of an entry by evict_if_needed: neither pinned nor filling.
unfoldable pub evictable : Entry → Bool
evictable e = e.refcount == 0 && e.ready

-- The scan of evict_if_needed from the tail of the list: the last key whose entry may go.
unfoldable pub victim : List Entry → List FrameKey → Option Entry
unfolding find_entry evictable
victim es [] = none
victim es (k ∷ ks) = elim (victim es ks) [
  | some e ↦ some e
  | none ↦ elim (find_entry k es) [ none ↦ none | some e ↦ if evictable e then some e else none ]
]

unfoldable pub drop_entry : Cache → Entry → Cache
unfolding erase_entry erase_key
drop_entry c e = record c {
  entries = erase_entry e.key c.entries;
  lru = erase_key e.key c.lru;
  bytes_resident = (c.bytes_resident + 2 ^ 64 - e.size) % 2 ^ 64;
  evictions = c.evictions + 1;
}

-- The loop of evict_if_needed, which begins again at the tail after each eviction; the rounds are
-- bounded by the entries that there are.
unfoldable pub evict_rounds : ℕ → Cache → Cache
unfolding victim drop_entry
evict_rounds zero c = c
evict_rounds (suc rounds) c = elim (ltb c.budget_bytes c.bytes_resident) [
  | false ↦ c
  | true ↦ elim (victim c.entries c.lru) [
    | none ↦ c
    | some e ↦ evict_rounds rounds (drop_entry c e)
  ]
]

unfoldable pub evict_if_needed : Cache → Cache
unfolding evict_rounds
evict_if_needed c = evict_rounds (length c.entries) c

-- A change of the entry of a key, which the code makes through its pointer.
unfoldable pub update_entry : FrameKey → (Entry → Entry) → List Entry → List Entry
unfolding key_eq
update_entry k f [] = []
update_entry k f (e ∷ es) =
    let rest = update_entry k f es in if key_eq e.key k then f e ∷ es else e ∷ rest

abbrev pub pin : Entry → Entry
pin e = record e { refcount = (e.refcount + 1) % 2 ^ 32 }

abbrev pub unpin : Entry → Entry
unpin e = record e { refcount = (e.refcount + 2 ^ 32 - 1) % 2 ^ 32 }

abbrev pub fail_entry : Entry → Entry
fail_entry e = record e { failed = true }

abbrev pub publish_entry : Entry → Entry
publish_entry e = record e { ready = true; refcount = (e.refcount + 1) % 2 ^ 32 }

-- get_or_fill, the section before the fill: what the reader finds.
pub data Lookup : Type 0 where
  hit failed_before in_flight miss : Lookup

unfoldable pub lookup_frame : FrameKey → ℕ → Cache → Cache × Lookup
unfolding find_entry update_entry erase_key
lookup_frame k size_hint c = elim (find_entry k c.entries) [
  | some e ↦
      if e.ready
      then (
        record c {
          hits = c.hits + 1;
          entries = update_entry k pin c.entries;
          lru = k ∷ erase_key k c.lru;
        },
        hit,
      )
      else if e.failed
      then (c, failed_before)
      else (
        record c {
          entries = update_entry k pin c.entries;
          single_flight_waits = c.single_flight_waits + 1;
        },
        in_flight,
      )
  | none ↦ (
    record c {
      misses = c.misses + 1;
      lru = k ∷ c.lru;
      entries =
          record { key = k; size = size_hint; ready = false; failed = false; refcount = 0 }
          ∷ c.entries;
    },
    miss,
  )
]

-- get_or_fill, the section after a fill that succeeded.
unfoldable pub publish : FrameKey → Cache → Cache
unfolding find_entry update_entry evict_if_needed
publish k c = elim (find_entry k c.entries) [
  | none ↦ c
  | some e ↦ evict_if_needed (record c {
    bytes_resident = (c.bytes_resident + e.size) % 2 ^ 64;
    entries = update_entry k publish_entry c.entries;
  })
]

-- The entry of a key leaves the list and the map.
unfoldable pub forget : FrameKey → Cache → Cache
unfolding erase_entry erase_key
forget k c = record c { entries = erase_entry k c.entries; lru = erase_key k c.lru }

-- get_or_fill, the two sections after a fill that failed.
unfoldable pub mark_failed : FrameKey → Cache → Cache
unfolding update_entry
mark_failed k c = record c { entries = update_entry k fail_entry c.entries }

unfoldable pub clean_failed : FrameKey → Cache → Cache
unfolding find_entry forget
clean_failed k c = elim (find_entry k c.entries) [
  | none ↦ c
  | some e ↦ if e.refcount == 0 then forget k c else c
]

-- get_or_fill, the section of a reader that has waited for a frame.
unfoldable pub wake : FrameKey → Cache → Cache
unfolding erase_key
wake k c = record c { hits = c.hits + 1; lru = k ∷ erase_key k c.lru }

-- release, of the entry that has the key: a pinned entry stays in the map.
unfoldable pub release : FrameKey → Cache → Cache
unfolding find_entry update_entry forget
release k c = elim (find_entry k c.entries) [
  | none ↦ c
  | some e ↦
      let c' = record c { entries = update_entry k unpin c.entries } in
      if e.refcount == 1 && e.failed then forget k c' else c'
]
