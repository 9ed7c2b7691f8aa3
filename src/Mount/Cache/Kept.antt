-- ===== src/Mount/Cache/Kept.antt =====
-- What each section of the cache makes of the leases.
use synapse_fs.Mount.Cache.Listing.{times, WellListed, times-erase_key, update-WellListed}
use synapse_fs.Prelude.{
  ℕ, ◌+◌, ◌-◌, ◌%◌, ◌^◌, ◌<◌, ◌≡◌, refl, sym, ap, ◌∙◌, inl, inr, false, ◌&&◌, none, some, List, ◌∷◌,
  arith, ◌==◌, Bool-cases, Option-cases, length,
}
use synapse_fs.Mount.Cache.{
  FrameKey, key_eq, Entry, Cache, find_entry, erase_key, evict_if_needed, update_entry, pin, unpin,
  publish_entry, Lookup, hit, failed_before, in_flight, miss, lookup_frame, publish, forget,
  clean_failed, release,
}
use synapse_fs.Mount.Cache.Evict.{key_eq→eq}
use synapse_fs.Mount.Cache.Sections.{find_entry-unpin}
use synapse_fs.Mount.Cache.Leases.{
  Leased, one_refl, erase-Leased, update-Leased, evict_rounds-Leased,
}

times-other :
    (j k : FrameKey) (ls : List FrameKey) → key_eq j k ≡ false → times k (j ∷ ls) ≡ times k ls
times-other j k ls other = rw other (omega arith)

-- A lookup that pins the entry it finds is a lease more.
abbrev pub after_lookup : FrameKey → Lookup → List FrameKey → List FrameKey
after_lookup k hit ls = k ∷ ls
after_lookup k in_flight ls = k ∷ ls
after_lookup k failed_before ls = ls
after_lookup k miss ls = ls

-- A new entry, without a reference, for a key that has none.
insert-Leased :
    (j : FrameKey) (c d : Cache) (ls : List FrameKey) (e : Entry)
    → Leased c ls
    → find_entry j c.entries ≡ none
    → e.key ≡ j
    → e.refcount ≡ 0
    → d.entries ≡ e ∷ c.entries
    → Leased d ls
unfolding find_entry
insert-Leased j c d ls e leased missing key free entries k = elim (Bool-cases (key_eq e.key k)) [
  | inl at ↦
      let same : j ≡ k = sym key ∙ key_eq→eq e.key k at in
      let none_there : times k ls ≡ 0 = ap (λ i. times i ls) (sym same) ∙ (leased j).1 missing in
      rw (entries, at)
        (
          λ x h.
              let this : e ≡ x = cc in
              ap (λ (y : Entry). y.refcount) (sym this) ∙ (free ∙ sym none_there),
          λ h. none_there,
        )
  | inr other ↦ rw (entries, other) (leased k)
]

pub lookup_frame-Leased :
    (k : FrameKey) (size_hint : ℕ) (c : Cache) (ls : List FrameKey)
    → Leased c ls
    → times k ls + 1 < 2 ^ 32
    → Leased (lookup_frame k size_hint c).0 (after_lookup k (lookup_frame k size_hint c).1 ls)
unfolding lookup_frame
lookup_frame-Leased k size_hint c ls leased few = elim (Option-cases (find_entry k c.entries)) [
  | inl missing ↦
      let fresh : Entry = record {
        key = k;
        size = size_hint;
        ready = false;
        failed = false;
        refcount = 0;
      } in
      let d : Cache = record c {
        misses = c.misses + 1;
        lru = k ∷ c.lru;
        entries = fresh ∷ c.entries;
      } in
      rw (missing, lookup_frame) (insert-Leased k c d ls fresh leased missing refl refl refl)
  | inr (e, found) ↦
      let count : (e.refcount + 1) % 2 ^ 32 ≡ times k (k ∷ ls) =
        omega (arith, (leased k).0 e found, one_refl k) in
      elim (Bool-cases e.ready) [
        | inl full ↦
            let d : Cache = record c {
              hits = c.hits + 1;
              entries = update_entry k pin c.entries;
              lru = k ∷ erase_key k c.lru;
            } in
            rw (found, full, lookup_frame)
              (update-Leased k pin c d ls (k ∷ ls) e (λ x. refl) leased found refl count
                (λ j other. times-other k j ls other))
        | inr filling ↦ elim (Bool-cases e.failed) [
          | inl bad ↦ rw (found, filling, bad, lookup_frame) leased
          | inr waiting ↦
              let d : Cache = record c {
                entries = update_entry k pin c.entries;
                single_flight_waits = c.single_flight_waits + 1;
              } in
              rw (found, filling, waiting, lookup_frame)
                (update-Leased k pin c d ls (k ∷ ls) e (λ x. refl) leased found refl count
                  (λ j other. times-other k j ls other))
        ]
      ]
]

pub publish-Leased :
    (k : FrameKey) (c : Cache) (ls : List FrameKey) (e : Entry)
    → WellListed c
    → Leased c ls
    → find_entry k c.entries ≡ some e
    → e.refcount + 1 < 2 ^ 32
    → Leased (publish k c) (k ∷ ls)
unfolding publish evict_if_needed
publish-Leased k c ls e well leased found few =
    let count : (e.refcount + 1) % 2 ^ 32 ≡ times k (k ∷ ls) =
      omega (arith, (leased k).0 e found, one_refl k) in
    let grown : Cache = record c {
      bytes_resident = (c.bytes_resident + e.size) % 2 ^ 64;
      entries = update_entry k publish_entry c.entries;
    } in
    rw (found, publish)
      (evict_rounds-Leased (length grown.entries) grown (k ∷ ls)
        (update-WellListed k publish_entry c grown (λ x. refl) well refl (λ j. refl))
        (update-Leased k publish_entry c grown ls (k ∷ ls) e (λ x. refl) leased found refl count
          (λ j other. times-other k j ls other)))

pub clean_failed-Leased :
    (k : FrameKey) (c : Cache) (ls : List FrameKey) (e : Entry)
    → WellListed c
    → Leased c ls
    → find_entry k c.entries ≡ some e
    → Leased (clean_failed k c) ls
unfolding clean_failed forget
clean_failed-Leased k c ls e well leased found = elim (Bool-cases (e.refcount == 0)) [
  | inr kept ↦ rw (found, kept, clean_failed) leased
  | inl free ↦
      rw (found, free, clean_failed)
        (erase-Leased k c (forget k c) ls e well leased found refl (ground arith))
]

pub release-Leased :
    (k : FrameKey) (c : Cache) (ls : List FrameKey)
    → WellListed c
    → Leased c ls
    → 0 < times k ls
    → times k ls < 2 ^ 32
    → Leased (release k c) (erase_key k ls)
unfolding release forget
release-Leased k c ls well leased some_lease few = elim (Option-cases (find_entry k c.entries)) [
  | inl missing ↦ absurd (omega (arith, (leased k).1 missing))
  | inr (e, found) ↦
      let fewer = times-erase_key k k ls some_lease in
      let held_by = (leased k).0 e found in
      let count : (e.refcount + 2 ^ 32 - 1) % 2 ^ 32 ≡ times k (erase_key k ls) =
        omega (arith, held_by, fewer, one_refl k) in
      let d : Cache = record c { entries = update_entry k unpin c.entries } in
      let listed = update-WellListed k unpin c d (λ x. refl) well refl (λ j. refl) in
      let unpinned =
        update-Leased k unpin c d ls (erase_key k ls) e (λ x. refl) leased found refl count
          (λ j other.
            let rest = times-erase_key k j ls some_lease in
            let same = rw other at rest in omega (arith, same)) in
      elim (Bool-cases (e.refcount == 1 && e.failed)) [
        | inr kept ↦ rw (found, kept, release) unpinned
        | inl last ↦
            let one_left : e.refcount ≡ 1 = ground arith in
            let free : (e.refcount + 2 ^ 32 - 1) % 2 ^ 32 ≡ 0 = rw one_left refl in
            rw (found, last, release)
              (erase-Leased k d (forget k d) (erase_key k ls) (unpin e) listed unpinned
                (find_entry-unpin k c.entries e found) refl free)
      ]
]
