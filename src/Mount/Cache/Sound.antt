-- ===== src/Mount/Cache/Sound.antt =====
-- What each section of the cache keeps: the listing, the count of bytes, and the state of a frame.
use synapse_fs.Prelude.Bytes.{All}
use synapse_fs.Mount.Cache.{
  FrameKey, key_eq, Entry, Cache, find_entry, erase_entry, erase_key, victim, drop_entry,
  evict_rounds, evict_if_needed, update_entry, pin, unpin, publish_entry, lookup_frame, publish,
  forget, clean_failed, release,
}
use synapse_fs.Prelude.{
  ℕ, zero, suc, ◌+◌, ◌%◌, ◌^◌, ◌<◌, ◌≡◌, refl, inl, inr, true, false, ◌&&◌, some, List, [], ◌∷◌,
  arith, ltb, ◌==◌, Bool-cases, Option-cases, length,
}
use synapse_fs.Mount.Cache.Listing.{
  WellListed, touch-WellListed, erase-WellListed, update-WellListed, insert-WellListed,
}
use synapse_fs.Mount.Cache.Evict.{victim-find, ready_bytes, Accounted}
use mathlib.Core.Path.{subst}
use synapse_fs.Mount.Cache.Sections.{
  find_entry-unpin, lookup_frame-Accounted, release-Accounted, clean_failed-Accounted,
}
use synapse_fs.Mount.Cache.Publish.{publish_lem}

-- A frame is not ready and failed at once.
abbrev pub Apart : Entry → Type 0
Apart e = e.failed ≡ true → e.ready ≡ false

abbrev pub Sound : Cache → Type 0
Sound c = WellListed c × Accounted c × All Apart c.entries

All-find :
    (k : FrameKey) (es : List Entry) (e : Entry) → All Apart es → find_entry k es ≡ some e → Apart e
unfolding find_entry
All-find k [] e all h = cc
All-find k (x ∷ xs) e all h = elim (Bool-cases (key_eq x.key k)) [
  | inl same_key ↦ let same : x ≡ e = ground arith in subst Apart same all.0
  | inr other ↦ All-find k xs e all.1 (ground arith)
]

pub All-update :
    (k : FrameKey) (f : Entry → Entry) (es : List Entry)
    → All Apart es
    → ((e : Entry) → find_entry k es ≡ some e → Apart e → Apart (f e))
    → All Apart (update_entry k f es)
unfolding find_entry update_entry
All-update k f [] all keeps = tt
All-update k f (x ∷ xs) all keeps = elim (Bool-cases (key_eq x.key k)) [
  | inl same_key ↦ rw same_key (keeps x (rw same_key refl) all.0, all.1)
  | inr other ↦ rw other (all.0, All-update k f xs all.1 (λ e h. keeps e (rw other h)))
]

All-erase : (k : FrameKey) (es : List Entry) → All Apart es → All Apart (erase_entry k es)
unfolding erase_entry
All-erase k [] all = tt
All-erase k (x ∷ xs) all = elim (Bool-cases (key_eq x.key k)) [
  | inl same_key ↦ rw same_key all.1
  | inr other ↦ rw other (all.0, All-erase k xs all.1)
]

evict_rounds-WellListed :
    (rounds : ℕ) (c : Cache)
    → WellListed c
    → All Apart c.entries
    → WellListed (evict_rounds rounds c) × All Apart (evict_rounds rounds c).entries
unfolding evict_rounds drop_entry
evict_rounds-WellListed zero c well all = (well, all)
evict_rounds-WellListed (suc rounds) c well all =
    elim (Bool-cases (ltb c.budget_bytes c.bytes_resident)) [
      | inr fits ↦ rw (fits, evict_rounds) (well, all)
      | inl over ↦ elim (Option-cases (victim c.entries c.lru)) [
        | inl stuck ↦ rw (over, stuck, evict_rounds) (well, all)
        | inr (e, v) ↦
            let found = (victim-find c.entries c.lru e v).0 in
            rw (over, v, evict_rounds)
              (evict_rounds-WellListed rounds (drop_entry c e)
                (erase-WellListed e.key c (drop_entry c e) e well found refl refl)
                (All-erase e.key c.entries all))
      ]
    ]

pub update_entry_same : (k : FrameKey) (es : List Entry) → update_entry k (λ x. x) es ≡ es
unfolding update_entry
update_entry_same k [] = refl
update_entry_same k (x ∷ xs) = elim (Bool-cases (key_eq x.key k)) [
  | inl same_key ↦ rw same_key refl
  | inr other ↦ rw (other, update_entry_same k xs) refl
]

pub lookup_frame-Sound :
    (k : FrameKey) (size_hint : ℕ) (c : Cache) → Sound c → Sound (lookup_frame k size_hint c).0
unfolding lookup_frame
lookup_frame-Sound k size_hint c (well, right, all) =
    let counted = lookup_frame-Accounted k size_hint c right in
    elim (Option-cases (find_entry k c.entries)) [
      | inl missing ↦
          let fresh : Entry = record {
            key = k;
            size = size_hint;
            ready = false;
            failed = false;
            refcount = 0;
          } in
          let d : Cache = record c {
            misses = c.misses + 1;
            lru = k ∷ c.lru;
            entries = fresh ∷ c.entries;
          } in
          let apart : Apart fresh = λ e. refl in
          let got = rw (missing, lookup_frame) at counted in
          rw (missing, lookup_frame)
            (insert-WellListed k c d fresh well missing refl refl refl, got, (apart, all))
      | inr (e, found) ↦ elim (Bool-cases e.ready) [
        | inl full ↦
            let d : Cache = record c {
              hits = c.hits + 1;
              entries = update_entry k pin c.entries;
              lru = k ∷ erase_key k c.lru;
            } in
            let got = rw (found, full, lookup_frame) at counted in
            rw (found, full, lookup_frame)
              (
                update-WellListed k pin c d (λ x. refl) well refl
                    (λ j. touch-WellListed j k c e well found),
                got,
                All-update k pin c.entries all (λ x h apart. apart),
              )
        | inr filling ↦ elim (Bool-cases e.failed) [
          | inl bad ↦ rw (found, filling, bad, lookup_frame) (well, right, all)
          | inr waiting ↦
              let d : Cache = record c {
                entries = update_entry k pin c.entries;
                single_flight_waits = c.single_flight_waits + 1;
              } in
              let got = rw (found, filling, waiting, lookup_frame) at counted in
              rw (found, filling, waiting, lookup_frame)
                (
                  update-WellListed k pin c d (λ x. refl) well refl (λ j. refl),
                  got,
                  All-update k pin c.entries all (λ x h apart. apart),
                )
        ]
      ]
    ]

pub publish-Sound :
    (k : FrameKey) (c : Cache) (e : Entry)
    → Sound c
    → find_entry k c.entries ≡ some e
    → e.ready ≡ false
    → e.failed ≡ false
    → ready_bytes c.entries + e.size < 2 ^ 64
    → e.refcount + 1 < 2 ^ 32
    → Sound (publish k c)
unfolding publish evict_if_needed
publish-Sound k c e (well, right, all) found filling fine small few =
    let counted = (publish_lem k c e found filling right small few).1 in
    let grown : Cache = record c {
      bytes_resident = (c.bytes_resident + e.size) % 2 ^ 64;
      entries = update_entry k publish_entry c.entries;
    } in
    let listed = update-WellListed k publish_entry c grown (λ x. refl) well refl (λ j. refl) in
    let apart = All-update k publish_entry c.entries all (λ x h old bad.
      let one_entry : x ≡ e = cc in let clash : x.failed ≡ false = rw one_entry fine in cc) in
    let (after, still) = evict_rounds-WellListed (length grown.entries) grown listed apart in
    let got = rw (found, publish) at counted in rw (found, publish) (after, got, still)

pub clean_failed-Sound :
    (k : FrameKey) (c : Cache) (e : Entry)
    → Sound c
    → find_entry k c.entries ≡ some e
    → e.ready ≡ false
    → Sound (clean_failed k c)
unfolding clean_failed forget
clean_failed-Sound k c e (well, right, all) found filling =
    let counted = clean_failed-Accounted k c e right found filling in
    elim (Bool-cases (e.refcount == 0)) [
      | inr kept ↦ rw (found, kept, clean_failed) (well, right, all)
      | inl free ↦
          let got = rw (found, free, clean_failed) at counted in
          rw (found, free, clean_failed)
            (
              erase-WellListed k c (forget k c) e well found refl refl,
              got,
              All-erase k c.entries all,
            )
    ]

pub release-Sound : (k : FrameKey) (c : Cache) → Sound c → Sound (release k c)
unfolding release forget
release-Sound k c (well, right, all) =
    let counted = release-Accounted k c right (λ e found. All-find k c.entries e all found) in
    elim (Option-cases (find_entry k c.entries)) [
      | inl missing ↦ rw (missing, release) (well, right, all)
      | inr (e, found) ↦
          let d : Cache = record c { entries = update_entry k unpin c.entries } in
          let listed = update-WellListed k unpin c d (λ x. refl) well refl (λ j. refl) in
          let apart = All-update k unpin c.entries all (λ x h old. old) in
          elim (Bool-cases (e.refcount == 1 && e.failed)) [
            | inr kept ↦
                let got = rw (found, kept, release) at counted in
                rw (found, kept, release) (listed, got, apart)
            | inl last ↦
                let got = rw (found, last, release) at counted in
                rw (found, last, release)
                  (
                    erase-WellListed k d (forget k d) (unpin e) listed
                        (find_entry-unpin k c.entries e found) refl refl,
                    got,
                    All-erase k d.entries apart,
                  )
          ]
    ]
