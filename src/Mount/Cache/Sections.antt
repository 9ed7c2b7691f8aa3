-- ===== src/Mount/Cache/Sections.antt =====
-- The other sections of the cache: none of them moves the count of bytes away from the frames.
use synapse_fs.Mount.Cache.{
  FrameKey, key_eq, Entry, Cache, find_entry, erase_entry, update_entry, pin, unpin, lookup_frame,
  forget, clean_failed, release,
}
use synapse_fs.Mount.Cache.Evict.{ready_bytes, Accounted}
use synapse_fs.Prelude.{
  ℕ, ◌≡◌, refl, sym, ap, ◌∙◌, inl, inr, true, false, ◌&&◌, some, List, [], ◌∷◌, arith, ◌==◌,
  Bool-cases, Option-cases,
}

-- A change that leaves the bytes and the state of a frame leaves the sum.
pub ready_bytes-update_entry :
    (k : FrameKey) (f : Entry → Entry) (es : List Entry)
    → ((e : Entry) → ((f e).ready ≡ e.ready) × ((f e).size ≡ e.size))
    → ready_bytes (update_entry k f es) ≡ ready_bytes es
unfolding update_entry
ready_bytes-update_entry k f [] same = refl
ready_bytes-update_entry k f (x ∷ xs) same = elim (Bool-cases (key_eq x.key k)) [
  | inl here ↦ rw (here, update_entry, (same x).0, (same x).1) refl
  | inr other ↦
      let rest = ready_bytes-update_entry k f xs same in rw (other, update_entry) (omega arith)
]

ready_bytes-erase_filling :
    (k : FrameKey) (es : List Entry) (e : Entry)
    → find_entry k es ≡ some e
    → e.ready ≡ false
    → ready_bytes (erase_entry k es) ≡ ready_bytes es
unfolding find_entry erase_entry
ready_bytes-erase_filling k [] e h r = cc
ready_bytes-erase_filling k (x ∷ xs) e h r = elim (Bool-cases (key_eq x.key k)) [
  | inl here ↦
      let same : x ≡ e = ground arith in
      let filling : x.ready ≡ false = rw same r in rw (here, erase_entry, filling) (omega arith)
  | inr other ↦
      let rest = ready_bytes-erase_filling k xs e (ground arith) r in
      rw (other, erase_entry) (omega arith)
]

pub find_entry-unpin :
    (k : FrameKey) (es : List Entry) (e : Entry)
    → find_entry k es ≡ some e
    → find_entry k (update_entry k unpin es) ≡ some (unpin e)
unfolding find_entry update_entry
find_entry-unpin k [] e h = cc
find_entry-unpin k (x ∷ xs) e h = elim (Bool-cases (key_eq x.key k)) [
  | inl here ↦
      let same : x ≡ e = ground arith in
      rw (here, update_entry) (rw (here, find_entry) (ap (λ y. some (unpin y)) same))
  | inr other ↦
      let rest = find_entry-unpin k xs e (ground arith) in
      rw (other, update_entry) (rw (other, find_entry) rest)
]

ready_bytes-pin :
    (k : FrameKey) (es : List Entry) → ready_bytes (update_entry k pin es) ≡ ready_bytes es
ready_bytes-pin k es = ready_bytes-update_entry k pin es (λ e. (refl, refl))

pub lookup_frame-Accounted :
    (k : FrameKey) (size_hint : ℕ) (c : Cache)
    → Accounted c
    → Accounted (lookup_frame k size_hint c).0
unfolding lookup_frame
lookup_frame-Accounted k size_hint c h = elim (Option-cases (find_entry k c.entries)) [
  | inl none_there ↦ rw (none_there, lookup_frame) (omega arith)
  | inr (e, found) ↦ elim (Bool-cases e.ready) [
    | inl ready ↦ rw (found, ready, lookup_frame) (h ∙ sym (ready_bytes-pin k c.entries))
    | inr filling ↦ elim (Bool-cases e.failed) [
      | inl bad ↦ rw (found, filling, bad, lookup_frame) h
      | inr waiting ↦
          rw (found, filling, waiting, lookup_frame) (h ∙ sym (ready_bytes-pin k c.entries))
    ]
  ]
]

pub release-Accounted :
    (k : FrameKey) (c : Cache)
    → Accounted c
    → ((e : Entry) → find_entry k c.entries ≡ some e → e.failed ≡ true → e.ready ≡ false)
    → Accounted (release k c)
unfolding release forget
release-Accounted k c h apart = elim (Option-cases (find_entry k c.entries)) [
  | inl none_there ↦ rw (none_there, release) h
  | inr (e, found) ↦
      let same = ready_bytes-update_entry k unpin c.entries (λ x. (refl, refl)) in
      elim (Bool-cases (e.refcount == 1 && e.failed)) [
        | inr kept ↦ rw (found, kept, release) (h ∙ sym same)
        | inl last ↦
            let bad : e.failed ≡ true = ground arith in
            let gone =
              ready_bytes-erase_filling k (update_entry k unpin c.entries) (unpin e)
                (find_entry-unpin k c.entries e found) (apart e found bad) in
            rw (found, last, release) (h ∙ sym same ∙ sym gone)
      ]
]

-- The cleaning after a failed fill keeps the count of bytes right, if the entry of the key is there
-- and not ready.
pub clean_failed-Accounted :
    (k : FrameKey) (c : Cache) (e : Entry)
    → Accounted c
    → find_entry k c.entries ≡ some e
    → e.ready ≡ false
    → Accounted (clean_failed k c)
unfolding clean_failed forget
clean_failed-Accounted k c e h found filling = elim (Bool-cases (e.refcount == 0)) [
  | inr kept ↦ rw (found, kept, clean_failed) h
  | inl free ↦
      rw (found, free, clean_failed)
        (h ∙ sym (ready_bytes-erase_filling k c.entries e found filling))
]
