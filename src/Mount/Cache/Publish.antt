-- ===== src/Mount/Cache/Publish.antt =====
-- What a reader that has filled a frame gets.
use synapse_fs.Mount.Cache.{
  FrameKey, key_eq, Entry, Cache, find_entry, update_entry, publish_entry, publish,
}
use synapse_fs.Mount.Cache.Evict.{ready_bytes, InUse, Settled, Accounted, evict_if_needed_lem}
use synapse_fs.Prelude.{
  ◌+◌, ◌%◌, ◌^◌, ◌<◌, ◌≡◌, ap, inl, inr, false, some, List, [], ◌∷◌, arith, Bool-cases,
}

find_entry-publish :
    (k : FrameKey) (es : List Entry) (e : Entry)
    → find_entry k es ≡ some e
    → find_entry k (update_entry k publish_entry es) ≡ some (publish_entry e)
unfolding find_entry update_entry
find_entry-publish k [] e h = cc
find_entry-publish k (x ∷ xs) e h = elim (Bool-cases (key_eq x.key k)) [
  | inl here ↦
      let same : x ≡ e = ground arith in
      rw (here, update_entry) (rw (here, find_entry) (ap (λ y. some (publish_entry y)) same))
  | inr other ↦
      let rest = find_entry-publish k xs e (ground arith) in
      rw (other, update_entry) (rw (other, find_entry) rest)
]

ready_bytes-publish :
    (k : FrameKey) (es : List Entry) (e : Entry)
    → find_entry k es ≡ some e
    → e.ready ≡ false
    → ready_bytes (update_entry k publish_entry es) ≡ ready_bytes es + e.size
unfolding find_entry update_entry
ready_bytes-publish k [] e h r = cc
ready_bytes-publish k (x ∷ xs) e h r = elim (Bool-cases (key_eq x.key k)) [
  | inl here ↦
      let same : x ≡ e = ground arith in
      let size : x.size ≡ e.size = ap (λ (y : Entry). y.size) same in
      let filling : x.ready ≡ false = rw same r in rw (here, update_entry, filling) (omega arith)
  | inr other ↦
      let rest = ready_bytes-publish k xs e (ground arith) r in
      rw (other, update_entry) (omega arith)
]

-- After a fill that succeeded the frame is ready and pinned once more, the eviction that the fill
-- brings about included, the count of bytes is right, and the budget is kept unless every
-- entry of the list is in use. The entry was there and filling, the count was right, the frames fit into 64 bits and
-- the readers into 32.
pub publish_lem :
    (k : FrameKey) (c : Cache) (e : Entry)
    → find_entry k c.entries ≡ some e
    → e.ready ≡ false
    → Accounted c
    → ready_bytes c.entries + e.size < 2 ^ 64
    → e.refcount + 1 < 2 ^ 32
    → (find_entry k (publish k c).entries ≡ some (publish_entry e))
      × Accounted (publish k c)
      × Settled (publish k c)
unfolding publish
publish_lem k c e h filling right small few =
    let grown : Cache = record c {
      bytes_resident = (c.bytes_resident + e.size) % 2 ^ 64;
      entries = update_entry k publish_entry c.entries;
    } in
    let bytes : Accounted grown =
      omega (arith, ready_bytes-publish k c.entries e h filling, right) in
    let fits : ready_bytes grown.entries < 2 ^ 64 =
      omega (arith, ready_bytes-publish k c.entries e h filling) in
    let (settled, counted, kept) = evict_if_needed_lem grown fits bytes in
    let pinned : InUse (publish_entry e) = inl (omega arith) in
    rw (h, publish)
      (kept k (publish_entry e) (find_entry-publish k c.entries e h) pinned, counted, settled)
