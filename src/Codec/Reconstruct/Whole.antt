-- ===== src/Codec/Reconstruct/Whole.antt =====
-- reconstruct_file gives the file: the header, and then the bytes of each entry's group in order.
use synapse_fs.Core.Error.{Result, ok, Status}
use synapse_fs.Codec.Reconstruct.Group.{
  ReadCtx, stream_chunk, fresh_buffer, read_range, stream_entry, stream_buffer, reconstruct_file,
}
use synapse_fs.Format.Manifest.{GroupEntry, BufferEntry, Manifest, find_group}
use synapse_fs.Prelude.{
  ℕ, zero, suc, ◌+◌, ◌-◌, ◌≤◌, ◌<◌, min, ◌≡◌, refl, sym, ap, ◌∙◌, inl, inr, true, false, some, List,
  [], ◌∷◌, ◌++◌, arith, ltb, ◌==◌, if◌then◌else◌, Bool-cases, length, length-append, take, drop,
  length-take, length-drop, length-replicate,
}
use synapse_fs.Prelude.Bytes.{Bytes, bytes_eq, All}
use mathlib.Core.List.{append-nil, append_assoc}
use synapse_fs.Codec.Gather.Slices.{drop-drop}
use synapse_fs.Core.Kind.{header_kind}

module _ {ℓ} {A : Type ℓ} where
  pub take-split :
      (w m n : ℕ) (xs : List A) → n ≡ w + m → take w xs ++ take m (drop w xs) ≡ take n xs
  take-split zero m n xs h = let same : m ≡ n = omega arith in ap (λ k. take k xs) same
  take-split (suc w) m zero xs h = absurd (omega arith)
  take-split (suc w) zero (suc n) [] h = refl
  take-split (suc w) (suc m) (suc n) [] h = refl
  take-split (suc w) m (suc n) (x ∷ xs) h = ap (λ l. x ∷ l) (take-split w m n xs (omega arith))

length-fresh_buffer : (n : ℕ) → length (fresh_buffer n) ≡ n
unfolding fresh_buffer
length-fresh_buffer n = length-replicate n 0

-- The bytes of a group that the entries before an entry have: docs/spec/10-object-model.md calls
-- them `off_within_group`, and modules/mount/src/inode.cpp counts them in `group_cursor`.
abbrev pub off_within_group : Bytes → List BufferEntry → ℕ
off_within_group name [] = 0
off_within_group name (e ∷ es) =
    (if bytes_eq e.group name then e.nbytes else 0) + off_within_group name es

-- No two entries name one group.
abbrev pub Distinct : List BufferEntry → Type 0
Distinct [] = Unit
Distinct (e ∷ es) = All (λ (f : BufferEntry). bytes_eq e.group f.group ≡ false) es × Distinct es

module _ (content : Bytes → Bytes) where
  -- The bytes of the entries, in the order of the buffer, each from where the entries `before` it
  -- have come to in its group.
  abbrev pub file_bytes : List BufferEntry → List BufferEntry → Bytes
  file_bytes before [] = []
  file_bytes before (entry ∷ entries) =
      take entry.nbytes (drop (off_within_group entry.group before) (content entry.group))
      ++ file_bytes (entry ∷ before) entries

abbrev Unread : List BufferEntry → BufferEntry → Type 0
Unread before entry = off_within_group entry.group before ≡ 0

Unread-cons :
    (before : List BufferEntry) (e : BufferEntry) (es : List BufferEntry)
    → All (Unread before) es
    → All (λ (f : BufferEntry). bytes_eq e.group f.group ≡ false) es
    → All (Unread (e ∷ before)) es
Unread-cons before e [] unread apart = tt
Unread-cons before e (f ∷ fs) unread apart =
    (rw (apart.0) (omega (arith, unread.0)), Unread-cons before e fs unread.1 apart.1)

All-Unread : (es : List BufferEntry) → All (Unread []) es
All-Unread [] = tt
All-Unread (e ∷ es) = (refl, All-Unread es)

module _ (ctx : ReadCtx) (read_group : Manifest → Bytes → ℕ → Bytes → Result (Bytes × ℕ))
    (sink : Bytes → Status) (accepts : (bytes : Bytes) → sink bytes ≡ ok tt) (manifest : Manifest)
    (content : Bytes → Bytes) where
  -- The entry's group is known, has the entry's bytes at least, and is read as its content within
  -- the entry's size.
  pub record Served (entry : BufferEntry) : Type 0 where
    pub group : GroupEntry
    pub known : find_group manifest entry.group ≡ some group
    pub room : entry.nbytes ≤ length (content entry.group)
    pub reads :
        (offset : ℕ) (out : Bytes)
        → offset + length out ≤ entry.nbytes
        → read_range ctx read_group manifest entry.group offset out
          ≡ ok (take (length out) (drop offset (content entry.group)), length out)

  stream_entry_lem :
      (entry : BufferEntry) (fuel done : ℕ) (buf out : Bytes)
      → Served entry
      → length buf ≡ stream_chunk
      → done ≤ entry.nbytes
      → entry.nbytes - done < fuel
      → (buf' : Bytes) × (length buf' ≡ stream_chunk)
        × (stream_entry ctx read_group sink fuel manifest entry done buf out
            ≡ some (ok (buf', out ++ take (entry.nbytes - done) (drop done (content entry.group)))))
  unfolding stream_entry
  stream_entry_lem entry zero done buf out served chunk within few = absurd (omega arith)
  stream_entry_lem entry (suc fuel) done buf out served chunk within few =
      elim (Bool-cases (ltb done entry.nbytes)) [
        | inr ended ↦
            let nothing : entry.nbytes - done ≡ 0 = ground arith in
            (
              buf,
              chunk,
              rw (ended, nothing) (ap (λ (l : Bytes). some (ok (buf, l))) (sym (append-nil out))),
            )
        | inl more ↦
            let want = min stream_chunk (entry.nbytes - done) in
            let some_bytes : 0 < want = ground arith in
            let got = take want (drop done (content entry.group)) in
            let part : length (take want buf) ≡ want = omega (arith, length-take want buf) in
            let got_size : length got ≡ want = omega (
              arith,
              length-take want (drop done (content entry.group)),
              length-drop done (content entry.group),
              served.room,
            ) in
            let read : read_range ctx read_group manifest entry.group done (take want buf)
                ≡ ok (got, want) =
              served.reads done (take want buf) (omega (arith, part))
              ∙ ap (λ (n : ℕ). ok (take n (drop done (content entry.group)), n)) part in
            let whole : (want == want) ≡ true = ground arith in
            let buf_size : length (got ++ drop want buf) ≡ stream_chunk =
              omega (arith, length-append got (drop want buf), length-drop want buf) in
            let (buf', chunk', rest) =
              stream_entry_lem entry fuel (done + want) (got ++ drop want buf) (out ++ got) served
                buf_size (omega arith) (omega arith) in
            let later =
              take (entry.nbytes - (done + want)) (drop (done + want) (content entry.group)) in
            let split : got ++ later
                ≡ take (entry.nbytes - done) (drop done (content entry.group)) =
              ap (λ l. got ++ take (entry.nbytes - (done + want)) l)
                (sym (drop-drop want done (done + want) (content entry.group) refl))
              ∙ take-split want (entry.nbytes - (done + want)) (entry.nbytes - done)
                  (drop done (content entry.group)) (omega arith) in
            (
              buf',
              chunk',
              rw (stream_entry, more, read, whole, accepts got)
                  (rest
                    ∙ ap (λ (l : Bytes). some (ok (buf', l)))
                        (append_assoc out got later ∙ ap (λ l. out ++ l) split)),
            )
      ]

  stream_buffer_lem :
      (before entries : List BufferEntry) (fuel : ℕ) (buf out : Bytes)
      → length buf ≡ stream_chunk
      → All Served entries
      → All (λ (entry : BufferEntry). entry.nbytes < fuel) entries
      → All (Unread before) entries
      → Distinct entries
      → stream_buffer ctx read_group sink fuel manifest entries buf out
        ≡ some (ok (out ++ file_bytes content before entries))
  unfolding stream_buffer
  stream_buffer_lem before [] fuel buf out chunk served few unread apart =
      ap (λ (l : Bytes). some (ok l)) (sym (append-nil out))
  stream_buffer_lem before (entry ∷ entries) fuel buf out chunk served few unread apart =
      let (buf', chunk', streamed) =
        stream_entry_lem entry fuel 0 buf out served.0 chunk (omega arith) (omega (arith, few.0)) in
      let bytes = take entry.nbytes (content entry.group) in
      let rest =
        stream_buffer_lem (entry ∷ before) entries fuel buf' (out ++ bytes) chunk' served.1 few.1
          (Unread-cons before entry entries unread.1 apart.0) apart.1 in
      let all_of_it : entry.nbytes - 0 ≡ entry.nbytes = omega arith in
      rw (stream_buffer, served.0.known, streamed, all_of_it, unread.0)
        (rest
          ∙ ap (λ (l : Bytes). some (ok l))
              (append_assoc out bytes (file_bytes content (entry ∷ before) entries)))

  -- Where the header block is stored, the sink takes what it is given, each entry's group is read as
  -- its content and has the entry's bytes, and no two entries name one group, reconstruct_file
  -- returns, with more rounds for an entry than it has bytes, and has given the sink the header and
  -- then each entry's bytes from its offset within its group, in the order of the buffer.
  pub reconstruct_file_lem :
      (fuel : ℕ) (header : Bytes)
      → ctx.get_block manifest.file.header_block header_kind ≡ ok header
      → All Served manifest.buffer
      → All (λ (entry : BufferEntry). entry.nbytes < fuel) manifest.buffer
      → Distinct manifest.buffer
      → reconstruct_file ctx read_group sink fuel manifest
        ≡ some (ok (header ++ file_bytes content [] manifest.buffer))
  unfolding reconstruct_file
  reconstruct_file_lem fuel header stored served few apart =
      rw (reconstruct_file, stored, accepts header)
        (stream_buffer_lem [] manifest.buffer fuel (fresh_buffer stream_chunk) header
          (length-fresh_buffer stream_chunk) served few (All-Unread manifest.buffer) apart)
