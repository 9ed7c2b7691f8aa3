-- ===== src/Mount/Intervals.antt =====
-- modules/mount/src/inode.cpp: the table from offsets in the reconstructed file to offsets in
-- groups. An index is a uint32_t, and a cursor a uint64_t. std::sort is insertion, and std::upper_bound is a scan; both are taken on the file offset.
pub mod Cover
use synapse_fs.Format.Manifest.{BufferEntry, Manifest, validate}
use synapse_fs.Prelude.{
  ℕ, ◌+◌, ◌-◌, ◌%◌, ◌^◌, Bool, true, false, ◌||◌, Option, none, some, List, [], ◌∷◌, ◌++◌, ltb, leb,
  if◌then◌else◌, set, get_or, replicate, length,
}
use synapse_fs.Prelude.Bytes.{Bytes, bytes_eq}
use synapse_fs.Core.Error.{Result, ok, ◌>>◌}

pub record Interval : Type 0 where
  pub file_offset : ℕ
  pub length : ℕ
  pub group_offset : ℕ
  pub group_index : ℕ
  pub is_header : Bool

pub record IntervalTable : Type 0 where
  pub intervals : List Interval
  pub groups : List Bytes
  pub total_bytes : ℕ

-- The scan of group_index_for, from the index `i` on: the index of the name, or of its new place.
unfoldable pub group_index_from : ℕ → Bytes → List Bytes → ℕ
unfolding bytes_eq
group_index_from i name [] = i
group_index_from i name (g ∷ gs) =
    let rest = group_index_from (i + 1) name gs in if bytes_eq g name then i else rest

unfoldable pub group_index_for : Bytes → List Bytes → ℕ × List Bytes
unfolding group_index_from
group_index_for name groups =
    let gi = group_index_from 0 name groups in
    (gi % 2 ^ 32, (if ltb gi (length groups) then groups else groups ++ name ∷ []))

-- `if (gi >= group_cursor.size()) group_cursor.resize(gi + 1, 0);`
unfoldable pub grow : ℕ → List ℕ → List ℕ
grow gi cursors =
    if leb (length cursors) gi then cursors ++ replicate (gi + 1 - length cursors) 0 else cursors

unfoldable pub entry_interval : BufferEntry → ℕ → ℕ → Interval
entry_interval e gi group_offset = record {
  file_offset = e.off;
  length = e.nbytes;
  group_offset = group_offset;
  group_index = gi;
  is_header = false;
}

-- The loop over the buffer: the intervals that it pushes, and the groups in the end.
unfoldable pub build_from : List BufferEntry → List Bytes → List ℕ → List Interval × List Bytes
unfolding group_index_for grow entry_interval
build_from [] groups cursors = ([], groups)
build_from (e ∷ es) groups cursors =
    let found = group_index_for e.group groups in
    let cursors' = grow found.0 cursors in
    let at = get_or cursors' found.0 0 in
    let rest = build_from es found.1 (set cursors' found.0 ((at + e.nbytes) % 2 ^ 64)) in
    (entry_interval e found.0 at ∷ rest.0, rest.1)

unfoldable pub insert_interval : Interval → List Interval → List Interval
insert_interval iv [] = iv ∷ []
insert_interval iv (x ∷ xs) =
    let rest = insert_interval iv xs in
    if leb iv.file_offset x.file_offset then iv ∷ x ∷ xs else x ∷ rest

unfoldable pub sort_intervals : List Interval → List Interval
unfolding insert_interval
sort_intervals [] = []
sort_intervals (x ∷ xs) = insert_interval x (sort_intervals xs)

abbrev pub header_interval : ℕ → Interval
header_interval header_len = record {
  file_offset = 0;
  length = header_len;
  group_offset = 0;
  group_index = 0;
  is_header = true;
}

-- `manifest.buffer.empty() ? manifest.file.total_bytes : manifest.buffer.front().off`
unfoldable pub header_len_of : Manifest → ℕ
header_len_of m = elim m.buffer [ [] ↦ m.file.total_bytes | e ∷ es ↦ e.off ]

unfoldable pub pushed : Manifest → List Interval
unfolding build_from header_len_of
pushed m =
    let entries = (build_from m.buffer [] []).0 in
    if ltb 0 (header_len_of m) then header_interval (header_len_of m) ∷ entries else entries

unfoldable pub build : Manifest → Result IntervalTable
unfolding validate build_from sort_intervals pushed
build m =
    validate m
    >> ok (record {
      intervals = sort_intervals (pushed m);
      groups = (build_from m.buffer [] []).1;
      total_bytes = m.file.total_bytes;
    })

-- The last interval that does not begin behind `offset`, after `prev`.
unfoldable pub last_not_behind : ℕ → Option Interval → List Interval → Option Interval
last_not_behind offset prev [] = prev
last_not_behind offset prev (iv ∷ ivs) =
    let rest = last_not_behind offset (some iv) ivs in
    if ltb offset iv.file_offset then prev else rest

within : ℕ → Option Interval → Option Interval
within offset none = none
within offset (some iv) =
    if ltb offset iv.file_offset || leb (iv.file_offset + iv.length) offset then none else some iv

unfoldable pub find : IntervalTable → ℕ → Option Interval
unfolding last_not_behind within
find t offset =
    if leb t.total_bytes offset
    then none
    else within offset (last_not_behind offset none t.intervals)

unfoldable pub group_name : IntervalTable → ℕ → Bytes
group_name t i = get_or t.groups i []
