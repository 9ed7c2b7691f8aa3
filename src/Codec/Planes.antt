-- ===== src/Codec/Planes.antt =====
-- byteplane_split and byteplane_join of
-- modules/codec/src/compress.cpp. A loop that copies bytes is the list of its moves, in the order
-- of the code; the indices do not wrap for frames that fit into memory.
pub mod Moves
pub mod RoundTrip
use synapse_fs.Prelude.{
  ℕ, zero, suc, ◌+◌, ◌-◌, ◌*◌, ◌/◌, List, [], ◌∷◌, ◌++◌, leb, ◌==◌, if◌then◌else◌, length, set,
  get_or, take, drop,
}
use synapse_fs.Prelude.Bytes.{Bytes}

pub record Move : Type 0 where
  pub to : ℕ
  pub from : ℕ

-- `dst[to] = src[from]`, one move after the other.
unfoldable pub copy : List Move → Bytes → Bytes → Bytes
copy [] src dst = dst
copy (m ∷ ms) src dst = copy ms src (set dst m.to (get_or src m.from 0))

unfoldable pub whole_elems : ℕ → ℕ → ℕ
whole_elems total_bytes elem_bytes = if elem_bytes == 0 then 0 else total_bytes / elem_bytes

-- `for plane ... for i ...` with one assignment in the body: the inner loop from the element `i`
-- on, and the outer loop from `plane` on, with the rounds that are left.
unfoldable pub inner_loop : (ℕ → ℕ → Move) → ℕ → ℕ → ℕ → List Move
inner_loop body plane i zero = []
inner_loop body plane i (suc left) = body plane i ∷ inner_loop body plane (i + 1) left

unfoldable pub outer_loop : (ℕ → ℕ → Move) → ℕ → ℕ → ℕ → List Move
unfolding inner_loop
outer_loop body n plane zero = []
outer_loop body n plane (suc left) = inner_loop body plane 0 n ++ outer_loop body n (plane + 1) left

-- `out[i] = src[i * elem_bytes + plane]`, where `out` begins at `plane * n`.
unfoldable pub split_move : ℕ → ℕ → ℕ → ℕ → Move
split_move elem_bytes n plane i = record { to = plane * n + i; from = i * elem_bytes + plane }

-- `dst[i * elem_bytes + plane] = in[i]`, where `in` begins at `plane * n`.
unfoldable pub join_move : ℕ → ℕ → ℕ → ℕ → Move
join_move elem_bytes n plane i = record { to = i * elem_bytes + plane; from = plane * n + i }

-- std::memcpy of the range [off, size) of `src` to the same range of `dst`.
abbrev pub copy_range : ℕ → ℕ → Bytes → Bytes → Bytes
copy_range off size src dst = take off dst ++ (take (size - off) (drop off src) ++ drop size dst)

unfoldable pub byteplane_split : Bytes → Bytes → ℕ → Bytes
unfolding copy outer_loop split_move whole_elems
byteplane_split src dst elem_bytes =
    if leb elem_bytes 1
    then copy_range 0 (length src) src dst
    else (let n = whole_elems (length src) elem_bytes in
        copy_range (elem_bytes * n) (length src) src
          (copy (outer_loop (split_move elem_bytes n) n 0 elem_bytes) src dst))

unfoldable pub byteplane_join : Bytes → Bytes → ℕ → Bytes
unfolding copy outer_loop join_move whole_elems
byteplane_join src dst elem_bytes =
    if leb elem_bytes 1
    then copy_range 0 (length src) src dst
    else (let n = whole_elems (length dst) elem_bytes in
        copy_range (elem_bytes * n) (length dst) src
          (copy (outer_loop (join_move elem_bytes n) n 0 elem_bytes) src dst))
