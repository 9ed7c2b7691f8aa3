-- ===== src/Codec/Planes/RoundTrip.antt =====
-- byteplane_join undoes byteplane_split.
use synapse_fs.Codec.Planes.{
  copy, outer_loop, split_move, join_move, copy_range, byteplane_split, byteplane_join,
}
use synapse_fs.Prelude.{
  ℕ, zero, suc, ◌+◌, ◌-◌, ◌*◌, ◌/◌, ◌%◌, ◌≤◌, ◌<◌, ◌≡◌, refl, sym, ap, ◌∙◌, inl, inr, true, false,
  ◌++◌, arith, leb, ◌==◌, Bool-cases, length, length-append, get_or, take, drop, take-append-drop,
  length-take, length-drop, eq_of_get_or, get_or-take, take_all, drop_all, get_or-append_left,
  drop-append_len,
}
use synapse_fs.Prelude.Bytes.{Bytes}
use native.Mathlib.Nat.{mul_comm, div-add-mod, mod-lt, div-lt_iff_lt-mul}
use mathlib.Core.List.{append-nil}
use synapse_fs.Codec.Planes.Moves.{length-copy, nest_copies}

-- Digits to the base `n` are unique.
digits_unique : (n p x q y : ℕ) → x < n → y < n → p * n + x ≡ q * n + y → (p ≡ q) × (x ≡ y)
digits_unique n zero x zero y hx hy e = (refl, omega arith)
digits_unique n zero x (suc q) y hx hy e = absurd (omega arith)
digits_unique n (suc p) x zero y hx hy e = absurd (omega arith)
digits_unique n (suc p) x (suc q) y hx hy e =
    let (ep, ex) = digits_unique n p x q y hx hy (omega arith) in (ap suc ep, ex)

index-lt : (n e q x : ℕ) → q < e → x < n → q * n + x < e * n
index-lt n e q x hq hx = grind arith

module _ (n e : ℕ) (src dst : Bytes) (q x : ℕ) (hq : q < e) (hx : x < n)
    (room : e * n ≤ length dst) where
  split_copies :
      get_or (copy (outer_loop (split_move e n) n 0 e) src dst) (q * n + x) 0
      ≡ get_or src (x * e + q) 0
  unfolding split_move
  split_copies =
      nest_copies (split_move e n) n e src dst
        (λ a b c d _ hb _ hd eq. digits_unique n a b c d hb hd eq) q x hq hx
        (omega (arith, index-lt n e q x hq hx))

  join_copies :
      get_or (copy (outer_loop (join_move e n) n 0 e) src dst) (x * e + q) 0
      ≡ get_or src (q * n + x) 0
  unfolding join_move
  join_copies =
      nest_copies (join_move e n) n e src dst
        (λ a b c d ha _ hc _ eq. let (e1, e2) = digits_unique e b a d c ha hc eq in (e2, e1)) q x hq
        hx (omega (arith, index-lt e n x q hx hq, mul_comm n e))

-- The whole elements come back.
join_split_elems :
    (n e : ℕ) (src d1 d2 mid : Bytes)
    → 0 < e
    → e * n ≤ length d1
    → e * n ≤ length d2
    → ((j : ℕ)
        → j < e * n
        → get_or mid j 0 ≡ get_or (copy (outer_loop (split_move e n) n 0 e) src d1) j 0)
    → (j : ℕ) → j < e * n
    → get_or (copy (outer_loop (join_move e n) n 0 e) mid d2) j 0 ≡ get_or src j 0
join_split_elems n e src d1 d2 mid pos r1 r2 same j h =
    let split : j ≡ j / e * e + j % e = omega (arith, div-add-mod j e) in
    let hq : j % e < e = mod-lt j pos in
    let hx : j / e < n = (div-lt_iff_lt-mul pos).1 (omega (arith, mul_comm n e)) in
    rw split (
      join_copies n e mid d2 (j % e) (j / e) hq hx r2
      ∙ same (j % e * n + j / e) (index-lt n e (j % e) (j / e) hq hx)
      ∙ split_copies n e src d1 (j % e) (j / e) hq hx r1)

copy_range_lem :
    (off size : ℕ) (src dst : Bytes)
    → length src ≡ size
    → length dst ≡ size
    → copy_range off size src dst ≡ take off dst ++ drop off src
copy_range_lem off size src dst ls ld =
    rw
      (
        take_all (size - off) (drop off src) (omega (arith, length-drop off src)),
        drop_all size dst (omega arith),
        append-nil,
      )
      refl

length-patch :
    (off : ℕ) (a b : Bytes) → length a ≡ length b → length (take off a ++ drop off b) ≡ length b
length-patch off a b h =
    omega (arith, length-append (take off a) (drop off b), length-take off a, length-drop off b)

elems-le : (s e : ℕ) → 0 < e → e * (s / e) ≤ s
elems-le s e h = omega (arith, div-add-mod s e)

-- For more than one byte to an element, with the buffers of one size.
join_split_planes :
    (src d1 d2 : Bytes) (e : ℕ)
    → 0 < e
    → length d1 ≡ length src
    → length d2 ≡ length src
    → let n = length src / e in
      let mid =
        take (e * n) (copy (outer_loop (split_move e n) n 0 e) src d1) ++ drop (e * n) src in
      take (e * n) (copy (outer_loop (join_move e n) n 0 e) mid d2) ++ drop (e * n) mid ≡ src
join_split_planes src d1 d2 e pos l1 l2 =
    let n = length src / e in
    let off = e * n in
    let c1 = copy (outer_loop (split_move e n) n 0 e) src d1 in
    let mid = take off c1 ++ drop off src in
    let c2 = copy (outer_loop (join_move e n) n 0 e) mid d2 in
    let fits = elems-le (length src) e pos in
    let n1 = length-copy (outer_loop (split_move e n) n 0 e) src d1 in
    let n2 = length-copy (outer_loop (join_move e n) n 0 e) mid d2 in
    let head : take off c2 ≡ take off src =
      eq_of_get_or 0 (take off c2) (take off src)
        (omega (arith, length-take off c2, length-take off src))
        (λ j b.
          let h : j < off = omega (arith, length-take off c2) in
          get_or-take 0 off c2 j h
          ∙ join_split_elems n e src d1 d2 mid pos (omega arith) (omega arith)
              (λ i hi.
                get_or-append_left 0 (take off c1) (drop off src) i
                  (omega (arith, length-take off c1))
                ∙ get_or-take 0 off c1 i hi)
              j h
          ∙ sym (get_or-take 0 off src j h)) in
    let tail : drop off mid ≡ drop off src =
      drop-append_len (take off c1) (drop off src) off (omega (arith, length-take off c1)) in
    rw (head, tail) (take-append-drop off src)

large_elem : (e : ℕ) → leb e 1 ≡ false → (0 < e) × ((e == 0) ≡ false)
large_elem e h = ground arith

byteplane_split-large :
    (src d : Bytes) (e : ℕ)
    → leb e 1 ≡ false
    → length d ≡ length src
    → let n = length src / e in
      byteplane_split src d e
      ≡ take (e * n) (copy (outer_loop (split_move e n) n 0 e) src d) ++ drop (e * n) src
unfolding byteplane_split
byteplane_split-large src d e h l =
    let n = length src / e in
    rw (h, (large_elem e h).1)
      (copy_range_lem (e * n) (length src) src (copy (outer_loop (split_move e n) n 0 e) src d) refl
        (length-copy (outer_loop (split_move e n) n 0 e) src d ∙ l))

byteplane_join-large :
    (src d : Bytes) (e : ℕ)
    → leb e 1 ≡ false
    → length src ≡ length d
    → let n = length d / e in
      byteplane_join src d e
      ≡ take (e * n) (copy (outer_loop (join_move e n) n 0 e) src d) ++ drop (e * n) src
unfolding byteplane_join
byteplane_join-large src d e h l =
    let n = length d / e in
    rw (h, (large_elem e h).1)
      (copy_range_lem (e * n) (length d) src (copy (outer_loop (join_move e n) n 0 e) src d) l
        (length-copy (outer_loop (join_move e n) n 0 e) src d))

byteplane_small :
    (src d1 d2 : Bytes) (e : ℕ)
    → leb e 1 ≡ true
    → length d1 ≡ length src
    → length d2 ≡ length src
    → byteplane_join (byteplane_split src d1 e) d2 e ≡ src
unfolding byteplane_join byteplane_split
byteplane_small src d1 d2 e small l1 l2 =
    rw (small, copy_range_lem 0 (length src) src d1 refl l1)
      (rw (copy_range_lem 0 (length src) src d2 refl l2) refl)

-- Joining the planes of a frame into a buffer of its size gives the frame back, for every element
-- size and every length of the frame; bytes behind the last whole element included.
pub byteplane_join-split :
    (src d1 d2 : Bytes) (elem_bytes : ℕ)
    → length d1 ≡ length src
    → length d2 ≡ length src
    → byteplane_join (byteplane_split src d1 elem_bytes) d2 elem_bytes ≡ src
byteplane_join-split src d1 d2 e l1 l2 = elim (Bool-cases (leb e 1)) [
  | inl small ↦ byteplane_small src d1 d2 e small l1 l2
  | inr large ↦
      let n = length src / e in
      let c1 = copy (outer_loop (split_move e n) n 0 e) src d1 in
      let size =
        length-patch (e * n) c1 src (length-copy (outer_loop (split_move e n) n 0 e) src d1 ∙ l1) in
      rw (byteplane_split-large src d1 e large l1) (
        byteplane_join-large (take (e * n) c1 ++ drop (e * n) src) d2 e large (size ∙ sym l2)
        ∙ rw l2 (join_split_planes src d1 d2 e (large_elem e large).0 l1 l2))
]
