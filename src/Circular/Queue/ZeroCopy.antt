-- ===== src/Circular/Queue/ZeroCopy.antt =====
-- The zero-copy interface against `write` and the queue.
use mathlib.Core.List.{append-nil}
use secbuf.Prelude.{
  subst, ℕ, ◌+◌, ◌-◌, ◌≤◌, ◌<◌, ◌≡◌, refl, sym, ap, ◌∙◌, inl, inr, none, some, Option-cases, List,
  ◌++◌, length, drop, splice, splice-none, leb, ◌==◌, Bool-cases, leb→le, take-all, length-drop,
  ==_iff, if◌then◌else◌, arith,
}
use secbuf.Error.{ok, Method, ◌>>=◌, ◌>>◌, return}
use secbuf.Circular.{CircularBuffer, Range, no_range, max_cbuf_size, available}
use secbuf.Circular.Ops.{write, write_slices_mut, fill, incr_write, read_ptrs, bytes_of}
use secbuf.Circular.Valid.{IsValid, turn, wrap_lem}
use secbuf.Circular.Queue.{round_trip, memory, contents}
use secbuf.Circular.Queue.Refine.{laid}
use secbuf.Circular.Queue.Read.{has_storage}
use secbuf.Circular.Queue.Gather.{one_part, two_parts}
use secbuf.Circular.Queue.Write.{
  available_lem, appended, allocated, allocated-IsValid, write_stored, write_unallocated, size_mem,
  writes_in, tabulate-none,
}

-- the two slices that `write_slices_mut` gives for `len` bytes
abbrev slices : ℕ → CircularBuffer → Range × Range
slices len c =
    if leb len (c.size - c.write_pos)
    then (record { start = c.write_pos; count = len }, no_range)
    else (
      record { start = c.write_pos; count = c.size - c.write_pos },
      record { start = 0; count = len - (c.size - c.write_pos) },
    )

-- its last steps: from the moved cursor on, and from the slices on
abbrev moved : ℕ → Method CircularBuffer ℕ
moved len = do incr_write len; return len

abbrev filled_and_moved : List ℕ → Range × Range → Method CircularBuffer ℕ
filled_and_moved bytes ranges = do λ c. (ok tt, fill ranges bytes c); moved (length bytes)

-- what a caller writes without copying twice: take the slices, fill them, move the cursor
unfoldable pub write_in_place : List ℕ → Method CircularBuffer ℕ
write_in_place bytes = do ranges ← write_slices_mut (length bytes); filled_and_moved bytes ranges

module _ {c : CircularBuffer} (v : IsValid c) (mem : List ℕ) (has : c.store ≡ some mem) where
  slices_stored :
      (len : ℕ) → 0 < len → c.used + len ≤ c.size → write_slices_mut len c ≡ (ok (slices len c), c)
  unfolding write_slices_mut
  slices_stored len some_bytes fits =
      ground (arith, has, available_lem v, size_mem v mem has, writes_in v mem has, v.small)

  fill-slices :
      (bytes : List ℕ)
      → length bytes ≤ c.size
      → fill (slices (length bytes) c) bytes c
        ≡ record c { store = some (laid mem c.write_pos bytes) }
  unfolding laid
  fill-slices bytes fits = elim (Bool-cases (leb (length bytes) (c.size - c.write_pos))) [
    | inl one ↦ ground (
      arith,
      has,
      one,
      size_mem v mem has,
      take-all (length bytes) bytes (omega arith),
      splice-none (splice mem c.write_pos bytes),
    )
    | inr two ↦ ground (
      arith,
      has,
      two,
      size_mem v mem has,
      length-drop (c.size - c.write_pos) bytes,
      take-all (length bytes - (c.size - c.write_pos)) (drop (c.size - c.write_pos) bytes),
    )
  ]

  -- the cursor moved over a ring whose bytes have changed
  cursor_moved :
      (now : List ℕ) (len : ℕ)
      → 0 < len
      → c.used + len ≤ c.size
      → incr_write len (record c { store = some now }) ≡ (
        ok tt,
        record c {
          store = some now;
          write_pos = turn c.size (c.write_pos + len);
          used = c.used + len;
        },
      )
  unfolding incr_write available
  cursor_moved now len something fits = ground (
    arith,
    wrap_lem c.write_pos len c.size c.is_pow2 (writes_in v mem has) (omega arith) v.small v.pow2,
    v.small,
  )

  in_place_stored :
      (bytes : List ℕ)
      → 0 < length bytes
      → c.used + length bytes ≤ c.size
      → write_in_place bytes c ≡ (ok (length bytes), appended c mem bytes)
  unfolding write_in_place
  in_place_stored bytes something fits =
      ap (λ r. ◌>>=◌ (λ _. r) (filled_and_moved bytes) c)
        (slices_stored (length bytes) something fits)
      ∙ ap (moved (length bytes)) (fill-slices bytes (omega arith))
      ∙ ap (λ r. ◌>>◌ (λ _. r) (return (length bytes)) c)
          (cursor_moved (laid mem c.write_pos bytes) (length bytes) something fits)

module _ {c : CircularBuffer} (bytes : List ℕ) (v : IsValid c) (something : 0 < length bytes)
    (room : length bytes ≤ c.size - c.used) where
  slices_unstored :
      c.store ≡ none
      → write_slices_mut (length bytes) c ≡ write_slices_mut (length bytes) (allocated c)
  unfolding write_slices_mut available
  slices_unstored has = ground (arith, has, v.fits, v.small)

  -- With something to write and room for it in a valid ring, filling the slices of
  -- write_slices_mut and calling incr_write is a write.
  pub write_in_place-eq-write : write_in_place bytes c ≡ write bytes c
  unfolding write_in_place
  write_in_place-eq-write = elim (Option-cases c.store) [
    | inr (mem, has) ↦
        in_place_stored v mem has bytes something (omega (arith, v.fits))
        ∙ sym (write_stored v mem has bytes something (omega (arith, v.fits)))
    | inl has ↦
        ap (λ r. ◌>>=◌ (λ _. r) (filled_and_moved bytes) c) (slices_unstored has)
        ∙ in_place_stored (allocated-IsValid v has) _ refl bytes something (omega (arith, v.fits))
        ∙ sym
            (write_stored (allocated-IsValid v has) _ refl bytes something (omega (arith, v.fits)))
        ∙ sym (write_unallocated v has bytes something room)
  ]

-- the two slices that `read_ptrs` gives
abbrev held_ranges : CircularBuffer → Range × Range
held_ranges c =
    if leb c.used (c.size - c.read_pos)
    then (record { start = c.read_pos; count = c.used }, no_range)
    else (
      record { start = c.read_pos; count = c.size - c.read_pos },
      record { start = 0; count = c.used - (c.size - c.read_pos) },
    )

module _ {c : CircularBuffer} (v : IsValid c) (mem : List ℕ) (has : c.store ≡ some mem) where
  read_ptrs_stored : 0 < c.used → read_ptrs c ≡ ok (held_ranges c)
  unfolding read_ptrs
  read_ptrs_stored some_used = ground (arith, has, size_mem v mem has, v.fits, v.reads_in, v.small)

  held_bytes :
      bytes_of mem (held_ranges c).0 ++ bytes_of mem (held_ranges c).1
      ≡ round_trip mem c.size c.read_pos c.used
  held_bytes =
      subst
        (λ n.
          let ranges = held_ranges (record c { size = n }) in
          bytes_of mem ranges.0 ++ bytes_of mem ranges.1 ≡ round_trip mem n c.read_pos c.used)
        (size_mem v mem has) at_length
    where
      small : length mem ≤ max_cbuf_size
      small = omega (arith, size_mem v mem has, v.small)

      start : c.read_pos < length mem
      start = omega (arith, size_mem v mem has, v.reads_in)

      fits : c.used ≤ length mem
      fits = omega (arith, size_mem v mem has, v.fits)

      at_length :
          let ranges = held_ranges (record c { size = length mem }) in
          bytes_of mem ranges.0 ++ bytes_of mem ranges.1
          ≡ round_trip mem (length mem) c.read_pos c.used
      at_length = elim (Bool-cases (leb c.used (length mem - c.read_pos))) [
        | inl one ↦
            rw one (append-nil _ ∙ one_part mem c.read_pos c.used small start fits (leb→le _ _ one))
        | inr two ↦ rw two (two_parts mem c.read_pos c.used small start fits (ground (arith, two)))
      ]

-- read_ptrs of a valid ring succeeds, and its two slices hold the queue, one behind the other.
pub read_ptrs_refines :
    {c : CircularBuffer}
    → IsValid c
    → (p q : Range) × (read_ptrs c ≡ ok (p, q))
      × (bytes_of (memory c) p ++ bytes_of (memory c) q ≡ contents c)
unfolding read_ptrs
read_ptrs_refines {c} v = elim (Bool-cases (c.used == 0)) [
  | inl none_used ↦ (
    no_range,
    no_range,
    ground (arith, none_used),
    sym (tabulate-none c.used _ ((==_iff _ _).0 none_used)),
  )
  | inr some_used ↦
      let (mem, has) = has_storage v (ground (arith, some_used)) in
      (
        (held_ranges c).0,
        (held_ranges c).1,
        read_ptrs_stored v mem has (ground (arith, some_used)),
        subst
            (λ m.
              bytes_of m (held_ranges c).0 ++ bytes_of m (held_ranges c).1
              ≡ round_trip m c.size c.read_pos c.used)
            (sym (ground (arith, has))) (held_bytes v mem has),
      )
]
