-- ===== src/Circular/Ops.antt =====
-- src/circular/buffer.rs: the zero-copy interface, `write`, `read`, `peek`, and the lifecycle.
use secbuf.Prelude.{
  ℕ, ◌-◌, min, ◌||◌, Option, none, some, List, ◌++◌, length, take, drop, slice, splice, ltb, leb,
  ◌==◌, if◌then◌else◌,
}
use secbuf.Machine.{add_size, sub_size}
use secbuf.Error.{
  invalid_state, insufficient_space, buffer_overflow, Outcome, ok, err, panic, undefined, Method,
  ◌>>=◌, ◌>>◌, return, lift, and_then,
}
use secbuf.Vec
use secbuf.Zeroize.{Zeroize}
use secbuf.Circular.{
  CircularBuffer, Range, no_range, range, wrap, available, ensure_allocated, storage,
}

-- what a slice of the storage holds
abbrev pub bytes_of : List ℕ → Range → List ℕ
bytes_of mem r = slice mem r.start r.count

unfoldable pub read_ptrs : CircularBuffer → Outcome (Range × Range)
read_ptrs c = if c.used == 0 then ok (no_range, no_range) else elim c.store [
  | none ↦ ok (no_range, no_range)
  | some mem ↦
      let len1 = min c.used (sub_size c.size c.read_pos) in
      and_then (range mem c.read_pos (add_size c.read_pos len1)) λ p1.
        if ltb len1 c.used
        then and_then (range mem 0 (sub_size c.used len1)) (λ p2. ok (p1, p2))
        else ok (p1, no_range)
]

unfoldable pub write_ptr : ℕ → Method CircularBuffer Range
write_ptr len c =
    if ltb (available c) len
    then (err insufficient_space, c)
    else if ltb c.size (add_size c.write_pos len)
    then (
      err (invalid_state "write would cross ring boundary — use write_slices_mut or write()"),
      c,
    )
    else (let d = ensure_allocated c in
        (and_then (storage d) (λ mem. range mem d.write_pos (add_size d.write_pos len)), d))

-- `split_at_mut(write_pos)` and the two slices of its parts, each indexed from its own start
abbrev pub wrapped_ranges : List ℕ → ℕ → ℕ → ℕ → Outcome (Range × Range)
wrapped_ranges mem write_pos space_to_end len2 =
    if ltb (length mem) write_pos || ltb (length mem - write_pos) space_to_end || ltb write_pos len2
    then panic
    else ok (record { start = write_pos; count = space_to_end }, record { start = 0; count = len2 })

unfoldable pub write_slices_mut : ℕ → Method CircularBuffer (Range × Range)
write_slices_mut len c =
    if len == 0
    then (ok (no_range, no_range), c)
    else if ltb (available c) len
    then (err insufficient_space, c)
    else (let d = ensure_allocated c in
        let space_to_end = sub_size d.size d.write_pos in
        (
          and_then (storage d) (λ mem.
              if leb len space_to_end
              then and_then (range mem d.write_pos (add_size d.write_pos len))
                  (λ r. ok (r, no_range))
              else wrapped_ranges mem d.write_pos space_to_end (sub_size len space_to_end)),
          d,
        ))

-- what the caller does with the slices: `bytes` go over the first, then over the second
abbrev pub fill : Range × Range → List ℕ → CircularBuffer → CircularBuffer
fill (p, q) bytes c = elim c.store [
  | none ↦ c
  | some mem ↦ record c {
    store = some (
        splice (splice mem p.start (take p.count bytes)) q.start
          (take q.count (drop p.count bytes)));
  }
]

-- `self.write_pos = wrap(..); self.used += len`
abbrev pub advance_write : ℕ → Method CircularBuffer (Unit {0})
advance_write len c = elim (wrap c.write_pos len c.size c.is_pow2) [
  | ok p ↦ (ok tt, record c { write_pos = p; used = add_size c.used len })
  | err e ↦ (err e, c)
  | panic ↦ (panic, c)
  | undefined ↦ (undefined, c)
]

-- `self.read_pos = wrap(..); self.used -= len`
abbrev pub advance_read : ℕ → Method CircularBuffer (Unit {0})
advance_read len c = elim (wrap c.read_pos len c.size c.is_pow2) [
  | ok p ↦ (ok tt, record c { read_pos = p; used = sub_size c.used len })
  | err e ↦ (err e, c)
  | panic ↦ (panic, c)
  | undefined ↦ (undefined, c)
]

unfoldable pub incr_write : ℕ → Method CircularBuffer (Unit {0})
incr_write len c =
    if ltb (available c) len then (err insufficient_space, c) else advance_write len c

unfoldable pub incr_read : ℕ → Method CircularBuffer (Unit {0})
incr_read len c = if ltb c.used len then (err buffer_overflow, c) else advance_read len c

-- `dst[start..end].copy_from_slice(src)` panics if the lengths differ.
abbrev pub copy_from_slice : List ℕ → ℕ → ℕ → List ℕ → Outcome (List ℕ)
copy_from_slice mem start end src =
    and_then (range mem start end)
      λ r. if r.count == length src then ok (splice mem start src) else panic

-- the one or two copies of `write`
unfoldable pub spread : List ℕ → ℕ → ℕ → List ℕ → Outcome (List ℕ)
spread mem write_pos space_to_end bytes =
    let len = length bytes in
    if leb len space_to_end
    then copy_from_slice mem write_pos (add_size write_pos len) bytes
    else and_then (copy_from_slice mem write_pos (length mem) (take space_to_end bytes))
        λ mem'. copy_from_slice mem' 0 (sub_size len space_to_end) (drop space_to_end bytes)

unfoldable pub copy_in : List ℕ → Method CircularBuffer (Unit {0})
copy_in bytes c =
    elim (and_then (storage c)
      (λ mem. spread mem c.write_pos (sub_size c.size c.write_pos) bytes)) [
        | ok mem ↦ (ok tt, record c { store = some mem })
        | err e ↦ (err e, c)
        | panic ↦ (panic, c)
        | undefined ↦ (undefined, c)
      ]

unfoldable pub write : List ℕ → Method CircularBuffer ℕ
write bytes c =
    if length bytes == 0
    then (ok 0, c)
    else if ltb (available c) (length bytes)
    then (err insufficient_space, c)
    else (do copy_in bytes; advance_write (length bytes); return (length bytes))
        (ensure_allocated c)

-- the one or two copies of `read` and `peek`: the bytes that go to the front of the output
unfoldable pub gather : List ℕ → ℕ → ℕ → ℕ → Outcome (List ℕ)
gather mem read_pos space_to_end to_read =
    if leb to_read space_to_end
    then and_then (range mem read_pos (add_size read_pos to_read)) (λ r. ok (bytes_of mem r))
    else and_then (range mem read_pos (length mem)) λ r.
      if r.count == space_to_end
      then and_then (range mem 0 (sub_size to_read space_to_end))
          (λ q. ok (bytes_of mem r ++ bytes_of mem q))
      else panic

unfoldable pub copy_out : ℕ → CircularBuffer → Outcome (List ℕ)
copy_out to_read c =
    and_then (storage c) λ mem. gather mem c.read_pos (sub_size c.size c.read_pos) to_read

-- `read(&mut self, output)`: the count, and the output that the caller is left with
unfoldable pub read : List ℕ → Method CircularBuffer (ℕ × List ℕ)
read output c = if c.used == 0 then (ok (0, output), c) else elim c.store [
  | none ↦ (ok (0, output), c)
  | some mem ↦
      let to_read = min (length output) c.used in
      (do
        bytes ← lift (copy_out to_read c)
        advance_read to_read
        return (to_read, splice output 0 bytes))
        c
]

-- The wrapped position that `peek` computes and drops can still panic.
unfoldable pub peek : List ℕ → CircularBuffer → Outcome (ℕ × List ℕ)
peek output c = if c.used == 0 then ok (0, output) else elim c.store [
  | none ↦ ok (0, output)
  | some mem ↦
      let to_read = min (length output) c.used in
      and_then (copy_out to_read c) λ bytes.
        and_then (wrap c.read_pos to_read c.size c.is_pow2) λ p. ok (to_read, splice output 0 bytes)
]

unfoldable pub clear : CircularBuffer → CircularBuffer
clear c = record c { used = 0; read_pos = 0; write_pos = 0 }

module _ (z : Zeroize) where
  -- `data.take()`, `into_vec()` and `zeroize()`: the memory that is freed, if there is any
  unfoldable pub release : CircularBuffer → Option (List ℕ)
  release c = elim c.store [ none ↦ none | some mem ↦ some (z.vec (Vec.of_list mem)).mem ]

  -- the ring, and the memory that is freed
  unfoldable pub free : CircularBuffer → CircularBuffer × Option (List ℕ)
  free c = (clear (record c { store = none }), release c)

  -- the destructor
  unfoldable pub drop_ring : CircularBuffer → Option (List ℕ)
  drop_ring c = release c

  -- The destructor runs on a ring whose storage is gone already.
  unfoldable pub burn_free : CircularBuffer → Option (List ℕ) × Option (List ℕ)
  burn_free c = (release c, drop_ring (record c { store = none }))
