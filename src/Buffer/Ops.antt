-- ===== src/Buffer/Ops.antt =====
-- src/buffer/ops.rs: the checked reads and writes.
use secbuf.Prelude.{
  ℕ, ◌-◌, ◌%◌, ◌^◌, Bool, not, ◌||◌, List, [], ◌∷◌, length, get_or, splice, slice, ltb, leb, ◌==◌,
  if◌then◌else◌,
}
use secbuf.Machine.{add_size}
use secbuf.Error.{
  buffer_overflow, invalid_string, Outcome, ok, err, panic, undefined, Method, ◌>>=◌, ◌>>◌, return,
  throw,
}
use secbuf.Buffer.{Buffer, Range, move_write_pos, incr_pos}
use secbuf.Buffer.Raw.{
  put_u32_unchecked, get_u32_unchecked, put_u64_unchecked, get_u64_unchecked, put_bytes_unchecked,
  get_bytes_unchecked,
}

abbrev pub max_string_len : ℕ
max_string_len = 400_000

-- Such a check reads `if self.pos + n > bound { return Err(BufferOverflow) }`.
abbrev pub check_room : (Buffer → ℕ) → ℕ → {A : Type 0} → Method Buffer A → Method Buffer A
check_room bound n rest b =
    if ltb (bound b) (add_size b.pos n) then (err buffer_overflow, b) else rest b

abbrev pub data_len : Buffer → ℕ
data_len b = b.vec.len

unfoldable pub put_u32 : ℕ → Method Buffer (Unit {0})
put_u32 val = check_room data_len 4 (put_u32_unchecked val)

unfoldable pub get_u32 : Method Buffer ℕ
get_u32 = check_room (λ b. b.len) 4 get_u32_unchecked

unfoldable pub put_u64 : ℕ → Method Buffer (Unit {0})
put_u64 val = check_room data_len 8 (put_u64_unchecked val)

unfoldable pub get_u64 : Method Buffer ℕ
get_u64 = check_room (λ b. b.len) 8 get_u64_unchecked

unfoldable pub put_bytes : List ℕ → Method Buffer (Unit {0})
put_bytes bytes = check_room data_len (length bytes) (put_bytes_unchecked bytes)

unfoldable pub get_bytes : ℕ → Method Buffer (List ℕ)
get_bytes len = check_room (λ b. b.len) len do bytes ← get_bytes_unchecked len; return bytes

unfoldable pub get_bytes_ref : ℕ → Method Buffer (List ℕ)
get_bytes_ref len = check_room (λ b. b.len) len (get_bytes_unchecked len)

-- `&self.data[start..end]` panics if the range is not inside the vector.
abbrev pub index_range : ℕ → ℕ → Buffer → Outcome Range
index_range start end b =
    if ltb end start || ltb b.vec.len end
    then panic
    else ok (record { start = start; count = end - start })

unfoldable pub get_ptr : ℕ → Buffer → Outcome (List ℕ)
get_ptr len b =
    if ltb 1_000_000_000 len || ltb b.len (add_size b.pos len)
    then err buffer_overflow
    else elim (index_range b.pos (add_size b.pos len) b) [
      | ok r ↦ ok (slice b.vec.mem r.start r.count)
      | err e ↦ err e
      | panic ↦ panic
      | undefined ↦ undefined
    ]

unfoldable pub get_write_ptr : ℕ → Buffer → Outcome Range
get_write_ptr len b =
    if ltb 1_000_000_000 len || ltb b.vec.len (add_size b.pos len)
    then err buffer_overflow
    else index_range b.pos (add_size b.pos len) b

unfoldable pub put_byte : ℕ → Method Buffer (Unit {0})
put_byte val b = if leb b.vec.len b.pos then (err buffer_overflow, b) else (
  ok tt,
  move_write_pos (add_size b.pos 1)
      (record b { vec = record (b.vec) { mem = splice b.vec.mem b.pos (val ∷ []) } }),
)

-- `self.data[self.pos]` panics out of range.
unfoldable pub get_byte : Method Buffer ℕ
get_byte b =
    if leb b.len b.pos
    then (err buffer_overflow, b)
    else if leb b.vec.len b.pos
    then (panic, b)
    else (ok (get_or b.vec.mem b.pos 0), record b { pos = add_size b.pos 1 })

unfoldable pub get_bool : Method Buffer Bool
get_bool = do byte ← get_byte; return (not (byte == 0))

-- `s.len() as u32` keeps the low 32 bits.
unfoldable pub put_string : List ℕ → Method Buffer (Unit {0})
put_string s b =
    if ltb max_string_len (length s)
    then (err invalid_string, b)
    else (do put_u32 (length s % 2 ^ 32); put_bytes s) b

unfoldable pub get_string : Method Buffer (List ℕ)
get_string = do
  len ← get_u32
  if ltb max_string_len len then throw invalid_string else get_bytes len

unfoldable pub eat_string : Method Buffer (Unit {0})
eat_string = do len ← get_u32; if ltb max_string_len len then throw invalid_string else incr_pos len
