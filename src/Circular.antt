-- ===== src/Circular.antt =====
-- src/circular/buffer.rs: `CircularBuffer`, a ring of bytes whose storage is allocated at the first
-- write.
pub mod Ops
pub mod Fields
mod UnitTests
pub mod Valid
pub mod Queue
pub mod Lifecycle
mod Tests
use Prim.Native.Nat.{bit_and}
use secbuf.Prelude.{
  ℕ, ◌+◌, ◌-◌, ◌%◌, ◌^◌, min, Bool, true, not, ◌||◌, Option, none, some, List, [], length,
  replicate, take, drop, splice, ltb, leb, ◌==◌, if◌then◌else◌,
}
use secbuf.Machine.{add_size, sub_size}
use secbuf.Bits.{is_power_of_two}
use secbuf.Error.{
  BufferError, invalid_state, insufficient_space, buffer_overflow, Outcome, ok, err, panic, Method,
  ◌>>=◌, ◌>>◌, return, lift,
}
use secbuf.Vec
use secbuf.Zeroize.{Zeroize}

abbrev pub max_cbuf_size : ℕ
max_cbuf_size = 100_000_000

-- The field `data` of the source is `store` here.
pub record CircularBuffer : Type 0 where
  pub store : Option (List ℕ)
  pub size : ℕ
  pub used : ℕ
  pub read_pos : ℕ
  pub write_pos : ℕ
  pub is_pow2 : Bool

-- `new % size` panics where `size` is 0.
unfoldable pub wrap : ℕ → ℕ → ℕ → Bool → Outcome ℕ
wrap pos delta size is_pow2 =
    let new = add_size pos delta in
    if is_pow2
    then ok (bit_and new (sub_size size 1))
    else if size == 0
    then panic
    else ok (new % size)

-- a ring without data or storage
abbrev pub empty_ring : ℕ → Bool → CircularBuffer
empty_ring size is_pow2 = record {
  store = none;
  size = size;
  used = 0;
  read_pos = 0;
  write_pos = 0;
  is_pow2 = is_pow2;
}

unfoldable pub new : ℕ → Outcome CircularBuffer
new size = if leb size max_cbuf_size then ok (empty_ring size (is_power_of_two size)) else panic

-- `1usize << size_log2`: the release profile keeps the low 6 bits of the shift, and drops what
-- passes the word.
unfoldable pub new_pow2 : ℕ → Outcome CircularBuffer
new_pow2 size_log2 =
    let size = 2 ^ (size_log2 % 64) in
    if leb size max_cbuf_size then ok (empty_ring size true) else panic

unfoldable pub available : CircularBuffer → ℕ
available c = sub_size c.size c.used

unfoldable pub is_empty : CircularBuffer → Bool
is_empty c = c.used == 0

unfoldable pub is_full : CircularBuffer → Bool
is_full c = c.used == c.size

-- A slice of the storage, as the range that it covers.
pub record Range : Type 0 where
  pub start : ℕ
  pub count : ℕ

abbrev pub no_range : Range
no_range = record { start = 0; count = 0 }

-- `&buffer[start..end]`
abbrev pub range : List ℕ → ℕ → ℕ → Outcome Range
range mem start end =
    if ltb end start || ltb (length mem) end
    then panic
    else ok (record { start = start; count = end - start })

abbrev pub ensure_allocated : CircularBuffer → CircularBuffer
ensure_allocated c = elim c.store [
  | none ↦ record c { store = some (replicate c.size 0) }
  | some mem ↦ c
]

-- `self.data.as_ref().unwrap()`
abbrev pub storage : CircularBuffer → Outcome (List ℕ)
storage c = elim c.store [ none ↦ panic | some mem ↦ ok mem ]
