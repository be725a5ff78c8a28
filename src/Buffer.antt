-- ===== src/Buffer.antt =====
-- src/buffer/core.rs: `Buffer` and its basic operations.
-- Each is a method from the old to the new state; the checks are those of the source, in its
-- order, with `usize` additions that wrap.
pub mod Raw
pub mod Ops
pub mod Simd
pub mod Valid
pub mod Access
pub mod RoundTrip
pub mod Strings
pub mod Message
pub mod Fields
mod UnitTests
pub mod Keeps
pub mod Session
pub mod Wipe
pub mod Outgrow
pub mod Tape
pub mod SimdCopy
pub mod Overflow
pub mod Contract
mod Tests
use secbuf.Prelude.{
  ℕ, ◌+◌, ◌-◌, ◌≡◌, min, Bool, ◌||◌, List, [], ◌++◌, length, take, drop, splice, slice, ltb, leb,
  ◌==◌, if◌then◌else◌,
}
use secbuf.Machine.{add_size}
use secbuf.Error.{
  BufferError, position_out_of_bounds, increment_too_large, size_too_big, Outcome, ok, err, panic,
  undefined, Method, ◌>>=◌, ◌>>◌, return, throw,
}
use secbuf.Vec
use secbuf.Vec.{Vec}
use secbuf.Zeroize.{Zeroize}

abbrev pub buf_max_incr : ℕ
buf_max_incr = 1_000_000_000

abbrev pub buf_max_size : ℕ
buf_max_size = 1_000_000_000

-- The field `data` of the source is `vec` here.
pub record Buffer : Type 0 where
  pub vec : Vec
  pub pos : ℕ
  pub len : ℕ

unfoldable pub new : ℕ → Outcome Buffer
new size =
    if leb size buf_max_size then ok (record { vec = Vec.zeroed size; pos = 0; len = 0 }) else panic

unfoldable pub with_capacity : ℕ → Outcome Buffer
with_capacity cap =
    if leb cap buf_max_size
    then ok (record { vec = Vec.with_capacity cap; pos = 0; len = 0 })
    else panic

unfoldable pub from_vec : Vec → Buffer
from_vec v = record { vec = v; pos = 0; len = v.len }

abbrev pub capacity : Buffer → ℕ
capacity b = Vec.capacity b.vec

unfoldable pub is_empty : Buffer → Bool
is_empty b = b.len == 0

-- `saturating_sub`
unfoldable pub remaining : Buffer → ℕ
remaining b = b.len - b.pos

unfoldable pub has_remaining : ℕ → Buffer → Bool
has_remaining count b = leb count (remaining b)

unfoldable pub set_pos : ℕ → Method Buffer (Unit {0})
set_pos pos b =
    if ltb b.len pos then (err position_out_of_bounds, b) else (ok tt, record b { pos = pos })

-- `self.data.resize(n, 0)` where `n > self.data.len()`, as three methods write it
unfoldable pub grow_to : ℕ → Method Buffer (Unit {0})
grow_to n b =
    if ltb b.vec.len n
    then elim (Vec.resize n b.vec) [
      | ok v ↦ (ok tt, record b { vec = v })
      | err e ↦ (err e, b)
      | panic ↦ (panic, b)
      | undefined ↦ (undefined, b)
    ]
    else (ok tt, b)

unfoldable pub set_len : ℕ → Method Buffer (Unit {0})
set_len len b =
    if ltb buf_max_size len
    then (err size_too_big, b)
    else (do grow_to len; λ c. (ok tt, record c { len = len; pos = min c.pos len })) b

unfoldable pub incr_pos : ℕ → Method Buffer (Unit {0})
incr_pos incr b =
    if ltb buf_max_incr incr || ltb b.len (add_size b.pos incr)
    then (err increment_too_large, b)
    else (ok tt, record b { pos = add_size b.pos incr })

unfoldable pub decr_pos : ℕ → Method Buffer (Unit {0})
decr_pos decr b =
    if ltb b.pos decr
    then (err position_out_of_bounds, b)
    else (ok tt, record b { pos = b.pos - decr })

unfoldable pub incr_len : ℕ → Method Buffer (Unit {0})
incr_len incr b =
    let new_len = add_size b.len incr in
    if ltb buf_max_incr incr
    then (err increment_too_large, b)
    else if ltb buf_max_size new_len
    then (err size_too_big, b)
    else (do grow_to new_len; λ c. (ok tt, record c { len = new_len })) b

-- `self.pos = p; if self.pos > self.len { self.len = self.pos }`
abbrev pub move_write_pos : ℕ → Buffer → Buffer
move_write_pos p b = record b { pos = p; len = if ltb b.len p then p else b.len }

unfoldable pub incr_write_pos : ℕ → Method Buffer (Unit {0})
incr_write_pos incr b =
    let new_pos = add_size b.pos incr in
    if ltb buf_max_incr incr
    then (err increment_too_large, b)
    else if ltb buf_max_size new_pos
    then (err increment_too_large, b)
    else (do grow_to new_pos; λ c. (ok tt, move_write_pos new_pos c)) b

unfoldable pub reset : Buffer → Buffer
reset b = record b { pos = 0; len = 0 }

-- `&self.data[..self.len]` panics if `self.len` passes the vector's length.
unfoldable pub as_slice : Buffer → Outcome (List ℕ)
as_slice b = if ltb b.vec.len b.len then panic else ok (take b.len (Vec.elements b.vec))

-- A mutable slice is the range of `data` that the caller may overwrite.
pub record Range : Type 0 where
  pub start : ℕ
  pub count : ℕ

unfoldable pub as_mut_slice : Buffer → Outcome Range
as_mut_slice b = if ltb b.vec.len b.len then panic else ok (record { start = 0; count = b.len })

-- what the caller of such a method does with the slice: `bytes` go over its front
unfoldable pub fill : Range → List ℕ → Buffer → Buffer
fill r bytes b = record b {
  vec = record (b.vec) { mem = splice b.vec.mem r.start (take r.count bytes) };
}

unfoldable pub resize : ℕ → Method Buffer (Unit {0})
resize new_size b =
    if ltb buf_max_size new_size then (err size_too_big, b) else elim (Vec.resize new_size b.vec) [
      | ok v ↦ (ok tt, record { vec = v; pos = min b.pos new_size; len = min b.len new_size })
      | err e ↦ (err e, b)
      | panic ↦ (panic, b)
      | undefined ↦ (undefined, b)
    ]

unfoldable pub reserve : ℕ → Method Buffer (Unit {0})
reserve additional b = elim (Vec.reserve additional b.vec) [
  | ok v ↦ (ok tt, record b { vec = v })
  | err e ↦ (err e, b)
  | panic ↦ (panic, b)
  | undefined ↦ (undefined, b)
]

-- The memory that these calls give back to the allocator: the old allocation, where the vector moves.
-- `grow_to_frees` is that of `set_len`, `incr_len` and `incr_write_pos` as well.
unfoldable pub grow_to_frees : ℕ → Buffer → List (List ℕ)
grow_to_frees n b = if ltb b.vec.len n then Vec.reserve_frees (n - b.vec.len) b.vec else []

unfoldable pub resize_frees : ℕ → Buffer → List (List ℕ)
resize_frees new_size b = if ltb buf_max_size new_size then [] else grow_to_frees new_size b

unfoldable pub reserve_frees : ℕ → Buffer → List (List ℕ)
reserve_frees additional b = Vec.reserve_frees additional b.vec

unfoldable pub shrink_frees : Buffer → List (List ℕ)
shrink_frees b = Vec.shrink_frees (Vec.truncate b.len b.vec)

unfoldable pub shrink_to_fit : Buffer → Buffer
shrink_to_fit b = record b { vec = Vec.shrink (Vec.truncate b.len b.vec) }

-- What the caller gets. The buffer keeps an empty vector, so its destructor wipes nothing.
unfoldable pub into_vec : Buffer → Vec
into_vec b = Vec.truncate b.len b.vec

module _ (z : Zeroize) where
  -- `self.data.as_mut_slice().zeroize()`: the elements, not the capacity behind them
  abbrev pub wipe_elements : Vec → Vec
  wipe_elements v = record v { mem = z.slice (Vec.elements v) ++ drop v.len v.mem }

  unfoldable pub burn : Buffer → Buffer
  burn b = record { vec = wipe_elements b.vec; pos = 0; len = 0 }

  -- `#[zeroize(drop)]`: every field is zeroized. The result is the memory that is freed.
  unfoldable pub drop_buffer : Buffer → List ℕ
  drop_buffer b = (z.vec b.vec).mem

  unfoldable pub burn_free : Buffer → List ℕ
  burn_free b = drop_buffer (record b { vec = wipe_elements b.vec })
