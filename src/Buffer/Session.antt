-- ===== src/Buffer/Session.antt =====
-- src/buffer/core.rs and src/buffer/ops.rs: the safe methods that change a buffer, in any order.
-- `get_bytes_ref` does what `get_bytes` does; writes through a borrowed slice are not among them.
use secbuf.Prelude.{ℕ, ◌+◌, ◌*◌, ◌≤◌, ◌<◌, Bool, List, length}
use secbuf.Machine.{usize_mod, isize_max}
use secbuf.Error.{Outcome, ok, err, panic, undefined}
use secbuf.Buffer.{
  Buffer, set_pos, incr_pos, decr_pos, set_len, incr_len, incr_write_pos, resize, reserve, reset,
  shrink_to_fit,
}
use secbuf.Buffer.Valid.{
  IsValid, Keeps, set_pos-Keeps, incr_pos-Keeps, decr_pos-Keeps, set_len-Keeps, incr_len-Keeps,
  incr_write_pos-Keeps, resize-Keeps, reserve-Keeps, reset-IsValid, shrink_to_fit-IsValid,
}
use secbuf.Buffer.Ops.{
  put_u32, get_u32, put_u64, get_u64, put_bytes, get_bytes, put_byte, get_byte, get_bool,
  put_string, get_string, eat_string,
}
use secbuf.Buffer.Simd.{put_bytes_fast}
use secbuf.Buffer.Keeps.{
  put_bytes-Keeps, put_u32-Keeps, put_u64-Keeps, put_bytes_fast-Keeps, put_byte-Keeps,
  get_byte-Keeps, get_bytes-Keeps, get_u32-Keeps, get_u64-Keeps, get_bool-Keeps, put_string-Keeps,
  get_string-Keeps, eat_string-Keeps,
}

-- The safe methods that change a buffer.
pub data Call : Type 0 where
  put_bytes_call put_string_call : List ℕ → Call
  put_fast_call : Bool → List ℕ → Call
  put_u32_call put_u64_call put_byte_call : ℕ → Call
  get_bytes_call set_pos_call incr_pos_call decr_pos_call : ℕ → Call
  set_len_call incr_len_call incr_write_pos_call resize_call reserve_call : ℕ → Call
  get_u32_call get_u64_call get_byte_call get_bool_call get_string_call eat_string_call : Call
  reset_call shrink_to_fit_call : Call

-- the result without its value
abbrev ending : {A : Type 0} → Outcome A × Buffer → Outcome (Unit {0}) × Buffer
ending (ok a, b) = (ok tt, b)
ending (err e, b) = (err e, b)
ending (panic, b) = (panic, b)
ending (undefined, b) = (undefined, b)

unfoldable pub call : Call → Buffer → Outcome (Unit {0}) × Buffer
call (put_bytes_call bs) b = ending (put_bytes bs b)
call (put_string_call bs) b = ending (put_string bs b)
call (put_fast_call has_avx2 bs) b = ending (put_bytes_fast has_avx2 bs b)
call (put_u32_call n) b = ending (put_u32 n b)
call (put_u64_call n) b = ending (put_u64 n b)
call (put_byte_call n) b = ending (put_byte n b)
call (get_bytes_call n) b = ending (get_bytes n b)
call (set_pos_call n) b = ending (set_pos n b)
call (incr_pos_call n) b = ending (incr_pos n b)
call (decr_pos_call n) b = ending (decr_pos n b)
call (set_len_call n) b = ending (set_len n b)
call (incr_len_call n) b = ending (incr_len n b)
call (incr_write_pos_call n) b = ending (incr_write_pos n b)
call (resize_call n) b = ending (resize n b)
call (reserve_call n) b = ending (reserve n b)
call get_u32_call b = ending (get_u32 b)
call get_u64_call b = ending (get_u64 b)
call get_byte_call b = ending (get_byte b)
call get_bool_call b = ending (get_bool b)
call get_string_call b = ending (get_string b)
call eat_string_call b = ending (eat_string b)
call reset_call b = (ok tt, reset b)
call shrink_to_fit_call b = (ok tt, shrink_to_fit b)

-- What a caller must see to: slices are no longer than an allocation can be (Rust's own rule),
-- and the length given to `get_bytes` does not make the addition in its check wrap.
-- `reserve` is asked for no more than an allocation can hold.
abbrev pub IsAllowed : Call → Buffer → Type 0
IsAllowed (put_bytes_call bs) b = length bs ≤ isize_max
IsAllowed (put_string_call bs) b = length bs ≤ isize_max
IsAllowed (put_fast_call has_avx2 bs) b = length bs ≤ isize_max
IsAllowed (get_bytes_call n) b = b.pos + n < usize_mod
IsAllowed (reserve_call n) b = (b.vec.len + n) * 2 ≤ isize_max
IsAllowed _ b = Unit {0}

ending-Keeps : {A : Type 0} (r : Outcome A) (b : Buffer) → Keeps (r, b) → Keeps (ending (r, b))
ending-Keeps (ok a) b h = h
ending-Keeps (err e) b h = h
ending-Keeps panic b h = h
ending-Keeps undefined b h = h

-- One call on a valid buffer.
call-Keeps : (c : Call) (b : Buffer) → IsValid b → IsAllowed c b → Keeps (call c b)
unfolding call
call-Keeps (put_bytes_call bs) b v h = ending-Keeps _ _ (put_bytes-Keeps v bs h)
call-Keeps (put_string_call bs) b v h = ending-Keeps _ _ (put_string-Keeps v bs h)
call-Keeps (put_fast_call has_avx2 bs) b v h =
    ending-Keeps _ _ (put_bytes_fast-Keeps v has_avx2 bs h)
call-Keeps (put_u32_call n) b v h = ending-Keeps _ _ (put_u32-Keeps v n)
call-Keeps (put_u64_call n) b v h = ending-Keeps _ _ (put_u64-Keeps v n)
call-Keeps (put_byte_call n) b v h = ending-Keeps _ _ (put_byte-Keeps v n)
call-Keeps (get_bytes_call n) b v h = ending-Keeps _ _ (get_bytes-Keeps v n h)
call-Keeps (set_pos_call n) b v h = ending-Keeps _ _ (set_pos-Keeps n b v)
call-Keeps (incr_pos_call n) b v h = ending-Keeps _ _ (incr_pos-Keeps n b v)
call-Keeps (decr_pos_call n) b v h = ending-Keeps _ _ (decr_pos-Keeps n b v)
call-Keeps (set_len_call n) b v h = ending-Keeps _ _ (set_len-Keeps n b v)
call-Keeps (incr_len_call n) b v h = ending-Keeps _ _ (incr_len-Keeps n b v)
call-Keeps (incr_write_pos_call n) b v h = ending-Keeps _ _ (incr_write_pos-Keeps n b v)
call-Keeps (resize_call n) b v h = ending-Keeps _ _ (resize-Keeps n b v)
call-Keeps (reserve_call n) b v h = ending-Keeps _ _ (reserve-Keeps n b v h)
call-Keeps get_u32_call b v h = ending-Keeps _ _ (get_u32-Keeps v)
call-Keeps get_u64_call b v h = ending-Keeps _ _ (get_u64-Keeps v)
call-Keeps get_byte_call b v h = ending-Keeps _ _ (get_byte-Keeps v)
call-Keeps get_bool_call b v h = ending-Keeps _ _ (get_bool-Keeps v)
call-Keeps get_string_call b v h = ending-Keeps _ _ (get_string-Keeps v)
call-Keeps eat_string_call b v h = ending-Keeps _ _ (eat_string-Keeps v)
call-Keeps reset_call b v h = (tt, reset-IsValid b v)
call-Keeps shrink_to_fit_call b v h = (tt, shrink_to_fit-IsValid b v)

-- The buffers that allowed calls lead to from `b`.
pub data Session (b : Buffer) : Buffer → Type 0 where
  start : Session b b
  then_call : {c : Buffer} (q : Call) → Session b c → IsAllowed q c → Session b (call q c).1

Session-IsValid : {b c : Buffer} → IsValid b → Session b c → IsValid c
Session-IsValid v start = v
Session-IsValid v (then_call {c} q s h) = (call-Keeps q c (Session-IsValid v s) h).1

-- However many calls of the safe methods that Call lists have gone before on a buffer that was
-- valid, the next one returns Ok or Err, without a panic or an access outside the allocation, and
-- leaves a valid buffer, given slices that Rust allows, a length for get_bytes that does not make
-- its check wrap, and a reserve that an allocation can hold.
pub Session-Keeps :
    {b c : Buffer} (q : Call) → IsValid b → Session b c → IsAllowed q c → Keeps (call q c)
Session-Keeps {c = c} q v s h = call-Keeps q c (Session-IsValid v s) h
