-- ===== src/Buffer/Simd.antt =====
-- src/buffer/ops.rs: `put_bytes_fast` and the AVX2 copy.
use secbuf.Prelude.{ℕ, zero, suc, ◌+◌, Bool, List, length, take, drop, ltb, if◌then◌else◌}
use secbuf.Machine.{add_size}
use secbuf.Error.{buffer_overflow, Outcome, ok, err, panic, undefined, Method, ◌>>◌}
use secbuf.Vec
use secbuf.Vec.{Vec}
use secbuf.Buffer.{Buffer}
use secbuf.Buffer.Raw.{put_bytes_unchecked, advance_write}
use secbuf.Buffer.Ops.{put_bytes}

-- The loop `while remaining >= 32` and the copy of what remains: `src` is what is left to copy,
-- `dst` the offset that it goes to. Each round takes 32 bytes, so fuel above the length is enough.
unfoldable pub avx2_copy : ℕ → List ℕ → ℕ → Vec → Outcome Vec
avx2_copy zero src dst v = undefined
avx2_copy (suc fuel) src dst v =
    if ltb (length src) 32
    then Vec.write_raw dst src v
    else elim (Vec.write_raw dst (take 32 src) v) [
      | ok w ↦ avx2_copy fuel (drop 32 src) (dst + 32) w
      | other ↦ other
    ]

unfoldable pub copy_avx2 : List ℕ → Method Buffer (Unit {0})
copy_avx2 bytes b = elim (avx2_copy (suc (length bytes)) bytes b.pos b.vec) [
  | ok v ↦ (ok tt, record b { vec = v })
  | err e ↦ (err e, b)
  | panic ↦ (panic, b)
  | undefined ↦ (undefined, b)
]

unfoldable pub put_bytes_avx2_impl : List ℕ → Method Buffer (Unit {0})
put_bytes_avx2_impl bytes = do copy_avx2 bytes; advance_write (length bytes)

-- On x86_64, where the processor has AVX2 or has not.
unfoldable pub put_bytes_fast : Bool → List ℕ → Method Buffer (Unit {0})
put_bytes_fast has_avx2 bytes b =
    if ltb (length bytes) 64
    then put_bytes bytes b
    else if ltb b.vec.len (add_size b.pos (length bytes))
    then (err buffer_overflow, b)
    else if has_avx2
    then put_bytes_avx2_impl bytes b
    else put_bytes_unchecked bytes b
