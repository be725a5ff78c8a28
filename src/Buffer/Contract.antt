-- ===== src/Buffer/Contract.antt =====
-- src/buffer/unsafe_ops.rs: the contract `pos + 4 <= capacity()` of the unchecked writes, between
-- the vector's elements and the end of the allocation.
use secbuf.Prelude.{ℕ, ◌+◌, ◌≤◌, ◌<◌, ◌≡◌, List, length, arith}
use secbuf.Error.{ok, panic}
use secbuf.Vec
use secbuf.Buffer.{Buffer, as_slice}
use secbuf.Buffer.Valid.{IsValid}
use secbuf.Buffer.Raw.{put_bytes_unchecked, write_at_pos}

-- An unchecked write to a valid buffer that keeps to its contract but passes the vector's end is
-- defined, puts the buffer's len past it, and makes as_slice panic.
pub contract_too_weak :
    (bytes : List ℕ) {b : Buffer}
    → IsValid b
    → b.pos + length bytes ≤ Vec.capacity b.vec
    → b.vec.len < b.pos + length bytes
    → let (r, c) = put_bytes_unchecked bytes b in
      (r ≡ ok tt) × (c.vec.len < c.len) × (as_slice c ≡ panic)
unfolding put_bytes_unchecked write_at_pos as_slice Vec.write_raw
contract_too_weak bytes {b} v room past =
    ground (arith, v.vec.within, v.vec.small, v.cursor, v.filled)
