-- ===== src/Buffer/Overflow.antt =====
-- src/buffer/ops.rs: where the addition in a bounds check wraps.
use secbuf.Prelude.{ℕ, ◌+◌, ◌≤◌, ◌<◌, ◌≡◌, arith}
use secbuf.Machine.{usize_mod}
use secbuf.Error.{buffer_overflow, increment_too_large, err, undefined}
use secbuf.Vec.{read_raw}
use secbuf.Buffer.{Buffer, incr_pos}
use secbuf.Buffer.Valid.{IsValid}
use secbuf.Buffer.Raw.{get_bytes_unchecked, read_at_pos}
use secbuf.Buffer.Ops.{get_bytes, get_bytes_ref, get_ptr}

module _ {b : Buffer} (v : IsValid b) (n : ℕ) (wraps : usize_mod ≤ b.pos + n)
    (n_small : n < usize_mod) where
  -- A usize length for which pos + len passes usize::MAX gets through the checks of get_bytes
  -- and get_bytes_ref of a valid buffer, and the read leaves the allocation.
  pub get_bytes_wraps : ((get_bytes n b).0 ≡ undefined) × ((get_bytes_ref n b).0 ≡ undefined)
  unfolding get_bytes get_bytes_ref get_bytes_unchecked read_at_pos read_raw
  get_bytes_wraps = ground (arith, v.vec.within, v.vec.small, v.cursor, v.filled)

  -- `get_ptr` and `incr_pos` bound the length first, and refuse it.
  pub get_ptr_guarded :
      (get_ptr n b ≡ err buffer_overflow) × (incr_pos n b ≡ (err increment_too_large, b))
  unfolding get_ptr incr_pos
  get_ptr_guarded = ground (arith, v.vec.within, v.vec.small)
