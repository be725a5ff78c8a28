-- ===== src/Buffer/Access.antt =====
-- What the unchecked accesses do inside the allocation, and what the checked ones do on each
-- branch, in closed form.
use secbuf.Prelude.{
  ℕ, ◌+◌, ◌-◌, ◌≤◌, ◌<◌, ◌≡◌, refl, max, List, length, slice, splice, length-splice, arith,
}
use secbuf.Machine.{isize_max, usize_mod}
use secbuf.Error.{position_out_of_bounds, buffer_overflow, ok, err}
use secbuf.Vec.{read_raw, write_raw}
use secbuf.Bytes.{load, swap_bytes}
use secbuf.Bytes.Order.{big_endian, length-big_endian, store-swap_bytes}
use secbuf.Buffer.{Buffer, set_pos, decr_pos}
use secbuf.Buffer.Valid.{IsValid}
use secbuf.Buffer.Raw.{
  write_at_pos, read_at_pos, put_u32_unchecked, get_u32_unchecked, put_u64_unchecked,
  get_u64_unchecked, put_bytes_unchecked, get_bytes_unchecked,
}
use secbuf.Buffer.Ops.{put_u32, get_u32, put_u64, get_u64, put_bytes, get_bytes}

-- The buffer after `bs` went into it at the cursor.
unfoldable pub written : List ℕ → Buffer → Buffer
written bs b = record {
  vec = record (b.vec) { mem = splice b.vec.mem b.pos bs };
  pos = b.pos + length bs;
  len = max b.len (b.pos + length bs);
}

-- The buffer after `n` bytes were read at the cursor.
abbrev pub advanced : ℕ → Buffer → Buffer
advanced n b = record b { pos = b.pos + n }

-- A word goes out as its big-endian bytes, through either put.
put_u32_unchecked-eq :
    (val : ℕ) (b : Buffer) → put_u32_unchecked val b ≡ put_bytes_unchecked (big_endian 4 val) b
unfolding put_u32_unchecked put_bytes_unchecked
put_u32_unchecked-eq val b = rw (store-swap_bytes 4 val, length-big_endian 4 val) refl

put_u64_unchecked-eq :
    (val : ℕ) (b : Buffer) → put_u64_unchecked val b ≡ put_bytes_unchecked (big_endian 8 val) b
unfolding put_u64_unchecked put_bytes_unchecked
put_u64_unchecked-eq val b = rw (store-swap_bytes 8 val, length-big_endian 8 val) refl

-- put_u32 is put_bytes of the four big-endian bytes, on every branch.
pub put_u32-eq-put_bytes : (val : ℕ) (b : Buffer) → put_u32 val b ≡ put_bytes (big_endian 4 val) b
unfolding put_u32 put_bytes
put_u32-eq-put_bytes val b = rw (put_u32_unchecked-eq val b, length-big_endian 4 val) refl

-- `put_u64` is `put_bytes` of the eight big-endian bytes, on every branch.
pub put_u64-eq-put_bytes : (val : ℕ) (b : Buffer) → put_u64 val b ≡ put_bytes (big_endian 8 val) b
unfolding put_u64 put_bytes
put_u64-eq-put_bytes val b = rw (put_u64_unchecked-eq val b, length-big_endian 8 val) refl

module _ (n : ℕ) (b : Buffer) where
  pub set_pos_past : b.len < n → set_pos n b ≡ (err position_out_of_bounds, b)
  unfolding set_pos
  set_pos_past h = ground arith

  pub set_pos_within : n ≤ b.len → set_pos n b ≡ (ok tt, record b { pos = n })
  unfolding set_pos
  set_pos_within h = ground arith

  pub decr_pos_past : b.pos < n → decr_pos n b ≡ (err position_out_of_bounds, b)
  unfolding decr_pos
  decr_pos_past h = ground arith

  pub decr_pos_within : n ≤ b.pos → decr_pos n b ≡ (ok tt, record b { pos = b.pos - n })
  unfolding decr_pos
  decr_pos_within h = ground arith

module _ {b : Buffer} (v : IsValid b) where
  write_at_pos_lem :
      (bs : List ℕ)
      → b.pos + length bs ≤ b.vec.len
      → write_at_pos bs b
        ≡ (ok tt, record b { vec = record (b.vec) { mem = splice b.vec.mem b.pos bs } })
  unfolding write_at_pos write_raw
  write_at_pos_lem bs h = ground (arith, v.vec.within)

  read_at_pos_lem :
      (n : ℕ) → b.pos + n ≤ b.len → read_at_pos n b ≡ (ok (slice b.vec.mem b.pos n), b)
  unfolding read_at_pos read_raw
  read_at_pos_lem n h = ground (arith, v.vec.within)

  pub put_bytes_unchecked_lem :
      (bs : List ℕ)
      → b.pos + length bs ≤ b.vec.len
      → put_bytes_unchecked bs b ≡ (ok tt, written bs b)
  unfolding put_bytes_unchecked written
  put_bytes_unchecked_lem bs h = ground (arith, write_at_pos_lem bs h, v.vec.within, v.vec.small)

  pub written-IsValid : (bs : List ℕ) → b.pos + length bs ≤ b.vec.len → IsValid (written bs b)
  unfolding written
  written-IsValid bs h = omega (arith, v.vec.within, v.vec.small, length-splice b.vec.mem b.pos bs)

  pub put_bytes_room :
      (bs : List ℕ) → b.pos + length bs ≤ b.vec.len → put_bytes bs b ≡ (ok tt, written bs b)
  unfolding put_bytes
  put_bytes_room bs h = ground (arith, put_bytes_unchecked_lem bs h, v.vec.within, v.vec.small)

  -- A slice has at most `isize::MAX` bytes, so the check itself does not wrap.
  pub put_bytes_full :
      (bs : List ℕ)
      → length bs ≤ isize_max
      → b.vec.len < b.pos + length bs
      → put_bytes bs b ≡ (err buffer_overflow, b)
  unfolding put_bytes
  put_bytes_full bs small h = ground (arith, v.vec.within, v.vec.small)

  pub get_bytes_unchecked_lem :
      (n : ℕ)
      → b.pos + n ≤ b.len
      → get_bytes_unchecked n b ≡ (ok (slice b.vec.mem b.pos n), advanced n b)
  unfolding get_bytes_unchecked
  get_bytes_unchecked_lem n h = ground (arith, read_at_pos_lem n h, v.vec.within, v.vec.small)

  pub get_bytes_room :
      (n : ℕ) → b.pos + n ≤ b.len → get_bytes n b ≡ (ok (slice b.vec.mem b.pos n), advanced n b)
  unfolding get_bytes
  get_bytes_room n h = ground (arith, get_bytes_unchecked_lem n h, v.vec.within, v.vec.small)

  pub get_bytes_short :
      (n : ℕ) → b.len < b.pos + n → b.pos + n < usize_mod → get_bytes n b ≡ (err buffer_overflow, b)
  unfolding get_bytes
  get_bytes_short n h small = ground (arith, v.vec.within, v.vec.small)

  pub get_u32_room :
      b.pos + 4 ≤ b.len
      → get_u32 b ≡ (ok (swap_bytes 4 (load (slice b.vec.mem b.pos 4))), advanced 4 b)
  unfolding get_u32 get_u32_unchecked
  get_u32_room h = ground (arith, read_at_pos_lem 4 h, v.vec.within, v.vec.small)

  pub get_u32_short : b.len < b.pos + 4 → get_u32 b ≡ (err buffer_overflow, b)
  unfolding get_u32
  get_u32_short h = ground (arith, v.vec.within, v.vec.small)

  pub get_u64_room :
      b.pos + 8 ≤ b.len
      → get_u64 b ≡ (ok (swap_bytes 8 (load (slice b.vec.mem b.pos 8))), advanced 8 b)
  unfolding get_u64 get_u64_unchecked
  get_u64_room h = ground (arith, read_at_pos_lem 8 h, v.vec.within, v.vec.small)

  pub get_u64_short : b.len < b.pos + 8 → get_u64 b ≡ (err buffer_overflow, b)
  unfolding get_u64
  get_u64_short h = ground (arith, v.vec.within, v.vec.small)

  pub advanced-IsValid : (n : ℕ) → b.pos + n ≤ b.len → IsValid (advanced n b)
  advanced-IsValid n h = omega (arith, v.vec.within, v.vec.small)
