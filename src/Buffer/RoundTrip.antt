-- ===== src/Buffer/RoundTrip.antt =====
-- src/buffer/ops.rs: what a put leaves, the matching get reads back.
use secbuf.Prelude.{
  ℕ, ◌+◌, ◌^◌, ◌≤◌, ◌<◌, ◌≡◌, ◌++◌, List, length, slice, length-append, slice-splice_same,
  splice-splice, arith,
}
use secbuf.Error.{ok, ◌>>◌}
use secbuf.Bytes.Order.{big_endian, length-big_endian, swap_bytes-load}
use secbuf.Buffer.{Buffer, set_pos}
use secbuf.Buffer.Valid.{IsValid}
use secbuf.Buffer.Access.{
  written, written-IsValid, put_bytes_room, put_u32-eq-put_bytes, put_u64-eq-put_bytes,
  get_u32_room, get_u64_room, get_bytes_room,
}
use secbuf.Buffer.Ops.{put_u32, get_u32, put_u64, get_u64, put_bytes, get_bytes}

-- the written buffer with its cursor back at the start of what was written
abbrev pub rewound : List ℕ → Buffer → Buffer
rewound bs b = record (written bs b) { pos = b.pos }

module _ {b : Buffer} (v : IsValid b) (bs : List ℕ) (fits : b.pos + length bs ≤ b.vec.len) where
  pub rewind : set_pos b.pos (written bs b) ≡ (ok tt, rewound bs b)
  unfolding set_pos written
  rewind = ground (arith, v.cursor)

  pub rewound-IsValid : IsValid (rewound bs b)
  unfolding written
  rewound-IsValid = omega (arith, written-IsValid v bs fits, v.cursor)

  pub reread : slice (rewound bs b).vec.mem b.pos (length bs) ≡ bs
  unfolding written
  reread = slice-splice_same b.vec.mem b.pos bs (omega (arith, v.vec.within))

module _ {b : Buffer} (v : IsValid b) where
  -- Bytes that fit a valid buffer are read back as they were written, and the cursor ends
  -- behind them.
  pub get_bytes-put_bytes :
      (bs : List ℕ)
      → b.pos + length bs ≤ b.vec.len
      → (do put_bytes bs; set_pos b.pos; get_bytes (length bs)) b ≡ (ok bs, written bs b)
  unfolding written
  get_bytes-put_bytes bs fits = ground (
    arith,
    put_bytes_room v bs fits,
    rewind v bs fits,
    get_bytes_room (rewound-IsValid v bs fits) (length bs),
    reread v bs fits,
  )

  -- A u32 that fits a valid buffer comes back, and the cursor ends behind it.
  pub get_u32-put_u32 :
      (val : ℕ)
      → b.pos + 4 ≤ b.vec.len
      → val < 2 ^ 32
      → (do put_u32 val; set_pos b.pos; get_u32) b ≡ (ok val, written (big_endian 4 val) b)
  unfolding written
  get_u32-put_u32 val fits small = ground (
    arith,
    put_u32-eq-put_bytes val b,
    put_bytes_room v bs fits',
    rewind v bs fits',
    get_u32_room (rewound-IsValid v bs fits'),
    reread v bs fits',
    length-big_endian 4 val,
    swap_bytes-load 4 val small,
  )
    where
      bs : List ℕ
      bs = big_endian 4 val

      fits' : b.pos + length bs ≤ b.vec.len
      fits' = omega (arith, length-big_endian 4 val)

  -- A u64 that fits a valid buffer comes back, and the cursor ends behind it.
  pub get_u64-put_u64 :
      (val : ℕ)
      → b.pos + 8 ≤ b.vec.len
      → val < 2 ^ 64
      → (do put_u64 val; set_pos b.pos; get_u64) b ≡ (ok val, written (big_endian 8 val) b)
  unfolding written
  get_u64-put_u64 val fits small = ground (
    arith,
    put_u64-eq-put_bytes val b,
    put_bytes_room v bs fits',
    rewind v bs fits',
    get_u64_room (rewound-IsValid v bs fits'),
    reread v bs fits',
    length-big_endian 8 val,
    swap_bytes-load 8 val small,
  )
    where
      bs : List ℕ
      bs = big_endian 8 val

      fits' : b.pos + length bs ≤ b.vec.len
      fits' = omega (arith, length-big_endian 8 val)

  -- Two puts in a row are one put of both.
  pub written-written :
      (xs ys : List ℕ)
      → b.pos + (length xs + length ys) ≤ b.vec.len
      → written ys (written xs b) ≡ written (xs ++ ys) b
  unfolding written
  written-written xs ys fits = ground (
    arith,
    length-append xs ys,
    splice-splice b.vec.mem b.pos xs ys (omega (arith, v.vec.within)),
  )
