-- ===== src/Buffer/Strings.antt =====
-- src/buffer/ops.rs: a string that `put_string` has written is read back by `get_string`.
use secbuf.Prelude.{
  ℕ, ◌+◌, ◌%◌, ◌^◌, ◌≤◌, ◌≡◌, sym, ap, ◌∙◌, ◌++◌, List, length, slice, splice, length-append,
  slice-splice_same, slice-splice_apart, splice-splice, length-splice, inl, arith,
}
use secbuf.Error.{ok, ◌>>◌}
use secbuf.Bytes.Order.{big_endian, length-big_endian, swap_bytes-load}
use secbuf.Buffer.{Buffer, set_pos, incr_pos}
use secbuf.Buffer.Valid.{IsValid}
use secbuf.Buffer.Access.{
  written, advanced, written-IsValid, put_bytes_room, put_u32-eq-put_bytes, get_u32_room,
  get_bytes_room,
}
use secbuf.Buffer.Ops.{max_string_len, get_u32, put_string, get_string, eat_string}
use secbuf.Buffer.RoundTrip.{rewound, rewind, rewound-IsValid, written-written}

-- the length prefix of a string, and the string
abbrev pub encoded : List ℕ → List ℕ
encoded s = big_endian 4 (length s) ++ s

pub length-encoded : (s : List ℕ) → length (encoded s) ≡ 4 + length s
length-encoded s =
    omega (arith, length-append (big_endian 4 (length s)) s, length-big_endian 4 (length s))

module _ {b : Buffer} (v : IsValid b) (s : List ℕ) (short : length s ≤ max_string_len)
    (fits : b.pos + (4 + length s) ≤ b.vec.len) where
  abbrev prefix : List ℕ
  prefix = big_endian 4 (length s)

  prefix_fits : b.pos + length prefix ≤ b.vec.len
  prefix_fits = omega (arith, length-big_endian 4 (length s))

  -- A string with room for it goes out as its length, in four big-endian bytes, and its bytes.
  pub put_string_room : put_string s b ≡ (ok tt, written (encoded s) b)
  unfolding put_string
  put_string_room = ground (
    arith,
    same,
    put_u32-eq-put_bytes (length s) b,
    put_bytes_room v prefix prefix_fits,
    put_bytes_room (written-IsValid v prefix prefix_fits) s rest_fits,
    written-written v prefix s (omega (arith, length-big_endian 4 (length s))),
  )
    where
      same : length s % 2 ^ 32 ≡ length s
      same = omega arith

      rest_fits : (written prefix b).pos + length s ≤ (written prefix b).vec.len
      rest_fits = unfold written in omega (arith, length-big_endian 4 (length s))

  -- The prefix and the string stand in memory one behind the other.
  stored :
      (slice (written (encoded s) b).vec.mem b.pos 4 ≡ prefix)
      × (slice (written (encoded s) b).vec.mem (b.pos + 4) (length s) ≡ s)
  unfolding written
  stored = (front, back)
    where
      len : length prefix ≡ 4
      len = length-big_endian 4 (length s)

      mem : List ℕ
      mem = splice b.vec.mem b.pos prefix

      parts : splice mem (b.pos + 4) s ≡ splice b.vec.mem b.pos (encoded s)
      parts =
          ap (λ k. splice mem (b.pos + k) s) (sym len)
          ∙ splice-splice b.vec.mem b.pos prefix s (omega (arith, len, v.vec.within))

      same_size : length mem ≡ length b.vec.mem
      same_size = length-splice b.vec.mem b.pos prefix

      front : slice (splice b.vec.mem b.pos (encoded s)) b.pos 4 ≡ prefix
      front =
          ap (λ m. slice m b.pos 4) (sym parts)
          ∙ slice-splice_apart mem (b.pos + 4) s b.pos 4 (omega (arith, same_size, v.vec.within))
              (inl (omega arith)) (omega (arith, same_size, v.vec.within))
          ∙ ap (slice mem b.pos) (sym len)
          ∙ slice-splice_same b.vec.mem b.pos prefix (omega (arith, len, v.vec.within))

      back : slice (splice b.vec.mem b.pos (encoded s)) (b.pos + 4) (length s) ≡ s
      back =
          ap (λ m. slice m (b.pos + 4) (length s)) (sym parts)
          ∙ slice-splice_same mem (b.pos + 4) s (omega (arith, same_size, v.vec.within))

  fits' : b.pos + length (encoded s) ≤ b.vec.len
  fits' = omega (arith, length-encoded s)

  -- the rewound buffer behind the length prefix
  abbrev behind_prefix : Buffer
  behind_prefix = advanced 4 (rewound (encoded s) b)

  read_prefix : get_u32 (rewound (encoded s) b) ≡ (ok (length s), behind_prefix)
  unfolding written
  read_prefix = ground (
    arith,
    get_u32_room (rewound-IsValid v (encoded s) fits'),
    stored.0,
    length-encoded s,
    swap_bytes-load 4 (length s) (omega arith),
  )

  behind_prefix-IsValid : IsValid behind_prefix
  unfolding written
  behind_prefix-IsValid = omega (arith, rewound-IsValid v (encoded s) fits', length-encoded s)

  -- A string within the length limit that fits a valid buffer is read back as it was written.
  pub get_string-put_string :
      (do put_string s; set_pos b.pos; get_string) b ≡ (ok s, written (encoded s) b)
  unfolding get_string written
  get_string-put_string = ground (
    arith,
    put_string_room,
    rewind v (encoded s) fits',
    read_prefix,
    get_bytes_room behind_prefix-IsValid (length s),
    stored.1,
    length-encoded s,
  )

  -- eat_string skips what get_string would read, for a string within the limit that fits a
  -- valid buffer.
  pub eat_string-put_string :
      (do put_string s; set_pos b.pos; eat_string) b ≡ (ok tt, written (encoded s) b)
  unfolding eat_string written incr_pos
  eat_string-put_string = ground (
    arith,
    put_string_room,
    rewind v (encoded s) fits',
    read_prefix,
    length-encoded s,
    v.vec.within,
    v.vec.small,
  )
