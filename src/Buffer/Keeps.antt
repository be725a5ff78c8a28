-- ===== src/Buffer/Keeps.antt =====
-- src/buffer/ops.rs: each operation returns and keeps the invariant.
use secbuf.Prelude.{
  ℕ, ◌+◌, ◌%◌, ◌^◌, ◌≤◌, ◌<◌, inl, inr, Bool, not, List, [], ◌∷◌, length, ltb, ◌==◌, Bool-cases,
  ltb→le, ltb→lt, length-splice, if◌then◌else◌, arith,
}
use secbuf.Machine.{usize_mod, isize_max}
use secbuf.Error.{invalid_string, Outcome, ok, err, panic, undefined, Method, ◌>>=◌, return, throw}
use secbuf.Bytes.Order.{big_endian, length-big_endian}
use secbuf.Buffer.{Buffer, incr_pos}
use secbuf.Buffer.Valid.{IsValid, Keeps, incr_pos-Keeps}
use secbuf.Buffer.Access.{
  written-IsValid, advanced-IsValid, put_bytes_room, put_bytes_full, get_bytes_room,
  get_bytes_short, get_u32_room, get_u32_short, get_u64_room, get_u64_short, put_u32-eq-put_bytes,
  put_u64-eq-put_bytes,
}
use secbuf.Buffer.Ops.{
  max_string_len, put_u32, get_u32, put_u64, get_u64, put_bytes, get_bytes, put_byte, get_byte,
  get_bool, put_string, get_string, eat_string,
}
use secbuf.Buffer.Simd.{put_bytes_fast}
use secbuf.Buffer.SimdCopy.{put_bytes_fast-eq-put_bytes}

-- Two steps in a row keep what each of them keeps.
bind-Keeps :
    {A B : Type 0} (f : A → Method Buffer B) (r : Outcome A) (b c : Buffer)
    → Keeps (r, c)
    → ((a : A) (d : Buffer) → IsValid d → Keeps (f a d))
    → Keeps (◌>>=◌ (λ _. (r, c)) f b)
bind-Keeps f (ok a) b c h k = k a c h.1
bind-Keeps f (err e) b c h k = h
bind-Keeps f panic b c h k = h
bind-Keeps f undefined b c h k = h

>>=-Keeps :
    {A B : Type 0} (m : Method Buffer A) (f : A → Method Buffer B) (b : Buffer)
    → Keeps (m b)
    → ((a : A) (d : Buffer) → IsValid d → Keeps (f a d))
    → Keeps ((m >>= f) b)
>>=-Keeps m f b h k = bind-Keeps f (m b).0 b (m b).1 h k

module _ {b : Buffer} (v : IsValid b) where
  pub put_bytes-Keeps : (bs : List ℕ) → length bs ≤ isize_max → Keeps (put_bytes bs b)
  put_bytes-Keeps bs small = elim (Bool-cases (ltb b.vec.len (b.pos + length bs))) [
    | inl full ↦ rw (put_bytes_full v bs small (ltb→lt _ _ full)) (tt, v)
    | inr room ↦
        rw (put_bytes_room v bs (ltb→le _ _ room)) (tt, written-IsValid v bs (ltb→le _ _ room))
  ]

  pub put_u32-Keeps : (val : ℕ) → Keeps (put_u32 val b)
  put_u32-Keeps val =
      rw (put_u32-eq-put_bytes val b)
        (put_bytes-Keeps (big_endian 4 val) (omega (arith, length-big_endian 4 val)))

  pub put_u64-Keeps : (val : ℕ) → Keeps (put_u64 val b)
  put_u64-Keeps val =
      rw (put_u64-eq-put_bytes val b)
        (put_bytes-Keeps (big_endian 8 val) (omega (arith, length-big_endian 8 val)))

  pub put_bytes_fast-Keeps :
      (has_avx2 : Bool) (bs : List ℕ) → length bs ≤ isize_max → Keeps (put_bytes_fast has_avx2 bs b)
  put_bytes_fast-Keeps has_avx2 bs small =
      rw (put_bytes_fast-eq-put_bytes has_avx2 bs v small) (put_bytes-Keeps bs small)

  pub put_byte-Keeps : (val : ℕ) → Keeps (put_byte val b)
  unfolding put_byte
  put_byte-Keeps val =
      ground (arith, v.vec.within, v.vec.small, length-splice b.vec.mem b.pos (val ∷ []))

  pub get_byte-Keeps : Keeps (get_byte b)
  unfolding get_byte
  get_byte-Keeps = ground (arith, v.vec.within, v.vec.small)

  pub get_bytes-Keeps : (n : ℕ) → b.pos + n < usize_mod → Keeps (get_bytes n b)
  get_bytes-Keeps n small = elim (Bool-cases (ltb b.len (b.pos + n))) [
    | inl short ↦ rw (get_bytes_short v n (ltb→lt _ _ short) small) (tt, v)
    | inr room ↦
        rw (get_bytes_room v n (ltb→le _ _ room)) (tt, advanced-IsValid v n (ltb→le _ _ room))
  ]

  pub get_u32-Keeps : Keeps (get_u32 b)
  get_u32-Keeps = elim (Bool-cases (ltb b.len (b.pos + 4))) [
    | inl short ↦ rw (get_u32_short v (ltb→lt _ _ short)) (tt, v)
    | inr room ↦ rw (get_u32_room v (ltb→le _ _ room)) (tt, advanced-IsValid v 4 (ltb→le _ _ room))
  ]

  pub get_u64-Keeps : Keeps (get_u64 b)
  get_u64-Keeps = elim (Bool-cases (ltb b.len (b.pos + 8))) [
    | inl short ↦ rw (get_u64_short v (ltb→lt _ _ short)) (tt, v)
    | inr room ↦ rw (get_u64_room v (ltb→le _ _ room)) (tt, advanced-IsValid v 8 (ltb→le _ _ room))
  ]

-- what `get_string` and `eat_string` do after the length
abbrev read_body : ℕ → Method Buffer (List ℕ)
read_body len = if ltb max_string_len len then throw invalid_string else get_bytes len

abbrev skip_body : ℕ → Method Buffer (Unit {0})
skip_body len = if ltb max_string_len len then throw invalid_string else incr_pos len

module _ {b : Buffer} (v : IsValid b) where
  pub get_bool-Keeps : Keeps (get_bool b)
  unfolding get_bool
  get_bool-Keeps =
      >>=-Keeps get_byte (λ byte. return (not (byte == 0))) b (get_byte-Keeps v) (λ a c w. (tt, w))

  pub put_string-Keeps : (s : List ℕ) → length s ≤ isize_max → Keeps (put_string s b)
  unfolding put_string
  put_string-Keeps s small = elim (Bool-cases (ltb max_string_len (length s))) [
    | inl long ↦ rw long (tt, v)
    | inr short ↦ rw short (
        >>=-Keeps (put_u32 (length s % 2 ^ 32)) (λ _. put_bytes s) b (put_u32-Keeps v _)
          (λ a c w. put_bytes-Keeps w s small))
  ]

  pub get_string-Keeps : Keeps (get_string b)
  unfolding get_string
  get_string-Keeps = >>=-Keeps get_u32 read_body b (get_u32-Keeps v) λ len c w.
      elim (Bool-cases (ltb max_string_len len)) [
        | inl long ↦ rw long (tt, w)
        | inr short ↦
            rw short
              (get_bytes-Keeps w len (omega (arith, ltb→le _ _ short, w.vec.within, w.vec.small)))
      ]

  pub eat_string-Keeps : Keeps (eat_string b)
  unfolding eat_string
  eat_string-Keeps = >>=-Keeps get_u32 skip_body b (get_u32-Keeps v) λ len c w.
      elim (Bool-cases (ltb max_string_len len)) [
        | inl long ↦ rw long (tt, w)
        | inr short ↦ rw short (incr_pos-Keeps len c w)
      ]
