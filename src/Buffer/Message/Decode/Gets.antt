-- ===== src/Buffer/Message/Decode/Gets.antt =====
-- src/buffer/ops.rs: what each get makes of any bytes.
use secbuf.Prelude.{
  ℕ, ◌+◌, ◌^◌, ◌≤◌, ◌<◌, ◌≡◌, refl, sym, ap, subst, ◌∙◌, inl, inr, true, false, List, [], ◌∷◌, ◌++◌,
  length, slice, get_or, length-slice, ltb, ltb→lt, ltb→le, Bool-cases, if◌then◌else◌, arith,
}
use secbuf.Machine.{isize_max}
use secbuf.Error.{
  BufferError, buffer_overflow, invalid_string, ok, err, Method, return, throw, bind_ok, bind_err,
}
use secbuf.Bytes.{load, swap_bytes}
use secbuf.Bytes.Order.{Bytes, big_endian, length-big_endian, big_endian-load}
use secbuf.Buffer.{Buffer}
use secbuf.Buffer.Valid.{IsValid}
use secbuf.Buffer.Access.{
  advanced, advanced-IsValid, get_bytes_room, get_bytes_short, get_u32_room, get_u32_short,
  get_u64_room, get_u64_short,
}
use secbuf.Buffer.Ops.{max_string_len, get_u32, get_u64, get_byte, get_bytes, get_string}
use secbuf.Buffer.Message.{
  u32, u64, byte, bytes, string, Kind, a_u32, a_u64, a_byte, a_string, some_bytes, get_field,
}
use secbuf.Buffer.Message.Decode.{
  IsKind, StandsAt, Decoded, Bytes-slice, Bytes-get_or, slice_one, stands, both_stand,
}

module _ {b : Buffer} (v : IsValid b) (m : Bytes b.vec.mem) where
  -- a word of `n` bytes at the cursor
  word :
      (n : ℕ)
      → b.pos + n ≤ b.len
      → let val = swap_bytes n (load (slice b.vec.mem b.pos n)) in
        (big_endian n val ≡ slice b.vec.mem b.pos n) × (val < 256 ^ n)
  word n fits =
      big_endian-load n (slice b.vec.mem b.pos n) (Bytes-slice b.vec.mem b.pos n m)
        (length-slice b.vec.mem b.pos n (omega (arith, v.vec.within, v.filled)))

  get_u32-Decoded : Decoded a_u32 b (get_field a_u32 b)
  get_u32-Decoded = elim (Bool-cases (ltb b.len (b.pos + 4))) [
    | inl short ↦
        subst (λ r. Decoded a_u32 b r)
          (sym (bind_err get_u32 (λ n. return (u32 n)) (get_u32_short v (ltb→lt _ _ short)))) v
    | inr room ↦
        let fits = ltb→le _ _ room in
        let (same, small) = word 4 fits in
        let (there, after) = stands _ 4 b (length-big_endian 4 _) fits (sym same) in
        subst (λ r. Decoded a_u32 b r)
          (sym (bind_ok get_u32 (λ n. return (u32 n)) (get_u32_room v fits)))
          (refl, small, there, after)
  ]

  get_u64-Decoded : Decoded a_u64 b (get_field a_u64 b)
  get_u64-Decoded = elim (Bool-cases (ltb b.len (b.pos + 8))) [
    | inl short ↦
        subst (λ r. Decoded a_u64 b r)
          (sym (bind_err get_u64 (λ n. return (u64 n)) (get_u64_short v (ltb→lt _ _ short)))) v
    | inr room ↦
        let fits = ltb→le _ _ room in
        let (same, small) = word 8 fits in
        let (there, after) = stands _ 8 b (length-big_endian 8 _) fits (sym same) in
        subst (λ r. Decoded a_u64 b r)
          (sym (bind_ok get_u64 (λ n. return (u64 n)) (get_u64_room v fits)))
          (refl, small, there, after)
  ]

  get_bytes-Decoded :
      (n : ℕ) → n ≤ isize_max → Decoded (some_bytes n) b (get_field (some_bytes n) b)
  get_bytes-Decoded n small = elim (Bool-cases (ltb b.len (b.pos + n))) [
    | inl short ↦
        subst (λ r. Decoded (some_bytes n) b r)
          (sym (
            bind_err (get_bytes n) (λ s. return (bytes s))
              (get_bytes_short v n (ltb→lt _ _ short) (omega (arith, v.vec.within, v.vec.small)))))
          v
    | inr room ↦
        let fits = ltb→le _ _ room in
        let len = length-slice b.vec.mem b.pos n (omega (arith, v.vec.within, v.filled)) in
        let (there, after) = stands (slice b.vec.mem b.pos n) n b len fits refl in
        subst (λ r. Decoded (some_bytes n) b r)
          (sym (bind_ok (get_bytes n) (λ s. return (bytes s)) (get_bytes_room v n fits)))
          (ap some_bytes len, tt, there, after)
  ]

  get_byte-Decoded : Decoded a_byte b (get_field a_byte b)
  get_byte-Decoded = elim (Bool-cases (ltb b.pos b.len)) [
    | inr short ↦
        let none_left : get_byte b ≡ (err buffer_overflow, b) =
          unfold get_byte in ground (arith, short) in
        subst (λ r. Decoded a_byte b r) (sym (bind_err get_byte (λ n. return (byte n)) none_left)) v
    | inl room ↦
        let fits = ltb→lt _ _ room in
        let n = get_or b.vec.mem b.pos 0 in
        let got : get_byte b ≡ (ok n, advanced 1 b) =
          unfold get_byte in ground (arith, v.vec.within, v.vec.small, v.filled, fits) in
        let one = slice_one b.vec.mem b.pos (omega (arith, fits, v.vec.within, v.filled)) in
        let (there, after) = stands (n ∷ []) 1 b refl (omega (arith, fits)) one in
        subst (λ r. Decoded a_byte b r) (sym (bind_ok get_byte (λ n. return (byte n)) got))
          (refl, Bytes-get_or b.vec.mem b.pos m, there, after)
  ]

  -- `get_string` after the length
  abbrev body : ℕ → Method Buffer (List ℕ)
  body len = if ltb max_string_len len then throw invalid_string else get_bytes len

  -- an error of `get_string`, in any of its three places
  string_fails :
      {e : BufferError} {c : Buffer}
      → get_string b ≡ (err e, c)
      → IsValid c
      → Decoded a_string b (get_field a_string b)
  string_fails h w =
      subst (λ r. Decoded a_string b r) (sym (bind_err get_string (λ s. return (string s)) h)) w

  string_short : b.len < b.pos + 4 → get_string b ≡ (err buffer_overflow, b)
  unfolding get_string
  string_short short = bind_err get_u32 body (get_u32_short v short)

  string_long :
      b.pos + 4 ≤ b.len
      → ltb max_string_len (swap_bytes 4 (load (slice b.vec.mem b.pos 4))) ≡ true
      → get_string b ≡ (err invalid_string, advanced 4 b)
  unfolding get_string
  string_long fits long = bind_ok get_u32 body (get_u32_room v fits) ∙ rw long refl

  string_body :
      b.pos + 4 ≤ b.len
      → let n = swap_bytes 4 (load (slice b.vec.mem b.pos 4)) in
        ltb max_string_len n ≡ false → get_string b ≡ get_bytes n (advanced 4 b)
  unfolding get_string
  string_body fits short = bind_ok get_u32 body (get_u32_room v fits) ∙ rw short refl

  string_found :
      b.pos + 4 ≤ b.len
      → let n = swap_bytes 4 (load (slice b.vec.mem b.pos 4)) in
        ltb max_string_len n ≡ false
        → b.pos + 4 + n ≤ b.len
        → Decoded a_string b (get_field a_string b)
  string_found fits short room =
      let n = swap_bytes 4 (load (slice b.vec.mem b.pos 4)) in
      let w = advanced-IsValid v 4 fits in
      let (same, small) = word 4 fits in
      let (head, after) = stands (big_endian 4 n) 4 b (length-big_endian 4 n) fits (sym same) in
      let s = slice b.vec.mem (b.pos + 4) n in
      let h = big_endian 4 n in
      let len : length s ≡ n =
        length-slice b.vec.mem (b.pos + 4) n (omega (arith, room, v.vec.within, v.filled)) in
      let (tail, after') = stands s n (advanced 4 b) len room refl in
      let (whole, joined) = both_stand h s b v head (subst (λ c. StandsAt s c) after tail) in
      let got = string_body fits short ∙ get_bytes_room w n room in
      let cursor : advanced n (advanced 4 b) ≡ advanced (length (h ++ s)) b =
        after' ∙ ap (λ c. advanced (length s) c) after ∙ joined in
      let (there, end) =
        subst
          (λ k.
            StandsAt (big_endian 4 k ++ s) b
            × (advanced n (advanced 4 b) ≡ advanced (length (big_endian 4 k ++ s)) b))
          (sym len) (whole, cursor) in
      subst (λ r. Decoded a_string b r) (sym (bind_ok get_string (λ s. return (string s)) got))
        (refl, omega (arith, len, ltb→le _ _ short), there, end)

  get_string-Decoded : Decoded a_string b (get_field a_string b)
  get_string-Decoded = elim (Bool-cases (ltb b.len (b.pos + 4))) [
    | inl short ↦ string_fails (string_short (ltb→lt _ _ short)) v
    | inr room ↦
        let fits = ltb→le _ _ room in
        let n = swap_bytes 4 (load (slice b.vec.mem b.pos 4)) in
        let w = advanced-IsValid v 4 fits in
        elim (Bool-cases (ltb max_string_len n)) [
          | inl long ↦ string_fails (string_long fits long) w
          | inr ok_len ↦ elim (Bool-cases (ltb b.len (b.pos + 4 + n))) [
            | inl cut ↦
                string_fails
                  (string_body fits ok_len
                    ∙ get_bytes_short w n (ltb→lt _ _ cut) (
                        omega
                          (arith, ltb→le _ _ ok_len, v.vec.within, v.vec.small, v.filled, fits)))
                  w
            | inr enough ↦ string_found fits ok_len (ltb→le _ _ enough)
          ]
        ]
  ]

pub get_field-Decoded :
    (k : Kind) {b : Buffer} → IsValid b → Bytes b.vec.mem → IsKind k → Decoded k b (get_field k b)
get_field-Decoded a_u32 v m h = get_u32-Decoded v m
get_field-Decoded a_u64 v m h = get_u64-Decoded v m
get_field-Decoded a_byte v m h = get_byte-Decoded v m
get_field-Decoded a_string v m h = get_string-Decoded v m
get_field-Decoded (some_bytes n) v m h = get_bytes-Decoded v m n h
