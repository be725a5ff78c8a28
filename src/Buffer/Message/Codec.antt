-- ===== src/Buffer/Message/Codec.antt =====
-- src/buffer/ops.rs: what a sequence of puts leaves, the sequence of the matching gets reads back.
use secbuf.Prelude.{
  ℕ, zero, suc, ◌+◌, ◌≤◌, ◌≡◌, refl, sym, ap, ap₂, ◌∙◌, List, [], ◌∷◌, ◌++◌, map, length, slice,
  get_or, get_or-slice, take, drop, splice, length-append, arith,
}
use secbuf.Error.{ok, ◌>>=◌, ◌>>◌, return, bind_ok}
use secbuf.Bytes.Order.{big_endian, length-big_endian, swap_bytes-load}
use secbuf.Buffer.{Buffer, set_pos}
use secbuf.Buffer.Valid.{IsValid}
use secbuf.Buffer.Access.{
  written, advanced, written-IsValid, advanced-IsValid, put_bytes_room, put_u32-eq-put_bytes,
  put_u64-eq-put_bytes, get_u32_room, get_u64_room, get_bytes_room,
}
use secbuf.Buffer.Ops.{max_string_len, put_byte, get_byte, get_string}
use secbuf.Buffer.RoundTrip.{rewind, rewound-IsValid, reread, written-written}
use secbuf.Buffer.Strings.{encoded, length-encoded, put_string_room}
use secbuf.Buffer.Message.{
  Field, u32, u64, byte, bytes, string, kind, IsField, AllFields, wire, wires, put_field, get_field,
  put_message, get_message,
}

-- A list in two parts.
take_parts :
    (l xs ys : List ℕ)
    → take (length (xs ++ ys)) l ≡ xs ++ ys
    → (take (length xs) l ≡ xs) × (take (length ys) (drop (length xs) l) ≡ ys)
take_parts l [] ys e = (refl, e)
take_parts [] (x ∷ xs) ys e = cc
take_parts (y ∷ l) (x ∷ xs) ys e =
    let tails : take (length (xs ++ ys)) l ≡ xs ++ ys = cc in
    let heads : y ≡ x = cc in
    let (a, b) = take_parts l xs ys tails in (ap₂ (λ h t. h ∷ t) heads a, b)

drop-nil : (n : ℕ) → drop {A = ℕ} n [] ≡ []
drop-nil zero = refl
drop-nil (suc n) = refl

pub drop-drop : (n m k : ℕ) (xs : List ℕ) → k ≡ n + m → drop m (drop n xs) ≡ drop k xs
drop-drop zero m k xs e = let same : m ≡ k = omega (arith, e) in ap (λ i. drop i xs) same
drop-drop (suc n) m zero xs e = absurd (omega (arith, e))
drop-drop (suc n) m (suc k) [] e = drop-nil m
drop-drop (suc n) m (suc k) (x ∷ xs) e = drop-drop n m k xs (omega (arith, e))

pub slice_parts :
    (mem : List ℕ) (p : ℕ) (xs ys : List ℕ)
    → slice mem p (length (xs ++ ys)) ≡ xs ++ ys
    → (slice mem p (length xs) ≡ xs) × (slice mem (p + length xs) (length ys) ≡ ys)
slice_parts mem p xs ys e =
    let (a, b) = take_parts (drop p mem) xs ys e in
    (a, ap (take (length ys)) (sym (drop-drop p (length xs) (p + length xs) mem refl)) ∙ b)

module _ {b : Buffer} (v : IsValid b) where
  put_field_room :
      (f : Field)
      → IsField f
      → b.pos + length (wire f) ≤ b.vec.len
      → put_field f b ≡ (ok tt, written (wire f) b)
  put_field_room (u32 n) h fits = put_u32-eq-put_bytes n b ∙ put_bytes_room v (big_endian 4 n) fits
  put_field_room (u64 n) h fits = put_u64-eq-put_bytes n b ∙ put_bytes_room v (big_endian 8 n) fits
  put_field_room (byte n) h fits =
      unfold put_byte written in ground (arith, v.vec.within, v.vec.small)
  put_field_room (bytes s) h fits = put_bytes_room v s fits
  put_field_room (string s) h fits = put_string_room v s h (omega (arith, fits, length-encoded s))

  string_at :
      (s : List ℕ)
      → length s ≤ max_string_len
      → b.pos + length (encoded s) ≤ b.len
      → slice b.vec.mem b.pos (length (encoded s)) ≡ encoded s
      → (do s ← get_string; return (string s)) b ≡ (ok (string s), advanced (length (encoded s)) b)
  unfolding get_string
  string_at s h fits e =
      let four = length-big_endian 4 (length s) in
      let len = length-encoded s in
      let (front, back) = slice_parts b.vec.mem b.pos (big_endian 4 (length s)) s e in
      let front' : slice b.vec.mem b.pos 4 ≡ big_endian 4 (length s) =
        ap (slice b.vec.mem b.pos) (sym four) ∙ front in
      let back' : slice b.vec.mem (b.pos + 4) (length s) ≡ s =
        ap (λ k. slice b.vec.mem (b.pos + k) (length s)) (sym four) ∙ back in
      ground (
        arith,
        get_u32_room v,
        front',
        back',
        len,
        swap_bytes-load 4 (length s) (omega arith),
        get_bytes_room (advanced-IsValid v 4 (omega (arith, fits, len))) (length s),
      )

  get_field_at :
      (f : Field)
      → IsField f
      → b.pos + length (wire f) ≤ b.len
      → slice b.vec.mem b.pos (length (wire f)) ≡ wire f
      → get_field (kind f) b ≡ (ok f, advanced (length (wire f)) b)
  get_field_at (u32 n) h fits e =
      ground (arith, get_u32_room v, e, length-big_endian 4 n, swap_bytes-load 4 n, fits)
  get_field_at (u64 n) h fits e =
      ground (arith, get_u64_room v, e, length-big_endian 8 n, swap_bytes-load 8 n, fits)
  get_field_at (byte n) h fits e =
      let stored : get_or b.vec.mem b.pos 0 ≡ n =
        ap (λ i. get_or b.vec.mem i 0) (omega arith)
        ∙ sym (get_or-slice b.vec.mem b.pos 1 0 (omega arith))
        ∙ ap (λ l. get_or l 0 0) e in
      unfold get_byte in ground (arith, stored, v.vec.within, v.vec.small)
  get_field_at (bytes s) h fits e = ground (arith, get_bytes_room v (length s) fits, e)
  get_field_at (string s) h fits e = string_at s h fits e

splice-nil : (xs : List ℕ) (i : ℕ) → splice xs i [] ≡ xs
unfolding splice
splice-nil [] i = refl
splice-nil (x ∷ xs) zero = refl
splice-nil (x ∷ xs) (suc i) = ap (λ l. x ∷ l) (splice-nil xs i)

written-nil : {b : Buffer} → IsValid b → written [] b ≡ b
unfolding written
written-nil {b} v = ground (arith, splice-nil b.vec.mem b.pos, v.cursor)

put_message_room :
    (fs : List Field) {b : Buffer}
    → IsValid b
    → AllFields fs
    → b.pos + length (wires fs) ≤ b.vec.len
    → put_message fs b ≡ (ok tt, written (wires fs) b)
put_message_room [] {b} v h fits = ap (λ c. (ok tt, c)) (sym (written-nil v))
put_message_room (f ∷ fs) {b} v h fits =
    let len = length-append (wire f) (wires fs) in
    let here : b.pos + length (wire f) ≤ b.vec.len = omega (arith, fits, len) in
    let there =
      put_message_room fs (written-IsValid v (wire f) here) h.1
        (unfold written in omega (arith, fits, len)) in
    bind_ok (put_field f) (λ _. put_message fs) (put_field_room v f h.0 here)
    ∙ (there
        ∙ ap (λ c. (ok tt, c)) (written-written v (wire f) (wires fs) (omega (arith, fits, len))))

get_message_at :
    (fs : List Field) {b : Buffer}
    → IsValid b
    → AllFields fs
    → b.pos + length (wires fs) ≤ b.len
    → slice b.vec.mem b.pos (length (wires fs)) ≡ wires fs
    → get_message (map kind fs) b ≡ (ok fs, advanced (length (wires fs)) b)
get_message_at [] {b} v h fits e = ground arith
get_message_at (f ∷ fs) {b} v h fits e =
    let len = length-append (wire f) (wires fs) in
    let here : b.pos + length (wire f) ≤ b.len = omega (arith, fits, len) in
    let (front, back) = slice_parts b.vec.mem b.pos (wire f) (wires fs) e in
    let there =
      get_message_at fs (advanced-IsValid v (length (wire f)) here) h.1 (omega (arith, fits, len))
        back in
    bind_ok (get_field (kind f)) (λ g. do gs ← get_message (map kind fs); return (g ∷ gs))
      (get_field_at v f h.0 here front)
    ∙ bind_ok (get_message (map kind fs)) (λ gs. return (f ∷ gs)) there
    ∙ ap (λ k. (ok (f ∷ fs), record b { pos = k })) (omega (arith, len))

-- A message of u32, u64, byte, byte-string and string fields in range that fits a valid buffer is
-- read back field by field as it was written, and the cursor ends behind it.
pub get_message-put_message :
    (fs : List Field) {b : Buffer}
    → IsValid b
    → AllFields fs
    → b.pos + length (wires fs) ≤ b.vec.len
    → (do put_message fs; set_pos b.pos; get_message (map kind fs)) b
      ≡ (ok fs, written (wires fs) b)
unfolding written
get_message-put_message fs {b} v h fits =
    bind_ok (put_message fs) (λ _. do set_pos b.pos; get_message (map kind fs))
      (put_message_room fs v h fits)
    ∙ bind_ok (set_pos b.pos) (λ _. get_message (map kind fs)) (rewind v (wires fs) fits)
    ∙ get_message_at fs (rewound-IsValid v (wires fs) fits) h (omega arith)
        (reread v (wires fs) fits)
