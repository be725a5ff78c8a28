-- ===== src/Buffer/Message/Decode.antt =====
-- src/buffer/ops.rs: reading a message from any bytes, and where the bytes of a field stand.
pub mod Gets
pub mod Whole
use secbuf.Prelude.{
  ℕ, zero, suc, ◌+◌, ◌^◌, ◌≤◌, ◌<◌, ◌≡◌, refl, sym, ap, ap₂, subst, ◌∙◌, inl, inr, true, false,
  List, [], ◌∷◌, ◌++◌, map, length, slice, take, drop, get_or, get_or-slice, length-slice, ltb,
  ltb→lt, ltb→le, Bool-cases, if◌then◌else◌, length-append, length-drop, arith,
}
use secbuf.Machine.{isize_max}
use secbuf.Error.{
  BufferError, buffer_overflow, invalid_string, Outcome, ok, err, panic, undefined, Method, ◌>>=◌,
  ◌>>◌, return, throw, bind_ok, bind_err,
}
use secbuf.Bytes.{load, swap_bytes}
use secbuf.Bytes.Order.{Bytes, big_endian, length-big_endian, big_endian-load}
use secbuf.Buffer.{Buffer}
use secbuf.Buffer.Valid.{IsValid}
use secbuf.Buffer.Access.{
  advanced, advanced-IsValid, get_bytes_room, get_bytes_short, get_u32_room, get_u32_short,
  get_u64_room, get_u64_short,
}
use secbuf.Buffer.Ops.{max_string_len, get_u32, get_u64, get_byte, get_bytes, get_string}
use secbuf.Buffer.Message.Codec.{drop-drop}
use secbuf.Buffer.Message.{
  Field, u32, u64, byte, bytes, string, Kind, a_u32, a_u64, a_byte, a_string, some_bytes, kind,
  IsField, AllFields, wire, wires, get_field, get_message,
}

-- A length that no allocation passes.
abbrev pub IsKind : Kind → Type 0
IsKind (some_bytes n) = n ≤ isize_max
IsKind _ = Unit {0}

abbrev pub AllKinds : List Kind → Type 0
AllKinds [] = Unit {0}
AllKinds (k ∷ ks) = IsKind k × AllKinds ks

-- The bytes of `w` lie at the cursor, within the valid ones.
abbrev pub StandsAt : List ℕ → Buffer → Type 0
StandsAt w b = (b.pos + length w ≤ b.len) × (slice b.vec.mem b.pos (length w) ≡ w)

-- What a get may come to: a value of the kind asked for, whose format is what stood at the cursor,
-- which is now behind it; or an error, and a valid buffer.
abbrev pub Decoded : Kind → Buffer → Outcome Field × Buffer → Type 0
Decoded k b (ok f, c) =
    (kind f ≡ k) × IsField f × StandsAt (wire f) b × (c ≡ advanced (length (wire f)) b)
Decoded k b (err e, c) = IsValid c
Decoded k b (panic, c) = ⊥
Decoded k b (undefined, c) = ⊥

pub Bytes-take : (n : ℕ) (xs : List ℕ) → Bytes xs → Bytes (take n xs)
Bytes-take zero xs h = tt
Bytes-take (suc n) [] h = tt
Bytes-take (suc n) (x ∷ xs) h = (h.0, Bytes-take n xs h.1)

pub Bytes-drop : (n : ℕ) (xs : List ℕ) → Bytes xs → Bytes (drop n xs)
Bytes-drop zero xs h = h
Bytes-drop (suc n) [] h = tt
Bytes-drop (suc n) (x ∷ xs) h = Bytes-drop n xs h.1

pub Bytes-slice : (xs : List ℕ) (i n : ℕ) → Bytes xs → Bytes (slice xs i n)
Bytes-slice xs i n h = Bytes-take n (drop i xs) (Bytes-drop i xs h)

pub Bytes-get_or : (xs : List ℕ) (i : ℕ) → Bytes xs → get_or xs i 0 < 256
Bytes-get_or [] i h = omega arith
Bytes-get_or (x ∷ xs) zero h = h.0
Bytes-get_or (x ∷ xs) (suc i) h = Bytes-get_or xs i h.1

pub stands :
    (w : List ℕ) (n : ℕ) (b : Buffer)
    → length w ≡ n
    → b.pos + n ≤ b.len
    → slice b.vec.mem b.pos n ≡ w
    → StandsAt w b × (advanced n b ≡ advanced (length w) b)
stands w n b e fits same =
    ((omega (arith, e, fits), ap (slice b.vec.mem b.pos) e ∙ same), ap (λ k. advanced k b) (sym e))

pub take_add :
    (n m : ℕ) (xs : List ℕ) → n + m ≤ length xs → take (n + m) xs ≡ take n xs ++ take m (drop n xs)
take_add zero m xs h = let e : 0 + m ≡ m = omega arith in ap (λ k. take k xs) e
take_add (suc n) m [] h = absurd (omega arith)
take_add (suc n) m (x ∷ xs) h =
    let e : suc n + m ≡ suc (n + m) = omega arith in
    ap (λ k. take k (x ∷ xs)) e ∙ ap (λ l. x ∷ l) (take_add n m xs (omega arith))

pub slice_add :
    (xs : List ℕ) (i n m : ℕ)
    → i + (n + m) ≤ length xs
    → slice xs i (n + m) ≡ slice xs i n ++ slice xs (i + n) m
slice_add xs i n m h =
    take_add n m (drop i xs) (omega (arith, length-drop i xs))
    ∙ ap (λ l. take n (drop i xs) ++ take m l) (drop-drop i n (i + n) xs refl)

-- Two parts that stand one behind the other are one.
pub both_stand :
    (w w' : List ℕ) (b : Buffer)
    → IsValid b
    → StandsAt w b
    → StandsAt w' (advanced (length w) b)
    → StandsAt (w ++ w') b
      × (advanced (length w') (advanced (length w) b) ≡ advanced (length (w ++ w')) b)
both_stand w w' b v (fits, same) (fits', same') =
    let len = length-append w w' in
    let sum : b.pos + length w + length w' ≡ b.pos + length (w ++ w') = omega (arith, len) in
    (
      (
        omega (arith, len, fits'),
        ap (slice b.vec.mem b.pos) len
            ∙ slice_add b.vec.mem b.pos (length w) (length w')
                (omega (arith, fits', v.vec.within, v.filled))
            ∙ ap₂ (λ x y. x ++ y) same same',
      ),
      ap (λ (k : ℕ). record b { pos = k }) sum,
    )

pub slice_one : (xs : List ℕ) (i : ℕ) → i < length xs → slice xs i 1 ≡ get_or xs i 0 ∷ []
slice_one [] i h = absurd (omega arith)
slice_one (x ∷ xs) zero h = refl
slice_one (x ∷ xs) (suc i) h = slice_one xs i (omega arith)

-- The same for a message.
abbrev pub DecodedAll : List Kind → Buffer → Outcome (List Field) × Buffer → Type 0
DecodedAll ks b (ok fs, c) =
    (map kind fs ≡ ks) × AllFields fs × StandsAt (wires fs) b × (c ≡ advanced (length (wires fs)) b)
DecodedAll ks b (err e, c) = IsValid c
DecodedAll ks b (panic, c) = ⊥
DecodedAll ks b (undefined, c) = ⊥
