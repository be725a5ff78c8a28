-- ===== src/Bytes/Order.antt =====
-- Byte order: what lies in memory is the big-endian form, and a load takes it back.
use mathlib.Core.List.{reverse, reverse-reverse, reverse-cons}
use native.Mathlib.Nat.{pow-suc}
use secbuf.Prelude.{
  ℕ, zero, suc, ◌+◌, ◌*◌, ◌/◌, ◌%◌, ◌^◌, ◌<◌, ◌≡◌, refl, sym, ap, subst, ◌∙◌, List, [], ◌∷◌, ◌++◌,
  length, length-append, arith,
}
use secbuf.Bytes.{store, load, swap_bytes}

-- The big-endian form of a value of `n` bytes: the high byte first.
unfoldable pub big_endian : ℕ → ℕ → List ℕ
big_endian zero v = []
big_endian (suc n) v = big_endian n (v / 256) ++ (v % 256 ∷ [])

-- Every byte is below 256.
abbrev pub Bytes : List ℕ → Type 0
Bytes [] = Unit {0}
Bytes (b ∷ bs) = (b < 256) × Bytes bs

length-store : (n v : ℕ) → length (store n v) ≡ n
unfolding store
length-store zero v = refl
length-store (suc n) v = ap suc (length-store n (v / 256))

store-Bytes : (n v : ℕ) → Bytes (store n v)
unfolding store
store-Bytes zero v = tt
store-Bytes (suc n) v = (omega arith, store-Bytes n (v / 256))

Bytes-append : (xs ys : List ℕ) → Bytes xs → Bytes ys → Bytes (xs ++ ys)
Bytes-append [] ys p q = q
Bytes-append (x ∷ xs) ys p q = (p.0, Bytes-append xs ys p.1 q)

reverse-Bytes : (xs : List ℕ) → Bytes xs → Bytes (reverse xs)
reverse-Bytes [] p = tt
reverse-Bytes (x ∷ xs) p =
    rw (reverse-cons x xs) (Bytes-append (reverse xs) (x ∷ []) (reverse-Bytes xs p.1) (p.0, tt))

length-reverse : (xs : List ℕ) → length (reverse xs) ≡ length xs
length-reverse [] = refl
length-reverse (x ∷ xs) =
    omega
      (arith, ap length (reverse-cons x xs), length-append (reverse xs) (x ∷ []), length-reverse xs)

-- A store of a loaded value gives its bytes back.
store-load : (n : ℕ) (bs : List ℕ) → Bytes bs → length bs ≡ n → store n (load bs) ≡ bs
unfolding store load
store-load zero [] p e = refl
store-load zero (b ∷ bs) p e = absurd (omega arith)
store-load (suc n) [] p e = absurd (omega arith)
store-load (suc n) (b ∷ bs) p e = rw (rest, low, store-load n bs p.1 (omega arith)) refl
  where
    rest : (b + 256 * load bs) / 256 ≡ load bs
    rest = omega arith

    low : (b + 256 * load bs) % 256 ≡ b
    low = omega arith

-- A load of what a store left is the value, if that fits.
load-store : (n v : ℕ) → v < 256 ^ n → load (store n v) ≡ v
unfolding store load
load-store zero v h = omega arith
load-store (suc n) v h = omega (arith, load-store n (v / 256) (omega (arith, pow-suc 256 n)))

reverse-store : (n v : ℕ) → reverse (store n v) ≡ big_endian n v
unfolding store big_endian
reverse-store zero v = refl
reverse-store (suc n) v =
    reverse-cons (v % 256) (store n (v / 256))
    ∙ ap (λ l. l ++ (v % 256 ∷ [])) (reverse-store n (v / 256))

length-reverse-store : (n v : ℕ) → length (reverse (store n v)) ≡ n
length-reverse-store n v = omega (arith, length-reverse (store n v), length-store n v)

pub length-big_endian : (n v : ℕ) → length (big_endian n v) ≡ n
length-big_endian n v = omega (arith, ap length (reverse-store n v), length-reverse-store n v)

-- `write_unaligned(v.to_be())` leaves the big-endian form in memory.
pub store-swap_bytes : (n v : ℕ) → store n (swap_bytes n v) ≡ big_endian n v
unfolding swap_bytes
store-swap_bytes n v =
    store-load n (reverse (store n v)) (reverse-Bytes _ (store-Bytes n v))
      (length-reverse-store n v)
    ∙ reverse-store n v

-- `from_be(read_unaligned())` of the big-endian form is the value, if that fits.
pub swap_bytes-load : (n v : ℕ) → v < 256 ^ n → swap_bytes n (load (big_endian n v)) ≡ v
unfolding swap_bytes
swap_bytes-load n v h =
    rw
      (
        ← reverse-store n v,
        store-load n (reverse (store n v)) (reverse-Bytes _ (store-Bytes n v))
            (length-reverse-store n v),
        reverse-reverse,
      )
      (load-store n v h)

load-lt : (bs : List ℕ) → Bytes bs → load bs < 256 ^ length bs
unfolding load
load-lt [] p = omega arith
load-lt (b ∷ bs) p = omega (arith, p.0, load-lt bs p.1, pow-suc 256 (length bs))

-- What `from_be(read_unaligned())` makes of any `n` bytes is a value of `n` bytes, and they are its
-- big-endian form.
pub big_endian-load :
    (n : ℕ) (bs : List ℕ)
    → Bytes bs
    → length bs ≡ n
    → (big_endian n (swap_bytes n (load bs)) ≡ bs) × (swap_bytes n (load bs) < 256 ^ n)
unfolding swap_bytes
big_endian-load n bs p e =
    let r = reverse-Bytes bs p in
    let len : length (reverse bs) ≡ n = omega (arith, length-reverse bs) in
    rw (store-load n bs p e) (
      sym (reverse-store n (load (reverse bs)))
          ∙ ap reverse (store-load n (reverse bs) r len)
          ∙ reverse-reverse bs,
      subst (λ k. load (reverse bs) < 256 ^ k) len (load-lt (reverse bs) r),
    )
