-- ===== src/Prelude/Slices.antt =====
-- Ranges of a list of bytes: `slice` reads one, `splice` overwrites one.
use Prim.Native.Nat.{ℕ, zero, suc, ◌+◌, ◌-◌, ◌≤◌, ◌<◌, max}
use mathlib.Core.Path.{◌≡◌, refl, ap}
use mathlib.Core.Bool.{◌&&◌}
use mathlib.Core.Logic.{◌⊎◌}
use mathlib.Core.List.{List, [], ◌∷◌, ◌++◌}
use native.Mathlib.Omega.{arith}
use secbuf.Prelude.Tests.{ltb, leb, if◌then◌else◌}
use secbuf.Prelude.Lists.{
  length, get_or, take, drop, length-take, length-drop, length-append, get_or-take, get_or-drop,
  get_or_ext, get_or-append_left, get_or-append_right, get_or-past,
}

-- the `n` bytes from index `i` on
abbrev pub slice : List ℕ → ℕ → ℕ → List ℕ
slice xs i n = take n (drop i xs)

-- `bs` written over the bytes from index `i` on; what would pass the end is lost
unfoldable pub splice : List ℕ → ℕ → List ℕ → List ℕ
splice [] i bs = []
splice (x ∷ xs) zero [] = x ∷ xs
splice (x ∷ xs) zero (b ∷ bs) = b ∷ splice xs zero bs
splice (x ∷ xs) (suc i) bs = x ∷ splice xs i bs

pub splice-none : (xs : List ℕ) → splice xs 0 [] ≡ xs
unfolding splice
splice-none [] = refl
splice-none (x ∷ xs) = refl

pub length-splice : (xs : List ℕ) (i : ℕ) (bs : List ℕ) → length (splice xs i bs) ≡ length xs
unfolding splice
length-splice [] i bs = refl
length-splice (x ∷ xs) zero [] = refl
length-splice (x ∷ xs) zero (b ∷ bs) = ap suc (length-splice xs zero bs)
length-splice (x ∷ xs) (suc i) bs = ap suc (length-splice xs i bs)

-- A byte after the write: the written one inside the range, the old one outside it.
pub get_or-splice :
    (xs : List ℕ) (i : ℕ) (bs : List ℕ) (j : ℕ)
    → i + length bs ≤ length xs
    → get_or (splice xs i bs) j 0
      ≡ (if leb i j && ltb j (i + length bs) then get_or bs (j - i) 0 else get_or xs j 0)
unfolding splice
get_or-splice [] zero [] j h = ground arith
get_or-splice [] (suc i) bs j h = absurd (omega arith)
get_or-splice [] zero (b ∷ bs) j h = absurd (omega arith)
get_or-splice (x ∷ xs) zero [] j h = ground arith
get_or-splice (x ∷ xs) zero (b ∷ bs) zero h = ground arith
get_or-splice (x ∷ xs) zero (b ∷ bs) (suc j) h =
    ground (arith, get_or-splice xs zero bs j (omega arith))
get_or-splice (x ∷ xs) (suc i) bs zero h = ground arith
get_or-splice (x ∷ xs) (suc i) bs (suc j) h = ground (arith, get_or-splice xs i bs j (omega arith))

pub length-slice : (xs : List ℕ) (i n : ℕ) → i + n ≤ length xs → length (slice xs i n) ≡ n
length-slice xs i n h = omega (arith, length-take n (drop i xs), length-drop i xs)

pub get_or-slice :
    (xs : List ℕ) (i n j : ℕ) → j < n → get_or (slice xs i n) j 0 ≡ get_or xs (i + j) 0
get_or-slice xs i n j h = rw (get_or-take n (drop i xs) j 0 h) (get_or-drop i xs j 0)

-- A read of the range that was written gives what was written.
pub slice-splice_same :
    (xs : List ℕ) (i : ℕ) (bs : List ℕ)
    → i + length bs ≤ length xs
    → slice (splice xs i bs) i (length bs) ≡ bs
slice-splice_same xs i bs h = get_or_ext 0 _ bs len λ j p.
    ground
      (arith, len, get_or-slice (splice xs i bs) i (length bs) j, get_or-splice xs i bs (i + j) h)
  where
    len : length (slice (splice xs i bs) i (length bs)) ≡ length bs
    len = length-slice (splice xs i bs) i (length bs) (omega (arith, length-splice xs i bs))

-- A read of a range that the write does not touch gives what stood there.
pub slice-splice_apart :
    (xs : List ℕ) (i : ℕ) (bs : List ℕ) (j n : ℕ)
    → i + length bs ≤ length xs
    → (j + n ≤ i) ⊎ (i + length bs ≤ j)
    → j + n ≤ length xs
    → slice (splice xs i bs) j n ≡ slice xs j n
slice-splice_apart xs i bs j n h apart r = get_or_ext 0 _ _ (omega (arith, len, len')) λ k p.
    ground (
      arith,
      len,
      get_or-slice (splice xs i bs) j n k,
      get_or-slice xs j n k,
      get_or-splice xs i bs (j + k) h,
    )
  where
    len : length (slice (splice xs i bs) j n) ≡ n
    len = length-slice (splice xs i bs) j n (omega (arith, length-splice xs i bs))

    len' : length (slice xs j n) ≡ n
    len' = length-slice xs j n r

-- Two writes side by side are one write.
pub splice-splice :
    (xs : List ℕ) (i : ℕ) (ys bs : List ℕ)
    → i + (length ys + length bs) ≤ length xs
    → splice (splice xs i ys) (i + length ys) bs ≡ splice xs i (ys ++ bs)
splice-splice xs i ys bs h =
    get_or_ext 0 _ _
      (omega (
        arith,
        length-splice (splice xs i ys) (i + length ys) bs,
        length-splice xs i ys,
        length-splice xs i (ys ++ bs),
      ))
      λ j p. ground (
        arith,
        length-append ys bs,
        get_or-splice (splice xs i ys) (i + length ys) bs j (omega (arith, length-splice xs i ys)),
        get_or-splice xs i ys j,
        get_or-splice xs i (ys ++ bs) j,
        get_or-append_left ys bs (j - i) 0,
        get_or-append_right ys bs (j - i) 0,
      )

-- What a write at `p ≤ n` leaves of the first `n` bytes, which it lengthens if it passes them.
pub take-splice :
    (xs : List ℕ) (p n : ℕ) (bs : List ℕ)
    → p ≤ n
    → n ≤ length xs
    → p + length bs ≤ length xs
    → take (max n (p + length bs)) (splice xs p bs)
      ≡ take p (take n xs) ++ (bs ++ drop (p + length bs) (take n xs))
take-splice xs p n bs hp hn h = get_or_ext 0 _ _ (omega (arith, lens)) λ j q. ground (
  arith,
  lens,
  get_or-take (max n (p + length bs)) (splice xs p bs) j 0,
  get_or-splice xs p bs j h,
  get_or-append_left (take p old) (bs ++ drop (p + length bs) old) j 0,
  get_or-append_right (take p old) (bs ++ drop (p + length bs) old) j 0,
  get_or-append_left bs (drop (p + length bs) old) (j - p) 0,
  get_or-append_right bs (drop (p + length bs) old) (j - p) 0,
  get_or-drop (p + length bs) old (j - p - length bs) 0,
  get_or-take p old j 0,
  get_or-take n xs j 0,
  get_or-past old j 0,
)
  where
    old : List ℕ
    old = take n xs

    lens :
        (length (take (max n (p + length bs)) (splice xs p bs)) ≡ max n (p + length bs))
        × (length (take p old) ≡ p)
        × (length old ≡ n)
        × (length (bs ++ drop (p + length bs) old) ≡ length bs + (n - (p + length bs)))
        × (length (take p old ++ (bs ++ drop (p + length bs) old)) ≡ max n (p + length bs))
    lens = omega (
      arith,
      length-take (max n (p + length bs)) (splice xs p bs),
      length-splice xs p bs,
      length-take n xs,
      length-take p old,
      length-drop (p + length bs) old,
      length-append bs (drop (p + length bs) old),
      length-append (take p old) (bs ++ drop (p + length bs) old),
    )

-- A range inside the first `m` bytes may be read from those alone.
pub slice-take :
    (xs : List ℕ) (m i n : ℕ) → i + n ≤ m → m ≤ length xs → slice (take m xs) i n ≡ slice xs i n
slice-take xs m i n h r = get_or_ext 0 _ _ (omega (arith, len, len')) λ j p.
    ground (
      arith,
      len,
      get_or-slice (take m xs) i n j,
      get_or-slice xs i n j,
      get_or-take m xs (i + j) 0,
    )
  where
    len : length (slice (take m xs) i n) ≡ n
    len = length-slice (take m xs) i n (omega (arith, length-take m xs))

    len' : length (slice xs i n) ≡ n
    len' = length-slice xs i n (omega arith)
