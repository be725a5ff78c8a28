-- ===== src/Bits/Mask.antt =====
-- A mask of `k` ones is the remainder by `2 ^ k`, and `is_power_of_two` finds the powers of two.
use Prim.Native.Nat.{bit_and, digits, bit_and-bitwise}
use native.Mathlib.Nat.{pow-suc, mod-eq_of_lt, mod-lt, div-add-mod, mul-add-mod_self_left}
use native.Mathlib.Decide.{dec_lt}
use secbuf.Prelude.{
  ℕ, zero, suc, ◌+◌, ◌-◌, ◌*◌, ◌/◌, ◌%◌, ◌^◌, ◌≤◌, ◌<◌, ◌≡◌, refl, ap, ◌∙◌, min, true, ==_iff,
  arith,
}
use secbuf.Bits.{count_ones, is_power_of_two}

-- The digits do not depend on the fuel, once there is enough.
and_fuel :
    (n m a b : ℕ) → a ≤ n → a ≤ m → digits (λ d. zero) min n a b ≡ digits (λ d. zero) min m a b
and_fuel zero zero a b p q = refl
and_fuel zero (suc m) zero b p q = refl
and_fuel zero (suc m) (suc a) b p q = absurd (omega arith)
and_fuel (suc n) zero zero b p q = refl
and_fuel (suc n) zero (suc a) b p q = absurd (omega arith)
and_fuel (suc n) (suc m) zero b p q = refl
and_fuel (suc n) (suc m) (suc a) b p q =
    omega (arith, and_fuel n m (suc a / 2) (b / 2) (omega arith) (omega arith))

-- The lowest bit, and the rest.
bit_and-halves : (a b : ℕ) → bit_and a b ≡ 2 * bit_and (a / 2) (b / 2) + min (a % 2) (b % 2)
bit_and-halves zero b = omega (arith, bit_and-bitwise 0 b, bit_and-bitwise 0 (b / 2))
bit_and-halves (suc a) b = omega (
  arith,
  bit_and-bitwise (suc a) b,
  bit_and-bitwise (suc a / 2) (b / 2),
  and_fuel a (suc a / 2) (suc a / 2) (b / 2) (omega arith) (omega arith),
)

bit_and-none : (n a : ℕ) → a ≤ n → bit_and a 0 ≡ 0
bit_and-none n zero h = refl
bit_and-none zero (suc a) h = absurd (omega arith)
bit_and-none (suc n) (suc a) h =
    omega (arith, bit_and-halves (suc a) 0, bit_and-none n (suc a / 2) (omega arith))

-- The remainder by twice a number, from the halves.
mod-double : (x m : ℕ) → 0 < m → x % (m * 2) ≡ 2 * ((x / 2) % m) + x % 2
mod-double x m h =
    ap (λ k. k % (m * 2)) (omega (arith, div-add-mod (x / 2) m))
    ∙ mul-add-mod_self_left (m * 2) (x / 2 / m) (2 * (x / 2 % m) + x % 2)
    ∙ mod-eq_of_lt (omega (arith, mod-lt (x / 2) h))

two_pow_pos : (k : ℕ) → 0 < 2 ^ k
two_pow_pos zero = omega arith
two_pow_pos (suc k) = omega (arith, two_pow_pos k, pow-suc 2 k)

mask_double : (m x : ℕ) → bit_and x (2 * m + 1) ≡ 2 * bit_and (x / 2) m + x % 2
mask_double m x = omega (arith, bit_and-halves x (2 * m + 1), ap (bit_and (x / 2)) half)
  where
    half : (2 * m + 1) / 2 ≡ m
    half = omega arith

-- `x & (2^k - 1)` is `x % 2^k`.
pub bit_and-mask : (k x : ℕ) → bit_and x (2 ^ k - 1) ≡ x % 2 ^ k
bit_and-mask zero x = omega (arith, bit_and-none x x (omega arith))
bit_and-mask (suc k) x =
    ap (bit_and x) mask
    ∙ omega (
      arith,
      mask_double (2 ^ k - 1) x,
      bit_and-mask k (x / 2),
      ap (λ p. x % p) (pow-suc 2 k),
      mod-double x (2 ^ k) (two_pow_pos k),
    )
  where
    mask : 2 ^ suc k - 1 ≡ 2 * (2 ^ k - 1) + 1
    mask = omega (arith, two_pow_pos k, pow-suc 2 k)

-- No ones: the number is zero.
count_ones-zero : (bits n : ℕ) → n < 2 ^ bits → count_ones bits n ≡ 0 → n ≡ 0
unfolding count_ones
count_ones-zero zero n h e = omega arith
count_ones-zero (suc bits) n h e =
    omega (arith, count_ones-zero bits (n / 2) (omega (arith, pow-suc 2 bits)) (omega arith))

-- One one: the number is a power of two.
count_ones-one : (bits n : ℕ) → n < 2 ^ bits → count_ones bits n ≡ 1 → (k : ℕ) × (n ≡ 2 ^ k)
unfolding count_ones
count_ones-one zero n h e = absurd (omega arith)
count_ones-one (suc bits) n h e = elim (dec_lt 0 (n % 2)) [
  | yes odd ↦
      (0, omega (arith, count_ones-zero bits (n / 2) (omega (arith, pow-suc 2 bits)) (omega arith)))
  | no even ↦
      let (k, e') = count_ones-one bits (n / 2) (omega (arith, pow-suc 2 bits)) (omega arith) in
      (suc k, omega (arith, pow-suc 2 k))
]

-- A `usize` with one bit set is a power of two.
pub is_power_of_two_sound : (n : ℕ) → n < 2 ^ 64 → is_power_of_two n ≡ true → (k : ℕ) × (n ≡ 2 ^ k)
unfolding is_power_of_two
is_power_of_two_sound n h e = count_ones-one 64 n h ((==_iff _ _).0 e)
