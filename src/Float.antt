-- ===== src/Float.antt =====
-- Arithmetic of `f64` as the statistics of the pools use it: values from 0 up that do not overflow, with
-- a significand of 53 bits, rounded to the nearest and, between two, to the even one.
pub mod Exact
use native.Mathlib.Nat.{
  div-le_of_le-mul, mul-le-mul_right, div-add-mod, mul_comm, mul_right_comm, mul_assoc, mul-pos,
}
use secbuf.Prelude.{
  ℕ, zero, suc, ◌+◌, ◌*◌, ◌/◌, ◌%◌, ◌^◌, ◌≤◌, ◌<◌, ◌≡◌, refl, sym, ap, subst, ◌∙◌, Bool, Bool-cases,
  inl, inr, ltb, lt→ltb, ltb→lt, ltb→le, true, if◌then◌else◌, arith,
}

-- the value `num / den`
pub record F64 : Type 0 where
  pub num : ℕ
  pub den : ℕ

abbrev pub literal : ℕ → F64
literal n = record { num = n; den = 1 }

-- the whole number nearest to `n / d`
unfoldable pub nearest : ℕ → ℕ → ℕ
nearest n d =
    if ltb (n % d * 2) d then n / d else if ltb d (n % d * 2) then n / d + 1 else n / d + n / d % 2

-- `d` doubled until `n / d` has 53 bits at most, and the power of two that it grew by
unfoldable pub coarser : ℕ → ℕ → ℕ → ℕ → ℕ × ℕ
coarser zero n d u = (d, u)
coarser (suc fuel) n d u =
    let more = coarser fuel n (d * 2) (u * 2) in if ltb (n / d) (2 ^ 53) then (d, u) else more

-- `n` doubled while `n / d` has fewer, and the power of two that it grew by
unfoldable pub finer : ℕ → ℕ → ℕ → ℕ → ℕ × ℕ
finer zero n d w = (n, w)
finer (suc fuel) n d w =
    let more = finer fuel (n * 2) d (w * 2) in if ltb (n * 2 / d) (2 ^ 53) then more else (n, w)

-- `n / d` rounded: the exponent goes from -1074 to 971.
unfoldable pub round : ℕ → ℕ → F64
round n d =
    let (d', u) = coarser 971 n d 1 in
    let (n', w) = finer 1074 n d' 1 in record { num = nearest n' d' * u; den = w }

-- `n as f64`, `a / b`, `a * b` and `a > b`
unfoldable pub of_nat : ℕ → F64
of_nat n = round n 1

unfoldable pub divided : F64 → F64 → F64
divided a b = round (a.num * b.den) (a.den * b.num)

unfoldable pub times : F64 → F64 → F64
times a b = round (a.num * b.num) (a.den * b.den)

unfoldable pub greater : F64 → F64 → Bool
greater a b = ltb (b.num * a.den) (a.num * b.den)

nearest_le : (n d most : ℕ) → 0 < d → n ≤ most * d → nearest n d ≤ most
unfolding nearest
nearest_le n d most some h =
    let few : n / d ≤ most = div-le_of_le-mul d (subst (λ k. n ≤ k) (mul_comm most d) h) in
    elim (Bool-cases (ltb (n / d) most)) [
      | inl less ↦ ground (arith, ltb→lt (n / d) most less)
      | inr even ↦
          let same : n / d ≡ most = omega (arith, few, ltb→le (n / d) most even) in
          let parts : d * most + n % d ≡ n = ap (λ k. d * k + n % d) (sym same) ∙ div-add-mod n d in
          let none_left : n % d ≡ 0 = omega (arith, parts, h, mul_comm most d) in
          ground (arith, same, none_left)
    ]

pub finer_lem :
    (fuel n d w : ℕ)
    → (k : ℕ) × (0 < k) × ((finer fuel n d w).0 ≡ n * k) × ((finer fuel n d w).1 ≡ w * k)
unfolding finer
finer_lem zero n d w = (1, omega arith, omega arith, omega arith)
finer_lem (suc fuel) n d w = elim (Bool-cases (ltb (n * 2 / d) (2 ^ 53))) [
  | inl e ↦
      let (k, some, top, bottom) = finer_lem fuel (n * 2) d (w * 2) in
      rw (finer, e) (k * 2, omega arith, top ∙ grind arith, bottom ∙ grind arith)
  | inr e ↦ rw (finer, e) (1, omega arith, omega arith, omega arith)
]

coarser_small : (fuel n d u : ℕ) → ltb (n / d) (2 ^ 53) ≡ true → coarser (suc fuel) n d u ≡ (d, u)
unfolding coarser
coarser_small fuel n d u e = rw (coarser, e) refl

-- What has 53 bits at most is only made finer.
pub round_small :
    (n d : ℕ)
    → n / d < 2 ^ 53
    → round n d ≡ record { num = nearest (finer 1074 n d 1).0 d * 1; den = (finer 1074 n d 1).1 }
unfolding round
round_small n d small = rw (round, coarser_small 970 n d 1 (lt→ltb (n / d) (2 ^ 53) small)) refl

-- A quotient within a whole number of 53 bits is rounded to a value within it.
pub round_lem :
    (n d most : ℕ)
    → 0 < d
    → most < 2 ^ 53
    → n ≤ most * d
    → ((round n d).num ≤ most * (round n d).den) × (0 < (round n d).den)
round_lem n d most some small h =
    let few : n / d ≤ most = div-le_of_le-mul d (subst (λ k. n ≤ k) (mul_comm most d) h) in
    let (k, pos, top, bottom) = finer_lem 1074 n d 1 in
    let scaled : n * k ≤ most * k * d =
      subst (λ x. n * k ≤ x) (mul_right_comm most d k) (mul-le-mul_right k h) in
    let near : nearest (n * k) d ≤ most * k = nearest_le (n * k) d (most * k) some scaled in
    let one : 1 * k ≡ k = omega arith in
    subst (λ (r : F64). (r.num ≤ most * r.den) × (0 < r.den))
      (sym (round_small n d (omega (arith, few, small))))
      (rw (top, bottom, one) (omega (arith, near), pos))

-- A number of 53 bits at most is a float.
pub of_nat_lem : (n : ℕ) → n < 2 ^ 53 → ((of_nat n).num ≡ n * (of_nat n).den) × (0 < (of_nat n).den)
unfolding of_nat
of_nat_lem n small =
    let (k, pos, top, bottom) = finer_lem 1074 n 1 1 in
    let one : 1 * k ≡ k = omega arith in
    let near : nearest (n * k) 1 ≡ n * k = unfold nearest in ground arith in
    subst (λ (r : F64). (r.num ≡ n * r.den) × (0 < r.den))
      (sym (round_small n 1 (omega (arith, small))))
      (rw (top, bottom, one) (omega (arith, near), pos))

-- a value from 0 to 100
abbrev pub IsPercentage : F64 → Type 0
IsPercentage x = (x.num ≤ 100 * x.den) × (0 < x.den)

-- `(part as f64 / whole as f64) * 100.0`
abbrev pub percentage : ℕ → ℕ → F64
percentage part whole = times (divided (of_nat part) (of_nat whole)) (literal 100)

ratio_le : (part whole u v : ℕ) → part ≤ whole → part * u * v ≤ 1 * (u * (whole * v))
ratio_le part whole u v le =
    let most : part * u * v ≤ whole * u * v = mul-le-mul_right v (mul-le-mul_right u le) in
    let same : whole * u * v ≡ u * (whole * v) =
      ap (λ k. k * v) (mul_comm whole u) ∙ mul_assoc u whole v in
    omega (arith, most, same)

-- A part over the whole is 1 at most.
divided_lem :
    (part whole : ℕ) (a b : F64)
    → part ≤ whole
    → 0 < whole
    → (a.num ≡ part * a.den) × (0 < a.den)
    → (b.num ≡ whole * b.den) × (0 < b.den)
    → ((divided a b).num ≤ 1 * (divided a b).den) × (0 < (divided a b).den)
unfolding divided
divided_lem part whole a b le some (p, p_den) (w, w_den) =
    rw (p, w)
      (round_lem (part * a.den * b.den) (a.den * (whole * b.den)) 1
        (mul-pos p_den (mul-pos some w_den)) (omega arith) (ratio_le part whole a.den b.den le))

pub percentage-IsPercentage :
    (part whole : ℕ)
    → part ≤ whole
    → 0 < whole
    → whole < 2 ^ 53
    → IsPercentage (percentage part whole)
unfolding times
percentage-IsPercentage part whole le some small =
    let q = divided (of_nat part) (of_nat whole) in
    let (most, pos) =
      divided_lem part whole (of_nat part) (of_nat whole) le some
        (of_nat_lem part (omega (arith, le, small))) (of_nat_lem whole small) in
    round_lem (q.num * 100) (q.den * 1) 100 (omega (arith, pos)) (omega arith) (omega (arith, most))
