-- ===== src/Float/Exact.antt =====
-- `f64`: a quotient that is a whole number of 53 bits is not changed by the rounding.
use native.Mathlib.Nat.{mul-div_left, mul-mod_left, mul_right_comm, mul_comm, mul-pos}
use secbuf.Prelude.{ℕ, ◌*◌, ◌^◌, ◌<◌, ◌≡◌, sym, ap, subst, ◌∙◌, arith}
use secbuf.Float.{
  F64, nearest, finer_lem, round, round_small, of_nat, of_nat_lem, divided, times, percentage,
}

-- the float is the whole number `n`
abbrev pub Is : ℕ → F64 → Type 0
Is n x = (x.num ≡ n * x.den) × (0 < x.den)

nearest_exact : (m d : ℕ) → 0 < d → nearest (m * d) d ≡ m
unfolding nearest
nearest_exact m d pos = ground (arith, mul-div_left m pos, mul-mod_left m d)

round_exact : (m d : ℕ) → 0 < d → m < 2 ^ 53 → Is m (round (m * d) d)
round_exact m d pos small =
    let (k, some, top, bottom) = finer_lem 1074 (m * d) d 1 in
    let one : 1 * k ≡ k = omega arith in
    let near : nearest (m * d * k) d ≡ m * k =
      ap (λ x. nearest x d) (mul_right_comm m d k) ∙ nearest_exact (m * k) d pos in
    subst (λ (r : F64). Is m r) (sym (round_small (m * d) d (omega (arith, mul-div_left m pos))))
      (rw (top, bottom, one) (omega (arith, near), some))

-- All of the whole is 100 percent.
pub percentage_all : (n : ℕ) → 0 < n → n < 2 ^ 53 → Is 100 (percentage n n)
unfolding divided times
percentage_all n some small =
    let a = of_nat n in
    let (e, pos) = of_nat_lem n small in
    let same : a.num * a.den ≡ 1 * (a.den * a.num) = omega (arith, mul_comm a.num a.den) in
    let top : 0 < a.num = subst (λ k. 0 < k) (sym e) (mul-pos some pos) in
    let one : Is 1 (divided a a) =
      subst (λ k. Is 1 (round k (a.den * a.num))) (sym same)
        (round_exact 1 (a.den * a.num) (mul-pos pos top) (omega arith)) in
    let q = divided a a in
    let scaled : q.num * 100 ≡ 100 * (q.den * 1) = omega (arith, one.0) in
    subst (λ k. Is 100 (round k (q.den * 1))) (sym scaled)
      (round_exact 100 (q.den * 1) (omega (arith, one.1)) (omega arith))
