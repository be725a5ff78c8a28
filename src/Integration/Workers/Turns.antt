-- ===== src/Integration/Workers/Turns.antt =====
-- tests/integration_tests.rs: how many turns each thread of a test has had.
use secbuf.Prelude.{
  ℕ, zero, suc, ◌+◌, ◌≤◌, ◌<◌, ◌≡◌, refl, sym, ap, ap₂, ◌∙◌, subst, min, List, [], ◌∷◌, ◌==◌,
  replicate, if◌then◌else◌, arith,
}

-- how often `i` stands in the order
abbrev pub count : ℕ → List ℕ → ℕ
count i [] = 0
count i (k ∷ order) = (if k == i then 1 else 0) + count i order

module _ (most : ℕ) where
  -- one turn more at place `k`, `most` at most
  abbrev pub bump : ℕ → List ℕ → List ℕ
  bump k [] = []
  bump zero (t ∷ ts) = min most (t + 1) ∷ ts
  bump (suc k) (t ∷ ts) = t ∷ bump k ts

  abbrev pub bumps : List ℕ → List ℕ → List ℕ
  bumps [] ts = ts
  bumps (k ∷ order) ts = bumps order (bump k ts)

  -- what the order adds to the turns of thread `i` and those after it
  abbrev adds : List ℕ → ℕ → List ℕ → List ℕ
  adds order i [] = []
  adds order i (t ∷ ts) = min most (t + count i order) ∷ adds order (i + 1) ts

  abbrev AllBounded : List ℕ → Type 0
  AllBounded [] = Unit {0}
  AllBounded (t ∷ ts) = (t ≤ most) × AllBounded ts

  adds_before : (k i : ℕ) (order ts : List ℕ) → k < i → adds (k ∷ order) i ts ≡ adds order i ts
  adds_before k i order [] lt = refl
  adds_before k i order (t ∷ ts) lt =
      ap₂ (λ x xs. x ∷ xs) same (adds_before k (i + 1) order ts (omega arith))
    where
      same : min most (t + count i (k ∷ order)) ≡ min most (t + count i order)
      same = ground arith

  adds-bump : (k i : ℕ) (order ts : List ℕ) → adds ((i + k) ∷ order) i ts ≡ adds order i (bump k ts)
  adds-bump k i order [] = refl
  adds-bump zero i order (t ∷ ts) =
      ap₂ (λ x xs. x ∷ xs) same (adds_before (i + 0) (i + 1) order ts (omega arith))
    where
      same : min most (t + count i ((i + 0) ∷ order)) ≡ min most (min most (t + 1) + count i order)
      same = ground arith
  adds-bump (suc k) i order (t ∷ ts) =
      ap₂ (λ x xs. x ∷ xs) same
        (ap (λ n. adds (n ∷ order) (i + 1) ts) next ∙ adds-bump k (i + 1) order ts)
    where
      same : min most (t + count i ((i + suc k) ∷ order)) ≡ min most (t + count i order)
      same = ground arith

      next : i + suc k ≡ i + 1 + k
      next = omega arith

  adds_none : (i : ℕ) (ts : List ℕ) → AllBounded ts → adds [] i ts ≡ ts
  adds_none i [] v = refl
  adds_none i (t ∷ ts) v = ap₂ (λ x xs. x ∷ xs) (omega (arith, v.0)) (adds_none (i + 1) ts v.1)

  bump-AllBounded : (k : ℕ) (ts : List ℕ) → AllBounded ts → AllBounded (bump k ts)
  bump-AllBounded k [] v = tt
  bump-AllBounded zero (t ∷ ts) v = (omega arith, v.1)
  bump-AllBounded (suc k) (t ∷ ts) v = (v.0, bump-AllBounded k ts v.1)

  bumps-eq-adds : (order ts : List ℕ) → AllBounded ts → bumps order ts ≡ adds order 0 ts
  bumps-eq-adds [] ts v = sym (adds_none 0 ts v)
  bumps-eq-adds (k ∷ order) ts v =
      bumps-eq-adds order (bump k ts) (bump-AllBounded k ts v)
      ∙ sym (adds-bump k 0 order ts)
      ∙ ap (λ j. adds (j ∷ order) 0 ts) (omega arith)

  adds_enough :
      (n i : ℕ) (order : List ℕ)
      → ((k : ℕ) → k < n → most ≤ count (i + k) order)
      → adds order i (replicate n 0) ≡ replicate n most
  adds_enough zero i order enough = refl
  adds_enough (suc n) i order enough =
      let first : most ≤ count i order =
        subst (λ j. most ≤ count j order) (omega arith) (enough 0 (omega arith)) in
      ap₂ (λ x xs. x ∷ xs) (omega arith)
        (adds_enough n (i + 1) order
          λ k lt. subst (λ j. most ≤ count j order) (omega arith) (enough (k + 1) (omega arith)))

  none_AllBounded : (n : ℕ) → AllBounded (replicate n 0)
  none_AllBounded zero = tt
  none_AllBounded (suc n) = (omega arith, none_AllBounded n)

  -- In an order with `most` turns for each of the first `n` threads, these get them.
  pub bumps_enough :
      (n : ℕ) (order : List ℕ)
      → ((k : ℕ) → k < n → most ≤ count k order)
      → bumps order (replicate n 0) ≡ replicate n most
  bumps_enough n order enough =
      bumps-eq-adds order (replicate n 0) (none_AllBounded n)
      ∙ adds_enough n 0 order λ k lt. subst (λ j. most ≤ count j order) (omega arith) (enough k lt)
