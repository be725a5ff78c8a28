-- ===== src/Assert.antt =====
-- What the unit tests of the repository are written with: `assert!`, `assert_eq!` and `unwrap`.
use secbuf.Prelude.{ℕ, Bool, true, false, ◌&&◌, List, [], ◌∷◌, ◌==◌, if◌then◌else◌}
use secbuf.Error.{Outcome, ok, err, panic, undefined, Method}

-- `assert!(b)`
abbrev pub check : {S : Type 0} → Bool → Method S (Unit {0})
check b s = if b then (ok tt, s) else (panic, s)

-- `unwrap` of what a method returns
abbrev pub unwrap : {S A : Type 0} → Method S A → Method S A
unwrap m s =
    let (r, t) = m s in
    elim r [
      | ok a ↦ (ok a, t)
      | err e ↦ (panic, t)
      | panic ↦ (panic, t)
      | undefined ↦ (undefined, t)
    ]

-- what a test reads of its variable, and a call on it without a result
abbrev pub look : {S : Type 0} → Method S S
look s = (ok s, s)

abbrev pub update : {S : Type 0} → (S → S) → Method S (Unit {0})
update f s = (ok tt, f s)

-- a test of one variable, from the call that makes it
abbrev pub test_of : {S : Type 0} → Outcome S → Method S (Unit {0}) → Outcome (Unit {0})
test_of (ok s) body = (body s).0
test_of (err e) body = err e
test_of panic body = panic
test_of undefined body = undefined

-- the comparison of `assert_eq!` on bytes
abbrev pub same_bytes : List ℕ → List ℕ → Bool
same_bytes [] [] = true
same_bytes [] (y ∷ ys) = false
same_bytes (x ∷ xs) [] = false
same_bytes (x ∷ xs) (y ∷ ys) = (x == y) && same_bytes xs ys
