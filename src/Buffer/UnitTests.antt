-- ===== src/Buffer/UnitTests.antt =====
-- src/buffer/core.rs: the unit tests, on the model.
use secbuf.Prelude.{ℕ, ◌+◌, List, [], ◌∷◌, ◌≡◌, refl, length, replicate, splice, leb, ◌==◌}
use secbuf.Error.{Outcome, ok, err, panic, undefined, Method, ◌>>=◌, ◌>>◌, lift}
use secbuf.Vec
use secbuf.Assert.{check, unwrap, look, update, test_of, same_bytes}
use secbuf.Buffer
use secbuf.Buffer.{
  Buffer, new, with_capacity, from_vec, as_slice, incr_len, shrink_to_fit, reset, grow_to,
}
use secbuf.Buffer.Fields.{len, pos}

-- `extend_from_slice` of the vector
abbrev extend_from_slice : List ℕ → Method Buffer (Unit {0})
extend_from_slice bytes b = elim (Vec.reserve (length bytes) b.vec) [
  | ok v ↦ (
    ok tt,
    record b { vec = record { mem = splice v.mem v.len bytes; len = v.len + length bytes } },
  )
  | err e ↦ (err e, b)
  | panic ↦ (panic, b)
  | undefined ↦ (undefined, b)
]

abbrev test_new : Outcome (Unit {0})
test_new =
    test_of (new 1024)
      do buf ← look; check (Buffer.capacity buf == 1024); check (len buf == 0); check (pos buf == 0)

-- b"hello"
abbrev hello : List ℕ
hello = 104 ∷ 101 ∷ 108 ∷ 108 ∷ 111 ∷ []

abbrev test_with_capacity : Outcome (Unit {0})
test_with_capacity = test_of (with_capacity 1024) do
  buf ← look
  check (Buffer.capacity buf == 1024)
  check (len buf == 0)
  extend_from_slice hello
  update (λ b. record b { len = 5 })
  buf ← look
  check (len buf == 5)
  bytes ← lift (as_slice buf)
  check (same_bytes bytes hello)

abbrev one_to_five : List ℕ
one_to_five = 1 ∷ 2 ∷ 3 ∷ 4 ∷ 5 ∷ []

abbrev test_from_vec : Outcome (Unit {0})
test_from_vec = test_of (ok (from_vec (Vec.of_list one_to_five))) do
  buf ← look
  check (len buf == 5)
  bytes ← lift (as_slice buf)
  check (same_bytes bytes one_to_five)

abbrev test_incr_len_grows_vec : Outcome (Unit {0})
test_incr_len_grows_vec =
    test_of (with_capacity 100)
      do unwrap (incr_len 50); buf ← look; check (len buf == 50); check (leb 50 buf.vec.len)

abbrev test_shrink_to_fit : Outcome (Unit {0})
test_shrink_to_fit = test_of (new 1024) do
  update (λ b. record b { len = 100 })
  update shrink_to_fit
  buf ← look
  check (buf.vec.len == 100)
  check (len buf == 100)

abbrev test_reset : Outcome (Unit {0})
test_reset = test_of (new 1024) do
  update (λ b. record b { pos = 50 })
  update (λ b. record b { len = 100 })
  update reset
  buf ← look
  check (pos buf == 0)
  check (len buf == 0)

abbrev results : List (Outcome (Unit {0}))
results =
    test_new ∷ test_with_capacity ∷ test_from_vec ∷ test_incr_len_grows_vec ∷ test_shrink_to_fit
    ∷ test_reset ∷ []

buffer_tests_pass : results ≡ replicate 6 (ok tt)
unfolding new with_capacity from_vec as_slice incr_len shrink_to_fit reset grow_to len pos
    Vec.reserve Vec.resize splice
buffer_tests_pass = refl
