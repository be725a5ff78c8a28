-- ===== src/Circular/UnitTests.antt =====
-- src/circular/buffer.rs: the unit tests, on the model.
use secbuf.Prelude.{
  ℕ, zero, suc, min, Bool, true, false, Option, none, some, List, [], ◌∷◌, length, replicate, take,
  splice, ◌==◌, ◌≡◌, refl, if◌then◌else◌,
}
use secbuf.Error.{Outcome, ok, err, panic, invalid_state, Method, ◌>>=◌, ◌>>◌, return, and_then}
use secbuf.Zeroize.Volatile.{volatile}
use secbuf.Assert.{check, unwrap, look, update, test_of, same_bytes}
use secbuf.Circular.{CircularBuffer, Range, new, new_pow2, available, is_empty, wrap}
use secbuf.Circular.Ops.{
  write, read, peek, write_ptr, write_slices_mut, incr_write, free, burn_free, copy_in, copy_out,
  spread, gather, clear, release, incr_read,
}
use secbuf.Circular.Fields.{used, size}
use secbuf.Bits.{is_power_of_two, count_ones}

abbrev is_none : Option (List ℕ) → Bool
is_none none = true
is_none (some mem) = false

-- `let mut out = vec![0u8; n]; buf.read(&mut out).unwrap()`
abbrev read_new : ℕ → Method CircularBuffer (List ℕ)
read_new n = do r ← unwrap (read (replicate n 0)); return r.1

-- `slice.copy_from_slice(bytes)` on a slice of the storage; the lengths differ otherwise, and it panics
abbrev copy_from_slice : Range → List ℕ → Method CircularBuffer (Unit {0})
copy_from_slice r bytes c =
    if r.count == length bytes
    then (elim c.store [
      | none ↦ (panic, c)
      | some mem ↦ (ok tt, record c { store = some (splice mem r.start bytes) })
    ])
    else (panic, c)

abbrev test_circular_basic : Outcome (Unit {0})
test_circular_basic =
    test_of (new 256)
      do buf ← look; check (size buf == 256); check (used buf == 0); check (is_empty buf)

-- b"Hello"
abbrev hello : List ℕ
hello = 72 ∷ 101 ∷ 108 ∷ 108 ∷ 111 ∷ []

abbrev test_write_read : Outcome (Unit {0})
test_write_read = test_of (new 256) do
  unwrap (write hello)
  buf ← look
  check (used buf == 5)
  out ← read_new 5
  check (same_bytes out hello)
  buf ← look
  check (is_empty buf)

-- b"12345", b"6789" and b"456789"
abbrev one_to_five : List ℕ
one_to_five = 49 ∷ 50 ∷ 51 ∷ 52 ∷ 53 ∷ []

abbrev six_to_nine : List ℕ
six_to_nine = 54 ∷ 55 ∷ 56 ∷ 57 ∷ []

abbrev four_to_nine : List ℕ
four_to_nine = 52 ∷ 53 ∷ 54 ∷ 55 ∷ 56 ∷ 57 ∷ []

abbrev test_wrap_around_write_read : Outcome (Unit {0})
test_wrap_around_write_read = test_of (new 8) do
  unwrap (write one_to_five)
  tmp ← read_new 3
  unwrap (write six_to_nine)
  buf ← look
  check (used buf == 6)
  out ← read_new 6
  check (same_bytes out four_to_nine)

-- b"ABCDE FGHI"
abbrev letters : List ℕ
letters = 65 ∷ 66 ∷ 67 ∷ 68 ∷ 69 ∷ 32 ∷ 70 ∷ 71 ∷ 72 ∷ 73 ∷ []

abbrev rounds : ℕ → Method CircularBuffer (Unit {0})
rounds zero = return tt
rounds (suc n) = do
  unwrap (write letters)
  out ← read_new 10
  check (same_bytes out letters)
  rounds n

abbrev test_wrap_around_large : Outcome (Unit {0})
test_wrap_around_large = test_of (new_pow2 4) (rounds 8)

-- b"RUST"
abbrev rust : List ℕ
rust = 82 ∷ 85 ∷ 83 ∷ 84 ∷ []

abbrev test_write_ptr_no_wrap : Outcome (Unit {0})
test_write_ptr_no_wrap = test_of (new 16) do
  slice ← unwrap (write_ptr 4)
  copy_from_slice slice rust
  unwrap (incr_write 4)
  buf ← look
  check (used buf == 4)
  out ← read_new 4
  check (same_bytes out rust)

-- b"123456"
abbrev one_to_six : List ℕ
one_to_six = 49 ∷ 50 ∷ 51 ∷ 52 ∷ 53 ∷ 54 ∷ []

-- `matches!(r, Err(BufferError::InvalidState(_)))`
abbrev is_invalid_state : {A : Type 0} → Outcome A → Bool
is_invalid_state (err (invalid_state msg)) = true
is_invalid_state _ = false

abbrev test_write_ptr_returns_err_on_wrap : Outcome (Unit {0})
test_write_ptr_returns_err_on_wrap = test_of (new 8) do
  unwrap (write one_to_six)
  tmp ← read_new 6
  buf ← look
  check (is_invalid_state (write_ptr 4 buf).0)

abbrev test_write_slices_mut_wrap : Outcome (Unit {0})
test_write_slices_mut_wrap = test_of (new 8) do
  unwrap (write one_to_six)
  tmp ← read_new 6
  slices ← unwrap (write_slices_mut 4)
  check (slices.0.count == 2)
  check (slices.1.count == 2)
  copy_from_slice slices.0 (65 ∷ 66 ∷ [])
  copy_from_slice slices.1 (67 ∷ 68 ∷ [])
  unwrap (incr_write 4)
  out ← read_new 4
  check (same_bytes out (65 ∷ 66 ∷ 67 ∷ 68 ∷ []))

-- b"peekaboo"
abbrev peekaboo : List ℕ
peekaboo = 112 ∷ 101 ∷ 101 ∷ 107 ∷ 97 ∷ 98 ∷ 111 ∷ 111 ∷ []

abbrev test_peek : Outcome (Unit {0})
test_peek = test_of (new 32) do
  unwrap (write peekaboo)
  out1 ← unwrap (λ c. (peek (replicate 8 0) c, c))
  check (same_bytes out1.1 peekaboo)
  buf ← look
  check (used buf == 8)
  out2 ← read_new 8
  check (same_bytes out2 peekaboo)
  buf ← look
  check (is_empty buf)

-- b"sensitive data" and b"secret"
abbrev sensitive_data : List ℕ
sensitive_data = 115 ∷ 101 ∷ 110 ∷ 115 ∷ 105 ∷ 116 ∷ 105 ∷ 118 ∷ 101 ∷ 32 ∷ 100 ∷ 97 ∷ 116 ∷ 97 ∷ []

abbrev secret : List ℕ
secret = 115 ∷ 101 ∷ 99 ∷ 114 ∷ 101 ∷ 116 ∷ []

abbrev test_free : Outcome (Unit {0})
test_free = test_of (new 1024) do
  unwrap (write sensitive_data)
  update (λ c. (free volatile c).0)
  buf ← look
  check (is_empty buf)
  check (used buf == 0)
  check (is_none buf.store)

-- `burn_free` consumes the ring.
abbrev test_burn_free : Outcome (Unit {0})
test_burn_free =
    test_of (new 1024)
      do unwrap (write secret); buf ← look; let freed = burn_free volatile buf in return tt

abbrev test_lazy_allocation : Outcome (Unit {0})
test_lazy_allocation = test_of (new 1024) do buf ← look; check (is_none buf.store)

-- the variables `fast` and `slow`
abbrev Pair : Type 0
Pair = CircularBuffer × CircularBuffer

abbrev fast : {A : Type 0} → Method CircularBuffer A → Method Pair A
fast m s = let (r, c) = m s.0 in (r, (c, s.1))

abbrev slow : {A : Type 0} → Method CircularBuffer A → Method Pair A
slow m s = let (r, c) = m s.1 in (r, (s.0, c))

abbrev each_chunk : List (List ℕ) → Method Pair (Unit {0})
each_chunk [] = return tt
each_chunk (chunk ∷ rest) = do
  rings ← look
  let len = min (length chunk) (available rings.0) in
      (do
        fast (unwrap (write (take len chunk)))
        slow (unwrap (write (take len chunk)))
        rings ← look
        out_f ← fast (read_new (used rings.0))
        out_s ← slow (read_new (used rings.1))
        check (same_bytes out_f out_s)
        each_chunk rest)

-- b"ABCDEFGHIJKLMNOP" in chunks of three
abbrev chunks : List (List ℕ)
chunks =
    (65 ∷ 66 ∷ 67 ∷ [])
    ∷ ((68 ∷ 69 ∷ 70 ∷ [])
        ∷ ((71 ∷ 72 ∷ 73 ∷ []) ∷ ((74 ∷ 75 ∷ 76 ∷ []) ∷ ((77 ∷ 78 ∷ 79 ∷ []) ∷ ((80 ∷ []) ∷ [])))))

abbrev test_pow2_fast_wrap : Outcome (Unit {0})
test_pow2_fast_wrap =
    test_of (and_then (new_pow2 3) λ f. and_then (new 8) λ s. ok (f, s)) (each_chunk chunks)

abbrev results : List (Outcome (Unit {0}))
results =
    test_circular_basic ∷ test_write_read ∷ test_wrap_around_write_read ∷ test_wrap_around_large
    ∷ test_write_ptr_no_wrap ∷ test_write_ptr_returns_err_on_wrap ∷ test_write_slices_mut_wrap
    ∷ test_peek ∷ test_free ∷ test_burn_free ∷ test_lazy_allocation ∷ test_pow2_fast_wrap ∷ []

all_pass : results ≡ replicate 12 (ok tt)
unfolding new new_pow2 size used is_empty is_power_of_two count_ones write read peek copy_in
    copy_out spread gather available splice incr_write incr_read wrap write_ptr write_slices_mut
    free clear release burn_free
all_pass = refl
