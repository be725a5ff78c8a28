-- ===== src/Integration/Rings.antt =====
-- tests/integration_tests.rs and src/lib.rs: the tests of `CircularBuffer`.
use secbuf.Prelude.{
  ℕ, zero, suc, Bool, true, false, not, List, [], ◌∷◌, ◌++◌, ◌≡◌, refl, replicate, splice, ltb,
  ◌==◌,
}
use secbuf.Error.{Outcome, ok, err, Method, ◌>>=◌, ◌>>◌, return, lift}
use secbuf.Assert.{check, unwrap, look, test_of, same_bytes}
use secbuf.Bits.{is_power_of_two, count_ones}
use secbuf.Circular.{CircularBuffer, new, available, is_empty, is_full, wrap}
use secbuf.Circular.Ops.{
  write, read, peek, read_ptrs, copy_in, copy_out, spread, gather, incr_write, incr_read, bytes_of,
}
use secbuf.Circular.Fields.{used}
use secbuf.Circular.Queue.{memory}

-- `let mut out = vec![0u8; n]; cbuf.read(&mut out).unwrap()`
abbrev read_new : ℕ → Method CircularBuffer (List ℕ)
read_new n = do r ← unwrap (read (replicate n 0)); return r.1

abbrev is_err : {A : Type 0} → Outcome A → Bool
is_err (err e) = true
is_err _ = false

-- b"ABCDEFGHIJ"
abbrev ten_letters : List ℕ
ten_letters = 65 ∷ 66 ∷ 67 ∷ 68 ∷ 69 ∷ 70 ∷ 71 ∷ 72 ∷ 73 ∷ 74 ∷ []

abbrev rounds : ℕ → Method CircularBuffer (Unit {0})
rounds zero = return tt
rounds (suc n) = do unwrap (write ten_letters); output ← read_new 5; rounds n

abbrev test_circular_buffer_stress : Outcome (Unit {0})
test_circular_buffer_stress = test_of (new 1024) do
  rounds 100
  cbuf ← look
  check (ltb 0 (used cbuf))
  check (used cbuf == 500)
  final_buf ← read_new (used cbuf)
  cbuf ← look
  check (used cbuf == 0)

-- b"First", b"Second", b"FirstSecond" and b"Third"
abbrev first : List ℕ
first = 70 ∷ 105 ∷ 114 ∷ 115 ∷ 116 ∷ []

abbrev second : List ℕ
second = 83 ∷ 101 ∷ 99 ∷ 111 ∷ 110 ∷ 100 ∷ []

abbrev first_second : List ℕ
first_second = 70 ∷ 105 ∷ 114 ∷ 115 ∷ 116 ∷ 83 ∷ 101 ∷ 99 ∷ 111 ∷ 110 ∷ 100 ∷ []

abbrev third : List ℕ
third = 84 ∷ 104 ∷ 105 ∷ 114 ∷ 100 ∷ []

abbrev test_circular_buffer_read_write_pointers : Outcome (Unit {0})
test_circular_buffer_read_write_pointers = test_of (new 100) do
  unwrap (write first)
  unwrap (write second)
  cbuf ← look
  slices ← lift (read_ptrs cbuf)
  check (same_bytes (bytes_of (memory cbuf) slices.0) first_second)
  check (slices.1.count == 0)
  discard ← read_new 5
  unwrap (write third)
  cbuf ← look
  slices ← lift (read_ptrs cbuf)
  check (not (slices.0.count == 0))

-- b"Test Data"
abbrev test_data : List ℕ
test_data = 84 ∷ 101 ∷ 115 ∷ 116 ∷ 32 ∷ 68 ∷ 97 ∷ 116 ∷ 97 ∷ []

abbrev test_circular_buffer_peek_doesnt_consume : Outcome (Unit {0})
test_circular_buffer_peek_doesnt_consume = test_of (new 100) do
  unwrap (write test_data)
  before ← look
  peek_buf ← unwrap (λ c. (peek (replicate 9 0) c, c))
  after ← look
  check (used after == used before)
  check (same_bytes peek_buf.1 test_data)
  read_buf ← read_new 9
  cbuf ← look
  check (used cbuf == 0)
  check (same_bytes read_buf peek_buf.1)

abbrev test_circular_buffer_full_cycle : Outcome (Unit {0})
test_circular_buffer_full_cycle = test_of (new 100) do
  unwrap (write (replicate 100 65))
  cbuf ← look
  check (is_full cbuf)
  check (available cbuf == 0)
  check (is_err (write (88 ∷ []) cbuf).0)
  output ← read_new 100
  cbuf ← look
  check (is_empty cbuf)
  check (available cbuf == 100)

-- src/lib.rs, with b"Chunk 1 | ", b"Chunk 2 | " and b"Chunk 3"
abbrev chunk_1 : List ℕ
chunk_1 = 67 ∷ 104 ∷ 117 ∷ 110 ∷ 107 ∷ 32 ∷ 49 ∷ 32 ∷ 124 ∷ 32 ∷ []

abbrev chunk_2 : List ℕ
chunk_2 = 67 ∷ 104 ∷ 117 ∷ 110 ∷ 107 ∷ 32 ∷ 50 ∷ 32 ∷ 124 ∷ 32 ∷ []

abbrev chunk_3 : List ℕ
chunk_3 = 67 ∷ 104 ∷ 117 ∷ 110 ∷ 107 ∷ 32 ∷ 51 ∷ []

abbrev test_circular_buffer : Outcome (Unit {0})
test_circular_buffer = test_of (new 256) do
  unwrap (write chunk_1)
  unwrap (write chunk_2)
  unwrap (write chunk_3)
  ring ← look
  output ← read_new (used ring)
  check (same_bytes output (chunk_1 ++ (chunk_2 ++ chunk_3)))

abbrev results : List (Outcome (Unit {0}))
results =
    test_circular_buffer_stress ∷ test_circular_buffer_read_write_pointers
    ∷ test_circular_buffer_peek_doesnt_consume ∷ test_circular_buffer_full_cycle
    ∷ test_circular_buffer ∷ []

rings_pass : results ≡ replicate 5 (ok tt)
unfolding new available is_empty is_full wrap write read peek read_ptrs copy_in copy_out spread
    gather incr_write incr_read used is_power_of_two count_ones splice
rings_pass = refl
