-- ===== src/Integration/Buffers.antt =====
-- tests/integration_tests.rs and src/lib.rs: the tests of `Buffer`.
use secbuf.Prelude.{
  ℕ, ◌+◌, ◌%◌, ◌^◌, Bool, true, false, not, List, [], ◌∷◌, ◌≡◌, refl, length, replicate, splice,
  ◌==◌,
}
use secbuf.Error.{Outcome, ok, err, Method, ◌>>=◌, ◌>>◌, lift}
use secbuf.Vec
use secbuf.Assert.{check, unwrap, look, test_of, same_bytes}
use secbuf.Bytes.{store, swap_bytes, load}
use secbuf.Buffer
use secbuf.Buffer.{Buffer, new, set_pos, incr_pos, resize, remaining, has_remaining}
use secbuf.Buffer.Fields.{len, pos, clone}
use secbuf.Buffer.Ops.{
  put_u32, get_u32, put_u64, get_u64, put_byte, get_byte, get_bool, put_bytes, get_bytes,
  put_string, get_string,
}
use secbuf.Buffer.Raw.{
  put_u32_unchecked, get_u32_unchecked, put_u64_unchecked, get_u64_unchecked, put_bytes_unchecked,
  get_bytes_unchecked, write_at_pos, read_at_pos,
}

abbrev is_err : {A : Type 0} → Outcome A → Bool
is_err (err e) = true
is_err _ = false

-- b"SSH-2.0-OpenSSH_8.0"
abbrev payload : List ℕ
payload =
    83 ∷ 83 ∷ 72 ∷ 45 ∷ 50 ∷ 46 ∷ 48 ∷ 45 ∷ 79 ∷ 112 ∷ 101 ∷ 110 ∷ 83 ∷ 83 ∷ 72 ∷ 95 ∷ 56 ∷ 46 ∷ 48
    ∷ []

abbrev test_ssh_packet_simulation : Outcome (Unit {0})
test_ssh_packet_simulation = test_of (new 2048) do
  unwrap (put_u32 ((length payload + 1 + 8) % 2 ^ 32))
  unwrap (put_byte 8)
  unwrap (put_bytes payload)
  unwrap (put_bytes (replicate 8 0))
  unwrap (put_bytes (replicate 32 171))
  unwrap (set_pos 0)
  pkt_len ← unwrap get_u32
  pad_len ← unwrap get_byte
  check (pkt_len == (length payload + 1 + 8) % 2 ^ 32)
  check (pad_len == 8)

-- b"preserved data"
abbrev preserved_data : List ℕ
preserved_data = 112 ∷ 114 ∷ 101 ∷ 115 ∷ 101 ∷ 114 ∷ 118 ∷ 101 ∷ 100 ∷ 32 ∷ 100 ∷ 97 ∷ 116 ∷ 97 ∷ []

abbrev test_buffer_resize_preserves_data : Outcome (Unit {0})
test_buffer_resize_preserves_data = test_of (new 100) do
  unwrap (put_u32 305419896)
  unwrap (put_bytes preserved_data)
  before ← look
  unwrap (resize 1000)
  after ← look
  check (Buffer.capacity after == 1000)
  check (len after == len before)
  unwrap (set_pos 0)
  number ← unwrap get_u32
  check (number == 305419896)
  bytes ← unwrap (get_bytes 14)
  check (same_bytes bytes preserved_data)

abbrev test_buffer_error_handling : Outcome (Unit {0})
test_buffer_error_handling = test_of (new 10) do
  buf ← look
  check (is_err (set_pos 100 buf).0)
  check (is_err (put_bytes (replicate 20 0) buf).0)
  unwrap (put_bytes (replicate 5 0))
  unwrap (set_pos 0)
  buf ← look
  check (is_err (get_bytes 10 buf).0)

-- the variables `original` and `cloned`
abbrev Pair : Type 0
Pair = Buffer × Buffer

abbrev original : {A : Type 0} → Method Buffer A → Method Pair A
original m s = let (r, b) = m s.0 in (r, (b, s.1))

abbrev cloned : {A : Type 0} → Method Buffer A → Method Pair A
cloned m s = let (r, b) = m s.1 in (r, (s.0, b))

abbrev with_clone : Method Buffer (Unit {0}) → Method Pair (Unit {0}) → Method Buffer (Unit {0})
with_clone first rest b =
    let (r, c) = first b in let (q, d) = rest (c, clone c) in ((do lift r; lift q) c)

abbrev test_buffer_clone_independence : Outcome (Unit {0})
test_buffer_clone_independence = test_of (new 100) (
    with_clone (unwrap (put_u32 42)) (do
      cloned (unwrap (set_pos 0))
      cloned (unwrap (put_u32 99))
      original (unwrap (set_pos 0))
      a ← original (unwrap get_u32)
      check (a == 42)
      cloned (unwrap (set_pos 0))
      b ← cloned (unwrap get_u32)
      check (b == 99)))

abbrev test_buffer_remaining : Outcome (Unit {0})
test_buffer_remaining = test_of (new 100) do
  unwrap (put_bytes (replicate 50 0))
  unwrap (set_pos 0)
  buf ← look
  check (remaining buf == 50)
  check (has_remaining 50 buf)
  check (not (has_remaining 51 buf))
  unwrap (incr_pos 30)
  buf ← look
  check (remaining buf == 20)

abbrev test_u64_operations : Outcome (Unit {0})
test_u64_operations = test_of (new 100) do
  unwrap (put_u64 1311768467463790320)
  unwrap (set_pos 0)
  number ← unwrap get_u64
  check (number == 1311768467463790320)

abbrev test_bool_operations : Outcome (Unit {0})
test_bool_operations = test_of (new 10) do
  unwrap (put_byte 1)
  unwrap (put_byte 0)
  unwrap (put_byte 255)
  unwrap (set_pos 0)
  first ← unwrap get_bool
  check first
  second ← unwrap get_bool
  check (not second)
  third ← unwrap get_bool
  check third

-- b"Hello, Buffer!"
abbrev greeting : List ℕ
greeting = 72 ∷ 101 ∷ 108 ∷ 108 ∷ 111 ∷ 44 ∷ 32 ∷ 66 ∷ 117 ∷ 102 ∷ 102 ∷ 101 ∷ 114 ∷ 33 ∷ []

abbrev test_buffer_write_then_read_pattern : Outcome (Unit {0})
test_buffer_write_then_read_pattern = test_of (new 1024) do
  unwrap (put_u32 3735928559)
  unwrap (put_string greeting)
  unwrap (put_u64 1311768467463790320)
  written ← look
  unwrap (set_pos 0)
  a ← unwrap get_u32
  check (a == 3735928559)
  s ← unwrap get_string
  check (same_bytes s greeting)
  b ← unwrap get_u64
  check (b == 1311768467463790320)
  buf ← look
  check (pos buf == len written)

abbrev test_large_string_operations : Outcome (Unit {0})
test_large_string_operations = test_of (new 100_000) do
  unwrap (put_string (replicate 50_000 88))
  unwrap (set_pos 0)
  retrieved ← unwrap get_string
  check (length retrieved == 50_000)
  check (same_bytes retrieved (replicate 50_000 88))

-- src/lib.rs
abbrev test_basic_buffer : Outcome (Unit {0})
test_basic_buffer = test_of (new 1024) do
  unwrap (put_u32 42)
  unwrap (put_byte 255)
  unwrap (set_pos 0)
  a ← unwrap get_u32
  check (a == 42)
  b ← unwrap get_byte
  check (b == 255)

abbrev test_unchecked_ops : Outcome (Unit {0})
test_unchecked_ops = test_of (new 1024) do
  unwrap (put_u32 305419896)
  unwrap (put_u64 16045690984503098046)
  put_u32_unchecked 2882400000
  unwrap (set_pos 0)
  a ← unwrap get_u32
  check (a == 305419896)
  b ← unwrap get_u64
  check (b == 16045690984503098046)
  c ← unwrap get_u32
  check (c == 2882400000)

abbrev results : List (Outcome (Unit {0}))
results =
    test_ssh_packet_simulation ∷ test_buffer_resize_preserves_data ∷ test_buffer_error_handling
    ∷ test_buffer_clone_independence ∷ test_buffer_remaining ∷ test_u64_operations
    ∷ test_bool_operations ∷ test_buffer_write_then_read_pattern ∷ test_large_string_operations
    ∷ test_basic_buffer ∷ test_unchecked_ops ∷ []

buffers_pass : results ≡ replicate 11 (ok tt)
unfolding new set_pos incr_pos resize remaining has_remaining len pos clone put_u32 get_u32 put_u64
    get_u64 put_byte get_byte get_bool put_bytes get_bytes put_string get_string put_u32_unchecked
    get_u32_unchecked put_u64_unchecked get_u64_unchecked put_bytes_unchecked get_bytes_unchecked
    write_at_pos read_at_pos Vec.write_raw Vec.read_raw Vec.resize Vec.reserve store swap_bytes load
    splice
buffers_pass = refl
