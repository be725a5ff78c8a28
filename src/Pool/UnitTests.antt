-- ===== src/Pool/UnitTests.antt =====
-- src/pool/standard.rs: the unit tests, on the model. What a test drops after its last assertion is left out.
use secbuf.Prelude.{◌-◌, some, List, [], ◌∷◌, ◌≡◌, refl, replicate, take, splice, ◌==◌}
use secbuf.Error.{Outcome, ok, Method, ◌>>=◌, ◌>>◌, lift}
use secbuf.Vec
use secbuf.Zeroize.Volatile.{volatile}
use secbuf.Assert.{check, unwrap, test_of, same_bytes}
use secbuf.Bytes.{store}
use secbuf.Buffer
use secbuf.Buffer.{Buffer}
use secbuf.Buffer.Ops.{put_bytes, put_u32}
use secbuf.Buffer.Raw.{put_u32_unchecked, put_bytes_unchecked, write_at_pos}
use secbuf.Pool.{
  BufferPool, new, push_new, acquire, available, stats, grow, shrink, leak, drop_now, drop_pooled,
}
use secbuf.Pool.Config.{PoolConfig}
use secbuf.Pool.Handle.{deref, deref_mut}

abbrev two_of_ten : PoolConfig
two_of_ten = record { buffer_size = 1024; max_pool_size = 10; min_pool_size = 2 }

-- A call on a buffer that the test has acquired: the buffer, after it.
abbrev on_handle : {A : Type 0} → Method Buffer A → Buffer → Method BufferPool Buffer
on_handle call b = do
  let (r, after) = deref_mut call (some b) in (do a ← lift r; lift (deref after))

abbrev test_pool_basic : Outcome (Unit {0})
test_pool_basic =
    test_of (new two_of_ten)
      do n ← available; check (n == 2); buf ← acquire; s ← stats; check (s.total_acquired == 1)

abbrev test_returned_buffer_is_clean : Outcome (Unit {0})
test_returned_buffer_is_clean =
    test_of (new (record { buffer_size = 64; max_pool_size = 2; min_pool_size = 0 })) do
      buf ← acquire
      used ← on_handle (unwrap (put_bytes (replicate 16 255))) buf
      freed ← drop_pooled volatile (some used)
      buf2 ← acquire
      longer ← on_handle (unwrap (Buffer.set_len 16)) buf2
      bytes ← lift (Buffer.as_slice longer)
      check (same_bytes (take 16 bytes) (replicate 16 0))

abbrev test_drop_now : Outcome (Unit {0})
test_drop_now = test_of (new two_of_ten) do
  initial_available ← available
  buf ← acquire
  used ← on_handle (unwrap (put_u32 12345)) buf
  let (freed, rest) = drop_now volatile (some used) in
      (do more ← drop_pooled volatile rest; n ← available; check (n == initial_available - 1))

abbrev test_leak : Outcome (Unit {0})
test_leak = test_of (new two_of_ten) do
  pooled ← acquire
  let (owned, rest) = leak (some pooled) in
      (do
        b ← lift owned
        freed ← drop_pooled volatile rest
        s ← stats
        check (s.total_acquired == 1))

abbrev test_normal_return : Outcome (Unit {0})
test_normal_return = test_of (new two_of_ten) do
  initial ← available
  buf ← acquire
  freed ← drop_pooled volatile (some buf)
  n ← available
  check (n == initial)

abbrev test_grow_shrink : Outcome (Unit {0})
test_grow_shrink =
    test_of (new (record { buffer_size = 64; max_pool_size = 20; min_pool_size = 0 })) do
      grow 10
      n ← available
      check (n == 10)
      freed ← shrink volatile
      n ← available
      check (n == 0)

abbrev results : List (Outcome (Unit {0}))
results =
    test_pool_basic ∷ test_returned_buffer_is_clean ∷ test_drop_now ∷ test_leak ∷ test_normal_return
    ∷ test_grow_shrink ∷ []

pool_tests_pass : results ≡ replicate 6 (ok tt)
unfolding new push_new acquire available stats grow shrink leak drop_now drop_pooled deref deref_mut
    Buffer.new Buffer.burn Buffer.set_len Buffer.grow_to Buffer.as_slice put_bytes
    put_bytes_unchecked put_u32 put_u32_unchecked write_at_pos Vec.write_raw store splice
pool_tests_pass = refl
