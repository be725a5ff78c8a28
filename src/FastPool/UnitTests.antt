-- ===== src/FastPool/UnitTests.antt =====
-- src/pool/fast.rs: the unit tests of one thread, on the model. What a test drops after its last assertion
-- is left out; it starts with an empty cache.
use secbuf.Prelude.{
  ℕ, zero, suc, true, Option, some, List, [], ◌∷◌, ◌≡◌, refl, replicate, take, splice, ltb, leb,
  ◌==◌,
}
use secbuf.Error.{Outcome, ok, Method, ◌>>=◌, ◌>>◌, return, lift, and_then}
use secbuf.Vec
use secbuf.Zeroize.Volatile.{volatile}
use secbuf.Assert.{check, unwrap, look, test_of, same_bytes}
use secbuf.Bytes.{store}
use secbuf.Buffer
use secbuf.Buffer.{Buffer}
use secbuf.Buffer.Ops.{put_bytes, put_u32}
use secbuf.Buffer.Raw.{put_u32_unchecked, put_bytes_unchecked, write_at_pos}
use secbuf.Pool.Config.{PoolConfig}
use secbuf.FastPool.Queue.{push, pop}
use secbuf.FastPool.{
  View, new, push_new, acquire, acquire_shared, available, warm, drop_pooled, push_or_free,
  clear_thread_cache,
}
use secbuf.FastPool.Handles.{FastPoolStats, fast_stats, fast_leak, fast_drop_now}
use secbuf.FastPool.Handle.{deref, deref_mut}
use secbuf.FastPool.Tests.{list_queue}

abbrev Caller : Type 0
Caller = View list_queue

-- a new pool, seen by a thread whose cache is empty
abbrev view_of : PoolConfig → Outcome Caller
view_of config = and_then (new list_queue config) λ pool. ok (record { pool = pool; cache = [] })

abbrev acquires : Method Caller Buffer
acquires s = acquire list_queue s

-- the destructor of a handle
abbrev drops : Option Buffer → Method Caller (List (List ℕ))
drops b s = let (freed, t) = drop_pooled list_queue volatile true b s in (ok freed, t)

abbrev clears_thread_cache : Method Caller (List (List ℕ))
clears_thread_cache s =
    let (freed, pool) = clear_thread_cache list_queue volatile s.cache s.pool in
    (ok freed, record { pool = pool; cache = [] })

abbrev stats : Method Caller FastPoolStats
stats s = (ok (fast_stats list_queue s.pool), s)

-- A call on a buffer that the test has acquired: the buffer, after it.
abbrev on_handle : {A : Type 0} → Method Buffer A → Buffer → Method Caller Buffer
on_handle call b = do
  let (r, after) = deref_mut call (some b) in (do a ← lift r; lift (deref after))

abbrev two_of_ten : PoolConfig
two_of_ten = record { buffer_size = 1024; max_pool_size = 10; min_pool_size = 2 }

abbrev test_fast_pool_basic : Outcome (Unit {0})
test_fast_pool_basic =
    test_of (view_of two_of_ten) do buf ← acquires; s ← stats; check (s.acquired == 1)

abbrev test_returned_buffer_is_clean : Outcome (Unit {0})
test_returned_buffer_is_clean =
    test_of (view_of (record { buffer_size = 64; max_pool_size = 4; min_pool_size = 0 })) do
      buf ← acquires
      used ← on_handle (unwrap (put_bytes (replicate 32 170))) buf
      freed ← drops (some used)
      more ← clears_thread_cache
      buf2 ← acquires
      longer ← on_handle (unwrap (Buffer.set_len 32)) buf2
      bytes ← lift (Buffer.as_slice longer)
      check (same_bytes (take 32 bytes) (replicate 32 0))

abbrev test_buffer_return_to_cache : Outcome (Unit {0})
test_buffer_return_to_cache =
    test_of (view_of (record { buffer_size = 1024; max_pool_size = 100; min_pool_size = 10 }))
      do buf ← acquires; freed ← drops (some buf); s ← stats; check (s.returned == 1)

abbrev test_drop_now : Outcome (Unit {0})
test_drop_now = test_of (view_of two_of_ten) do
  buf ← acquires
  used ← on_handle (unwrap (put_u32 12345)) buf
  let (freed, rest) = fast_drop_now volatile (some used) in
      (do more ← drops rest; s ← stats; check (s.acquired == 1))

abbrev test_leak : Outcome (Unit {0})
test_leak = test_of (view_of two_of_ten) do
  pooled ← acquires
  let (owned, rest) = fast_leak (some pooled) in
      (do b ← lift owned; freed ← drops rest; s ← stats; check (s.acquired == 1))

abbrev test_warm : Outcome (Unit {0})
test_warm =
    test_of (new list_queue (record { buffer_size = 512; max_pool_size = 20; min_pool_size = 0 }))
      do
        pool ← look
        warmed ← lift (warm list_queue 10 pool)
        check (leb (available list_queue warmed) 10)

-- `for _ in 0..n { let _b = pool.acquire(); }`
abbrev rounds : ℕ → Method Caller (Unit {0})
rounds zero = return tt
rounds (suc n) = do b ← acquires; freed ← drops (some b); rounds n

abbrev test_clear_thread_cache : Outcome (Unit {0})
test_clear_thread_cache =
    test_of (view_of (record { buffer_size = 128; max_pool_size = 20; min_pool_size = 0 })) do
      rounds 5
      freed ← clears_thread_cache
      s ← look
      check (ltb 0 (available list_queue s.pool))

abbrev results : List (Outcome (Unit {0}))
results =
    test_fast_pool_basic ∷ test_returned_buffer_is_clean ∷ test_buffer_return_to_cache
    ∷ test_drop_now ∷ test_leak ∷ test_warm ∷ test_clear_thread_cache ∷ []

fast_tests_pass : results ≡ replicate 7 (ok tt)
unfolding new push_new acquire acquire_shared available warm drop_pooled push_or_free
    clear_thread_cache push pop fast_stats fast_leak fast_drop_now deref deref_mut Buffer.new
    Buffer.burn Buffer.set_len Buffer.grow_to Buffer.as_slice put_bytes put_bytes_unchecked put_u32
    put_u32_unchecked write_at_pos Vec.write_raw store splice
fast_tests_pass = refl
