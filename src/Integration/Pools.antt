-- ===== src/Integration/Pools.antt =====
-- tests/integration_tests.rs and src/lib.rs: the tests of the pools.
use secbuf.Prelude.{
  ℕ, zero, suc, ◌+◌, true, some, List, [], ◌∷◌, ◌≡◌, refl, replicate, splice, leb, ◌==◌,
}
use secbuf.Error.{Outcome, ok, Method, ◌>>=◌, ◌>>◌, return, lift, and_then}
use secbuf.Vec
use secbuf.Zeroize.Volatile.{volatile}
use secbuf.Assert.{check, unwrap, look, test_of}
use secbuf.Float.{literal, greater, times, divided, of_nat, round, coarser, finer, nearest}
use secbuf.Bytes.{store}
use secbuf.Buffer
use secbuf.Buffer.{Buffer}
use secbuf.Buffer.Ops.{put_u32}
use secbuf.Buffer.Raw.{put_u32_unchecked, write_at_pos}
use secbuf.Pool
use secbuf.Pool.Rates.{hit_rate}
use secbuf.Pool.Config.{PoolConfig}
use secbuf.FastPool
use secbuf.FastPool.{View}
use secbuf.FastPool.Queue.{SegQueue, push, pop}
use secbuf.FastPool.Handles.{fast_stats}
use secbuf.FastPool.Tests.{list_queue}

-- `(0..n).map(|_| pool.acquire()).collect()`; the first acquired is the first of the list.
abbrev acquires : {S : Type 0} → Method S Buffer → ℕ → Method S (List Buffer)
acquires acquire zero = return []
acquires acquire (suc n) = do b ← acquire; bs ← acquires acquire n; return (b ∷ bs)

-- the same, with a `put_u32(i).unwrap()` on each
abbrev acquires_and_puts : {S : Type 0} → Method S Buffer → ℕ → ℕ → Method S (List Buffer)
acquires_and_puts acquire i zero = return []
acquires_and_puts acquire i (suc n) = do
  b ← acquire
  used ← lift ((do unwrap (put_u32 i); look) b).0
  bs ← acquires_and_puts acquire (i + 1) n
  return (used ∷ bs)

-- `drop(buffers)`, in their order
abbrev drops :
    {S : Type 0} → (Buffer → Method S (List (List ℕ))) → List Buffer → Method S (Unit {0})
drops drop_one [] = return tt
drops drop_one (b ∷ bs) = do freed ← drop_one b; drops drop_one bs

abbrev drop_one : Buffer → Method Pool.BufferPool (List (List ℕ))
drop_one b = Pool.drop_pooled volatile (some b)

abbrev test_pool_statistics_accuracy : Outcome (Unit {0})
test_pool_statistics_accuracy =
    test_of (Pool.new (record { buffer_size = 512; max_pool_size = 20; min_pool_size = 5 })) do
      initial_stats ← Pool.stats
      check (initial_stats.available == 5)
      buffers ← acquires Pool.acquire 10
      mid_stats ← Pool.stats
      check (mid_stats.total_acquired == 10)
      drops drop_one buffers
      final_stats ← Pool.stats
      check (final_stats.total_returned == 10)
      check (greater (hit_rate final_stats) (literal 0))

abbrev rounds : ℕ → Method Pool.BufferPool (Unit {0})
rounds zero = return tt
rounds (suc n) = do buf ← Pool.acquire; freed ← drop_one buf; rounds n

abbrev test_pool_max_size_enforcement : Outcome (Unit {0})
test_pool_max_size_enforcement =
    test_of (Pool.new (record { buffer_size = 256; max_pool_size = 5; min_pool_size = 2 }))
      do rounds 20; n ← Pool.available; check (leb n 5)

abbrev ten_of_hundred : PoolConfig
ten_of_hundred = record { buffer_size = 1024; max_pool_size = 100; min_pool_size = 10 }

-- src/lib.rs
abbrev test_standard_pool : Outcome (Unit {0})
test_standard_pool = test_of (Pool.new ten_of_hundred) do
  buffers ← acquires_and_puts Pool.acquire 0 50
  drops drop_one buffers
  stats ← Pool.stats
  check (leb 50 stats.total_acquired)

abbrev queue_of_lists : SegQueue
queue_of_lists = list_queue

abbrev Caller : Type 0
Caller = View queue_of_lists

abbrev drop_fast : Buffer → Method Caller (List (List ℕ))
drop_fast b s =
    let (freed, t) = FastPool.drop_pooled queue_of_lists volatile true (some b) s in (ok freed, t)

abbrev test_fast_pool : Outcome (Unit {0})
test_fast_pool =
    test_of
      (and_then (FastPool.new queue_of_lists ten_of_hundred)
        λ pool. ok (record { pool = pool; cache = [] }))
      do
        buffers ← acquires_and_puts (FastPool.acquire queue_of_lists) 0 50
        drops drop_fast buffers
        s ← look
        check (leb 50 (fast_stats queue_of_lists s.pool).acquired)

abbrev results : List (Outcome (Unit {0}))
results =
    test_pool_statistics_accuracy ∷ test_pool_max_size_enforcement ∷ test_standard_pool
    ∷ test_fast_pool ∷ []

pools_pass : results ≡ replicate 4 (ok tt)
unfolding Pool.new Pool.push_new Pool.acquire Pool.available Pool.stats Pool.drop_pooled hit_rate
    greater times divided of_nat round coarser finer nearest FastPool.new FastPool.push_new
    FastPool.acquire FastPool.acquire_shared FastPool.drop_pooled FastPool.push_or_free push pop
    fast_stats Buffer.new Buffer.burn Buffer.drop_buffer put_u32 put_u32_unchecked write_at_pos
    Vec.write_raw store splice
pools_pass = refl
