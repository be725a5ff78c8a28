-- ===== src/Integration/Workers/Tests.antt =====
-- tests/integration_tests.rs: `test_buffer_pool_concurrency` on few threads.
use secbuf.Prelude.{ℕ, zero, suc, ◌*◌, ◌≤◌, ◌<◌, ◌≡◌, List, [], ◌∷◌, replicate, arith}
use secbuf.Error.{ok}
use secbuf.Zeroize.Volatile.{volatile}
use secbuf.Pool.{PoolStats}
use secbuf.Pool.Config.{PoolConfig}
use secbuf.Integration.Workers.{between, test_buffer_pool_concurrency}
use secbuf.Integration.Workers.Turns.{count}
use secbuf.Integration.Workers.Total.{test_buffer_pool_concurrency_lem}

abbrev config : PoolConfig
config = record { buffer_size = 16; max_pool_size = 4; min_pool_size = 1 }

-- Both threads hold a buffer at the same time, and the first to acquire is the last to return.
abbrev order : List ℕ
order = 1 ∷ 0 ∷ 0 ∷ 1 ∷ []

two_turns_each : (i : ℕ) → i < 2 → 2 * 1 ≤ count i order
two_turns_each zero lt = omega arith
two_turns_each (suc zero) lt = omega arith
two_turns_each (suc (suc i)) lt = absurd (omega arith)

test_buffer_pool_concurrency_lem_example :
    (end : PoolStats) × (test_buffer_pool_concurrency volatile 1 2 config order
      ≡ ok (replicate 2 (between 1), end))
    × (end.total_acquired ≡ 2 * 1)
    × (end.total_returned ≡ 2 * 1)
test_buffer_pool_concurrency_lem_example =
    test_buffer_pool_concurrency_lem volatile 1 config (omega arith) (omega arith) 2 order
      (omega arith) (omega arith) two_turns_each
