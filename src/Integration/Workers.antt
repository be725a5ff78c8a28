-- ===== src/Integration/Workers.antt =====
-- tests/integration_tests.rs: `test_buffer_pool_concurrency`, with the calls of its threads in any order.
-- A turn of a thread is one call on the pool with what the thread does on its own after it.
pub mod Turns
pub mod Round
pub mod Total
mod Tests
use secbuf.Prelude.{
  ℕ, zero, suc, ◌+◌, ◌*◌, ◌%◌, ◌^◌, Bool, some, List, [], ◌∷◌, replicate, ltb, if◌then◌else◌,
}
use secbuf.Error.{Outcome, ok, Method, ◌>>=◌, ◌>>◌, return, lift}
use secbuf.Assert.{unwrap, look}
use secbuf.Zeroize.{Zeroize}
use secbuf.Buffer.{Buffer}
use secbuf.Buffer.Ops.{put_u32, put_bytes}
use secbuf.Pool
use secbuf.Pool.{BufferPool, PoolStats}
use secbuf.Pool.Config.{PoolConfig}
use secbuf.Examples.{codes, block}

-- A thread between two rounds, with how many it has made; or in a round, with its buffer.
pub data Worker : Type 0 where
  between : ℕ → Worker
  holding : ℕ → Buffer → Worker

abbrev pub thread_data : List ℕ
thread_data = codes "thread data"

-- what thread `i` writes in round `j`
unfoldable pub fill : ℕ → ℕ → Method Buffer (Unit {0})
fill i j = do unwrap (put_u32 ((i * 100 + j) % 2 ^ 32)); unwrap (put_bytes thread_data)

module _ (z : Zeroize) (rounds : ℕ) where
  -- one turn of thread `i`
  unfoldable pub work : ℕ → Worker → Method BufferPool Worker
  work i (between j) =
      if ltb j rounds
      then (do buf ← Pool.acquire; used ← lift ((do fill i j; look) buf).0; return (holding j used))
      else return (between j)
  work i (holding j buf) = do freed ← Pool.drop_pooled z (some buf); return (between (j + 1))

  -- A turn of the thread `k` places on, in a list that starts with thread `i`.
  unfoldable pub turn : ℕ → ℕ → List Worker → Method BufferPool (List Worker)
  turn k i [] = return []
  turn zero i (w ∷ ws) = do next ← work i w; return (next ∷ ws)
  turn (suc k) i (w ∷ ws) = do rest ← turn k (i + 1) ws; return (w ∷ rest)

  -- The threads run, with turns in the given order.
  unfoldable pub run : List ℕ → List Worker → Method BufferPool (List Worker)
  run [] ws = return ws
  run (k ∷ order) ws = do next ← turn k 0 ws; run order next

  abbrev pub spawned : ℕ → List Worker
  spawned threads = replicate threads (between 0)

  -- the threads in the end, and the statistics
  unfoldable pub test_buffer_pool_concurrency :
      ℕ → PoolConfig → List ℕ → Outcome (List Worker × PoolStats)
  test_buffer_pool_concurrency threads sizes order =
      block (Pool.new sizes)
        do ws ← run order (spawned threads); stats ← Pool.stats; return (ws, stats)
