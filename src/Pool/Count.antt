-- ===== src/Pool/Count.antt =====
-- src/pool/standard.rs: what the counters of a pool count, whatever clients and owner do.
use secbuf.Prelude.{◌+◌, ◌<◌, ◌≡◌, refl, List, [], ◌∷◌, length, arith}
use secbuf.Machine.{usize_mod}
use secbuf.Error.{ok}
use secbuf.Zeroize.{Zeroize}
use secbuf.Pool.{PoolInner, PoolStats, stats, in_use}
use secbuf.Pool.Steps.{advance-IsSafe}
use secbuf.Pool.System.{
  System, Step, acquires, uses, turns, returns, leaks, discards, grows, shrinks, clears, run,
  AllUsesValid, IsSafe,
}

module _ (z : Zeroize) where
  uses_apart :
      (e : Step) (es : List Step) → AllUsesValid (e ∷ es) → AllUsesValid (e ∷ []) × AllUsesValid es
  uses_apart (uses b f) es w = ((w.0, tt), w.1)
  uses_apart acquires es w = (tt, w)
  uses_apart turns es w = (tt, w)
  uses_apart returns es w = (tt, w)
  uses_apart leaks es w = (tt, w)
  uses_apart discards es w = (tt, w)
  uses_apart (grows n) es w = (tt, w)
  uses_apart shrinks es w = (tt, w)
  uses_apart clears es w = (tt, w)

  -- Whatever steps clients and owner of a pool take, from a safe system with clients that keep
  -- their buffers valid: no call panics, every idle buffer is blank, all memory that the calls
  -- of the pool and of its pooled buffers free is zero, and the counters account for every
  -- buffer modulo 2^64. Of the memory that a held buffer gives up as its client makes it grow
  -- or shrink nothing is said.
  pub run-IsSafe :
      (es : List Step) (s : System)
      → AllUsesValid es
      → IsSafe s
      → (t : System) × (run z es s ≡ ok t) × IsSafe t
  unfolding run
  run-IsSafe [] s w v = (s, refl, v)
  run-IsSafe (e ∷ es) s w v =
      let (now, later) = uses_apart e es w in
      let (t, h, safe) = advance-IsSafe z e s now v in
      let (u, k, end) = run-IsSafe es t later safe in (u, rw (run, h) k, end)

-- In a safe system in which fewer than 2^64 buffers have been acquired, in_use is the number of
-- buffers held or gone, leaked ones included.
pub in_use_lem :
    (s : System)
    → IsSafe s
    → s.pool.inner.total_returned + length s.held + s.gone < usize_mod
    → (st : PoolStats) × (stats s.pool ≡ (ok st, s.pool))
      × (in_use st ≡ length s.held + s.gone)
      × (st.available ≡ length s.pool.inner.buffers)
unfolding stats in_use
in_use_lem s v small = (
  record {
    available = length inner.buffers;
    total_allocated = inner.total_allocated;
    total_acquired = inner.total_acquired;
    total_returned = inner.total_returned;
    buffer_size = inner.config.buffer_size;
    max_pool_size = inner.config.max_pool_size;
  },
  rw v.pool.unpoisoned refl,
  omega (arith, v.counted),
  refl,
)
  where
    inner : PoolInner
    inner = s.pool.inner
