-- ===== src/FastPool/Threads/Serial.antt =====
-- src/pool/fast.rs: the calls as one thread runs them alone, beside the steps of interleaved threads.
pub mod Unfold
pub mod Paths
pub mod Calls
use secbuf.Prelude.{
  ℕ, zero, suc, ◌-◌, ◌≤◌, ◌≡◌, ◌⊎◌, refl, sym, ap, subst, ◌∙◌, min, inl, inr, Bool, true, false,
  Bool-cases, Option-cases, Option, none, some, List, [], ◌∷◌, length, ltb, arith,
}
use secbuf.Machine.{add_size, sub_size}
use secbuf.Error.{Outcome, ok, err, panic, undefined}
use secbuf.Zeroize.{Zeroize}
use secbuf.Buffer
use secbuf.Buffer.{Buffer}
use secbuf.Pool.Config.{PoolConfig}
use secbuf.FastPool.Queue.{SegQueue, LockFreeQueue, push, pop}
use secbuf.FastPool.{
  FastPool, View, acquire, acquire_shared, push_or_free, drop_pooled, clear_thread_cache, push_new,
  warm, drain, thread_cache_capacity,
}
use secbuf.FastPool.Handles.{fast_clear}
use secbuf.FastPool.State.{
  Phase, Thread, Shared, popped, without_first, with_last, lowered, raised, idle, missed, dry,
  taken, returning, flushing, warming, pushing, entered, draining, lowering, done, flush, warm_on,
}
use secbuf.FastPool.Threads.{
  Move, at, has_room, in_cache, acquire_hit, acquire_miss, count_hit, pop_some, pop_none,
  count_taken, allocate, return_cached, return_shared, return_queued, return_freed, push_item,
  count_push, flush_start, flush_queued, flush_freed, flush_end, warm_start, warm_push, warm_end,
  clear_start, clear_pop, clear_count, clear_end,
}

module _ (S : SegQueue) (z : Zeroize) where
  -- what the threads share of a pool
  abbrev pub snapshot : FastPool S → Shared S
  snapshot pool = record {
    queue = pool.global_pool;
    allocated = pool.allocated;
    acquired = pool.acquired;
    returned = pool.returned;
    cache_hits = pool.cache_hits;
  }

  -- Steps of one thread with no other in between.
  pub data Solo (config : PoolConfig) (cap : ℕ) (m : Shared S) (t : Thread)
      : Shared S → Thread → Type 0 where
    stay : Solo config cap m t m t
    on :
        {m' m'' : Shared S} {t' t'' : Thread}
        → Solo config cap m t m' t'
        → Move S z config cap m' t' m'' t''
        → Solo config cap m t m'' t''

  -- A call that a thread runs alone: `returns` drops the buffer that it acquired last, with whether
  -- `try_with` reaches the cache.
  pub data Call : Type 0 where
    acquires : Call
    returns : Bool → Call
    flushes : Call
    warms : ℕ → Call
    clears : ℕ → Call

  -- What it leaves, `none` if it does not come back.
  abbrev pub serve :
      Call
      → FastPool S
      → List Buffer
      → List Buffer
      → Option (FastPool S × List Buffer × List Buffer)
  serve acquires pool c h =
      let (r, t) = acquire S (record { pool = pool; cache = c }) in
      elim r [
        | ok b ↦ some (t.pool, t.cache, b ∷ h)
        | err e ↦ none
        | panic ↦ none
        | undefined ↦ none
      ]
  serve (returns tls) pool c [] = none
  serve (returns tls) pool c (b ∷ h) =
      let (_, t) = drop_pooled S z tls (some b) (record { pool = pool; cache = c }) in
      some (t.pool, t.cache, h)
  serve flushes pool c h = some ((clear_thread_cache S z c pool).1, [], h)
  serve (warms target) pool c h = elim (warm S target pool) [
    | ok next ↦ some (next, c, h)
    | err e ↦ none
    | panic ↦ none
    | undefined ↦ none
  ]
  serve (clears fuel) pool c h = elim (fast_clear S z fuel pool) [
    | none ↦ none
    | some r ↦ some (r.1, c, h)
  ]

  -- the size that it warms the pool to
  abbrev pub target_of : Call → ℕ
  target_of (warms target) = target
  target_of _ = 0
