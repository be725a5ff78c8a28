-- ===== src/FastPool/Threads/Statistics.antt =====
-- src/pool/fast.rs and src/pool/stats.rs: what the counters of the statistics count, in any order of the
-- threads' steps.
use secbuf.Prelude.{
  ℕ, zero, suc, ◌⊎◌, inl, inr, Bool-cases, ◌==◌, ◌+◌, ◌^◌, ◌≤◌, ◌<◌, ◌≡◌, refl, sym, ap, List, [],
  ◌∷◌, replicate, arith,
}
use secbuf.Machine.{usize_mod}
use secbuf.Error.{Outcome, ok, err, panic, undefined}
use secbuf.Zeroize.{Zeroize}
use secbuf.Pool.Config.{PoolConfig}
use secbuf.Pool.Rates.{cache_hit_rate, share_lem}
use secbuf.Float.{IsPercentage}
use secbuf.FastPool.Queue.{SegQueue, LockFreeQueue, empty_queue}
use secbuf.FastPool.{FastPool, new, push_new}
use secbuf.FastPool.Handles.{FastPoolStats}
use secbuf.FastPool.State.{Phase, Next, Thread, Shared, idle, hit, resume, done, flush, warm_on}
use secbuf.FastPool.Threads.{
  Move, System, Reached, at, opened, acquire_hit, acquire_miss, count_hit, pop_some, pop_none,
  count_taken, allocate, uses, turns, leaves, receives, other_takes, other_returns, return_cached,
  return_shared, return_queued, return_freed, push_item, count_push, flush_start, flush_queued,
  flush_freed, flush_end, warm_start, warm_push, warm_end, clear_start, clear_pop, clear_count,
  clear_end, moves, start, then,
}
use secbuf.FastPool.Threads.Count.{total, total-append}

-- a thread that has counted its call and not yet its cache hit
abbrev hitting : Phase → ℕ
hitting (hit b) = 1
hitting _ = 0

abbrev hits : List Thread → ℕ
hits = total (λ t. hitting t.phase)

hitting-resume : (n : Next) → hitting (resume n) ≡ 0
hitting-resume done = refl
hitting-resume flush = refl
hitting-resume (warm_on k) = refl

module _ (S : SegQueue) where
  -- `FastBufferPool::stats` loads the counters one after the other, each from the memory that it finds
  -- then; other threads go on in between.
  abbrev pub stats_of : Shared S → Shared S → Shared S → Shared S → Shared S → FastPoolStats
  stats_of at_len at_allocated at_acquired at_returned at_hits = record {
    available = at_len.queue.size;
    allocated = at_allocated.allocated;
    acquired = at_acquired.acquired;
    returned = at_returned.returned;
    cache_hits = at_hits.cache_hits;
    thread_local_lost = 0;
  }

  module _ (z : Zeroize) (config : PoolConfig) where
    -- whether a step is the first of an `acquire`
    abbrev pub acquires_in :
        {cap : ℕ} {m m' : Shared S} {t t' : Thread} → Move S z config cap m t m' t' → ℕ
    acquires_in (acquire_hit m b c h) = 1
    acquires_in (acquire_miss m h) = 1
    acquires_in _ = 0

    abbrev pub acquires_of :
        {cap : ℕ} {from s : System S z config} → Reached S z config cap from s → ℕ
    acquires_of start = 0
    acquires_of (then p (moves before after mv)) = acquires_of p + acquires_in mv

    Move-counts :
        {cap : ℕ} {m m' : Shared S} {t t' : Thread} (x : ℕ) (mv : Move S z config cap m t m' t')
        → m.acquired + acquires_in mv < usize_mod
        → m.cache_hits + hitting t.phase + x ≤ m.acquired
        → (m'.acquired ≡ m.acquired + acquires_in mv)
          × (m'.cache_hits + hitting t'.phase + x ≤ m'.acquired)
    Move-counts x (acquire_hit m b c h) small v = omega (arith, small, v)
    Move-counts x (acquire_miss m h) small v = omega (arith, small, v)
    Move-counts x (count_hit m b c h) small v = omega (arith, small, v)
    Move-counts x (pop_some m b c h e) small v = omega (arith, small, v)
    Move-counts x (pop_none m c h e) small v = omega (arith, small, v)
    Move-counts x (count_taken m b c h) small v = omega (arith, small, v)
    Move-counts x (allocate m b c h e) small v = omega (arith, small, v)
    Move-counts x (uses m b b' c h w) small v = omega (arith, small, v)
    Move-counts x (turns m b c h) small v = omega (arith, small, v)
    Move-counts x (leaves m b c h) small v = omega (arith, small, v)
    Move-counts x (receives m b c h w) small v = omega (arith, small, v)
    Move-counts x (other_takes m b c h) small v = omega (arith, small, v)
    Move-counts x (other_returns m b c h w e) small v = omega (arith, small, v)
    Move-counts x (return_cached m b c h e) small v = omega (arith, small, v)
    Move-counts x (return_shared m tls b c h e) small v = omega (arith, small, v)
    Move-counts x (return_queued m b c h e) small v = omega (arith, small, v)
    Move-counts x (return_freed m b c h e) small v = omega (arith, small, v)
    Move-counts x (push_item m b n c h) small v = omega (arith, small, v)
    Move-counts x (count_push m n c h) small v = omega (arith, small, v, hitting-resume n)
    Move-counts x (flush_start m c h) small v = omega (arith, small, v)
    Move-counts x (flush_queued m b c h e) small v = omega (arith, small, v)
    Move-counts x (flush_freed m b c h e) small v = omega (arith, small, v)
    Move-counts x (flush_end m h) small v = omega (arith, small, v)
    Move-counts x (warm_start m n c h le) small v = omega (arith, small, v)
    Move-counts x (warm_push m b k c h e) small v = omega (arith, small, v)
    Move-counts x (warm_end m c h) small v = omega (arith, small, v)
    Move-counts x (clear_start m c h) small v = omega (arith, small, v)
    Move-counts x (clear_pop m b c h e) small v = omega (arith, small, v)
    Move-counts x (clear_count m c h) small v = omega (arith, small, v)
    Move-counts x (clear_end m c h e) small v = omega (arith, small, v)

    Reached-counts :
        {cap : ℕ} {from s : System S z config} (path : Reached S z config cap from s)
        → from.shared.cache_hits + hits from.threads ≤ from.shared.acquired
        → from.shared.acquired + acquires_of path < usize_mod
        → (s.shared.acquired ≡ from.shared.acquired + acquires_of path)
          × (s.shared.cache_hits + hits s.threads ≤ s.shared.acquired)
    Reached-counts start v small = (omega arith, v)
    Reached-counts (then p (moves before after {m} {m'} {t} {t'} mv)) v small =
        let (counted, within) = Reached-counts p v (omega (arith, small)) in
        let old = total-append (λ t. hitting t.phase) before (t ∷ after) in
        let next = total-append (λ t. hitting t.phase) before (t' ∷ after) in
        let (a, b) =
          Move-counts (hits before + hits after) mv (omega (arith, counted, small))
            (omega (arith, within, old)) in
        (omega (arith, a, counted), omega (arith, b, next))

    rest_hits : (n : ℕ) → hits (replicate n (at S z config idle [] [])) ≡ 0
    rest_hits zero = refl
    rest_hits (suc n) = omega (arith, rest_hits n)

    -- a pool with a queue, and all counters at 0
    abbrev uncalled : LockFreeQueue S → FastPool S
    uncalled q = record {
      global_pool = q;
      config = config;
      allocated = 0;
      acquired = 0;
      returned = 0;
      cache_hits = 0;
    }

    made_counts :
        (r : Outcome (LockFreeQueue S)) (pool : FastPool S)
        → ◌≡◌ {A = Outcome (FastPool S)}
            (elim r [
              | ok q ↦ ok (uncalled q)
              | err e ↦ err e
              | panic ↦ panic
              | undefined ↦ undefined
            ])
            (ok pool)
        → (pool.acquired ≡ 0) × (pool.cache_hits ≡ 0)
    made_counts (ok q) pool e =
        let same : uncalled q ≡ pool = cc in
        (ap (λ p. p.acquired) (sym same), ap (λ p. p.cache_hits) (sym same))
    made_counts (err x) pool e = cc
    made_counts panic pool e = cc
    made_counts undefined pool e = cc

    pub new_counts :
        (pool : FastPool S) → new S config ≡ ok pool → (pool.acquired ≡ 0) × (pool.cache_hits ≡ 0)
    unfolding new
    new_counts pool made =
        made_counts (push_new S config.min_pool_size config.buffer_size (empty_queue S)) pool made

    -- In whatever order any number of threads take the steps of their calls on a pool that
    -- new has made, with fewer than 2^53 acquires in all: a stats call that loads its
    -- counters one after the other meanwhile reports every acquire begun before its load of
    -- acquired, no more cache hits than acquires begun before its load of cache_hits, and a
    -- cache hit rate between 0 and 100 unless an acquire begins between these two loads.
    pub statistics_count :
        {cap : ℕ} (n : ℕ) (pool : FastPool S) {s t : System S z config}
        → new S config ≡ ok pool
        → (path : Reached S z config cap (opened S z config n pool) s)
        → (more : Reached S z config cap s t) → acquires_of path + acquires_of more < 2 ^ 53
        → (at_len at_allocated at_returned : Shared S)
        → let st = stats_of at_len at_allocated s.shared at_returned t.shared in
          (st.acquired ≡ acquires_of path)
          × (st.cache_hits ≤ acquires_of path + acquires_of more)
          × ((0 < acquires_of more) ⊎ IsPercentage (cache_hit_rate st))
    unfolding cache_hit_rate
    statistics_count n pool {s} {t} made path more few at_len at_allocated at_returned =
        let (e, f) = new_counts pool made in
        let (a, b) = Reached-counts path (omega (arith, f, rest_hits n)) (omega (arith, e, few)) in
        let (c, d) = Reached-counts more b (omega (arith, a, e, few)) in
        let st = stats_of at_len at_allocated s.shared at_returned t.shared in
        (
          omega (arith, a, e),
          omega (arith, a, c, d, e),
          elim (Bool-cases (acquires_of more == 0)) [
            | inl none_more ↦ inr (
                share_lem st.cache_hits st.acquired (ground (arith, a, c, d, e, none_more))
                  (omega (arith, a, e, few)))
            | inr some_more ↦ inl (ground (arith, some_more))
          ],
        )
