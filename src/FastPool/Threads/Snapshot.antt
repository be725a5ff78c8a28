-- ===== src/FastPool/Threads/Snapshot.antt =====
-- src/pool/fast.rs: `stats` while other threads go on between its loads.
use secbuf.Prelude.{
  ℕ, zero, suc, ◌+◌, ◌≤◌, ◌<◌, ◌≡◌, refl, ap, ◌∙◌, Option, none, List, [], ◌∷◌, length, replicate,
  arith,
}
use secbuf.Machine.{usize_mod, add_size}
use secbuf.Error.{ok}
use secbuf.Zeroize.{Zeroize}
use secbuf.Buffer
use secbuf.Buffer.{Buffer, buf_max_size}
use secbuf.Pool.Config.{PoolConfig}
use secbuf.Pool.Idle.{fresh, new_lem}
use secbuf.FastPool.Queue.{SegQueue, take_first}
use secbuf.FastPool.{FastPool, new}
use secbuf.FastPool.State.{Thread, Shared, idle, popped, without_first}
use secbuf.FastPool.Threads.{
  System, Reached, at, opened, acquire_hit, acquire_miss, count_hit, pop_none, allocate,
  return_cached, moves, start, then,
}
use secbuf.FastPool.Threads.Opened.{new-IsQueue}
use secbuf.FastPool.Threads.Statistics.{stats_of, new_counts}

nothing_in : (xs : List Buffer) → length xs ≡ 0 → xs ≡ []
nothing_in [] e = refl
nothing_in (x ∷ xs) e = absurd (omega (arith, e))

module _ (S : SegQueue) (z : Zeroize) (config : PoolConfig) (cap : ℕ) (others : List Thread) where
  -- a thread that holds nothing, with the buffers in its cache
  abbrev resting : Shared S → List Buffer → System S z config
  resting m c = record { shared = m; threads = at S z config idle c [] ∷ others }

  -- Rounds of `acquire` and return, each with a hit in the cache.
  hit_rounds :
      (k : ℕ) (m : Shared S) (b : Buffer)
      → m.cache_hits + k < usize_mod
      → (m' : Shared S) × (b' : Buffer) × Reached S z config cap
          (resting m (b ∷ []))
          (resting m' (b' ∷ []))
        × (m'.cache_hits ≡ m.cache_hits + k)
  hit_rounds zero m b small = (m, b, start, omega arith)
  hit_rounds (suc k) m b small =
      let (m0, b0, p, e) = hit_rounds k m b (omega arith) in
      let m1 : Shared S = record m0 { acquired = add_size m0.acquired 1 } in
      let m2 : Shared S = record m1 { cache_hits = add_size m1.cache_hits 1 } in
      let m3 : Shared S = record m2 { returned = add_size m2.returned 1 } in
      (
        m3,
        Buffer.burn z b0,
        then
            (then (then p (moves [] others (acquire_hit m0 b0 [] [])))
              (moves [] others (count_hit m1 b0 [] [])))
            (moves [] others (return_cached m2 b0 [] [] refl)),
        omega (arith, e),
      )

  -- A first `acquire` on an empty queue allocates, and the buffer goes into the cache.
  first_round :
      (m : Shared S)
      → config.buffer_size ≤ buf_max_size
      → popped S m ≡ none
      → m.acquired ≡ 0
      → m.cache_hits ≡ 0
      → (m' : Shared S) × (b : Buffer) × Reached S z config cap (resting m []) (resting m' (b ∷ []))
        × (m'.acquired ≡ 1)
        × (m'.cache_hits ≡ 0)
  first_round m size none_idle acquired hits =
      let b = fresh config.buffer_size in
      let m1 : Shared S = record m { acquired = add_size m.acquired 1 } in
      let m2 = without_first S m1 in
      let m3 : Shared S = record m2 { allocated = add_size m2.allocated 1 } in
      let m4 : Shared S = record m3 { returned = add_size m3.returned 1 } in
      (
        m4,
        Buffer.burn z b,
        then
            (then
              (then (then start (moves [] others (acquire_miss m [])))
                (moves [] others (pop_none m1 [] [] none_idle)))
              (moves [] others (allocate m2 b [] [] (new_lem config.buffer_size size))))
            (moves [] others (return_cached m3 b [] [] refl)),
        omega (arith, acquired),
        hits,
      )

module _ (S : SegQueue) (z : Zeroize) (config : PoolConfig) where
  -- For any k below 2^64, on an empty pool that new has made, with a buffer size within the
  -- maximum, stats can report one acquire and k cache hits: other threads go on between its
  -- load of acquired and its load of cache_hits.
  pub hits_outrun_acquires :
      (cap n k : ℕ) (pool : FastPool S)
      → new S config ≡ ok pool
      → config.min_pool_size ≡ 0
      → config.buffer_size ≤ buf_max_size
      → k < usize_mod
      → (at_len at_allocated at_returned : Shared S)
      → (s t : System S z config) × Reached S z config cap (opened S z config (suc n) pool) s
        × Reached S z config cap s t
        × ((stats_of S at_len at_allocated s.shared at_returned t.shared).acquired ≡ 1)
        × ((stats_of S at_len at_allocated s.shared at_returned t.shared).cache_hits ≡ k)
  hits_outrun_acquires cap n k pool made none_made size small at_len at_allocated at_returned =
      let (v, few) = new-IsQueue S config pool made size (omega (arith, none_made)) in
      let (a, h) = new_counts S z config pool made in
      let others = replicate n (at S z config idle [] []) in
      let m = (opened S z config (suc n) pool).shared in
      let empty : S.items pool.global_pool.items ≡ [] =
        nothing_in (S.items pool.global_pool.items) (omega (arith, v.counted, few, none_made)) in
      let law : ◌≡◌ {A = Option Buffer × List Buffer}
          ((S.pop pool.global_pool.items).0, S.items (S.pop pool.global_pool.items).1) (none, []) =
        S.items-pop pool.global_pool.items ∙ ap take_first empty in
      let (m1, b, p, one, zero_hits) =
        first_round S z config cap others m size (ap (λ r. r.0) law) a h in
      let (m2, b', q, e) =
        hit_rounds S z config cap others k m1 b (omega (arith, zero_hits, small)) in
      (
        resting S z config cap others m1 (b ∷ []),
        resting S z config cap others m2 (b' ∷ []),
        p,
        q,
        one,
        omega (arith, e, zero_hits),
      )
