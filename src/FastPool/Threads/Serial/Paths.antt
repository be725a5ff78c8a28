-- ===== src/FastPool/Threads/Serial/Paths.antt =====
-- src/pool/fast.rs: the steps of each call that runs alone.
use secbuf.Prelude.{
  ℕ, zero, suc, ◌≡◌, refl, subst, inl, inr, Bool, true, false, Bool-cases, Option-cases, some, List,
  [], ◌∷◌, length, ltb,
}
use secbuf.Machine.{add_size}
use secbuf.Error.{ok}
use secbuf.Zeroize.{Zeroize}
use secbuf.Buffer
use secbuf.Buffer.{Buffer}
use secbuf.Pool.Config.{PoolConfig}
use secbuf.FastPool.Queue.{SegQueue, LockFreeQueue, push}
use secbuf.FastPool.{
  FastPool, acquire, acquire_shared, push_or_free, drop_pooled, clear_thread_cache, push_new, drain,
  thread_cache_capacity,
}
use secbuf.FastPool.State.{
  Thread, Shared, without_first, with_last, lowered, idle, missed, returning, flushing, warming,
  draining, done, flush, warm_on,
}
use secbuf.FastPool.Threads.{
  Move, at, acquire_hit, acquire_miss, count_hit, pop_some, pop_none, count_taken, allocate,
  return_cached, return_shared, return_queued, return_freed, push_item, count_push, flush_queued,
  flush_freed, flush_end, warm_push, warm_end, clear_pop, clear_count, clear_end,
}
use secbuf.FastPool.Threads.Serial.{Solo, stay, on, snapshot}
use secbuf.FastPool.Threads.Serial.Unfold.{
  same_buffer, same_queue, shared-none, shared-some, push_one, drain_one, after_pop,
}

module _ (S : SegQueue) (z : Zeroize) where
  pub ahead :
      {config : PoolConfig} {cap : ℕ} {m m' : Shared S} {t t' : Thread} {m'' : Shared S}
      {t'' : Thread}
      → Move S z config cap m t m' t'
      → Solo S z config cap m' t' m'' t''
      → Solo S z config cap m t m'' t''
  ahead mv stay = on stay mv
  ahead mv (on p last) = on (ahead mv p) last

  module _ (cap : ℕ) (h : List Buffer) where
    shared_path :
        (pool : FastPool S) (b : Buffer)
        → (acquire_shared S pool).0 ≡ ok b
        → Solo S z pool.config cap
            (snapshot S z pool)
            (at S z pool.config missed [] h)
            (snapshot S z (acquire_shared S pool).1)
            (at S z pool.config idle [] (b ∷ h))
    shared_path pool b = elim (Option-cases (S.pop pool.global_pool.items).0) [
      | inl e ↦
          rw (shared-none S z pool e)
            (λ fresh. on (on stay (pop_none (snapshot S z pool) [] h e)) (allocate _ b [] h fresh))
      | inr (c, e) ↦ rw (shared-some S z pool e) (λ got.
          let same : c ≡ b = same_buffer S z got in
          subst
            (λ x.
              Solo S z pool.config cap (snapshot S z pool) (at S z pool.config missed [] h)
                (lowered S (without_first S (snapshot S z pool)))
                (at S z pool.config idle [] (x ∷ h)))
            same (on (on stay (pop_some (snapshot S z pool) c [] h e)) (count_taken _ c [] h)))
    ]

    pub acquire_path :
        (pool : FastPool S) (c : List Buffer) (b : Buffer)
        → (acquire S (record { pool = pool; cache = c })).0 ≡ ok b
        → let t = (acquire S (record { pool = pool; cache = c })).1 in
          Solo S z pool.config cap
            (snapshot S z pool)
            (at S z pool.config idle c h)
            (snapshot S z t.pool)
            (at S z pool.config idle t.cache (b ∷ h))
    unfolding acquire
    acquire_path pool (x ∷ c) b got =
        let same : x ≡ b = same_buffer S z got in
        subst
          (λ y.
            Solo S z pool.config cap (snapshot S z pool) (at S z pool.config idle (x ∷ c) h)
              (record (snapshot S z pool) {
                acquired = add_size pool.acquired 1;
                cache_hits = add_size pool.cache_hits 1;
              })
              (at S z pool.config idle c (y ∷ h)))
          same (on (on stay (acquire_hit (snapshot S z pool) x c h)) (count_hit _ x c h))
    acquire_path pool [] b got =
        ahead (acquire_miss (snapshot S z pool) h)
          (shared_path (record pool { acquired = add_size pool.acquired 1 }) b got)

    -- A burned buffer on its way to the queue.
    return_path :
        (pool : FastPool S) (b : Buffer) (c : List Buffer)
        → Solo S z pool.config cap
            (snapshot S z pool)
            (at S z pool.config (returning b) c h)
            (snapshot S z (push_or_free S z b pool).1)
            (at S z pool.config idle c h)
    unfolding push_or_free push
    return_path pool b c = elim (Bool-cases (ltb pool.global_pool.size pool.config.max_pool_size)) [
      | inl e ↦
          rw (push_or_free, e)
            (on (on (on stay (return_queued (snapshot S z pool) b c h e)) (push_item _ b done c h))
              (count_push _ done c h))
      | inr e ↦ rw (push_or_free, e) (on stay (return_freed (snapshot S z pool) b c h e))
    ]

    pub drop_path :
        (tls : Bool) (pool : FastPool S) (b : Buffer) (c : List Buffer)
        → let t = (drop_pooled S z tls (some b) (record { pool = pool; cache = c })).1 in
          Solo S z pool.config cap
            (snapshot S z pool)
            (at S z pool.config idle c (b ∷ h))
            (snapshot S z t.pool)
            (at S z pool.config idle t.cache h)
    unfolding drop_pooled
    drop_path false pool b c =
        ahead (return_shared (snapshot S z pool) false b c h refl)
          (return_path (record pool { returned = add_size pool.returned 1 }) (Buffer.burn z b) c)
    drop_path true pool b c = elim (Bool-cases (ltb (length c) thread_cache_capacity)) [
      | inl e ↦ rw (drop_pooled, e) (on stay (return_cached (snapshot S z pool) b c h e))
      | inr e ↦
          rw (drop_pooled, e)
            (ahead (return_shared (snapshot S z pool) true b c h e) (
              return_path (record pool { returned = add_size pool.returned 1 }) (Buffer.burn z b)
                c))
    ]

    pub flush_path :
        (pool : FastPool S) (c : List Buffer)
        → Solo S z pool.config cap
            (snapshot S z pool)
            (at S z pool.config flushing c h)
            (snapshot S z (clear_thread_cache S z c pool).1)
            (at S z pool.config idle [] h)
    unfolding clear_thread_cache push
    flush_path pool [] = on stay (flush_end (snapshot S z pool) h)
    flush_path pool (b ∷ c) =
        elim (Bool-cases (ltb pool.global_pool.size pool.config.max_pool_size)) [
          | inl e ↦
              rw (clear_thread_cache, e)
                (ahead (flush_queued (snapshot S z pool) b c h e) (
                  ahead (push_item (snapshot S z pool) b flush c h) (
                    ahead (count_push (with_last S b (snapshot S z pool)) flush c h)
                      (flush_path (record pool { global_pool = push S b pool.global_pool }) c))))
          | inr e ↦
              rw (clear_thread_cache, e)
                (ahead (flush_freed (snapshot S z pool) b c h e) (flush_path pool c))
        ]

    -- `warm`, with `k` buffers to push
    pub warm_path :
        (k : ℕ) (pool : FastPool S) (c : List Buffer) (q : LockFreeQueue S)
        → push_new S k pool.config.buffer_size pool.global_pool ≡ ok q
        → Solo S z pool.config cap
            (snapshot S z pool)
            (at S z pool.config (warming k) c h)
            (snapshot S z (record pool { global_pool = q }))
            (at S z pool.config idle c h)
    unfolding push_new push
    warm_path zero pool c q made =
        let same : pool.global_pool ≡ q = same_queue S z made in
        subst
          (λ r.
            Solo S z pool.config cap (snapshot S z pool) (at S z pool.config (warming zero) c h)
              (snapshot S z (record pool { global_pool = r })) (at S z pool.config idle c h))
          same (on stay (warm_end (snapshot S z pool) c h))
    warm_path (suc k) pool c q made =
        let (b, fresh, rest) = push_one S z k pool.config.buffer_size pool.global_pool q made in
        ahead (warm_push (snapshot S z pool) b k c h fresh) (
          ahead (push_item (snapshot S z pool) b (warm_on k) c h) (
            ahead (count_push (with_last S b (snapshot S z pool)) (warm_on k) c h)
              (warm_path k (record pool { global_pool = push S b pool.global_pool }) c q rest)))

    -- `clear`
    pub clear_path :
        (fuel : ℕ) (pool : FastPool S) (c : List Buffer) (freed : List (List ℕ))
        (q : LockFreeQueue S)
        → drain S z fuel pool.global_pool ≡ some (freed, q)
        → Solo S z pool.config cap
            (snapshot S z pool)
            (at S z pool.config draining c h)
            (snapshot S z (record pool { global_pool = q }))
            (at S z pool.config idle c h)
    unfolding drain
    clear_path zero pool c freed q e = cc
    clear_path (suc fuel) pool c freed q e = elim (drain_one S z fuel pool.global_pool freed q e) [
      | inl (nothing, same) ↦
          subst
            (λ r.
              Solo S z pool.config cap (snapshot S z pool) (at S z pool.config draining c h)
                (snapshot S z (record pool { global_pool = r })) (at S z pool.config idle c h))
            same (on stay (clear_end (snapshot S z pool) c h nothing))
      | inr (b, more, something, rest) ↦ ahead (clear_pop (snapshot S z pool) b c h something) (
          ahead (clear_count (without_first S (snapshot S z pool)) c h) (
            clear_path fuel (record pool { global_pool = after_pop S z pool.global_pool }) c more q
              rest))
    ]
