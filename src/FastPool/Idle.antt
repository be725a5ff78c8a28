-- ===== src/FastPool/Idle.antt =====
-- src/pool/fast.rs: the state of a pool that one thread uses, and what `acquire` gets behind the cache.
use secbuf.Prelude.{◌≤◌, ◌<◌, ◌≡◌, refl, sym, ap, ◌∙◌, max, Option, none, some, length, arith}
use secbuf.Machine.{add_size, usize_mod}
use secbuf.Error.{ok}
use secbuf.Buffer.{Buffer, buf_max_size}
use secbuf.Pool.Idle.{IsBlank, AllBlank, fresh, new_lem, fresh-IsBlank}
use secbuf.FastPool.Queue.{SegQueue, LockFreeQueue, pop}
use secbuf.FastPool.{FastPool, View, acquire_shared, thread_cache_capacity}
use secbuf.FastPool.Laws.{IsQueue, Popped, pop_lem, first-IsBlank}

module _ (S : SegQueue) where
  -- The global queue of a pool that no other thread uses meanwhile.
  pub record IsIdle (pool : FastPool S) : Type 0 where
    pub queue : IsQueue S pool.global_pool
    pub few : pool.global_pool.size ≤ max pool.config.max_pool_size pool.config.min_pool_size
    pub bounded : max pool.config.max_pool_size pool.config.min_pool_size < usize_mod
    pub size : pool.config.buffer_size ≤ buf_max_size

  pub record IsView (s : View S) : Type 0 where
    pub pool : IsIdle s.pool
    pub blank : AllBlank s.cache
    pub few : length s.cache ≤ thread_cache_capacity

  pub acquire_shared_lem :
      (pool : FastPool S)
      → IsIdle pool
      → (b : Buffer) × (next : FastPool S) × (acquire_shared S pool ≡ (ok b, next))
        × IsBlank b
        × IsIdle next
  unfolding acquire_shared
  acquire_shared_lem pool v = go (pop S pool.global_pool).0 refl
    where
      q : LockFreeQueue S
      q = (pop S pool.global_pool).1

      popped : Popped S pool.global_pool (pop S pool.global_pool).0 q
      popped = pop_lem S pool.global_pool v.queue (omega (arith, v.few, v.bounded))

      go :
          (r : Option Buffer)
          → (pop S pool.global_pool).0 ≡ r
          → (b : Buffer) × (next : FastPool S) × (acquire_shared S pool ≡ (ok b, next))
            × IsBlank b
            × IsIdle next
      go none h = (
        fresh pool.config.buffer_size,
        record pool { global_pool = q; allocated = add_size pool.allocated 1 },
        rw (acquire_shared, h, new_lem pool.config.buffer_size v.size) refl,
        fresh-IsBlank pool.config.buffer_size v.size,
        record {
          queue = popped.queue;
          few = omega (arith, popped.smaller, v.few);
          bounded = v.bounded;
          size = v.size;
        },
      )
      go (some b) h = (
        b,
        record pool { global_pool = q },
        rw (acquire_shared, h) refl,
        first-IsBlank b (S.items pool.global_pool.items) (S.items q.items)
            (ap (λ r. (r, S.items q.items)) (sym h) ∙ popped.taken) v.queue.blank,
        record {
          queue = popped.queue;
          few = omega (arith, popped.smaller, v.few);
          bounded = v.bounded;
          size = v.size;
        },
      )
