-- ===== src/FastPool.antt =====
-- src/pool/fast.rs: the pool with a lock-free global queue and a cache per thread.
-- A call is modelled as one thread runs it, with no other thread in between; Queue interleaves the
-- atomic actions of the global queue, and Threads the steps of whole calls.
pub mod Queue
pub mod Interleave
pub mod Laws
pub mod Idle
pub mod Safety
pub mod Drain
pub mod Handles
pub mod Handle
mod UnitTests
pub mod State
pub mod Threads
pub mod Cache
pub mod Tests
use secbuf.Prelude.{
  ℕ, zero, suc, ◌-◌, min, Bool, true, Option, none, some, List, [], ◌∷◌, ◌++◌, map, length, ltb,
  if◌then◌else◌,
}
use secbuf.Machine.{add_size}
use secbuf.Error.{Outcome, ok, err, panic, undefined}
use secbuf.Zeroize.{Zeroize}
use secbuf.Buffer
use secbuf.Buffer.{Buffer}
use secbuf.Pool.Config.{PoolConfig}
use secbuf.FastPool.Queue.{SegQueue, LockFreeQueue, empty_queue, push, pop}

abbrev pub thread_cache_capacity : ℕ
thread_cache_capacity = 16

module _ (S : SegQueue) where
  -- `FastBufferPool`, its `FastPoolStatsInner` included
  pub record FastPool : Type 0 where
    pub global_pool : LockFreeQueue S
    pub config : PoolConfig
    pub allocated : ℕ
    pub acquired : ℕ
    pub returned : ℕ
    pub cache_hits : ℕ

  -- What a thread sees: a pool, and its `THREAD_CACHE`, a static that all pools share. The cache
  -- has the end of its vector first.
  pub record View : Type 0 where
    pub pool : FastPool
    pub cache : List Buffer

  -- `for _ in 0..count { queue.push(Buffer::new(size)) }`
  unfoldable pub push_new : ℕ → ℕ → LockFreeQueue S → Outcome (LockFreeQueue S)
  push_new zero size q = ok q
  push_new (suc count) size q = elim (Buffer.new size) [
    | ok b ↦ push_new count size (push S b q)
    | err e ↦ err e
    | panic ↦ panic
    | undefined ↦ undefined
  ]

  unfoldable pub new : PoolConfig → Outcome FastPool
  new config = elim (push_new config.min_pool_size config.buffer_size (empty_queue S)) [
    | ok q ↦ ok (record {
      global_pool = q;
      config = config;
      allocated = 0;
      acquired = 0;
      returned = 0;
      cache_hits = 0;
    })
    | err e ↦ err e
    | panic ↦ panic
    | undefined ↦ undefined
  ]

  -- the second and the third tier
  unfoldable pub acquire_shared : FastPool → Outcome Buffer × FastPool
  acquire_shared pool =
      let (popped, q) = pop S pool.global_pool in
      elim popped [
        | some b ↦ (ok b, record pool { global_pool = q })
        | none ↦ (
          Buffer.new pool.config.buffer_size,
          record pool { global_pool = q; allocated = add_size pool.allocated 1 },
        )
      ]

  unfoldable pub acquire : View → Outcome Buffer × View
  acquire s =
      let counted = record (s.pool) { acquired = add_size s.pool.acquired 1 } in
      elim s.cache [
        | b ∷ bs ↦ (
          ok b,
          record {
            pool = record counted { cache_hits = add_size counted.cache_hits 1 };
            cache = bs;
          },
        )
        | [] ↦ let (r, pool) = acquire_shared counted in (r, record { pool = pool; cache = [] })
      ]

  unfoldable pub available : FastPool → ℕ
  available pool = pool.global_pool.size

  -- `warm` counts its rounds from one look at the size.
  unfoldable pub warm : ℕ → FastPool → Outcome FastPool
  warm target_size pool =
      elim (push_new (min target_size pool.config.max_pool_size - pool.global_pool.size)
        pool.config.buffer_size pool.global_pool) [
          | ok q ↦ ok (record pool { global_pool = q })
          | err e ↦ err e
          | panic ↦ panic
          | undefined ↦ undefined
        ]

  module _ (z : Zeroize) where
    -- `while self.global_pool.pop().is_some() {}`, with the memory that it frees; `none` if the
    -- fuel is short.
    unfoldable pub drain : ℕ → LockFreeQueue S → Option (List (List ℕ) × LockFreeQueue S)
    drain zero q = none
    drain (suc fuel) q =
        let (popped, rest) = pop S q in
        elim popped [
          | none ↦ some ([], rest)
          | some b ↦ elim (drain fuel rest) [
            | none ↦ none
            | some r ↦ some (Buffer.drop_buffer z b ∷ r.0, r.1)
          ]
        ]

    -- A burned buffer goes to the global queue if that counts fewer than the maximum, and is freed
    -- otherwise.
    unfoldable pub push_or_free : Buffer → FastPool → List (List ℕ) × FastPool
    push_or_free b pool =
        if ltb pool.global_pool.size pool.config.max_pool_size
        then ([], record pool { global_pool = push S b pool.global_pool })
        else (Buffer.drop_buffer z b ∷ [], pool)

    -- `clear_thread_cache`
    unfoldable pub clear_thread_cache : List Buffer → FastPool → List (List ℕ) × FastPool
    clear_thread_cache [] pool = ([], pool)
    clear_thread_cache (b ∷ bs) pool =
        let this : List (List ℕ) × FastPool =
          (if ltb pool.global_pool.size pool.config.max_pool_size
            then ([], record pool { global_pool = push S b pool.global_pool })
            else (Buffer.drop_buffer z (Buffer.burn z b) ∷ [], pool)) in
        let rest = clear_thread_cache bs this.1 in (this.0 ++ rest.0, rest.1)

    -- `impl Drop for FastPooledBuffer`; the test is whether `try_with` reaches the cache.
    unfoldable pub drop_pooled : Bool → Option Buffer → View → List (List ℕ) × View
    drop_pooled tls none s = ([], s)
    drop_pooled tls (some buffer) s =
        let b = Buffer.burn z buffer in
        let counted = record (s.pool) { returned = add_size s.pool.returned 1 } in
        let has_room = ltb (length s.cache) thread_cache_capacity in
        if (if tls then has_room else tls)
        then ([], record { pool = counted; cache = b ∷ s.cache })
        else (let (freed, pool) = push_or_free b counted in
            (freed, record { pool = pool; cache = s.cache }))
