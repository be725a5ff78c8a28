-- ===== src/FastPool/Threads.antt =====
-- src/pool/fast.rs: the calls of any number of threads on one `FastBufferPool`, interleaved at each
-- access to what they share. A step makes at most one such access, with what the thread does to its
-- own cache and buffers beside it.
pub mod Count
pub mod Opened
pub mod Bound
pub mod Serial
mod Tests
pub mod Warm
pub mod Progress
pub mod Blank
pub mod Limit
pub mod Population
pub mod Statistics
pub mod Snapshot
pub mod Quiet
use secbuf.Prelude.{
  ℕ, zero, suc, ◌+◌, ◌-◌, ◌≤◌, ◌≡◌, min, Bool, true, false, Option, none, some, List, [], ◌∷◌, ◌++◌,
  length, replicate, ltb, if◌then◌else◌,
}
use secbuf.Machine.{add_size, sub_size}
use secbuf.Error.{ok}
use secbuf.Zeroize.{Zeroize}
use secbuf.Buffer
use secbuf.Buffer.{Buffer}
use secbuf.Buffer.Valid.{IsValid}
use secbuf.Pool.Config.{PoolConfig}
use secbuf.FastPool.Queue.{SegQueue, LockFreeQueue}
use secbuf.FastPool.{FastPool, thread_cache_capacity}
use secbuf.FastPool.State.{
  Next, done, flush, warm_on, Phase, idle, hit, missed, taken, dry, returning, flushing, warming,
  pushing, entered, draining, lowering, resume, Thread, Shared, popped, without_first, with_last,
  raised, lowered,
}

module _ (S : SegQueue) where
  module _ (z : Zeroize) (config : PoolConfig) where
    -- the test `len() < max_pool_size`
    abbrev pub has_room : Shared S → Bool
    has_room m = ltb m.queue.size config.max_pool_size

    abbrev pub in_cache : Bool → List Buffer → Bool
    in_cache tls c = if tls then ltb (length c) thread_cache_capacity else tls

    abbrev pub at : Phase → List Buffer → List Buffer → Thread
    at p c h = record { phase = p; cache = c; held = h }

    -- One step of a thread, from `m` and `t`. `warm` is called with a target of `cap` at most.
    pub data Move (cap : ℕ) : Shared S → Thread → Shared S → Thread → Type 0 where
      -- `acquire`
      acquire_hit :
          (m : Shared S) (b : Buffer) (c h : List Buffer)
          → Move cap m
              (at idle (b ∷ c) h)
              (record m { acquired = add_size m.acquired 1 })
              (at (hit b) c h)
      acquire_miss :
          (m : Shared S) (h : List Buffer)
          → Move cap m
              (at idle [] h)
              (record m { acquired = add_size m.acquired 1 })
              (at missed [] h)
      count_hit :
          (m : Shared S) (b : Buffer) (c h : List Buffer)
          → Move cap m
              (at (hit b) c h)
              (record m { cache_hits = add_size m.cache_hits 1 })
              (at idle c (b ∷ h))
      pop_some :
          (m : Shared S) (b : Buffer) (c h : List Buffer)
          → popped S m ≡ some b
          → Move cap m (at missed c h) (without_first S m) (at (taken b) c h)
      pop_none :
          (m : Shared S) (c h : List Buffer)
          → popped S m ≡ none
          → Move cap m (at missed c h) (without_first S m) (at dry c h)
      count_taken :
          (m : Shared S) (b : Buffer) (c h : List Buffer)
          → Move cap m (at (taken b) c h) (lowered S m) (at idle c (b ∷ h))
      allocate :
          (m : Shared S) (b : Buffer) (c h : List Buffer)
          → Buffer.new config.buffer_size ≡ ok b
          → Move cap m
              (at dry c h)
              (record m { allocated = add_size m.allocated 1 })
              (at idle c (b ∷ h))
      -- the owner of a buffer leaves `b'` of it, turns to the next, takes it out (`leak`, `drop_now`), or
      -- hands it to another thread, which receives it
      uses :
          (m : Shared S) (b b' : Buffer) (c h : List Buffer)
          → IsValid b'
          → Move cap m (at idle c (b ∷ h)) m (at idle c (b' ∷ h))
      turns :
          (m : Shared S) (b : Buffer) (c h : List Buffer)
          → Move cap m (at idle c (b ∷ h)) m (at idle c (h ++ (b ∷ [])))
      leaves :
          (m : Shared S) (b : Buffer) (c h : List Buffer)
          → Move cap m (at idle c (b ∷ h)) m (at idle c h)
      receives :
          (m : Shared S) (b : Buffer) (c h : List Buffer)
          → IsValid b
          → Move cap m (at idle c h) m (at idle c (b ∷ h))
      -- a call on another pool, with which the thread shares its cache, or the thread's end: takes a
      -- buffer out of the cache, or returns a burned one to it
      other_takes :
          (m : Shared S) (b : Buffer) (c h : List Buffer)
          → Move cap m (at idle (b ∷ c) h) m (at idle c h)
      other_returns :
          (m : Shared S) (b : Buffer) (c h : List Buffer)
          → IsValid b
          → in_cache true c ≡ true
          → Move cap m (at idle c h) m (at idle (Buffer.burn z b ∷ c) h)
      -- the destructor: into the cache if `try_with` reaches it and it has room, or on to the queue
      return_cached :
          (m : Shared S) (b : Buffer) (c h : List Buffer)
          → in_cache true c ≡ true
          → Move cap m
              (at idle c (b ∷ h))
              (record m { returned = add_size m.returned 1 })
              (at idle (Buffer.burn z b ∷ c) h)
      return_shared :
          (m : Shared S) (tls : Bool) (b : Buffer) (c h : List Buffer)
          → in_cache tls c ≡ false
          → Move cap m
              (at idle c (b ∷ h))
              (record m { returned = add_size m.returned 1 })
              (at (returning (Buffer.burn z b)) c h)
      return_queued :
          (m : Shared S) (b : Buffer) (c h : List Buffer)
          → has_room m ≡ true
          → Move cap m (at (returning b) c h) m (at (pushing b done) c h)
      return_freed :
          (m : Shared S) (b : Buffer) (c h : List Buffer)
          → has_room m ≡ false
          → Move cap m (at (returning b) c h) m (at idle c h)
      -- `LockFreeQueue::push`
      push_item :
          (m : Shared S) (b : Buffer) (n : Next) (c h : List Buffer)
          → Move cap m (at (pushing b n) c h) (with_last S b m) (at (entered n) c h)
      count_push :
          (m : Shared S) (n : Next) (c h : List Buffer)
          → Move cap m (at (entered n) c h) (raised S m) (at (resume n) c h)
      -- `clear_thread_cache`
      flush_start :
          (m : Shared S) (c h : List Buffer) → Move cap m (at idle c h) m (at flushing c h)
      flush_queued :
          (m : Shared S) (b : Buffer) (c h : List Buffer)
          → has_room m ≡ true
          → Move cap m (at flushing (b ∷ c) h) m (at (pushing b flush) c h)
      flush_freed :
          (m : Shared S) (b : Buffer) (c h : List Buffer)
          → has_room m ≡ false
          → Move cap m (at flushing (b ∷ c) h) m (at flushing c h)
      flush_end : (m : Shared S) (h : List Buffer) → Move cap m (at flushing [] h) m (at idle [] h)
      -- `warm`
      warm_start :
          (m : Shared S) (target : ℕ) (c h : List Buffer)
          → target ≤ cap
          → Move cap m
              (at idle c h)
              m
              (at (warming (min target config.max_pool_size - m.queue.size)) c h)
      warm_push :
          (m : Shared S) (b : Buffer) (k : ℕ) (c h : List Buffer)
          → Buffer.new config.buffer_size ≡ ok b
          → Move cap m (at (warming (suc k)) c h) m (at (pushing b (warm_on k)) c h)
      warm_end :
          (m : Shared S) (c h : List Buffer) → Move cap m (at (warming zero) c h) m (at idle c h)
      -- `clear`
      clear_start :
          (m : Shared S) (c h : List Buffer) → Move cap m (at idle c h) m (at draining c h)
      clear_pop :
          (m : Shared S) (b : Buffer) (c h : List Buffer)
          → popped S m ≡ some b
          → Move cap m (at draining c h) (without_first S m) (at lowering c h)
      clear_count :
          (m : Shared S) (c h : List Buffer)
          → Move cap m (at lowering c h) (lowered S m) (at draining c h)
      clear_end :
          (m : Shared S) (c h : List Buffer)
          → popped S m ≡ none
          → Move cap m (at draining c h) (without_first S m) (at idle c h)

    pub record System : Type 0 where
      pub shared : Shared S
      pub threads : List Thread

    -- One thread of the list moves, and the others wait.
    pub data Step (cap : ℕ) : System → System → Type 0 where
      moves :
          (before after : List Thread) {m m' : Shared S} {t t' : Thread}
          → Move cap m t m' t'
          → Step cap
              (record { shared = m; threads = before ++ (t ∷ after) })
              (record { shared = m'; threads = before ++ (t' ∷ after) })

    pub data Reached (cap : ℕ) (from : System) : System → Type 0 where
      start : Reached cap from from
      then : {s t : System} → Reached cap from s → Step cap s t → Reached cap from t

    -- the start: a pool that `new` made, and `n` threads with empty caches
    abbrev pub opened : ℕ → FastPool S → System
    opened n pool = record {
      shared = record {
        queue = pool.global_pool;
        allocated = pool.allocated;
        acquired = pool.acquired;
        returned = pool.returned;
        cache_hits = pool.cache_hits;
      };
      threads = replicate n (at idle [] []);
    }
