-- ===== src/FastPool/Cache.antt =====
-- src/pool/fast.rs: `THREAD_CACHE` is one static for all pools.
use secbuf.Prelude.{◌<◌, ◌≡◌, refl, true, some, List, length, lt→ltb}
use secbuf.Machine.{add_size}
use secbuf.Error.{ok}
use secbuf.Zeroize.{Zeroize}
use secbuf.Buffer
use secbuf.Buffer.{Buffer}
use secbuf.FastPool.Queue.{SegQueue}
use secbuf.FastPool.{FastPool, acquire, drop_pooled, thread_cache_capacity}

-- A buffer returned to one pool, with room in the thread's cache, is what the next acquire of any
-- other pool on that thread hands out, whatever its buffer_size.
pub acquire-drop_other :
    (S : SegQueue) (z : Zeroize) (b : Buffer) (first second : FastPool S) (cache : List Buffer)
    → length cache < thread_cache_capacity
    → let (_, s) = drop_pooled S z true (some b) (record { pool = first; cache = cache }) in
      acquire S (record { pool = second; cache = s.cache }) ≡ (
        ok (Buffer.burn z b),
        record {
          pool = record second {
            acquired = add_size second.acquired 1;
            cache_hits = add_size second.cache_hits 1;
          };
          cache = cache;
        },
      )
unfolding acquire drop_pooled
acquire-drop_other S z b first second cache room = rw (lt→ltb _ _ room) refl
