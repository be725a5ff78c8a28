-- ===== src/FastPool/State.antt =====
-- src/pool/fast.rs: where a thread stands in its call on a `FastBufferPool`, and the memory that the
-- threads share.
use secbuf.Prelude.{ℕ, Option, List}
use secbuf.Machine.{add_size, sub_size}
use secbuf.Buffer.{Buffer}
use secbuf.FastPool.Queue.{SegQueue, LockFreeQueue}

-- where a call goes on after a push: it ends, looks at the next cached buffer, or has `k` pushes of
-- `warm` left
pub data Next : Type 0 where
  done flush : Next
  warm_on : ℕ → Next

-- How far the call of a thread has come.
pub data Phase : Type 0 where
  idle : Phase
  -- `acquire`: found a buffer in the cache; or none there; took one from the queue, not yet counted;
  -- or found none there either
  hit : Buffer → Phase
  missed : Phase
  taken : Buffer → Phase
  dry : Phase
  -- the destructor: a burned buffer that the cache did not take
  returning : Buffer → Phase
  -- `clear_thread_cache` and `warm`, between two buffers
  flushing : Phase
  warming : ℕ → Phase
  -- a push: decided on, or done and not yet counted
  pushing : Buffer → Next → Phase
  entered : Next → Phase
  -- `clear`: before a pop, or after one that is not yet counted
  draining lowering : Phase

abbrev pub resume : Next → Phase
resume done = idle
resume flush = flushing
resume (warm_on k) = warming k

pub record Thread : Type 0 where
  pub phase : Phase
  pub cache : List Buffer
  pub held : List Buffer

module _ (S : SegQueue) where
  -- what the threads share
  pub record Shared : Type 0 where
    pub queue : LockFreeQueue S
    pub allocated : ℕ
    pub acquired : ℕ
    pub returned : ℕ
    pub cache_hits : ℕ

  abbrev pub popped : Shared → Option Buffer
  popped m = (S.pop m.queue.items).0

  -- the queue after `items.pop()`, and with its counter raised or lowered
  abbrev pub without_first : Shared → Shared
  without_first m = record m { queue = record (m.queue) { items = (S.pop m.queue.items).1 } }

  abbrev pub with_last : Buffer → Shared → Shared
  with_last b m = record m { queue = record (m.queue) { items = S.push b m.queue.items } }

  abbrev pub raised : Shared → Shared
  raised m = record m { queue = record (m.queue) { size = add_size m.queue.size 1 } }

  abbrev pub lowered : Shared → Shared
  lowered m = record m { queue = record (m.queue) { size = sub_size m.queue.size 1 } }
