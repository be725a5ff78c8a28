-- ===== src/FastPool/Handles.antt =====
-- src/pool/fast.rs and src/pool/stats.rs: `clear`, the statistics, and the ways a pooled buffer
-- leaves its pool.
use secbuf.Prelude.{ℕ, suc, ◌-◌, ◌<◌, ◌≡◌, refl, Option, none, some, List, [], ◌∷◌, arith}
use secbuf.Machine.{usize_mod}
use secbuf.Error.{Outcome, ok, panic}
use secbuf.Zeroize.{Zeroize}
use secbuf.Buffer
use secbuf.Buffer.{Buffer}
use secbuf.Pool.Idle.{AllZero}
use secbuf.FastPool.Queue.{SegQueue}
use secbuf.FastPool.{FastPool, drain, available}
use secbuf.FastPool.Laws.{IsQueue}
use secbuf.FastPool.Drain.{drain_lem}

pub record FastPoolStats : Type 0 where
  pub available : ℕ
  pub allocated : ℕ
  pub acquired : ℕ
  pub returned : ℕ
  pub cache_hits : ℕ
  pub thread_local_lost : ℕ

-- `saturating_sub`
unfoldable pub fast_in_use : FastPoolStats → ℕ
fast_in_use s = s.acquired - s.returned

-- `FastPooledBuffer::leak` takes the buffer out, so that its destructor finds none.
unfoldable pub fast_leak : Option Buffer → Outcome Buffer × Option Buffer
fast_leak none = (panic, none)
fast_leak (some b) = (ok b, none)

-- `FastPooledBuffer::drop_now`, with the memory that is freed at its end
unfoldable pub fast_drop_now : Zeroize → Option Buffer → List (List ℕ) × Option Buffer
fast_drop_now z none = ([], none)
fast_drop_now z (some b) = (Buffer.drop_buffer z (Buffer.burn z b) ∷ [], none)

module _ (S : SegQueue) where
  unfoldable pub fast_stats : FastPool S → FastPoolStats
  fast_stats pool = record {
    available = pool.global_pool.size;
    allocated = pool.allocated;
    acquired = pool.acquired;
    returned = pool.returned;
    cache_hits = pool.cache_hits;
    thread_local_lost = 0;
  }

  module _ (z : Zeroize) where
    unfoldable pub fast_clear : ℕ → FastPool S → Option (List (List ℕ) × FastPool S)
    fast_clear fuel pool = elim (drain S z fuel pool.global_pool) [
      | none ↦ none
      | some r ↦ some (r.0, record pool { global_pool = r.1 })
    ]

    -- clear of a pool with a right counter below 2^64 and blank idle buffers ends, given fuel
    -- for each queued buffer and one more: what it frees is zero, no buffer is available
    -- afterwards, and the other statistics stay.
    pub fast_clear_lem :
        (pool : FastPool S)
        → IsQueue S pool.global_pool
        → pool.global_pool.size < usize_mod
        → (freed : List (List ℕ)) × (next : FastPool S) × (fast_clear
              (suc pool.global_pool.size)
              pool
            ≡ some (freed, next))
          × AllZero freed
          × (available S next ≡ 0)
          × (fast_stats next ≡ record (fast_stats pool) { available = 0 })
    unfolding fast_clear available fast_stats
    fast_clear_lem pool v small =
        let (freed, rest, e, zero_bytes, _, _, size) =
          drain_lem S z (suc pool.global_pool.size) pool.global_pool v small (omega arith) in
        (
          freed,
          record pool { global_pool = rest },
          rw (fast_clear, e) refl,
          zero_bytes,
          size,
          rw size refl,
        )
