-- ===== src/FastPool/Threads/Bound.antt =====
-- src/pool/fast.rs: how far the queue grows past `max_pool_size`, where threads test its length and
-- push in separate steps.
use secbuf.Prelude.{
  ℕ, suc, ◌+◌, ◌*◌, ◌≤◌, ◌<◌, ◌≡◌, refl, ap, max, ◌∷◌, length, ltb, ltb→lt, ltb→le, Bool-cases, inl,
  inr, arith,
}
use secbuf.Machine.{usize_mod}
use secbuf.Zeroize.{Zeroize}
use secbuf.Pool.Config.{PoolConfig}
use secbuf.FastPool.Queue.{SegQueue}
use secbuf.FastPool.Interleave.{length-push, length-pop}
use secbuf.FastPool.State.{
  Phase, Next, Thread, Shared, resume, idle, returning, flushing, warming, pushing, entered, done,
  flush, warm_on,
}
use secbuf.FastPool.Threads.{
  Move, at, acquire_hit, acquire_miss, count_hit, pop_some, pop_none, count_taken, allocate, uses,
  turns, leaves, receives, other_takes, other_returns, return_cached, return_shared, return_queued,
  return_freed, push_item, count_push, flush_start, flush_queued, flush_freed, flush_end,
  warm_start, warm_push, warm_end, clear_start, clear_pop, clear_count, clear_end,
}
use secbuf.FastPool.Threads.Count.{
  uncounted, untaken, queued, nothing_popped, IsCounted, uncounted-resume,
}

-- the pushes that the call of a thread may still make without another look at the length
abbrev pub budget : Phase → ℕ
budget (pushing b done) = 1
budget (pushing b flush) = 1
budget (pushing b (warm_on k)) = suc k
budget (entered (warm_on k)) = k
budget (warming k) = k
budget _ = 0

abbrev pub load : Phase → ℕ
load p = uncounted p + budget p

budget-resume : (n : Next) → budget (resume n) ≡ budget (entered n)
budget-resume done = refl
budget-resume flush = refl
budget-resume (warm_on k) = refl

module _ (S : SegQueue) (z : Zeroize) (config : PoolConfig) where
  -- What the queue may hold, given `l` for what the other threads may have on their hands.
  abbrev pub limit : ℕ → ℕ → ℕ
  limit cap l = max (config.min_pool_size + cap) (config.max_pool_size + l + cap)

  pub record IsWithin (cap : ℕ) (m : Shared S) (t : Thread) (r l : ℕ) : Type 0 where
    pub size : m.queue.size < usize_mod
    pub loaded : load t.phase ≤ cap
    pub bound : queued S m + budget t.phase + r + cap ≤ limit cap l

  -- The other threads: `x` pushes and `y` pops to count, `r` pushes to come, and `l` for them all.
  module _ (cap x y r l : ℕ) (some_cap : 0 < cap) (others : x + r ≤ l) (pops : y ≤ l)
      (roomy : config.min_pool_size + config.max_pool_size + (l + cap) * 2 < usize_mod) where
    -- A thread that finds room finds few items.
    few_items :
        (m : Shared S) (t : Thread)
        → IsCounted S m t x y
        → uncounted t.phase ≡ 0
        → untaken t.phase ≡ 0
        → IsWithin cap m t r l
        → m.queue.size < config.max_pool_size
        → queued S m + y ≡ m.queue.size + x
    few_items m t v e f w room = omega (arith, v, e, f, w.bound, room)

    pub Move-IsWithin :
        {m m' : Shared S} {t t' : Thread}
        → Move S z config cap m t m' t'
        → IsCounted S m t x y
        → IsWithin cap m t r l
        → IsWithin cap m' t' r l
    Move-IsWithin (acquire_hit m b c h) v w = omega arith
    Move-IsWithin (acquire_miss m h) v w = omega arith
    Move-IsWithin (count_hit m b c h) v w = omega arith
    Move-IsWithin (pop_some m b c h e) v w =
        omega (arith, w.size, w.loaded, w.bound, length-pop S b m.queue.items e)
    Move-IsWithin (pop_none m c h e) v w =
        let (before, after) = nothing_popped S m e in
        omega (arith, w.size, w.loaded, w.bound, ap length before, ap length after)
    Move-IsWithin (count_taken m b c h) v w = omega (arith, w.size, w.loaded, w.bound)
    Move-IsWithin (allocate m b c h e) v w = omega arith
    Move-IsWithin (uses m b b' c h ok') v w = omega arith
    Move-IsWithin (turns m b c h) v w = omega arith
    Move-IsWithin (leaves m b c h) v w = omega arith
    Move-IsWithin (receives m b c h u) v w = omega arith
    Move-IsWithin (other_takes m b c h) v w = omega arith
    Move-IsWithin (other_returns m b c h u e) v w = omega arith
    Move-IsWithin (return_cached m b c h e) v w = omega arith
    Move-IsWithin (return_shared m tls b c h e) v w = omega arith
    Move-IsWithin (return_queued m b c h e) v w =
        let lt : m.queue.size < config.max_pool_size = ltb→lt m.queue.size config.max_pool_size e in
        omega (
          arith,
          w.size,
          w.loaded,
          w.bound,
          lt,
          few_items m (at S z config (returning b) c h) v refl refl w lt,
        )
    Move-IsWithin (return_freed m b c h e) v w = omega arith
    Move-IsWithin (push_item m b done c h) v w =
        omega (arith, w.size, w.loaded, w.bound, length-push S b m.queue.items)
    Move-IsWithin (push_item m b flush c h) v w =
        omega (arith, w.size, w.loaded, w.bound, length-push S b m.queue.items)
    Move-IsWithin (push_item m b (warm_on k) c h) v w =
        omega (arith, w.size, w.loaded, w.bound, length-push S b m.queue.items)
    Move-IsWithin (count_push m n c h) v w =
        omega (arith, w.size, w.loaded, w.bound, budget-resume n, uncounted-resume S z config n)
    Move-IsWithin (flush_start m c h) v w = omega arith
    Move-IsWithin (flush_queued m b c h e) v w =
        let lt : m.queue.size < config.max_pool_size = ltb→lt m.queue.size config.max_pool_size e in
        omega (
          arith,
          w.size,
          w.loaded,
          w.bound,
          lt,
          few_items m (at S z config flushing (b ∷ c) h) v refl refl w lt,
        )
    Move-IsWithin (flush_freed m b c h e) v w = omega arith
    Move-IsWithin (flush_end m h) v w = omega arith
    Move-IsWithin (warm_start m target c h le) v w =
        elim (Bool-cases (ltb m.queue.size config.max_pool_size)) [
          | inl e ↦
              let lt : m.queue.size < config.max_pool_size =
                ltb→lt m.queue.size config.max_pool_size e in
              omega (
                arith,
                w.size,
                w.loaded,
                w.bound,
                lt,
                le,
                few_items m (at S z config idle c h) v refl refl w lt,
              )
          | inr e ↦
              omega (arith, w.size, w.loaded, w.bound, ltb→le m.queue.size config.max_pool_size e)
        ]
    Move-IsWithin (warm_push m b k c h e) v w = omega arith
    Move-IsWithin (warm_end m c h) v w = omega arith
    Move-IsWithin (clear_start m c h) v w = omega arith
    Move-IsWithin (clear_pop m b c h e) v w =
        omega (arith, w.size, w.loaded, w.bound, length-pop S b m.queue.items e)
    Move-IsWithin (clear_count m c h) v w = omega arith
    Move-IsWithin (clear_end m c h e) v w =
        let (before, after) = nothing_popped S m e in
        omega (arith, w.size, w.loaded, w.bound, ap length before, ap length after)
