-- ===== src/FastPool/Threads/Count.antt =====
-- src/pool/fast.rs: the counter of the queue against its items, while threads are between the two
-- accesses of a push or a pop.
use secbuf.Prelude.{
  ℕ, ◌+◌, ◌%◌, ◌≡◌, refl, sym, ap, ◌∙◌, Option, none, List, [], ◌∷◌, ◌++◌, length, arith,
}
use secbuf.Machine.{usize_mod}
use secbuf.Zeroize.{Zeroize}
use secbuf.Buffer.{Buffer}
use secbuf.Pool.Config.{PoolConfig}
use secbuf.FastPool.Queue.{SegQueue, take_first}
use secbuf.FastPool.Laws.{nothing_left}
use secbuf.FastPool.Interleave.{length-push, length-pop}
use secbuf.FastPool.State.{
  Phase, Next, Thread, Shared, popped, resume, taken, entered, lowering, done, flush, warm_on,
}
use secbuf.FastPool.Threads.{
  Move, acquire_hit, acquire_miss, count_hit, pop_some, pop_none, count_taken, allocate, uses,
  turns, leaves, receives, other_takes, other_returns, return_cached, return_shared, return_queued,
  return_freed, push_item, count_push, flush_start, flush_queued, flush_freed, flush_end,
  warm_start, warm_push, warm_end, clear_start, clear_pop, clear_count, clear_end,
}

-- pushes of a thread that its counter update has not followed yet
abbrev pub uncounted : Phase → ℕ
uncounted (entered n) = 1
uncounted _ = 0

-- the same for pops
abbrev pub untaken : Phase → ℕ
untaken (taken b) = 1
untaken lowering = 1
untaken _ = 0

abbrev pub total : (Thread → ℕ) → List Thread → ℕ
total w [] = 0
total w (t ∷ ts) = w t + total w ts

pub total-append :
    (w : Thread → ℕ) (xs ys : List Thread) → total w (xs ++ ys) ≡ total w xs + total w ys
total-append w [] ys = omega arith
total-append w (x ∷ xs) ys = omega (arith, total-append w xs ys)

module _ (S : SegQueue) where
  abbrev pub queued : Shared S → ℕ
  queued m = length (S.items m.queue.items)

  -- A pop of an empty queue leaves it empty.
  pub nothing_popped :
      (m : Shared S)
      → popped S m ≡ none
      → (S.items m.queue.items ≡ []) × (S.items (S.pop m.queue.items).1 ≡ [])
  nothing_popped m h =
      let law : ◌≡◌ {A = Option Buffer × List Buffer}
          ((S.pop m.queue.items).0, S.items (S.pop m.queue.items).1)
          (take_first (S.items m.queue.items)) =
        S.items-pop m.queue.items in
      nothing_left (S.items m.queue.items) (S.items (S.pop m.queue.items).1)
        (ap (λ r. (r, S.items (S.pop m.queue.items).1)) (sym h) ∙ law)

  -- The counter, with `x` and `y` for what the other threads have not counted.
  abbrev pub IsCounted : Shared S → Thread → ℕ → ℕ → Type 0
  IsCounted m t x y =
      (m.queue.size + uncounted t.phase + x) % usize_mod
      ≡ (queued m + untaken t.phase + y) % usize_mod

  module _ (z : Zeroize) (config : PoolConfig) where
    pub uncounted-resume : (n : Next) → (uncounted (resume n) ≡ 0) × (untaken (resume n) ≡ 0)
    uncounted-resume done = (refl, refl)
    uncounted-resume flush = (refl, refl)
    uncounted-resume (warm_on k) = (refl, refl)

    pub Move-IsCounted :
        {cap : ℕ} {m m' : Shared S} {t t' : Thread} (x y : ℕ)
        → Move S z config cap m t m' t'
        → IsCounted m t x y
        → IsCounted m' t' x y
    Move-IsCounted x y (acquire_hit m b c h) v = v
    Move-IsCounted x y (acquire_miss m h) v = v
    Move-IsCounted x y (count_hit m b c h) v = v
    Move-IsCounted x y (pop_some m b c h e) v = omega (arith, length-pop S b m.queue.items e)
    Move-IsCounted x y (pop_none m c h e) v =
        let (before, after) = nothing_popped m e in omega (arith, ap length before, ap length after)
    Move-IsCounted x y (count_taken m b c h) v = omega arith
    Move-IsCounted x y (allocate m b c h e) v = v
    Move-IsCounted x y (uses m b b' c h w) v = v
    Move-IsCounted x y (turns m b c h) v = v
    Move-IsCounted x y (leaves m b c h) v = v
    Move-IsCounted x y (receives m b c h w) v = v
    Move-IsCounted x y (other_takes m b c h) v = v
    Move-IsCounted x y (other_returns m b c h w e) v = v
    Move-IsCounted x y (return_cached m b c h e) v = v
    Move-IsCounted x y (return_shared m tls b c h e) v = v
    Move-IsCounted x y (return_queued m b c h e) v = v
    Move-IsCounted x y (return_freed m b c h e) v = v
    Move-IsCounted x y (push_item m b n c h) v = omega (arith, length-push S b m.queue.items)
    Move-IsCounted x y (count_push m n c h) v = omega (arith, uncounted-resume n)
    Move-IsCounted x y (flush_start m c h) v = v
    Move-IsCounted x y (flush_queued m b c h e) v = v
    Move-IsCounted x y (flush_freed m b c h e) v = v
    Move-IsCounted x y (flush_end m h) v = v
    Move-IsCounted x y (warm_start m n c h le) v = v
    Move-IsCounted x y (warm_push m b k c h e) v = v
    Move-IsCounted x y (warm_end m c h) v = v
    Move-IsCounted x y (clear_start m c h) v = v
    Move-IsCounted x y (clear_pop m b c h e) v = omega (arith, length-pop S b m.queue.items e)
    Move-IsCounted x y (clear_count m c h) v = omega arith
    Move-IsCounted x y (clear_end m c h e) v =
        let (before, after) = nothing_popped m e in omega (arith, ap length before, ap length after)
