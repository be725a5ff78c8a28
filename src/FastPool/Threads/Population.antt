-- ===== src/FastPool/Threads/Population.antt =====
-- src/pool/fast.rs: where every buffer stays, in any order of the threads' steps.
use secbuf.Prelude.{
  ℕ, zero, suc, sym, ◌∙◌, none, some, List, ◌++◌, ◌+◌, ◌≡◌, refl, ap, [], ◌∷◌, replicate, arith,
}
use secbuf.Zeroize.{Zeroize}
use secbuf.Buffer
use secbuf.Buffer.{Buffer}
use secbuf.Pool.Config.{PoolConfig}
use secbuf.FastPool.Queue.{SegQueue}
use secbuf.FastPool.{FastPool}
use secbuf.FastPool.Interleave.{first_taken}
use secbuf.FastPool.State.{
  Phase, Next, Thread, Shared, idle, hit, taken, returning, pushing, resume, done, flush, warm_on,
  popped,
}
use secbuf.FastPool.Threads.{
  Move, System, Reached, at, opened, acquire_hit, acquire_miss, count_hit, pop_some, pop_none,
  count_taken, allocate, uses, turns, leaves, receives, other_takes, other_returns, return_cached,
  return_shared, return_queued, return_freed, push_item, count_push, flush_start, flush_queued,
  flush_freed, flush_end, warm_start, warm_push, warm_end, clear_start, clear_pop, clear_count,
  clear_end, moves, start, then,
}
use secbuf.FastPool.Threads.Count.{total, total-append, nothing_popped}

-- the weight of a list of buffers, with a weight for each
abbrev pub weigh : (Buffer → ℕ) → List Buffer → ℕ
weigh w [] = 0
weigh w (b ∷ bs) = w b + weigh w bs

weigh-append : (w : Buffer → ℕ) (xs ys : List Buffer) → weigh w (xs ++ ys) ≡ weigh w xs + weigh w ys
weigh-append w [] ys = omega arith
weigh-append w (x ∷ xs) ys = omega (arith, weigh-append w xs ys)

-- a buffer on its way
abbrev carried : (Buffer → ℕ) → Phase → ℕ
carried w (hit b) = w b
carried w (taken b) = w b
carried w (returning b) = w b
carried w (pushing b n) = w b
carried w _ = 0

carried-resume : (w : Buffer → ℕ) (n : Next) → carried w (resume n) ≡ 0
carried-resume w done = refl
carried-resume w flush = refl
carried-resume w (warm_on k) = refl

-- the buffers with a thread, its clients included
abbrev pub owned : (Buffer → ℕ) → Thread → ℕ
owned w t = carried w t.phase + weigh w t.cache + weigh w t.held

module _ (S : SegQueue) (z : Zeroize) (config : PoolConfig) where
  -- The buffers that a step makes or gets from outside, and those that it frees or gives away. A use or a
  -- burn replaces a buffer by what it makes of it.
  abbrev pub comes :
      {cap : ℕ} {m m' : Shared S} {t t' : Thread} → Move S z config cap m t m' t' → List Buffer
  comes (allocate m b c h e) = b ∷ []
  comes (warm_push m b k c h e) = b ∷ []
  comes (other_returns m b c h v e) = Buffer.burn z b ∷ []
  comes (receives m b c h v) = b ∷ []
  comes (uses m b b' c h v) = b' ∷ []
  comes (return_cached m b c h e) = Buffer.burn z b ∷ []
  comes (return_shared m tls b c h e) = Buffer.burn z b ∷ []
  comes _ = []

  abbrev pub goes :
      {cap : ℕ} {m m' : Shared S} {t t' : Thread} → Move S z config cap m t m' t' → List Buffer
  goes (leaves m b c h) = b ∷ []
  goes (other_takes m b c h) = b ∷ []
  goes (return_freed m b c h e) = b ∷ []
  goes (flush_freed m b c h e) = b ∷ []
  goes (clear_pop m b c h e) = b ∷ []
  goes (uses m b b' c h v) = b ∷ []
  goes (return_cached m b c h e) = b ∷ []
  goes (return_shared m tls b c h e) = b ∷ []
  goes _ = []

  abbrev pub came :
      {cap : ℕ} {from s : System S z config} → Reached S z config cap from s → List Buffer
  came start = []
  came (then p (moves before after mv)) = came p ++ comes mv

  abbrev pub went :
      {cap : ℕ} {from s : System S z config} → Reached S z config cap from s → List Buffer
  went start = []
  went (then p (moves before after mv)) = went p ++ goes mv

  module _ (w : Buffer → ℕ) where
    abbrev in_queue : Shared S → ℕ
    in_queue m = weigh w (S.items m.queue.items)

    weigh-push :
        (b : Buffer) (q : S.Queue) → weigh w (S.items (S.push b q)) ≡ weigh w (S.items q) + w b
    weigh-push b q =
        omega (arith, ap (weigh w) (S.items-push b q), weigh-append w (S.items q) (b ∷ []))

    weigh-pop :
        (b : Buffer) (q : S.Queue)
        → (S.pop q).0 ≡ some b
        → weigh w (S.items q) ≡ w b + weigh w (S.items (S.pop q).1)
    weigh-pop b q h =
        ap (weigh w)
          (first_taken S b (S.items q) (S.items (S.pop q).1) (S.pop q).0 (S.items-pop q) h)

    none-popped :
        (m : Shared S) → popped S m ≡ none → weigh w (S.items (S.pop m.queue.items).1) ≡ in_queue m
    none-popped m e =
        let (before, after) = nothing_popped S m e in ap (weigh w) (after ∙ sym before)

    Move-keeps :
        {cap : ℕ} {m m' : Shared S} {t t' : Thread} (mv : Move S z config cap m t m' t')
        → in_queue m' + owned w t' + weigh w (goes mv) ≡ in_queue m + owned w t + weigh w (comes mv)
    Move-keeps (acquire_hit m b c h) = omega arith
    Move-keeps (acquire_miss m h) = omega arith
    Move-keeps (count_hit m b c h) = omega arith
    Move-keeps (pop_some m b c h e) = omega (arith, weigh-pop b m.queue.items e)
    Move-keeps (pop_none m c h e) = omega (arith, none-popped m e)
    Move-keeps (count_taken m b c h) = omega arith
    Move-keeps (allocate m b c h e) = omega arith
    Move-keeps (uses m b b' c h v) = omega arith
    Move-keeps (turns m b c h) = omega (arith, weigh-append w h (b ∷ []))
    Move-keeps (leaves m b c h) = omega arith
    Move-keeps (receives m b c h v) = omega arith
    Move-keeps (other_takes m b c h) = omega arith
    Move-keeps (other_returns m b c h v e) = omega arith
    Move-keeps (return_cached m b c h e) = omega arith
    Move-keeps (return_shared m tls b c h e) = omega arith
    Move-keeps (return_queued m b c h e) = omega arith
    Move-keeps (return_freed m b c h e) = omega arith
    Move-keeps (push_item m b n c h) = omega (arith, weigh-push b m.queue.items)
    Move-keeps (count_push m n c h) = omega (arith, carried-resume w n)
    Move-keeps (flush_start m c h) = omega arith
    Move-keeps (flush_queued m b c h e) = omega arith
    Move-keeps (flush_freed m b c h e) = omega arith
    Move-keeps (flush_end m h) = omega arith
    Move-keeps (warm_start m n c h le) = omega arith
    Move-keeps (warm_push m b k c h e) = omega arith
    Move-keeps (warm_end m c h) = omega arith
    Move-keeps (clear_start m c h) = omega arith
    Move-keeps (clear_pop m b c h e) = omega (arith, weigh-pop b m.queue.items e)
    Move-keeps (clear_count m c h) = omega arith
    Move-keeps (clear_end m c h e) = omega (arith, none-popped m e)

    Reached-keeps :
        {cap : ℕ} {from s : System S z config} (path : Reached S z config cap from s)
        → in_queue s.shared + total (owned w) s.threads + weigh w (went path)
          ≡ in_queue from.shared + total (owned w) from.threads + weigh w (came path)
    Reached-keeps start = refl
    Reached-keeps (then p (moves before after {m} {m'} {t} {t'} mv)) = omega (
      arith,
      Reached-keeps p,
      Move-keeps mv,
      total-append (owned w) before (t ∷ after),
      total-append (owned w) before (t' ∷ after),
      weigh-append w (went p) (goes mv),
      weigh-append w (came p) (comes mv),
    )

    rest_owned : (n : ℕ) → total (owned w) (replicate n (at S z config idle [] [])) ≡ 0
    rest_owned zero = refl
    rest_owned (suc n) = omega (arith, rest_owned n)

  -- In whatever order any number of threads take the steps of their calls on a pool, whatever
  -- weight each buffer is given: the weights of the buffers queued, cached, held and on their
  -- way, with those freed, given away, handed on, taken by other pools, or replaced by a use or
  -- a burn, sum up to those of the buffers first queued, with those allocated, warmed,
  -- received, put into a cache by other pools, or put in place of one by a use or a burn. So
  -- these are the same buffers, each as often.
  pub buffers_are_kept :
      {cap : ℕ} (n : ℕ) (pool : FastPool S) {s : System S z config}
      → (path : Reached S z config cap (opened S z config n pool) s) → (w : Buffer → ℕ)
      → weigh w (S.items s.shared.queue.items) + total (owned w) s.threads + weigh w (went path)
        ≡ weigh w (S.items pool.global_pool.items) + weigh w (came path)
  buffers_are_kept n pool path w = omega (arith, Reached-keeps w path, rest_owned w n)
