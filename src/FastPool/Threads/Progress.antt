-- ===== src/FastPool/Threads/Progress.antt =====
-- src/pool/fast.rs: a call of a thread ends after a bounded number of its own steps, whatever the other
-- threads do meanwhile; the loop of `clear` apart.
use secbuf.Prelude.{
  ℕ, zero, suc, ◌+◌, ◌*◌, ◌≤◌, ◌≡◌, refl, ◌⊎◌, inl, inr, Bool, true, false, Bool-cases,
  Option-cases, List, [], ◌∷◌, length, arith,
}
use secbuf.Zeroize.{Zeroize}
use secbuf.Buffer.{Buffer, buf_max_size}
use secbuf.Pool.Config.{PoolConfig}
use secbuf.Pool.Idle.{fresh, new_lem}
use secbuf.FastPool.Queue.{SegQueue}
use secbuf.FastPool.State.{
  Phase, Next, Thread, Shared, popped, idle, hit, missed, taken, dry, returning, flushing, warming,
  pushing, entered, draining, lowering, resume, done, flush, warm_on,
}
use secbuf.FastPool.Threads.{
  Move, at, has_room, acquire_hit, acquire_miss, count_hit, pop_some, pop_none, count_taken,
  allocate, uses, turns, leaves, receives, other_takes, other_returns, return_cached, return_shared,
  return_queued, return_freed, push_item, count_push, flush_start, flush_queued, flush_freed,
  flush_end, warm_start, warm_push, warm_end, clear_start, clear_pop, clear_count, clear_end,
}

-- inside `acquire`, the destructor, `clear_thread_cache` or `warm`
abbrev pub in_call : Phase → Bool
in_call idle = false
in_call draining = false
in_call lowering = false
in_call _ = true

abbrev after : Next → List Buffer → ℕ
after done c = 0
after flush c = 1 + 3 * length c
after (warm_on k) c = 1 + 3 * k

-- the steps that a call has left at most
abbrev pub steps_left : Phase → List Buffer → ℕ
steps_left (hit b) c = 1
steps_left missed c = 2
steps_left (taken b) c = 1
steps_left dry c = 1
steps_left (returning b) c = 3
steps_left (pushing b n) c = 2 + after n c
steps_left (entered n) c = 1 + after n c
steps_left flushing c = 1 + 3 * length c
steps_left (warming k) c = 1 + 3 * k
steps_left _ c = 0

resume-steps : (n : Next) (c : List Buffer) → steps_left (resume n) c ≡ after n c
resume-steps done c = refl
resume-steps flush c = refl
resume-steps (warm_on k) c = refl

resume-in_call : (n : Next) → (in_call (resume n) ≡ true) ⊎ (resume n ≡ idle)
resume-in_call done = inr refl
resume-in_call flush = inl refl
resume-in_call (warm_on k) = inl refl

module _ (S : SegQueue) (z : Zeroize) (config : PoolConfig) (cap : ℕ) where
  -- `k` steps of a thread inside one call; the memory may have changed before each.
  pub data Run (t : Thread) : ℕ → Thread → Type 0 where
    called : Run t zero t
    goes_on :
        {k : ℕ} {u u' : Thread} {m m' : Shared S}
        → Run t k u
        → in_call u.phase ≡ true
        → Move S z config cap m u m' u'
        → Run t (suc k) u'

  Move-shortens :
      {m m' : Shared S} {t t' : Thread}
      → Move S z config cap m t m' t'
      → in_call t.phase ≡ true
      → (1 + steps_left t'.phase t'.cache ≤ steps_left t.phase t.cache)
        × ((in_call t'.phase ≡ true) ⊎ (t'.phase ≡ idle))
  Move-shortens (acquire_hit m b c h) inside = cc
  Move-shortens (acquire_miss m h) inside = cc
  Move-shortens (count_hit m b c h) inside = (omega arith, inr refl)
  Move-shortens (pop_some m b c h e) inside = (omega arith, inl refl)
  Move-shortens (pop_none m c h e) inside = (omega arith, inl refl)
  Move-shortens (count_taken m b c h) inside = (omega arith, inr refl)
  Move-shortens (allocate m b c h e) inside = (omega arith, inr refl)
  Move-shortens (uses m b b' c h w) inside = cc
  Move-shortens (turns m b c h) inside = cc
  Move-shortens (leaves m b c h) inside = cc
  Move-shortens (receives m b c h w) inside = cc
  Move-shortens (other_takes m b c h) inside = cc
  Move-shortens (other_returns m b c h w e) inside = cc
  Move-shortens (return_cached m b c h e) inside = cc
  Move-shortens (return_shared m tls b c h e) inside = cc
  Move-shortens (return_queued m b c h e) inside = (omega arith, inl refl)
  Move-shortens (return_freed m b c h e) inside = (omega arith, inr refl)
  Move-shortens (push_item m b n c h) inside = (omega arith, inl refl)
  Move-shortens (count_push m n c h) inside = (omega (arith, resume-steps n c), resume-in_call n)
  Move-shortens (flush_start m c h) inside = cc
  Move-shortens (flush_queued m b c h e) inside = (omega arith, inl refl)
  Move-shortens (flush_freed m b c h e) inside = (omega arith, inl refl)
  Move-shortens (flush_end m h) inside = (omega arith, inr refl)
  Move-shortens (warm_start m n c h le) inside = cc
  Move-shortens (warm_push m b k c h e) inside = (omega arith, inl refl)
  Move-shortens (warm_end m c h) inside = (omega arith, inr refl)
  Move-shortens (clear_start m c h) inside = cc
  Move-shortens (clear_pop m b c h e) inside = cc
  Move-shortens (clear_count m c h) inside = cc
  Move-shortens (clear_end m c h e) inside = cc

  module _ (size : config.buffer_size ≤ buf_max_size) where
    -- A thread inside a call is never blocked.
    never_blocked :
        (p : Phase) (c h : List Buffer) (m : Shared S)
        → in_call p ≡ true
        → (m' : Shared S) × (t' : Thread) × Move S z config cap m (at S z config p c h) m' t'
    never_blocked idle c h m inside = cc
    never_blocked (hit b) c h m inside = (_, _, count_hit m b c h)
    never_blocked missed c h m inside = elim (Option-cases (popped S m)) [
      | inl e ↦ (_, _, pop_none m c h e)
      | inr (b, e) ↦ (_, _, pop_some m b c h e)
    ]
    never_blocked (taken b) c h m inside = (_, _, count_taken m b c h)
    never_blocked dry c h m inside =
        (_, _, allocate m (fresh config.buffer_size) c h (new_lem config.buffer_size size))
    never_blocked (returning b) c h m inside = elim (Bool-cases (has_room S z config m)) [
      | inl e ↦ (_, _, return_queued m b c h e)
      | inr e ↦ (_, _, return_freed m b c h e)
    ]
    never_blocked flushing [] h m inside = (_, _, flush_end m h)
    never_blocked flushing (b ∷ c) h m inside = elim (Bool-cases (has_room S z config m)) [
      | inl e ↦ (_, _, flush_queued m b c h e)
      | inr e ↦ (_, _, flush_freed m b c h e)
    ]
    never_blocked (warming zero) c h m inside = (_, _, warm_end m c h)
    never_blocked (warming (suc k)) c h m inside =
        (_, _, warm_push m (fresh config.buffer_size) k c h (new_lem config.buffer_size size))
    never_blocked (pushing b n) c h m inside = (_, _, push_item m b n c h)
    never_blocked (entered n) c h m inside = (_, _, count_push m n c h)
    never_blocked draining c h m inside = cc
    never_blocked lowering c h m inside = cc

  Run-shortens :
      {t u : Thread} {k : ℕ}
      → Run t k u
      → in_call t.phase ≡ true
      → (k + steps_left u.phase u.cache ≤ steps_left t.phase t.cache)
        × ((in_call u.phase ≡ true) ⊎ (u.phase ≡ idle))
  Run-shortens called inside = (omega arith, inl inside)
  Run-shortens (goes_on r at_u mv) inside =
      let (few, _) = Run-shortens r inside in
      let (fewer, next) = Move-shortens mv at_u in (omega (arith, few, fewer), next)

  -- A thread inside acquire, the destructor, clear_thread_cache or warm takes only a bounded
  -- number of steps, whatever the other threads do to the shared memory between them, and until
  -- its call has ended it always has a step to take; the buffer size is within the maximum.
  pub calls_end :
      {t u : Thread} {k : ℕ}
      → config.buffer_size ≤ buf_max_size
      → in_call t.phase ≡ true
      → Run t k u
      → (k + steps_left u.phase u.cache ≤ steps_left t.phase t.cache)
        × ((u.phase ≡ idle)
            ⊎ ((m : Shared S) → (m' : Shared S) × (u' : Thread) × Move S z config cap m u m' u'))
  calls_end {t} {u} size inside r =
      let (few, next) = Run-shortens r inside in
      elim next [
        | inl on ↦ (few, inr (λ m. never_blocked size u.phase u.cache u.held m on))
        | inr over ↦ (few, inl over)
      ]
