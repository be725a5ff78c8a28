-- ===== src/FastPool/Threads/Blank.antt =====
-- src/pool/fast.rs: every buffer that the threads pass on has been wiped, in any order of their steps.
use secbuf.Prelude.{
  ℕ, zero, suc, ◌≤◌, ◌<◌, ◌≡◌, sym, subst, ◌∙◌, some, List, [], ◌∷◌, ◌++◌, replicate,
}
use secbuf.Machine.{usize_mod}
use secbuf.Error.{ok}
use secbuf.Zeroize.{Zeroize}
use secbuf.Buffer
use secbuf.Buffer.{Buffer, buf_max_size}
use secbuf.Buffer.Valid.{IsValid}
use secbuf.Pool.Config.{PoolConfig}
use secbuf.Pool.Idle.{IsBlank, AllBlank, fresh, new_lem, fresh-IsBlank, burned-IsBlank}
use secbuf.FastPool.Queue.{SegQueue}
use secbuf.FastPool.{FastPool, new}
use secbuf.FastPool.Laws.{AllBlank-snoc}
use secbuf.FastPool.Interleave.{first_taken}
use secbuf.FastPool.State.{
  Phase, Next, Thread, Shared, idle, hit, taken, returning, pushing, resume, done, flush, warm_on,
}
use secbuf.FastPool.Threads.{
  Move, System, Step, Reached, at, opened, acquire_hit, acquire_miss, count_hit, pop_some, pop_none,
  count_taken, allocate, uses, turns, leaves, receives, other_takes, other_returns, return_cached,
  return_shared, return_queued, return_freed, push_item, count_push, flush_start, flush_queued,
  flush_freed, flush_end, warm_start, warm_push, warm_end, clear_start, clear_pop, clear_count,
  clear_end, moves, start, then,
}
use secbuf.FastPool.Threads.Count.{nothing_popped}
use secbuf.FastPool.Threads.Opened.{new-IsQueue}

-- A buffer on its way to a client, or back, holds nothing of another's.
abbrev IsWiped : Phase → Type 0
IsWiped (hit b) = IsBlank b
IsWiped (taken b) = IsBlank b
IsWiped (returning b) = IsBlank b
IsWiped (pushing b n) = IsBlank b
IsWiped _ = Unit {0}

abbrev AllValid : List Buffer → Type 0
AllValid [] = Unit {0}
AllValid (b ∷ bs) = IsValid b × AllValid bs

-- A thread: what it carries, its cache, and the buffers that its clients hold.
pub record IsClean (t : Thread) : Type 0 where
  pub phase : IsWiped t.phase
  pub cache : AllBlank t.cache
  pub held : AllValid t.held

abbrev pub AllClean : List Thread → Type 0
AllClean [] = Unit {0}
AllClean (t ∷ ts) = IsClean t × AllClean ts

AllClean-one :
    (xs ys : List Thread) (t : Thread)
    → AllClean (xs ++ (t ∷ ys))
    → IsClean t × ((t' : Thread) → IsClean t' → AllClean (xs ++ (t' ∷ ys)))
AllClean-one [] ys t h = (h.0, λ t' k. (k, h.1))
AllClean-one (x ∷ xs) ys t h =
    let (one, put) = AllClean-one xs ys t h.1 in (one, λ t' k. (h.0, put t' k))

AllValid-snoc :
    (xs : List Buffer) (b : Buffer) → AllValid xs → IsValid b → AllValid (xs ++ (b ∷ []))
AllValid-snoc [] b h k = (k, tt)
AllValid-snoc (x ∷ xs) b h k = (h.0, AllValid-snoc xs b h.1 k)

resume-IsWiped : (n : Next) → IsWiped (resume n)
resume-IsWiped done = tt
resume-IsWiped flush = tt
resume-IsWiped (warm_on k) = tt

module _ (S : SegQueue) where
  pushed-AllBlank :
      (b : Buffer) (q : S.Queue)
      → AllBlank (S.items q)
      → IsBlank b
      → AllBlank (S.items (S.push b q))
  pushed-AllBlank b q v w =
      subst (λ xs. AllBlank xs) (sym (S.items-push b q)) (AllBlank-snoc (S.items q) b v w)

  popped-AllBlank :
      (b : Buffer) (q : S.Queue)
      → (S.pop q).0 ≡ some b
      → AllBlank (S.items q)
      → IsBlank b × AllBlank (S.items (S.pop q).1)
  popped-AllBlank b q e v =
      subst (λ xs. AllBlank xs)
        (first_taken S b (S.items q) (S.items (S.pop q).1) (S.pop q).0 (S.items-pop q) e) v

  ok_same : {p q : Buffer} → ok p ≡ ok q → p ≡ q
  ok_same e = cc

  module _ (z : Zeroize) (config : PoolConfig) (size : config.buffer_size ≤ buf_max_size) where
    new-IsBlank : (b : Buffer) → Buffer.new config.buffer_size ≡ ok b → IsBlank b
    new-IsBlank b e =
        let same : fresh config.buffer_size ≡ b =
          ok_same (sym (new_lem config.buffer_size size) ∙ e) in
        subst (λ b. IsBlank b) same (fresh-IsBlank config.buffer_size size)

    Move-IsClean :
        {cap : ℕ} {m m' : Shared S} {t t' : Thread}
        → Move S z config cap m t m' t'
        → AllBlank (S.items m.queue.items)
        → IsClean t
        → AllBlank (S.items m'.queue.items) × IsClean t'
    Move-IsClean (acquire_hit m b c h) q v =
        (q, record { phase = v.cache.0; cache = v.cache.1; held = v.held })
    Move-IsClean (acquire_miss m h) q v = (q, record { phase = tt; cache = v.cache; held = v.held })
    Move-IsClean (count_hit m b c h) q v =
        (q, record { phase = tt; cache = v.cache; held = (v.phase.valid, v.held) })
    Move-IsClean (pop_some m b c h e) q v =
        let (one, rest) = popped-AllBlank b m.queue.items e q in
        (rest, record { phase = one; cache = v.cache; held = v.held })
    Move-IsClean (pop_none m c h e) q v = (
      subst (λ xs. AllBlank xs) (sym (nothing_popped S m e).1) tt,
      record { phase = tt; cache = v.cache; held = v.held },
    )
    Move-IsClean (count_taken m b c h) q v =
        (q, record { phase = tt; cache = v.cache; held = (v.phase.valid, v.held) })
    Move-IsClean (allocate m b c h e) q v =
        (q, record { phase = tt; cache = v.cache; held = ((new-IsBlank b e).valid, v.held) })
    Move-IsClean (uses m b b' c h w) q v =
        (q, record { phase = tt; cache = v.cache; held = (w, v.held.1) })
    Move-IsClean (turns m b c h) q v =
        (q, record { phase = tt; cache = v.cache; held = AllValid-snoc h b v.held.1 v.held.0 })
    Move-IsClean (leaves m b c h) q v = (q, record { phase = tt; cache = v.cache; held = v.held.1 })
    Move-IsClean (receives m b c h w) q v =
        (q, record { phase = tt; cache = v.cache; held = (w, v.held) })
    Move-IsClean (other_takes m b c h) q v =
        (q, record { phase = tt; cache = v.cache.1; held = v.held })
    Move-IsClean (other_returns m b c h w e) q v =
        (q, record { phase = tt; cache = (burned-IsBlank z b w, v.cache); held = v.held })
    Move-IsClean (return_cached m b c h e) q v =
        (q, record { phase = tt; cache = (burned-IsBlank z b v.held.0, v.cache); held = v.held.1 })
    Move-IsClean (return_shared m tls b c h e) q v =
        (q, record { phase = burned-IsBlank z b v.held.0; cache = v.cache; held = v.held.1 })
    Move-IsClean (return_queued m b c h e) q v =
        (q, record { phase = v.phase; cache = v.cache; held = v.held })
    Move-IsClean (return_freed m b c h e) q v =
        (q, record { phase = tt; cache = v.cache; held = v.held })
    Move-IsClean (push_item m b n c h) q v = (
      pushed-AllBlank b m.queue.items q v.phase,
      record { phase = tt; cache = v.cache; held = v.held },
    )
    Move-IsClean (count_push m n c h) q v =
        (q, record { phase = resume-IsWiped n; cache = v.cache; held = v.held })
    Move-IsClean (flush_start m c h) q v =
        (q, record { phase = tt; cache = v.cache; held = v.held })
    Move-IsClean (flush_queued m b c h e) q v =
        (q, record { phase = v.cache.0; cache = v.cache.1; held = v.held })
    Move-IsClean (flush_freed m b c h e) q v =
        (q, record { phase = tt; cache = v.cache.1; held = v.held })
    Move-IsClean (flush_end m h) q v = (q, record { phase = tt; cache = v.cache; held = v.held })
    Move-IsClean (warm_start m n c h le) q v =
        (q, record { phase = tt; cache = v.cache; held = v.held })
    Move-IsClean (warm_push m b k c h e) q v =
        (q, record { phase = new-IsBlank b e; cache = v.cache; held = v.held })
    Move-IsClean (warm_end m c h) q v = (q, record { phase = tt; cache = v.cache; held = v.held })
    Move-IsClean (clear_start m c h) q v =
        (q, record { phase = tt; cache = v.cache; held = v.held })
    Move-IsClean (clear_pop m b c h e) q v = (
      (popped-AllBlank b m.queue.items e q).1,
      record { phase = tt; cache = v.cache; held = v.held },
    )
    Move-IsClean (clear_count m c h) q v =
        (q, record { phase = tt; cache = v.cache; held = v.held })
    Move-IsClean (clear_end m c h e) q v = (
      subst (λ xs. AllBlank xs) (sym (nothing_popped S m e).1) tt,
      record { phase = tt; cache = v.cache; held = v.held },
    )

    Step-AllClean :
        {cap : ℕ} {s s' : System S z config}
        → Step S z config cap s s'
        → AllBlank (S.items s.shared.queue.items)
        → AllClean s.threads
        → AllBlank (S.items s'.shared.queue.items) × AllClean s'.threads
    Step-AllClean (moves before after {m} {m'} {t} {t'} mv) q v =
        let (one, put) = AllClean-one before after t v in
        let (q', one') = Move-IsClean mv q one in (q', put t' one')

    Reached-AllClean :
        {cap : ℕ} {s s' : System S z config}
        → Reached S z config cap s s'
        → AllBlank (S.items s.shared.queue.items)
        → AllClean s.threads
        → AllBlank (S.items s'.shared.queue.items) × AllClean s'.threads
    Reached-AllClean start q v = (q, v)
    Reached-AllClean (then p step) q v =
        let (q', v') = Reached-AllClean p q v in Step-AllClean step q' v'

    rest-AllClean : (n : ℕ) → AllClean (replicate n (at S z config idle [] []))
    rest-AllClean zero = tt
    rest-AllClean (suc n) = (record { phase = tt; cache = tt; held = tt }, rest-AllClean n)

    -- In whatever order any number of threads take the steps of their calls on a pool that
    -- new has made, with a buffer size within the maximum: every queued buffer, every cached
    -- one, and every one on its way to or from a client is blank, and every buffer held is
    -- valid.
    pub passed_on_is_wiped :
        {cap : ℕ} (n : ℕ) (pool : FastPool S) {s : System S z config}
        → new S config ≡ ok pool
        → config.min_pool_size < usize_mod
        → Reached S z config cap (opened S z config n pool) s
        → AllBlank (S.items s.shared.queue.items) × AllClean s.threads
    passed_on_is_wiped n pool made few path =
        let (q, _) = new-IsQueue S config pool made size few in
        Reached-AllClean path q.blank (rest-AllClean n)
