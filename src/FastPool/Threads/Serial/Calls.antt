-- ===== src/FastPool/Threads/Serial/Calls.antt =====
-- src/pool/fast.rs: a call that runs alone takes the steps of the interleaved threads.
use secbuf.Prelude.{
  ℕ, ◌-◌, ◌≤◌, ◌≡◌, refl, ap, subst, ◌∙◌, min, Option, none, some, List, [], ◌∷◌, ◌++◌,
}
use secbuf.Error.{Outcome, ok, err, panic, undefined}
use secbuf.Zeroize.{Zeroize}
use secbuf.Buffer.{Buffer}
use secbuf.Pool.Config.{PoolConfig}
use secbuf.FastPool.Queue.{SegQueue, LockFreeQueue}
use secbuf.FastPool.{FastPool, View, acquire, push_new, warm, drain}
use secbuf.FastPool.Handles.{fast_clear}
use secbuf.FastPool.State.{Thread, Shared, idle}
use secbuf.FastPool.Threads.{
  System, Reached, moves, start, then, at, flush_start, warm_start, clear_start,
}
use secbuf.FastPool.Threads.Serial.{
  Solo, stay, on, snapshot, Call, serve, target_of, acquires, returns, flushes, warms, clears,
}
use secbuf.FastPool.Threads.Serial.Paths.{
  ahead, acquire_path, drop_path, flush_path, warm_path, clear_path,
}

module _ (S : SegQueue) (z : Zeroize) where
  -- What came back of a call.
  abbrev Triple : Type 0
  Triple = FastPool S × List Buffer × List Buffer

  got_buffer :
      (r : Outcome Buffer) (t : View S) (h : List Buffer) (x : Triple)
      → (elim r [
        | ok b ↦ some (t.pool, t.cache, b ∷ h)
        | err e ↦ none
        | panic ↦ none
        | undefined ↦ none
      ])
        ≡ some x
      → (b : Buffer) × (r ≡ ok b) × ((t.pool, t.cache, b ∷ h) ≡ x)
  got_buffer (ok b) t h x e = (b, refl, cc)
  got_buffer (err y) t h x e = cc
  got_buffer panic t h x e = cc
  got_buffer undefined t h x e = cc

  got_pool :
      (r : Outcome (FastPool S)) (c h : List Buffer) (x : Triple)
      → (elim r [ ok next ↦ some (next, c, h) | err e ↦ none | panic ↦ none | undefined ↦ none ])
        ≡ some x
      → (next : FastPool S) × (r ≡ ok next) × ((next, c, h) ≡ x)
  got_pool (ok next) c h x e = (next, refl, cc)
  got_pool (err y) c h x e = cc
  got_pool panic c h x e = cc
  got_pool undefined c h x e = cc

  got_queue :
      (r : Outcome (LockFreeQueue S)) (pool next : FastPool S)
      → (elim r [
        | ok q ↦ ok (record pool { global_pool = q })
        | err e ↦ err e
        | panic ↦ panic
        | undefined ↦ undefined
      ])
        ≡ ok next
      → (q : LockFreeQueue S) × (r ≡ ok q) × (record pool { global_pool = q } ≡ next)
  got_queue (ok q) pool next e = (q, refl, cc)
  got_queue (err y) pool next e = cc
  got_queue panic pool next e = cc
  got_queue undefined pool next e = cc

  got_clear :
      (r : Option (List (List ℕ) × FastPool S)) (c h : List Buffer) (x : Triple)
      → (elim r [ none ↦ none | some d ↦ some (d.1, c, h) ]) ≡ some x
      → (freed : List (List ℕ)) × (next : FastPool S) × (r ≡ some (freed, next))
        × ((next, c, h) ≡ x)
  got_clear none c h x e = cc
  got_clear (some (freed, next)) c h x e = (freed, next, refl, cc)

  got_drained :
      (r : Option (List (List ℕ) × LockFreeQueue S)) (pool : FastPool S) (freed : List (List ℕ))
      (next : FastPool S)
      → ◌≡◌ {A = Option (List (List ℕ) × FastPool S)}
          (elim r [ none ↦ none | some d ↦ some (d.0, record pool { global_pool = d.1 }) ])
          (some (freed, next))
      → (q : LockFreeQueue S) × (r ≡ some (freed, q)) × (record pool { global_pool = q } ≡ next)
  got_drained none pool freed next e = cc
  got_drained (some (more, q)) pool freed next e =
      let same : more ≡ freed = cc in (q, ap (λ xs. some (xs, q)) same, cc)

  same_triple : {x y : Triple} → some x ≡ some y → x ≡ y
  same_triple e = cc

  arrive :
      {config : PoolConfig} {cap : ℕ} {m : Shared S} {t : Thread} {x y : Triple}
      → x ≡ y
      → Solo S z config cap m t (snapshot S z x.0) (at S z config idle x.1 x.2)
      → Solo S z config cap m t (snapshot S z y.0) (at S z config idle y.1 y.2)
  arrive {config} {cap} {m} {t} e p =
      subst (λ x. Solo S z config cap m t (snapshot S z x.0) (at S z config idle x.1 x.2)) e p

  module _ (cap : ℕ) where
    -- A call that runs alone.
    call_path :
        (call : Call S z) (pool : FastPool S) (c h : List Buffer) (x : Triple)
        → target_of S z call ≤ cap
        → serve S z call pool c h ≡ some x
        → Solo S z pool.config cap
            (snapshot S z pool)
            (at S z pool.config idle c h)
            (snapshot S z x.0)
            (at S z pool.config idle x.1 x.2)
    unfolding warm fast_clear
    call_path acquires pool c h x small e =
        let (r, t) = acquire S (record { pool = pool; cache = c }) in
        let (b, got, same) = got_buffer r t h x e in
        arrive same (acquire_path S z cap h pool c b got)
    call_path (returns tls) pool c [] x small e = cc
    call_path (returns tls) pool c (b ∷ h) x small e =
        arrive (same_triple e) (drop_path S z cap h tls pool b c)
    call_path flushes pool c h x small e =
        arrive (same_triple e)
          (ahead S z (flush_start (snapshot S z pool) c h) (flush_path S z cap h pool c))
    call_path (warms target) pool c h x small e =
        let (next, warmed, same) = got_pool (warm S target pool) c h x e in
        let (q, pushed, left) =
          got_queue
            (push_new S (min target pool.config.max_pool_size - pool.global_pool.size)
              pool.config.buffer_size pool.global_pool)
            pool next warmed in
        arrive (ap (λ p. (p, c, h)) left ∙ same) (
          ahead S z (warm_start (snapshot S z pool) target c h small) (
            warm_path S z cap h (min target pool.config.max_pool_size - pool.global_pool.size) pool
              c q pushed))
    call_path (clears fuel) pool c h x small e =
        let (freed, next, cleared, same) = got_clear (fast_clear S z fuel pool) c h x e in
        let (q, drained, left) =
          got_drained (drain S z fuel pool.global_pool) pool freed next cleared in
        arrive (ap (λ p. (p, c, h)) left ∙ same) (
          ahead S z (clear_start (snapshot S z pool) c h)
            (clear_path S z cap h fuel pool c freed q drained))

    in_system :
        {config : PoolConfig} (from : System S z config) (before after : List Thread) {m : Shared S}
        {t : Thread} {m' : Shared S} {t' : Thread}
        → Reached S z config cap from (record { shared = m; threads = before ++ (t ∷ after) })
        → Solo S z config cap m t m' t'
        → Reached S z config cap from (record { shared = m'; threads = before ++ (t' ∷ after) })
    in_system from before after r stay = r
    in_system from before after r (on p mv) =
        then (in_system from before after r p) (moves before after mv)

    -- An acquire, return, clear_thread_cache, warm or clear that one thread runs alone to its
    -- end, warming to cap at most, is a sequence of steps of the interleaved threads that
    -- leaves the same pool, cache and buffers held, whatever the other threads have begun.
    pub calls_are_steps :
        (call : Call S z) (pool next : FastPool S) (c h c' h' : List Buffer)
        (before after : List Thread)
        → target_of S z call ≤ cap
        → serve S z call pool c h ≡ some (next, c', h')
        → Reached S z pool.config cap
            (record {
              shared = snapshot S z pool;
              threads = before ++ (at S z pool.config idle c h ∷ after);
            })
            (record {
              shared = snapshot S z next;
              threads = before ++ (at S z pool.config idle c' h' ∷ after);
            })
    calls_are_steps call pool next c h c' h' before after small e =
        in_system _ before after start (call_path call pool c h (next, c', h') small e)
