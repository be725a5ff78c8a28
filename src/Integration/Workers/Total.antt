-- ===== src/Integration/Workers/Total.antt =====
-- tests/integration_tests.rs: what `test_buffer_pool_concurrency` leaves, in any order of the turns.
use secbuf.Prelude.{
  ℕ, zero, suc, ◌+◌, ◌*◌, ◌^◌, ◌≤◌, ◌<◌, ◌≡◌, refl, ap, ap₂, ◌∙◌, List, [], ◌∷◌, length, map,
  replicate, arith,
}
use secbuf.Error.{ok, ◌>>=◌, return, bind_ok}
use secbuf.Zeroize.{Zeroize}
use secbuf.Buffer.{buf_max_size}
use secbuf.Pool
use secbuf.Pool.{BufferPool, PoolInner, PoolStats}
use secbuf.Pool.Config.{PoolConfig}
use secbuf.Pool.Safety.{unlocked}
use secbuf.Pool.Roomy.{new-IsRoomy}
use secbuf.Integration.Workers.{
  Worker, between, holding, work, turn, run, spawned, test_buffer_pool_concurrency,
}
use secbuf.Examples.{block_lem}
use secbuf.Integration.Workers.Turns.{count, bump, bumps, bumps_enough}
use secbuf.Integration.Workers.Round.{
  round_size, begun, ended, IsFine, IsUsed, IsUsed-next, work_lem,
}

abbrev begins : List Worker → ℕ
begins [] = 0
begins (w ∷ ws) = begun w + begins ws

abbrev ends : List Worker → ℕ
ends [] = 0
ends (w ∷ ws) = ended w + ends ws

-- the turns that a thread has had
abbrev taken : Worker → ℕ
taken w = begun w + ended w

module _ (z : Zeroize) (rounds : ℕ) (config : PoolConfig) (fits : round_size ≤ config.buffer_size)
    (size : config.buffer_size ≤ buf_max_size) where
  abbrev AllFine : List Worker → Type 0
  AllFine [] = Unit {0}
  AllFine (w ∷ ws) = IsFine z rounds config fits size w × AllFine ws

  -- the pool while the threads stand as in `ws`
  abbrev IsShared : ℕ → ℕ → List Worker → PoolInner → Type 0
  IsShared x y ws p = IsUsed z rounds config fits size (begins ws + x) (ends ws + y) p

  moved :
      {x y : ℕ} (a b : ℕ) {p : PoolInner}
      → IsUsed z rounds config fits size x y p
      → x ≡ a
      → y ≡ b
      → IsUsed z rounds config fits size a b p
  moved a b v e f =
      IsUsed-next z rounds config fits size a b v (omega (arith, e)) (omega (arith, f))

  turn_lem :
      (k i : ℕ) (ws : List Worker) (x y : ℕ) (p : PoolInner)
      → AllFine ws
      → IsShared x y ws p
      → (ws' : List Worker) × (q : PoolInner) × (turn z rounds k i ws (unlocked p)
          ≡ (ok ws', unlocked q))
        × AllFine ws'
        × IsShared x y ws' q
        × (map taken ws' ≡ bump (2 * rounds) k (map taken ws))
  unfolding turn
  turn_lem k i [] x y p fine v = ([], p, refl, tt, v, refl)
  turn_lem zero i (w ∷ ws) x y p (first, others) v =
      let (w', q, e, good, next, n) =
        work_lem z rounds config fits size i w (begins ws + x) (ends ws + y) p first
          (moved _ _ v (omega arith) (omega arith)) in
      (
        w' ∷ ws,
        q,
        bind_ok (work z rounds i w) (λ next. return (next ∷ ws)) e,
        (good, others),
        moved _ _ next (omega arith) (omega arith),
        ap (λ t. t ∷ map taken ws) n,
      )
  turn_lem (suc k) i (w ∷ ws) x y p (first, others) v =
      let (ws', q, e, good, next, n) =
        turn_lem k (i + 1) ws (begun w + x) (ended w + y) p others
          (moved _ _ v (omega arith) (omega arith)) in
      (
        w ∷ ws',
        q,
        bind_ok (turn z rounds k (i + 1) ws) (λ rest. return (w ∷ rest)) e,
        (first, good),
        moved _ _ next (omega arith) (omega arith),
        ap (λ ts. taken w ∷ ts) n,
      )

  run_lem :
      (order : List ℕ) (ws : List Worker) (p : PoolInner)
      → AllFine ws
      → IsShared 0 0 ws p
      → (ws' : List Worker) × (q : PoolInner) × (run z rounds order ws (unlocked p)
          ≡ (ok ws', unlocked q))
        × AllFine ws'
        × IsShared 0 0 ws' q
        × (map taken ws' ≡ bumps (2 * rounds) order (map taken ws))
  unfolding run
  run_lem [] ws p fine v = (ws, p, refl, fine, v, refl)
  run_lem (k ∷ order) ws p fine v =
      let (ws1, q1, e1, good1, next1, n1) = turn_lem k 0 ws 0 0 p fine v in
      let (ws2, q2, e2, good2, next2, n2) = run_lem order ws1 q1 good1 next1 in
      (
        ws2,
        q2,
        bind_ok (turn z rounds k 0 ws) (λ next. run z rounds order next) e1 ∙ e2,
        good2,
        next2,
        n2 ∙ ap (bumps (2 * rounds) order) n1,
      )

  start_AllFine : (n : ℕ) → AllFine (spawned z rounds n)
  start_AllFine zero = tt
  start_AllFine (suc n) = (omega arith, start_AllFine n)

  start_taken :
      (n : ℕ)
      → (map taken (spawned z rounds n) ≡ replicate n 0)
        × (begins (spawned z rounds n) ≡ 0)
        × (ends (spawned z rounds n) ≡ 0)
  start_taken zero = (refl, refl, refl)
  start_taken (suc n) =
      let (a, b, c) = start_taken n in (ap (λ ts. 0 ∷ ts) a, omega (arith, b), omega (arith, c))

  -- Threads that have had two turns for each round are at their end.
  all_ended :
      (n : ℕ) (ws : List Worker)
      → AllFine ws
      → map taken ws ≡ replicate n (2 * rounds)
      → (ws ≡ replicate n (between rounds)) × (begins ws ≡ n * rounds) × (ends ws ≡ n * rounds)
  all_ended zero [] fine e = (refl, omega arith, omega arith)
  all_ended zero (w ∷ ws) fine e = cc
  all_ended (suc n) [] fine e = cc
  all_ended (suc n) (between j ∷ ws) (le, fine) e =
      let first : j + j ≡ 2 * rounds = cc in
      let (same, b, c) = all_ended n ws fine cc in
      let last : j ≡ rounds = omega (arith, first) in
      (ap₂ (λ i vs. between i ∷ vs) last same, grind (arith, last, b), grind (arith, last, c))
  all_ended (suc n) (holding j b ∷ ws) fine e =
      let first : j + 1 + j ≡ 2 * rounds = cc in absurd (omega (arith, first))

  -- the statistics in the end
  abbrev statistics : PoolInner → PoolStats
  statistics q = record {
    available = length q.buffers;
    total_allocated = q.total_allocated;
    total_acquired = q.total_acquired;
    total_returned = q.total_returned;
    buffer_size = q.config.buffer_size;
    max_pool_size = q.config.max_pool_size;
  }

  stats_lem : (q : PoolInner) → Pool.stats (unlocked q) ≡ (ok (statistics q), unlocked q)
  unfolding Pool.stats
  stats_lem q = refl

  -- With any number of threads and rounds, fewer than 2^64 rounds in all, on a pool whose
  -- buffers have the 15 bytes that a round writes and are within the maximum, with a
  -- min_pool_size of 2^57 at most: in any order of the threads' turns with two for each round
  -- of each thread, every thread of test_buffer_pool_concurrency makes all its rounds without
  -- an error or a panic, and the statistics count an acquire and a return for each round.
  pub test_buffer_pool_concurrency_lem :
      (threads : ℕ) (order : List ℕ)
      → config.min_pool_size ≤ 2 ^ 57
      → threads * rounds < 2 ^ 64
      → ((i : ℕ) → i < threads → 2 * rounds ≤ count i order)
      → (end : PoolStats) × (test_buffer_pool_concurrency z rounds threads config order
          ≡ ok (replicate threads (between rounds), end))
        × (end.total_acquired ≡ threads * rounds)
        × (end.total_returned ≡ threads * rounds)
  unfolding test_buffer_pool_concurrency
  test_buffer_pool_concurrency_lem threads order few small enough =
      let (p, made, v) = new-IsRoomy round_size config fits size few in
      let (none, a, r) = start_taken threads in
      let (ws, q, runs, fine, used, turns) =
        run_lem order (spawned z rounds threads) p (start_AllFine threads)
          (IsUsed-next z rounds config fits size _ _ v (omega (arith, a)) (omega (arith, r))) in
      let all =
        turns
        ∙ ap (bumps (2 * rounds) order) none
        ∙ bumps_enough (2 * rounds) threads order enough in
      let (same, acquired, returned) = all_ended threads ws fine all in
      (
        statistics q,
        block_lem (Pool.new config)
              (do
                ws ← run z rounds order (spawned z rounds threads)
                stats ← Pool.stats
                return (ws, stats))
              made
              (bind_ok (run z rounds order (spawned z rounds threads))
                  (λ ws. (do stats ← Pool.stats; return (ws, stats))) runs
                ∙ bind_ok Pool.stats (λ stats. return (ws, stats)) (stats_lem q))
            ∙ ap (λ vs. ok (vs, statistics q)) same,
        omega (arith, used.acquired, acquired),
        omega (arith, used.returned, returned),
      )
