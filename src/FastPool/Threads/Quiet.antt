-- ===== src/FastPool/Threads/Quiet.antt =====
-- src/pool/fast.rs: the counter of the queue once no call is running.
use secbuf.Prelude.{ℕ, ◌+◌, ◌*◌, ◌≤◌, ◌<◌, ◌≡◌, refl, ap, List, [], ◌∷◌, arith}
use secbuf.Machine.{usize_mod}
use secbuf.Error.{ok}
use secbuf.Zeroize.{Zeroize}
use secbuf.Buffer.{buf_max_size}
use secbuf.Pool.Config.{PoolConfig}
use secbuf.FastPool.Queue.{SegQueue}
use secbuf.FastPool.{FastPool, new}
use secbuf.FastPool.State.{Thread, idle}
use secbuf.FastPool.Threads.{System, Reached, opened}
use secbuf.FastPool.Threads.Count.{uncounted, untaken, queued}
use secbuf.FastPool.Threads.Limit.{pushes, pops_left, opened-IsBounded}

abbrev pub AllIdle : List Thread → Type 0
AllIdle [] = Unit {0}
AllIdle (t ∷ ts) = (t.phase ≡ idle) × AllIdle ts

idle_done : (ts : List Thread) → AllIdle ts → (pushes ts ≡ 0) × (pops_left ts ≡ 0)
idle_done [] h = (refl, refl)
idle_done (t ∷ ts) h =
    let (a, b) = idle_done ts h.1 in
    (omega (arith, a, ap uncounted h.0), omega (arith, b, ap untaken h.0))

module _ (S : SegQueue) (z : Zeroize) (config : PoolConfig) where
  -- In whatever order n threads have taken the steps of their calls on a pool that new has
  -- made, warming it to cap at most: once no call is running, the counter of the queue is the
  -- number of its items; with cap at least 1, a buffer size within the maximum and no counter
  -- near 2^64.
  pub quiet_counter_is_right :
      (cap : ℕ) (n : ℕ) (pool : FastPool S) {s : System S z config}
      → 0 < cap
      → new S config ≡ ok pool
      → config.buffer_size ≤ buf_max_size
      → config.min_pool_size + config.max_pool_size + n * cap * 2 < usize_mod
      → Reached S z config cap (opened S z config n pool) s
      → AllIdle s.threads
      → s.shared.queue.size ≡ queued S s.shared
  quiet_counter_is_right cap n pool {s} some_cap made size roomy path quiet =
      let w = opened-IsBounded S z config cap some_cap n pool made size roomy path in
      let (a, b) = idle_done s.threads quiet in
      omega (arith, w.counted, w.size, w.bound, w.all, a, b, roomy)
