-- ===== src/FastPool/Threads/Warm.antt =====
-- src/pool/fast.rs: `warm` in several threads at once, the case that its comment on the size speaks of.
use secbuf.Prelude.{
  ℕ, zero, suc, ◌+◌, ◌-◌, ◌*◌, ◌≤◌, ◌≡◌, refl, ap, min, List, [], ◌∷◌, ◌++◌, replicate, arith,
}
use secbuf.Error.{ok}
use secbuf.Zeroize.{Zeroize}
use secbuf.Buffer.{buf_max_size}
use secbuf.Pool.Config.{PoolConfig}
use secbuf.Pool.Idle.{fresh, new_lem}
use secbuf.FastPool.Queue.{SegQueue}
use secbuf.FastPool.{FastPool, new}
use secbuf.FastPool.Interleave.{length-push}
use secbuf.FastPool.State.{Thread, Shared, idle, warming, warm_on, with_last, raised}
use secbuf.FastPool.Threads.{
  System, Reached, at, opened, push_item, count_push, warm_start, warm_push, warm_end, moves, start,
  then,
}
use secbuf.FastPool.Threads.Count.{queued}
use secbuf.FastPool.Threads.Opened.{new-IsQueue}

append_assoc :
    (xs : List Thread) (t : Thread) (ys : List Thread) → (xs ++ (t ∷ [])) ++ ys ≡ xs ++ (t ∷ ys)
append_assoc [] t ys = refl
append_assoc (x ∷ xs) t ys = ap (λ l. x ∷ l) (append_assoc xs t ys)

module _ (S : SegQueue) (z : Zeroize) (config : PoolConfig)
    (size : config.buffer_size ≤ buf_max_size) where
  abbrev most : ℕ
  most = config.max_pool_size

  abbrev together : Shared S → List Thread → System S z config
  together m ts = record { shared = m; threads = ts }

  abbrev resting : Thread
  resting = at S z config idle [] []

  abbrev about : ℕ → Thread
  about k = at S z config (warming k) [] []

  -- A thread that has `k` pushes of `warm` left makes them.
  warms :
      {from : System S z config} (k : ℕ) (m : Shared S) (before after : List Thread)
      → Reached S z config most from (together m (before ++ (about k ∷ after)))
      → (m' : Shared S) × Reached S z config most from (together m' (before ++ (resting ∷ after)))
        × (queued S m' ≡ queued S m + k)
  warms zero m before after p = (m, then p (moves before after (warm_end m [] [])), omega arith)
  warms (suc k) m before after p =
      let b = fresh config.buffer_size in
      let p1 =
        then p (moves before after (warm_push m b k [] [] (new_lem config.buffer_size size))) in
      let p2 = then p1 (moves before after (push_item m b (warm_on k) [] [])) in
      let next = with_last S b m in
      let p3 = then p2 (moves before after (count_push next (warm_on k) [] [])) in
      let (m', path, e) = warms k (raised S next) before after p3 in
      (m', path, omega (arith, e, length-push S b m.queue.items))

  -- The threads after `before` start their calls one after another.
  all_start :
      (from : System S z config) (n : ℕ) (m : Shared S) (before : List Thread)
      → m.queue.size ≡ 0
      → Reached S z config most from (together m (before ++ replicate n resting))
      → Reached S z config most from (together m (before ++ replicate n (about most)))
  all_start from zero m before none_counted p = p
  all_start from (suc n) m before none_counted p =
      let started =
        then p (moves before (replicate n resting) (warm_start m most [] [] (omega arith))) in
      let pushes : min most most - m.queue.size ≡ most = omega (arith, none_counted) in
      let q =
        all_start from n m (before ++ (about most ∷ [])) none_counted
          (rw (append_assoc before (about most) (replicate n resting)) (rw pushes at started)) in
      rw (append_assoc before (about most) (replicate n (about most))) at q

  all_end :
      (from : System S z config) (n : ℕ) (m : Shared S) (before : List Thread)
      → Reached S z config most from (together m (before ++ replicate n (about most)))
      → (m' : Shared S) × Reached S z config most from (together m' (before ++ replicate n resting))
        × (queued S m' ≡ queued S m + n * most)
  all_end from zero m before p = (m, p, grind arith)
  all_end from (suc n) m before p =
      let (m1, p1, e1) = warms most m before (replicate n (about most)) p in
      let (m2, p2, e2) =
        all_end from n m1 (before ++ (resting ∷ []))
          (rw (append_assoc before resting (replicate n (about most))) p1) in
      (m2, rw (append_assoc before resting (replicate n resting)) at p2, grind (arith, e1, e2))

  -- n threads that call warm at once on an empty pool that new has made can leave n times
  -- max_pool_size buffers queued with no call running; the buffer size is within the maximum.
  pub warm_multiplies :
      (n : ℕ) (pool : FastPool S)
      → new S config ≡ ok pool
      → config.min_pool_size ≡ 0
      → (m : Shared S) × Reached S z config most
          (opened S z config n pool)
          (together m (replicate n resting))
        × (queued S m ≡ n * most)
  warm_multiplies n pool made none_made =
      let (v, few) = new-IsQueue S config pool made size (omega (arith, none_made)) in
      let p =
        all_start (opened S z config n pool) n (opened S z config n pool).shared []
          (omega (arith, few, none_made)) start in
      let (m, path, e) =
        all_end (opened S z config n pool) n (opened S z config n pool).shared [] p in
      (m, path, omega (arith, e, v.counted, few, none_made))
