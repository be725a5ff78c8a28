-- ===== src/FastPool/Threads/Opened.antt =====
-- src/pool/fast.rs: what `FastBufferPool::new` makes, before any thread calls it.
use secbuf.Prelude.{ℕ, zero, suc, ◌+◌, ◌≤◌, ◌<◌, ◌≡◌, refl, ap, sym, subst, length, arith}
use secbuf.Machine.{usize_mod}
use secbuf.Error.{ok}
use secbuf.Buffer.{buf_max_size}
use secbuf.Pool.Config.{PoolConfig}
use secbuf.Pool.Idle.{AllBlank, fresh, new_lem, fresh-IsBlank}
use secbuf.FastPool.Queue.{SegQueue, LockFreeQueue, empty_queue, push}
use secbuf.FastPool.{FastPool, push_new, new}
use secbuf.FastPool.Laws.{IsQueue, push_lem}

module _ (S : SegQueue) where
  push_new-IsQueue :
      (count size : ℕ) (q : LockFreeQueue S)
      → size ≤ buf_max_size
      → q.size + count < usize_mod
      → IsQueue S q
      → (r : LockFreeQueue S) × (push_new S count size q ≡ ok r)
        × IsQueue S r
        × (r.size ≡ q.size + count)
  unfolding push_new
  push_new-IsQueue zero size q le small v = (q, refl, v, omega arith)
  push_new-IsQueue (suc count) size q le small v =
      let (w, more) = push_lem S (fresh size) q v (fresh-IsBlank size le) (omega (arith, small)) in
      let (r, e, u, f) =
        push_new-IsQueue count size (push S (fresh size) q) le (omega (arith, small, more)) w in
      (r, rw (push_new, new_lem size le) e, u, omega (arith, f, more))

  ok_same : {p q : FastPool S} → ok p ≡ ok q → p ≡ q
  ok_same e = cc

  -- `new` makes a queue of `min_pool_size` blank buffers.
  pub new-IsQueue :
      (config : PoolConfig) (pool : FastPool S)
      → new S config ≡ ok pool
      → config.buffer_size ≤ buf_max_size
      → config.min_pool_size < usize_mod
      → IsQueue S pool.global_pool × (pool.global_pool.size ≡ config.min_pool_size)
  unfolding new
  new-IsQueue config pool made le small =
      let (r, e, v, f) =
        push_new-IsQueue config.min_pool_size config.buffer_size (empty_queue S) le
          (omega (arith, small))
          (record {
            blank = subst (λ xs. AllBlank xs) (sym S.items-fresh) tt;
            counted = ap length (sym S.items-fresh);
          }) in
      let same : r ≡ pool.global_pool =
        let opened = rw (new, e) at made in ap (λ p. p.global_pool) (ok_same opened) in
      subst (λ q. IsQueue S q × (q.size ≡ config.min_pool_size)) same (v, omega (arith, f))
