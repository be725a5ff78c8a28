-- ===== src/FastPool/Safety.antt =====
-- src/pool/fast.rs: one thread's calls keep the idle buffers blank and the counter right, and
-- whatever they free is zero.
use secbuf.Prelude.{
  ℕ, ◌+◌, ◌<◌, ◌≡◌, refl, ap, subst, Bool, true, false, Bool-cases, inl, inr, ◌⊎◌, ◌≤◌, ◌++◌, List,
  [], some, List, [], ◌∷◌, length, ltb, ltb→lt, if◌then◌else◌, arith,
}
use secbuf.Machine.{add_size}
use secbuf.Error.{ok}
use secbuf.Zeroize.{Zeroize}
use secbuf.Buffer
use secbuf.Buffer.{Buffer, buf_max_size}
use secbuf.Buffer.Valid.{IsValid}
use secbuf.Pool.Idle.{IsBlank, AllBlank, AllZero, burned-IsBlank, freed-zero}
use secbuf.FastPool.Queue.{SegQueue, LockFreeQueue, push}
use secbuf.FastPool.{
  FastPool, View, acquire, push_or_free, clear_thread_cache, drop_pooled, thread_cache_capacity,
}
use secbuf.FastPool.Idle.{IsIdle, IsView, acquire_shared_lem}
use secbuf.FastPool.Laws.{push_lem}

room_in_cache :
    (tls : Bool) (n : ℕ)
    → (if tls then ltb n thread_cache_capacity else tls) ≡ true
    → n < thread_cache_capacity
room_in_cache true n h = ltb→lt _ _ h
room_in_cache false n h = cc

module _ (S : SegQueue) where
  -- From a sound view a thread gets a blank buffer, from its cache, the global queue or the
  -- allocator, and leaves a sound view.
  pub fast_acquire_lem :
      (s : View S)
      → IsView S s
      → (b : Buffer) × (t : View S) × (acquire S s ≡ (ok b, t)) × IsBlank b × IsView S t
  unfolding acquire
  fast_acquire_lem s v = go s.cache refl
    where
      counted : FastPool S
      counted = record (s.pool) { acquired = add_size s.pool.acquired 1 }

      idle : IsIdle S counted
      idle = record {
        queue = v.pool.queue;
        few = v.pool.few;
        bounded = v.pool.bounded;
        size = v.pool.size;
      }

      go :
          (bs : List Buffer)
          → s.cache ≡ bs
          → (b : Buffer) × (t : View S) × (acquire S s ≡ (ok b, t)) × IsBlank b × IsView S t
      go [] e =
          let (b, next, h, blank, w) = acquire_shared_lem S counted idle in
          (
            b,
            record { pool = next; cache = [] },
            rw (e, h) refl,
            blank,
            record { pool = w; blank = tt; few = omega arith },
          )
      go (b ∷ bs) e =
          let (first, rest) = subst (λ xs. AllBlank xs) e v.blank in
          (
            b,
            record {
              pool = record counted { cache_hits = add_size counted.cache_hits 1 };
              cache = bs;
            },
            rw e refl,
            first,
            record {
              pool = record {
                queue = v.pool.queue;
                few = v.pool.few;
                bounded = v.pool.bounded;
                size = v.pool.size;
              };
              blank = rest;
              few = omega (arith, ap length e, v.few);
            },
          )

  module _ (z : Zeroize) where
    -- Where `push_or_free` lets a blank buffer go: to the end of the queue while that is within its limit,
    -- or back to the allocator.
    pub data Lands (limit : ℕ) (b : Buffer) (q : LockFreeQueue S)
        : List (List ℕ) → LockFreeQueue S → Type 0 where
      enqueued :
          {next : LockFreeQueue S}
          → q.size < limit
          → S.items next.items ≡ S.items q.items ++ (b ∷ [])
          → Lands limit b q [] next
      dropped :
          {next : LockFreeQueue S}
          → limit ≤ q.size
          → S.items next.items ≡ S.items q.items
          → Lands limit b q (Buffer.drop_buffer z b ∷ []) next

    push_or_free_lem :
        (b : Buffer) (pool : FastPool S)
        → IsIdle S pool
        → IsBlank b
        → let (freed, next) = push_or_free S z b pool in
          AllZero freed
          × IsIdle S next
          × Lands pool.config.max_pool_size b pool.global_pool freed next.global_pool
    unfolding push_or_free push
    push_or_free_lem b pool v w =
        elim (Bool-cases (ltb pool.global_pool.size pool.config.max_pool_size)) [
          | inl room ↦
              let (q, n) =
                push_lem S b pool.global_pool v.queue w
                  (omega (arith, v.bounded, ltb→lt _ _ room)) in
              rw room (
                tt,
                record {
                  queue = q;
                  few = omega (arith, n, ltb→lt _ _ room);
                  bounded = v.bounded;
                  size = v.size;
                },
                enqueued (ltb→lt _ _ room) (S.items-push b pool.global_pool.items),
              )
          | inr full ↦ rw full ((freed-zero z b, tt), v, dropped (ground (arith, full)) refl)
        ]

    -- Where the destructor lets a buffer go: burned to the front of the thread's cache, if it is reached
    -- and has room, and otherwise on, the cache as it was.
    pub data Returned (tls : Bool) (b : Buffer) (s : View S) : List (List ℕ) → View S → Type 0 where
      cached :
          {t : View S}
          → tls ≡ true
          → length s.cache < thread_cache_capacity
          → t.cache ≡ Buffer.burn z b ∷ s.cache
          → S.items t.pool.global_pool.items ≡ S.items s.pool.global_pool.items
          → Returned tls b s [] t
      passed_on :
          {f : List (List ℕ)} {t : View S}
          → (tls ≡ false) ⊎ (thread_cache_capacity ≤ length s.cache)
          → t.cache ≡ s.cache
          → Lands s.pool.config.max_pool_size
              (Buffer.burn z b)
              s.pool.global_pool
              f
              t.pool.global_pool
          → Returned tls b s f t

    reached :
        (tls : Bool) (n : ℕ)
        → (if tls then ltb n thread_cache_capacity else tls) ≡ true
        → tls ≡ true
    reached true n e = refl
    reached false n e = e

    not_taken :
        (tls : Bool) (n : ℕ)
        → (if tls then ltb n thread_cache_capacity else tls) ≡ false
        → (tls ≡ false) ⊎ (thread_cache_capacity ≤ n)
    not_taken true n e = inr (ground (arith, e))
    not_taken false n e = inl e

    -- From a sound view the destructor of a valid pooled buffer puts that buffer, burned, at
    -- the front of the thread's cache if the cache is reached and has room, otherwise at the
    -- end of the queue if its counter is below max_pool_size, and otherwise frees its memory;
    -- what else was cached or queued stays as it is, what is freed is zero, and the view
    -- stays sound.
    pub fast_drop_lem :
        (tls : Bool) (b : Buffer) (s : View S)
        → IsView S s
        → IsValid b
        → let (freed, t) = drop_pooled S z tls (some b) s in
          AllZero freed × IsView S t × Returned tls b s freed t
    unfolding drop_pooled
    fast_drop_lem tls b s v w = elim (Bool-cases (if tls then has_room else tls)) [
      | inl taken ↦
          let few = room_in_cache tls (length s.cache) taken in
          rw taken (
            tt,
            record {
              pool = idle;
              blank = (burned-IsBlank z b w, v.blank);
              few = omega (arith, few);
            },
            cached (reached tls (length s.cache) taken) few refl refl,
          )
      | inr on ↦
          let (zero_bytes, kept, lands) =
            push_or_free_lem (Buffer.burn z b) counted idle (burned-IsBlank z b w) in
          rw on (
            zero_bytes,
            record { pool = kept; blank = v.blank; few = v.few },
            passed_on (not_taken tls (length s.cache) on) refl lands,
          )
    ]
      where
        has_room : Bool
        has_room = ltb (length s.cache) thread_cache_capacity

        counted : FastPool S
        counted = record (s.pool) { returned = add_size s.pool.returned 1 }

        idle : IsIdle S counted
        idle = record {
          queue = v.pool.queue;
          few = v.pool.few;
          bounded = v.pool.bounded;
          size = v.pool.size;
        }

    -- clear_thread_cache of a pool whose invariant holds queues or frees every buffer of a
    -- cache of blank ones; what it frees is zero, and the invariant still holds.
    pub clear_thread_cache_lem :
        (cache : List Buffer) (pool : FastPool S)
        → AllBlank cache
        → IsIdle S pool
        → let (freed, next) = clear_thread_cache S z cache pool in
          AllZero freed
          × IsIdle S next
          × (length freed + next.global_pool.size ≡ length cache + pool.global_pool.size)
    unfolding clear_thread_cache
    clear_thread_cache_lem [] pool w v = (tt, v, omega arith)
    clear_thread_cache_lem (b ∷ bs) pool w v =
        elim (Bool-cases (ltb pool.global_pool.size pool.config.max_pool_size)) [
          | inl room ↦
              let (q, n) =
                push_lem S b pool.global_pool v.queue w.0
                  (omega (arith, v.bounded, ltb→lt _ _ room)) in
              let next : FastPool S = record pool { global_pool = push S b pool.global_pool } in
              let (zero_bytes, kept, m) = clear_thread_cache_lem bs next w.1 (record {
                queue = q;
                few = omega (arith, n, ltb→lt _ _ room);
                bounded = v.bounded;
                size = v.size;
              }) in
              rw room (zero_bytes, kept, omega (arith, n, m))
          | inr full ↦
              let (zero_bytes, kept, m) = clear_thread_cache_lem bs pool w.1 v in
              rw full ((freed-zero z (Buffer.burn z b), zero_bytes), kept, omega (arith, m))
        ]
