-- ===== src/Pool/Safety.antt =====
-- src/pool/standard.rs: what a sound pool is, and that `new`, `acquire` and `grow` on it return,
-- hand out blank buffers and keep it sound.
use secbuf.Prelude.{
  ℕ, ◌-◌, ◌*◌, ◌^◌, ◌≤◌, ◌≡◌, refl, ap, subst, max, min, false, List, [], ◌∷◌, length, le→ltb,
  arith,
}
use secbuf.Machine.{add_size, isize_max}
use secbuf.Error.{ok}
use secbuf.Buffer.{Buffer, buf_max_size}
use secbuf.Pool.Config.{PoolConfig}
use secbuf.Pool.Idle.{IsBlank, AllBlank, fresh, new_lem, fresh-IsBlank, push_new_lem}
use secbuf.Pool.{PoolInner, BufferPool, new, acquire, grow}

-- The idle buffers are blank and within the larger of the two sizes, and a new one can be had.
pub record IsSound (inner : PoolInner) : Type 0 where
  pub blank : AllBlank inner.buffers
  pub few : length inner.buffers ≤ max inner.config.max_pool_size inner.config.min_pool_size
  pub size : inner.config.buffer_size ≤ buf_max_size

-- A pool whose lock is free and that is sound inside.
pub record IsPool (p : BufferPool) : Type 0 where
  pub sound : IsSound p.inner
  pub unpoisoned : p.poisoned ≡ false

-- `p` is a sound pool with the configuration of `old`, and `a` buffers have been acquired and `r`
-- returned.
pub record IsNext (old : BufferPool) (a r : ℕ) (p : BufferPool) : Type 0 where
  pub pool : IsPool p
  pub config : p.inner.config ≡ old.inner.config
  pub acquired : p.inner.total_acquired ≡ a
  pub returned : p.inner.total_returned ≡ r

pub new-IsPool :
    (config : PoolConfig)
    → config.buffer_size ≤ buf_max_size
    → config.min_pool_size ≤ 2 ^ 57
    → (p : BufferPool) × (new config ≡ ok p)
      × IsPool p
      × (length p.inner.buffers ≡ config.min_pool_size)
unfolding new
new-IsPool config size few =
    let (bs, e, blank, n) = push_new_lem config.min_pool_size config.buffer_size [] size tt in
    (
      record {
        inner = record {
          buffers = bs;
          config = config;
          total_allocated = 0;
          total_acquired = 0;
          total_returned = 0;
        };
        poisoned = false;
      },
      rw (le→ltb isize_max (config.min_pool_size * 40) (omega (arith, few)), e) refl,
      record {
        sound = record { blank = blank; few = omega (arith, n); size = size };
        unpoisoned = refl;
      },
      omega (arith, n),
    )

-- the pool with `inner` behind its free lock
abbrev pub unlocked : PoolInner → BufferPool
unlocked inner = record { inner = inner; poisoned = false }

pub acquire_lem :
    (p : BufferPool)
    → IsPool p
    → (b : Buffer) × (q : BufferPool) × (acquire p ≡ (ok b, q))
      × IsBlank b
      × IsNext p (add_size p.inner.total_acquired 1) p.inner.total_returned q
unfolding acquire
acquire_lem p v = go p.inner.buffers refl
  where
    go :
        (bs : List Buffer)
        → p.inner.buffers ≡ bs
        → (b : Buffer) × (q : BufferPool) × (acquire p ≡ (ok b, q))
          × IsBlank b
          × IsNext p (add_size p.inner.total_acquired 1) p.inner.total_returned q
    go [] e = (
      fresh p.inner.config.buffer_size,
      unlocked (record (p.inner) {
        buffers = [];
        total_allocated = add_size p.inner.total_allocated 1;
        total_acquired = add_size p.inner.total_acquired 1;
      }),
      rw (v.unpoisoned, e, new_lem p.inner.config.buffer_size v.sound.size) refl,
      fresh-IsBlank p.inner.config.buffer_size v.sound.size,
      record {
        pool = record {
          sound = record { blank = tt; few = omega arith; size = v.sound.size };
          unpoisoned = refl;
        };
        config = refl;
        acquired = refl;
        returned = refl;
      },
    )
    go (b ∷ bs) e =
        let (first, rest) = subst (λ xs. AllBlank xs) e v.sound.blank in
        (
          b,
          unlocked (record (p.inner) {
            buffers = bs;
            total_acquired = add_size p.inner.total_acquired 1;
          }),
          rw (v.unpoisoned, e) refl,
          first,
          record {
            pool = record {
              sound = record {
                blank = rest;
                few = omega (arith, ap length e, v.sound.few);
                size = v.sound.size;
              };
              unpoisoned = refl;
            };
            config = refl;
            acquired = refl;
            returned = refl;
          },
        )

pub grow_lem :
    (n : ℕ) (p : BufferPool)
    → IsPool p
    → (q : BufferPool) × (grow n p ≡ (ok tt, q))
      × (length q.inner.buffers ≡ max (length p.inner.buffers) (min n p.inner.config.max_pool_size))
      × IsNext p p.inner.total_acquired p.inner.total_returned q
unfolding grow
grow_lem n p v =
    let (bs, e, blank, count) =
      push_new_lem (min n p.inner.config.max_pool_size - length p.inner.buffers)
        p.inner.config.buffer_size p.inner.buffers v.sound.size v.sound.blank in
    (
      unlocked (record (p.inner) { buffers = bs }),
      rw (v.unpoisoned, e) refl,
      omega (arith, count),
      record {
        pool = record {
          sound = record {
            blank = blank;
            few = omega (arith, count, v.sound.few);
            size = v.sound.size;
          };
          unpoisoned = refl;
        };
        config = refl;
        acquired = refl;
        returned = refl;
      },
    )
