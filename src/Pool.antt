-- ===== src/Pool.antt =====
-- src/pool/standard.rs and src/pool/stats.rs: the pool behind a mutex.
-- A call that panics while it holds the lock and unwinds poisons the mutex, and every later `lock().unwrap()`
-- panics. A call that frees memory returns what it frees.
pub mod Config
pub mod Idle
pub mod Handle
pub mod Rates
mod UnitTests
pub mod Freed
pub mod Safety
pub mod Reuse
pub mod System
pub mod Roomy
pub mod Steps
pub mod Count
mod Tests
use secbuf.Prelude.{
  ℕ, zero, suc, ◌+◌, ◌-◌, ◌*◌, min, Bool, true, false, Option, none, some, List, [], ◌∷◌, ◌++◌, map,
  length, take, drop, ltb, if◌then◌else◌,
}
use secbuf.Machine.{add_size, mul_size, isize_max}
use secbuf.Error.{Outcome, ok, err, panic, undefined, Method, and_then}
use secbuf.Zeroize.{Zeroize}
use secbuf.Buffer
use secbuf.Buffer.{Buffer}
use secbuf.Pool.Config.{PoolConfig}

-- `buffers` has the end of the vector first, where `push` and `pop` work.
pub record PoolInner : Type 0 where
  pub buffers : List Buffer
  pub config : PoolConfig
  pub total_allocated : ℕ
  pub total_acquired : ℕ
  pub total_returned : ℕ

-- `Arc<Mutex<PoolInner>>`
pub record BufferPool : Type 0 where
  pub inner : PoolInner
  pub poisoned : Bool

-- `for _ in 0..count { buffers.push(Buffer::new(size)) }`
unfoldable pub push_new : ℕ → ℕ → List Buffer → Outcome (List Buffer)
push_new zero size bs = ok bs
push_new (suc count) size bs = elim (Buffer.new size) [
  | ok b ↦ push_new count size (b ∷ bs)
  | err e ↦ err e
  | panic ↦ panic
  | undefined ↦ undefined
]

-- A `Buffer` takes 40 bytes, and `Vec::with_capacity` panics where they exceed `isize::MAX`.
unfoldable pub new : PoolConfig → Outcome BufferPool
new config =
    if ltb isize_max (config.min_pool_size * 40)
    then panic
    else elim (push_new config.min_pool_size config.buffer_size []) [
      | ok bs ↦ ok (record {
        inner = record {
          buffers = bs;
          config = config;
          total_allocated = 0;
          total_acquired = 0;
          total_returned = 0;
        };
        poisoned = false;
      })
      | err e ↦ err e
      | panic ↦ panic
      | undefined ↦ undefined
    ]

-- The guard is dropped. A panic in between leaves the mutex poisoned where it unwinds, as in the tests and
-- by default in programs that link the crate; where it aborts, as in the repository's own
-- [profile.release], the process ends with the outcome, and nothing sees the state.
abbrev pub release : {A : Type 0} → Outcome A × PoolInner → Outcome A × BufferPool
release (ok a, inner) = (ok a, record { inner = inner; poisoned = false })
release (err e, inner) = (err e, record { inner = inner; poisoned = false })
release (panic, inner) = (panic, record { inner = inner; poisoned = true })
release (undefined, inner) = (undefined, record { inner = inner; poisoned = true })

-- `self.inner.lock().unwrap()`, with the guard dropped at the end of the call
abbrev pub lock : {A : Type 0} → (PoolInner → Outcome A × PoolInner) → Method BufferPool A
lock f p = if p.poisoned then (panic, p) else release (f p.inner)

-- `buffer.unwrap_or_else(...)` after the pop
abbrev pub pop_or_new : PoolInner → Outcome Buffer × PoolInner
pop_or_new inner = elim inner.buffers [
  | b ∷ bs ↦ (ok b, record inner { buffers = bs })
  | [] ↦ (
    Buffer.new inner.config.buffer_size,
    record inner { buffers = []; total_allocated = add_size inner.total_allocated 1 },
  )
]

-- The caller holds the result in a `PooledBuffer`.
unfoldable pub acquire : Method BufferPool Buffer
acquire =
    lock (λ inner. pop_or_new (record inner { total_acquired = add_size inner.total_acquired 1 }))

unfoldable pub available : Method BufferPool ℕ
available = lock (λ inner. (ok (length inner.buffers), inner))

pub record PoolStats : Type 0 where
  pub available : ℕ
  pub total_allocated : ℕ
  pub total_acquired : ℕ
  pub total_returned : ℕ
  pub buffer_size : ℕ
  pub max_pool_size : ℕ

unfoldable pub stats : Method BufferPool PoolStats
stats = lock (λ inner. (
  ok (record {
    available = length inner.buffers;
    total_allocated = inner.total_allocated;
    total_acquired = inner.total_acquired;
    total_returned = inner.total_returned;
    buffer_size = inner.config.buffer_size;
    max_pool_size = inner.config.max_pool_size;
  }),
  inner,
))

-- `saturating_sub`
unfoldable pub in_use : PoolStats → ℕ
in_use s = s.total_acquired - s.total_returned

unfoldable pub grow : ℕ → Method BufferPool (Unit {0})
grow target_size = lock λ inner.
    elim (push_new (min target_size inner.config.max_pool_size - length inner.buffers)
      inner.config.buffer_size inner.buffers) [
        | ok bs ↦ (ok tt, record inner { buffers = bs })
        | err e ↦ (err e, inner)
        | panic ↦ (panic, inner)
        | undefined ↦ (undefined, inner)
      ]

-- `PooledBuffer::leak` takes the buffer out, so that its destructor finds none.
unfoldable pub leak : Option Buffer → Outcome Buffer × Option Buffer
leak none = (panic, none)
leak (some b) = (ok b, none)

module _ (z : Zeroize) where
  -- `shrink` keeps the `min_pool_size` buffers at the vector's start.
  unfoldable pub shrink : Method BufferPool (List (List ℕ))
  shrink = lock λ inner.
      let excess = length inner.buffers - inner.config.min_pool_size in
      (
        ok (map (Buffer.drop_buffer z) (take excess inner.buffers)),
        record inner { buffers = drop excess inner.buffers },
      )

  unfoldable pub clear : Method BufferPool (List (List ℕ))
  clear =
      lock λ inner. (ok (map (Buffer.drop_buffer z) inner.buffers), record inner { buffers = [] })

  -- `drop_now`, the destructor that follows it included
  unfoldable pub drop_now : Option Buffer → List (List ℕ) × Option Buffer
  drop_now none = ([], none)
  drop_now (some b) = (Buffer.drop_buffer z (Buffer.burn z b) ∷ [], none)

  -- `impl Drop for PooledBuffer`
  unfoldable pub drop_pooled : Option Buffer → Method BufferPool (List (List ℕ))
  drop_pooled none p = (ok [], p)
  drop_pooled (some b) p =
      let burned = Buffer.burn z b in
      lock
        (λ inner.
          let counted = record inner { total_returned = add_size inner.total_returned 1 } in
          if ltb (length counted.buffers) counted.config.max_pool_size
          then (ok [], record counted { buffers = burned ∷ counted.buffers })
          else (ok (Buffer.drop_buffer z burned ∷ []), counted))
        p
