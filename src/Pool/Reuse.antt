-- ===== src/Pool/Reuse.antt =====
-- src/pool/standard.rs: a returned buffer is what the next `acquire` hands out.
use secbuf.Prelude.{◌<◌, ◌≡◌, refl, false, some, length, lt→ltb}
use secbuf.Machine.{add_size}
use secbuf.Error.{ok}
use secbuf.Zeroize.{Zeroize}
use secbuf.Buffer
use secbuf.Buffer.{Buffer}
use secbuf.Pool.{BufferPool, acquire, drop_pooled}

-- With room in a pool that is not poisoned, a returned buffer comes out burned at the next
-- acquire, with the size that its last user left it, and the other idle buffers stay.
pub acquire-drop_pooled :
    (z : Zeroize) (b : Buffer) (p : BufferPool)
    → p.poisoned ≡ false
    → length p.inner.buffers < p.inner.config.max_pool_size
    → let (_, q) = drop_pooled z (some b) p in
      acquire q ≡ (
        ok (Buffer.burn z b),
        record p {
          inner = record (p.inner) {
            total_acquired = add_size p.inner.total_acquired 1;
            total_returned = add_size p.inner.total_returned 1;
          };
          poisoned = false;
        },
      )
unfolding acquire drop_pooled
acquire-drop_pooled z b p free room = rw (free, lt→ltb _ _ room) refl
