-- ===== src/Pool/Freed.antt =====
-- src/pool/standard.rs: the calls that may free buffers free zeros only, and keep the pool sound.
use secbuf.Prelude.{
  ℕ, ◌-◌, ◌≡◌, refl, map, min, Bool-cases, inl, inr, List, [], ◌∷◌, some, length, take, drop,
  length-drop, ltb, ltb→lt, arith,
}
use secbuf.Machine.{add_size}
use secbuf.Error.{ok}
use secbuf.Zeroize.{Zeroize}
use secbuf.Buffer
use secbuf.Buffer.{Buffer, buf_max_size}
use secbuf.Buffer.Valid.{IsValid}
use secbuf.Pool.Idle.{AllZero, burned-IsBlank, drop-AllBlank, freed-zero, freed-AllZero}
use secbuf.Pool.{PoolInner, BufferPool, shrink, clear, drop_pooled}
use secbuf.Pool.Safety.{IsPool, IsNext, unlocked}

module _ (z : Zeroize) where
  pub shrink_lem :
      (p : BufferPool)
      → IsPool p
      → (freed : List (List ℕ)) × (q : BufferPool) × (shrink z p ≡ (ok freed, q))
        × AllZero freed
        × (length q.inner.buffers ≡ min (length p.inner.buffers) p.inner.config.min_pool_size)
        × IsNext p p.inner.total_acquired p.inner.total_returned q
  unfolding shrink
  shrink_lem p v =
      let excess : ℕ = length p.inner.buffers - p.inner.config.min_pool_size in
      let count = length-drop excess p.inner.buffers in
      (
        map (Buffer.drop_buffer z) (take excess p.inner.buffers),
        unlocked (record (p.inner) { buffers = drop excess p.inner.buffers }),
        rw v.unpoisoned refl,
        freed-AllZero z (take excess p.inner.buffers),
        omega (arith, count),
        record {
          pool = record {
            sound = record {
              blank = drop-AllBlank excess p.inner.buffers v.sound.blank;
              few = omega (arith, count, v.sound.few);
              size = v.sound.size;
            };
            unpoisoned = refl;
          };
          config = refl;
          acquired = refl;
          returned = refl;
        },
      )

  pub clear_pool_lem :
      (p : BufferPool)
      → IsPool p
      → (freed : List (List ℕ)) × (q : BufferPool) × (clear z p ≡ (ok freed, q))
        × AllZero freed
        × (q.inner.buffers ≡ [])
        × IsNext p p.inner.total_acquired p.inner.total_returned q
  unfolding clear
  clear_pool_lem p v = (
    map (Buffer.drop_buffer z) p.inner.buffers,
    unlocked (record (p.inner) { buffers = [] }),
    rw v.unpoisoned refl,
    freed-AllZero z p.inner.buffers,
    refl,
    record {
      pool = record {
        sound = record { blank = tt; few = omega arith; size = v.sound.size };
        unpoisoned = refl;
      };
      config = refl;
      acquired = refl;
      returned = refl;
    },
  )

  pub drop_pooled_lem :
      (b : Buffer) (p : BufferPool)
      → IsPool p
      → IsValid b
      → (freed : List (List ℕ)) × (q : BufferPool) × (drop_pooled z (some b) p ≡ (ok freed, q))
        × AllZero freed
        × IsNext p p.inner.total_acquired (add_size p.inner.total_returned 1) q
  unfolding drop_pooled
  drop_pooled_lem b p v w =
      elim (Bool-cases (ltb (length p.inner.buffers) p.inner.config.max_pool_size)) [
        | inl room ↦ (
          [],
          unlocked (record counted { buffers = Buffer.burn z b ∷ p.inner.buffers }),
          rw (v.unpoisoned, room) refl,
          tt,
          record {
            pool = record {
              sound = record {
                blank = (burned-IsBlank z b w, v.sound.blank);
                few = omega (arith, ltb→lt _ _ room);
                size = v.sound.size;
              };
              unpoisoned = refl;
            };
            config = refl;
            acquired = refl;
            returned = refl;
          },
        )
        | inr full ↦ (
          Buffer.drop_buffer z (Buffer.burn z b) ∷ [],
          unlocked counted,
          rw (v.unpoisoned, full) refl,
          (freed-zero z (Buffer.burn z b), tt),
          record {
            pool = record {
              sound = record { blank = v.sound.blank; few = v.sound.few; size = v.sound.size };
              unpoisoned = refl;
            };
            config = refl;
            acquired = refl;
            returned = refl;
          },
        )
      ]
    where
      counted : PoolInner
      counted = record (p.inner) { total_returned = add_size p.inner.total_returned 1 }
