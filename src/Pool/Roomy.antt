-- ===== src/Pool/Roomy.antt =====
-- src/pool/standard.rs: a pool that gives out only buffers with a given room.
use secbuf.Prelude.{
  ℕ, zero, suc, ◌+◌, ◌*◌, ◌^◌, ◌≤◌, ◌≡◌, refl, subst, Bool, true, false, some, List, [], ◌∷◌,
  length, ltb, le→ltb, arith,
}
use secbuf.Machine.{add_size, isize_max}
use secbuf.Error.{ok}
use secbuf.Zeroize.{Zeroize}
use secbuf.Buffer
use secbuf.Buffer.{Buffer, buf_max_size}
use secbuf.Buffer.Valid.{IsValid}
use secbuf.Buffer.Wipe.{burn_lem}
use secbuf.Pool.{PoolInner, push_new, new, acquire, drop_pooled}
use secbuf.Pool.Config.{PoolConfig}
use secbuf.Pool.Idle.{IsBlank, fresh, fresh-IsBlank, new_lem, burned-IsBlank}
use secbuf.Pool.Safety.{unlocked}

-- every idle buffer is blank and has `room` bytes
abbrev pub AllRoomy : ℕ → List Buffer → Type 0
AllRoomy room [] = Unit {0}
AllRoomy room (b ∷ bs) = IsBlank b × (room ≤ b.vec.len) × AllRoomy room bs

module _ (room : ℕ) where
  pub push_new-AllRoomy :
      (count size : ℕ) (bs : List Buffer)
      → size ≤ buf_max_size
      → room ≤ size
      → AllRoomy room bs
      → (cs : List Buffer) × (push_new count size bs ≡ ok cs)
        × AllRoomy room cs
        × (length cs ≡ count + length bs)
  unfolding push_new
  push_new-AllRoomy zero size bs le fits roomy = (bs, refl, roomy, omega arith)
  push_new-AllRoomy (suc count) size bs le fits roomy =
      let (cs, e, more, n) =
        push_new-AllRoomy count size (fresh size ∷ bs) le fits
          (fresh-IsBlank size le, fits, roomy) in
      (cs, rw (push_new, new_lem size le) e, more, omega (arith, n))

  -- The pool after a call: all its buffers have the room, `a` were acquired and `r` returned.
  pub record IsRoomy (sizes : PoolConfig) (a r : ℕ) (p : PoolInner) : Type 0 where
    pub idle : AllRoomy room p.buffers
    pub config : p.config ≡ sizes
    pub acquired : p.total_acquired ≡ a
    pub returned : p.total_returned ≡ r

  module _ (config : PoolConfig) (fits : room ≤ config.buffer_size)
      (size : config.buffer_size ≤ buf_max_size) where
    pub new-IsRoomy :
        config.min_pool_size ≤ 2 ^ 57
        → (p : PoolInner) × (new config ≡ ok (unlocked p)) × IsRoomy config 0 0 p
    unfolding new
    new-IsRoomy few =
        let (bs, e, roomy, n) =
          push_new-AllRoomy config.min_pool_size config.buffer_size [] size fits tt in
        (
          record {
            buffers = bs;
            config = config;
            total_allocated = 0;
            total_acquired = 0;
            total_returned = 0;
          },
          rw (le→ltb isize_max (config.min_pool_size * 40) (omega (arith, few)), e) refl,
          record { idle = roomy; config = refl; acquired = refl; returned = refl },
        )

    pub acquire-IsRoomy :
        {a r : ℕ} (p : PoolInner)
        → IsRoomy config a r p
        → (b : Buffer) × (q : PoolInner) × (acquire (unlocked p) ≡ (ok b, unlocked q))
          × IsBlank b
          × (room ≤ b.vec.len)
          × IsRoomy config (add_size a 1) r q
    unfolding acquire
    acquire-IsRoomy {a} {r} p v = go p.buffers refl
      where
        go :
            (bs : List Buffer)
            → p.buffers ≡ bs
            → (b : Buffer) × (q : PoolInner) × (acquire (unlocked p) ≡ (ok b, unlocked q))
              × IsBlank b
              × (room ≤ b.vec.len)
              × IsRoomy config (add_size a 1) r q
        go [] e = (
          fresh config.buffer_size,
          record p {
            buffers = [];
            total_allocated = add_size p.total_allocated 1;
            total_acquired = add_size p.total_acquired 1;
          },
          rw (e, v.config, new_lem config.buffer_size size) refl,
          fresh-IsBlank config.buffer_size size,
          fits,
          record {
            idle = tt;
            config = v.config;
            acquired = omega (arith, v.acquired);
            returned = v.returned;
          },
        )
        go (b ∷ bs) e =
            let (blank, roomy, rest) = subst (λ xs. AllRoomy room xs) e v.idle in
            (
              b,
              record p { buffers = bs; total_acquired = add_size p.total_acquired 1 },
              rw e refl,
              blank,
              roomy,
              record {
                idle = rest;
                config = v.config;
                acquired = omega (arith, v.acquired);
                returned = v.returned;
              },
            )

    pub drop_pooled-IsRoomy :
        (z : Zeroize) {a r : ℕ} (p : PoolInner) {b : Buffer}
        → IsRoomy config a r p
        → IsValid b
        → room ≤ b.vec.len
        → (f : List (List ℕ)) × (q : PoolInner) × (drop_pooled z (some b) (unlocked p)
            ≡ (ok f, unlocked q))
          × IsRoomy config a (add_size r 1) q
    unfolding drop_pooled
    drop_pooled-IsRoomy z {a} {r} p {b} v valid roomy =
        go (ltb (length p.buffers) p.config.max_pool_size) refl
      where
        counted : PoolInner
        counted = record p { total_returned = add_size p.total_returned 1 }

        go :
            (t : Bool)
            → ltb (length p.buffers) p.config.max_pool_size ≡ t
            → (f : List (List ℕ)) × (q : PoolInner) × (drop_pooled z (some b) (unlocked p)
                ≡ (ok f, unlocked q))
              × IsRoomy config a (add_size r 1) q
        go true e =
            let (_, _, len, _, _) = burn_lem z valid in
            (
              [],
              record counted { buffers = Buffer.burn z b ∷ p.buffers },
              rw e refl,
              record {
                idle = (burned-IsBlank z b valid, omega (arith, len, roomy), v.idle);
                config = v.config;
                acquired = v.acquired;
                returned = omega (arith, v.returned);
              },
            )
        go false e = (
          Buffer.drop_buffer z (Buffer.burn z b) ∷ [],
          counted,
          rw e refl,
          record {
            idle = v.idle;
            config = v.config;
            acquired = v.acquired;
            returned = omega (arith, v.returned);
          },
        )
