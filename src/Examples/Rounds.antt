-- ===== src/Examples/Rounds.antt =====
-- examples/network_simulation.rs: what the rounds on the standard pool make of it.
use secbuf.Prelude.{
  ℕ, zero, suc, ◌+◌, ◌^◌, ◌≤◌, ◌<◌, ◌≡◌, refl, sym, ap, ◌∙◌, some, List, [], ◌∷◌, length, lt→ltb,
  arith,
}
use secbuf.Machine.{add_size}
use secbuf.Error.{ok, ◌>>=◌, return, lift, bind_ok}
use secbuf.Zeroize.{Zeroize}
use secbuf.Buffer
use secbuf.Buffer.{Buffer, buf_max_size}
use secbuf.Buffer.Wipe.{burn_lem}
use secbuf.Pool
use secbuf.Pool.{BufferPool, PoolInner, PoolStats}
use secbuf.Pool.Idle.{IsBlank, burned-IsBlank}
use secbuf.Pool.Safety.{unlocked}
use secbuf.Pool.Roomy.{AllRoomy}
use secbuf.Examples.{Line}
use secbuf.Examples.Packets.{handle_packet, pool_packet, pool_packets, reported}
use secbuf.Examples.Packet.{packet_size, handled, handle_packet_lem, handled-IsValid, handled-size}

module _ (z : Zeroize) (i : ℕ) (inner : PoolInner) (b : Buffer) (bs : List Buffer)
    (idle : inner.buffers ≡ b ∷ bs) where
  abbrev lent : PoolInner
  lent = record inner { buffers = bs; total_acquired = add_size inner.total_acquired 1 }

  abbrev served : PoolInner
  served = record inner {
    buffers = Buffer.burn z (handled i b) ∷ bs;
    total_acquired = add_size inner.total_acquired 1;
    total_returned = add_size inner.total_returned 1;
  }

  acquired : Pool.acquire (unlocked inner) ≡ (ok b, unlocked lent)
  unfolding Pool.acquire
  acquired = rw idle refl

  returned :
      length bs < inner.config.max_pool_size
      → Pool.drop_pooled z (some (handled i b)) (unlocked lent) ≡ (ok [], unlocked served)
  unfolding Pool.drop_pooled
  returned room = rw (lt→ltb _ _ room) refl

  pool_packet_lem :
      IsBlank b
      → packet_size ≤ b.vec.len
      → i < 2 ^ 32
      → length bs < inner.config.max_pool_size
      → pool_packet z i (unlocked inner) ≡ (ok (i, 1400), unlocked served)
  unfolding pool_packet
  pool_packet_lem blank roomy small room =
      let e = handle_packet_lem i blank.valid blank.pos roomy small in
      bind_ok Pool.acquire
        (λ packet. (do
          freed ← Pool.drop_pooled z (some (handle_packet i packet).1)
          lift (handle_packet i packet).0))
        acquired
      ∙ bind_ok (Pool.drop_pooled z (some (handle_packet i b).1))
          (λ freed. lift (handle_packet i b).0)
          (ap (λ r. Pool.drop_pooled z (some r.1) (unlocked lent)) e ∙ returned room)
      ∙ ap (λ r. (r.0, unlocked served)) e

  served-AllRoomy :
      IsBlank b
      → packet_size ≤ b.vec.len
      → i < 2 ^ 32
      → AllRoomy packet_size bs
      → AllRoomy packet_size served.buffers
  served-AllRoomy blank roomy small others =
      let v = handled-IsValid i blank.valid blank.pos roomy small in
      let same = handled-size i blank.valid blank.pos roomy small in
      let (_, _, len, _, _) = burn_lem z v in
      (burned-IsBlank z (handled i b) v, omega (arith, len, same, roomy), others)

-- what the loop prints, with `n` packets to go, from packet `i` on
abbrev pub reports : ℕ → ℕ → List Line
reports zero i = []
reports (suc n) i = reported i (i, 1400) (reports n (i + 1))

-- a pool from which `n` more buffers were taken, each given back, and none allocated
pub record Served (n : ℕ) (p q : PoolInner) : Type 0 where
  pub config : q.config ≡ p.config
  pub allocated : q.total_allocated ≡ p.total_allocated
  pub acquired : q.total_acquired ≡ p.total_acquired + n
  pub returned : q.total_returned ≡ p.total_returned + n
  pub idle : length q.buffers ≡ length p.buffers

module _ (z : Zeroize) where
  pub rounds :
      (n i : ℕ) (p : PoolInner) (bs : List Buffer)
      → p.buffers ≡ bs
      → AllRoomy packet_size bs
      → 0 < length bs
      → length bs ≤ p.config.max_pool_size
      → i + n ≤ 2 ^ 32
      → p.total_acquired + n < 2 ^ 64
      → p.total_returned + n < 2 ^ 64
      → (q : PoolInner) × (pool_packets z n i (unlocked p) ≡ (ok (reports n i), unlocked q))
        × Served n p q
  unfolding pool_packets
  rounds zero i p bs e roomy some_idle few small acq ret = (
    p,
    refl,
    record {
      config = refl;
      allocated = refl;
      acquired = omega arith;
      returned = omega arith;
      idle = refl;
    },
  )
  rounds (suc n) i p [] e roomy some_idle few small acq ret = absurd (omega arith)
  rounds (suc n) i p (b ∷ bs) e (blank, room, others) some_idle few small acq ret =
      let next = served z i p b bs e in
      let (q, later, s) =
        rounds n (i + 1) next next.buffers refl
          (served-AllRoomy z i p b bs e blank room (omega arith) others) (omega arith) (omega arith)
          (omega arith) (omega arith) (omega arith) in
      (
        q,
        bind_ok (pool_packet z i)
              (λ r. (do rest ← pool_packets z n (i + 1); return (reported i r rest)))
              (pool_packet_lem z i p b bs e blank room (omega arith) (omega arith))
            ∙ bind_ok (pool_packets z n (i + 1)) (λ rest. return (reported i (i, 1400) rest)) later,
        record {
          config = s.config;
          allocated = s.allocated;
          acquired = omega (arith, s.acquired);
          returned = omega (arith, s.returned);
          idle = s.idle ∙ ap length (sym e);
        },
      )
