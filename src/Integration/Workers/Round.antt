-- ===== src/Integration/Workers/Round.antt =====
-- tests/integration_tests.rs: one turn of a thread of `test_buffer_pool_concurrency`.
use secbuf.Prelude.{
  Bool-cases, inl, inr, ℕ, ◌+◌, ◌*◌, ◌%◌, ◌^◌, ◌≤◌, ◌<◌, ◌≡◌, refl, ap, ◌∙◌, min, true, some,
  length, ltb, arith,
}
use secbuf.Machine.{usize_mod}
use secbuf.Error.{ok, Method, ◌>>=◌, ◌>>◌, return, lift, bind_ok}
use secbuf.Assert.{unwrap, look}
use secbuf.Zeroize.{Zeroize}
use secbuf.Bytes.Order.{big_endian, length-big_endian}
use secbuf.Buffer.{Buffer, buf_max_size}
use secbuf.Buffer.Valid.{IsValid}
use secbuf.Buffer.Ops.{put_u32, put_bytes}
use secbuf.Buffer.Access.{written, written-IsValid, put_u32-eq-put_bytes, put_bytes_room}
use secbuf.Pool
use secbuf.Pool.{BufferPool, PoolInner}
use secbuf.Pool.Config.{PoolConfig}
use secbuf.Pool.Safety.{unlocked}
use secbuf.Pool.Roomy.{IsRoomy, acquire-IsRoomy, drop_pooled-IsRoomy}
use secbuf.Integration.Workers.{Worker, between, holding, fill, thread_data, work}

-- the bytes that a round writes
abbrev pub round_size : ℕ
round_size = 15

-- The rounds that a thread has begun, and ended.
abbrev pub begun : Worker → ℕ
begun (between j) = j
begun (holding j b) = j + 1

abbrev pub ended : Worker → ℕ
ended (between j) = j
ended (holding j b) = j

abbrev word : ℕ → ℕ → ℕ
word i j = (i * 100 + j) % 2 ^ 32

-- a buffer after what thread `i` writes in round `j`
abbrev filled : ℕ → ℕ → Buffer → Buffer
filled i j b = written thread_data (written (big_endian 4 (word i j)) b)

unwrap_ok :
    {S A : Type 0} (m : Method S A) {s t : S} {a : A} → m s ≡ (ok a, t) → unwrap m s ≡ (ok a, t)
unwrap_ok m {a = a} e = rw (unwrap, e) (ap (λ r. (ok a, r.1)) e)

module _ (i j : ℕ) {b : Buffer} (v : IsValid b) (start : b.pos ≡ 0)
    (room : round_size ≤ b.vec.len) where
  front : b.pos + length (big_endian 4 (word i j)) ≤ b.vec.len
  front = omega (arith, length-big_endian 4 (word i j))

  back :
      (written (big_endian 4 (word i j)) b).pos + length thread_data
      ≤ (written (big_endian 4 (word i j)) b).vec.len
  unfolding written
  back = omega (arith, length-big_endian 4 (word i j))

  fill_lem : fill i j b ≡ (ok tt, filled i j b)
  unfolding fill
  fill_lem =
      bind_ok (unwrap (put_u32 (word i j))) (λ _. unwrap (put_bytes thread_data))
        (unwrap_ok (put_u32 (word i j))
          (put_u32-eq-put_bytes (word i j) b ∙ put_bytes_room v (big_endian 4 (word i j)) front))
      ∙ unwrap_ok (put_bytes thread_data)
          (put_bytes_room (written-IsValid v (big_endian 4 (word i j)) front) thread_data back)

  filled-IsValid : IsValid (filled i j b)
  filled-IsValid =
      written-IsValid (written-IsValid v (big_endian 4 (word i j)) front) thread_data back

  filled-size : (filled i j b).vec.len ≡ b.vec.len
  unfolding written
  filled-size = refl

module _ (z : Zeroize) (rounds : ℕ) (config : PoolConfig) (fits : round_size ≤ config.buffer_size)
    (size : config.buffer_size ≤ buf_max_size) where
  -- a thread within its rounds, with a buffer that the pool can take back
  abbrev pub IsFine : Worker → Type 0
  IsFine (between j) = j ≤ rounds
  IsFine (holding j b) = (j < rounds) × IsValid b × (round_size ≤ b.vec.len)

  -- the pool after `a` calls of `acquire` and `r` of the destructor
  abbrev pub IsUsed : ℕ → ℕ → PoolInner → Type 0
  IsUsed a r p = IsRoomy round_size config (a % usize_mod) (r % usize_mod) p

  pub IsUsed-next :
      {a r : ℕ} (a' r' : ℕ) {p : PoolInner}
      → IsRoomy round_size config a r p
      → a ≡ a' % usize_mod
      → r ≡ r' % usize_mod
      → IsUsed a' r' p
  IsUsed-next a' r' v e f = record {
    idle = v.idle;
    config = v.config;
    acquired = omega (arith, v.acquired, e);
    returned = omega (arith, v.returned, f);
  }

  -- What a turn of thread `i` makes of `w` and the pool, with `x` and `y` for the other threads.
  abbrev Turned : ℕ → Worker → ℕ → ℕ → PoolInner → Type 0
  Turned i w x y p =
      (w' : Worker) × (q : PoolInner) × (work z rounds i w (unlocked p) ≡ (ok w', unlocked q))
      × IsFine w'
      × IsUsed (begun w' + x) (ended w' + y) q
      × (begun w' + ended w' ≡ min (2 * rounds) (begun w + ended w + 1))

  begin_round :
      (i j x y : ℕ) (p : PoolInner)
      → ltb j rounds ≡ true
      → IsUsed (j + x) (j + y) p
      → Turned i (between j) x y p
  unfolding work
  begin_round i j x y p e v =
      let (b, q, taken, blank, roomy, next) = acquire-IsRoomy round_size config fits size p v in
      let used : ((do fill i j; look) b).0 ≡ ok (filled i j b) =
        ap (λ r. r.0) (bind_ok (fill i j) (λ _. look) (fill_lem i j blank.valid blank.pos roomy)) in
      (
        holding j (filled i j b),
        q,
        rw e (
            bind_ok Pool.acquire
              (λ buf. (do used ← lift ((do fill i j; look) buf).0; return (holding j used))) taken
            ∙ bind_ok (lift ((do fill i j; look) b).0) (λ used. return (holding j used))
                (ap (λ r. (r, unlocked q)) used)),
        (
          ground (arith, e),
          filled-IsValid i j blank.valid blank.pos roomy,
          omega (arith, filled-size i j blank.valid blank.pos roomy, roomy),
        ),
        IsUsed-next _ _ next (omega arith) refl,
        ground (arith, e),
      )

  -- A thread that is not at its end makes a turn; one that is stays as it is.
  pub work_lem :
      (i : ℕ) (w : Worker) (x y : ℕ) (p : PoolInner)
      → IsFine w
      → IsUsed (begun w + x) (ended w + y) p
      → Turned i w x y p
  unfolding work
  work_lem i (between j) x y p fine v = elim (Bool-cases (ltb j rounds)) [
    | inl e ↦ begin_round i j x y p e v
    | inr e ↦ (between j, p, rw e refl, fine, v, ground (arith, e))
  ]
  work_lem i (holding j b) x y p (lt, valid, roomy) v =
      let (f, q, back, next) = drop_pooled-IsRoomy round_size config fits size z p v valid roomy in
      (
        between (j + 1),
        q,
        bind_ok (Pool.drop_pooled z (some b)) (λ freed. return (between (j + 1))) back,
        omega arith,
        IsUsed-next _ _ next (omega arith) (omega arith),
        omega arith,
      )
