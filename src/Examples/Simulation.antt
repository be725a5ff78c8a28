-- ===== src/Examples/Simulation.antt =====
-- examples/network_simulation.rs: the first part of `main`, for any number of packets.
use secbuf.Prelude.{
  ℕ, ◌-◌, ◌*◌, ◌^◌, ◌≤◌, ◌<◌, ◌≡◌, refl, ap, ◌∙◌, false, List, [], ◌∷◌, ◌++◌, length, le→ltb, ◌==◌,
  arith,
}
use secbuf.Machine.{isize_max}
use secbuf.Error.{ok, Method, ◌>>=◌, return, bind_ok}
use secbuf.Float.Exact.{Is, percentage_all}
use secbuf.Zeroize.{Zeroize}
use secbuf.Buffer.{Buffer, buf_max_size}
use secbuf.Pool
use secbuf.Pool.{BufferPool, PoolInner, PoolStats, push_new}
use secbuf.Pool.Config.{PoolConfig}
use secbuf.Pool.Rates.{hit_rate}
use secbuf.Pool.Safety.{unlocked}
use secbuf.Pool.Roomy.{push_new-AllRoomy}
use secbuf.Examples.{Line, number, rate, block_lem}
use secbuf.Examples.Packet.{packet_size}
use secbuf.Examples.Packets.{pool_packets, pooled, shown}
use secbuf.Examples.Rounds.{reports, Served, rounds}

-- the pool's statistics after `num` packets
abbrev pub finished : PoolConfig → ℕ → PoolStats
finished sizes num = record {
  available = sizes.min_pool_size;
  total_allocated = 0;
  total_acquired = num;
  total_returned = num;
  buffer_size = sizes.buffer_size;
  max_pool_size = sizes.max_pool_size;
}

abbrev pub summary : PoolConfig → ℕ → List Line
summary sizes num =
    (number num ∷ [])
    ∷ (number sizes.min_pool_size ∷ [])
    ∷ (number 0 ∷ [])
    ∷ (number num ∷ [])
    ∷ (number num ∷ [])
    ∷ (number 0 ∷ [])
    ∷ (rate (hit_rate (finished sizes num)) ∷ [])
    ∷ []

shown-finished :
    (sizes : PoolConfig) (num : ℕ)
    → (number num ∷ []) ∷ shown (finished sizes num) ≡ summary sizes num
unfolding shown Pool.in_use
shown-finished sizes num =
    ap
      (λ (k : ℕ).
        (number num ∷ [])
        ∷ (number sizes.min_pool_size ∷ [])
        ∷ (number 0 ∷ [])
        ∷ (number num ∷ [])
        ∷ (number num ∷ [])
        ∷ (number k ∷ [])
        ∷ (rate (hit_rate (finished sizes num)) ∷ [])
        ∷ [])
      (omega arith)

module _ (z : Zeroize) (sizes : PoolConfig) (num : ℕ) where
  -- the pool that `new` makes, with its buffers
  abbrev start : List Buffer → PoolInner
  start bs = record {
    buffers = bs;
    config = sizes;
    total_allocated = 0;
    total_acquired = 0;
    total_returned = 0;
  }

  made :
      (bs : List Buffer)
      → sizes.min_pool_size ≤ 2 ^ 57
      → push_new sizes.min_pool_size sizes.buffer_size [] ≡ ok bs
      → Pool.new sizes ≡ ok (unlocked (start bs))
  unfolding Pool.new
  made bs few e = rw (le→ltb isize_max (sizes.min_pool_size * 40) (omega (arith, few)), e) refl

  counted :
      (bs : List Buffer) (q : PoolInner)
      → Served num (start bs) q
      → length bs ≡ sizes.min_pool_size
      → Pool.stats (unlocked q) ≡ (ok (finished sizes num), unlocked q)
  unfolding Pool.stats
  counted bs q s n = ground arith

  all_reused : 0 < num → num < 2 ^ 53 → Is 100 (hit_rate (finished sizes num))
  unfolding hit_rate
  all_reused some_packets small =
      let some_acquired : (num == 0) ≡ false = ground arith in
      let all : num - 0 ≡ num = omega arith in
      rw (some_acquired, all) (percentage_all num some_packets small)

  -- comment
  pub pooled_lem :
      packet_size ≤ sizes.buffer_size
      → sizes.buffer_size ≤ buf_max_size
      → 0 < sizes.min_pool_size
      → sizes.min_pool_size ≤ sizes.max_pool_size
      → sizes.min_pool_size ≤ 2 ^ 57
      → 0 < num
      → num < 2 ^ 32
      → (pooled z sizes num ≡ ok (reports num 0 ++ summary sizes num))
        × Is 100 (hit_rate (finished sizes num))
  unfolding pooled
  pooled_lem room size some_idle few small_pool some_packets small =
      let (bs, e, roomy, n) =
        push_new-AllRoomy packet_size sizes.min_pool_size sizes.buffer_size [] size room tt in
      let full : length bs ≡ sizes.min_pool_size = omega (arith, n) in
      let (q, runs, s) =
        rounds z num 0 (start bs) bs refl roomy (omega (arith, full)) (omega (arith, full))
          (omega arith) (omega arith) (omega arith) in
      let lines = reports num 0 in
      let rest : List Line → Method BufferPool (List Line) =
        λ lines. (do stats ← Pool.stats; return (lines ++ ((number num ∷ []) ∷ shown stats))) in
      (
        block_lem (Pool.new sizes) (do lines ← pool_packets z num 0; rest lines)
              (made bs small_pool e)
              (bind_ok (pool_packets z num 0) rest runs
                ∙ bind_ok Pool.stats (λ stats. return (lines ++ ((number num ∷ []) ∷ shown stats)))
                    (counted bs q s full))
            ∙ ap (λ more. ok (lines ++ more)) (shown-finished sizes num),
        all_reused some_packets (omega arith),
      )
