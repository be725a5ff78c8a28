-- ===== src/Examples/Network.antt =====
-- examples/network_simulation.rs: all of `main`, for any number of packets.
use secbuf.Prelude.{ℕ, ◌-◌, ◌^◌, ◌<◌, ◌≡◌, refl, false, ◌++◌, ◌==◌, arith}
use secbuf.Error.{ok}
use secbuf.Float.Exact.{Is, percentage_all}
use secbuf.Zeroize.{Zeroize}
use secbuf.FastPool.Queue.{SegQueue}
use secbuf.FastPool.Handles.{FastPoolStats}
use secbuf.Pool.Rates.{hit_rate, pool_hit_rate}
use secbuf.Examples.Packets.{config, fast_shown, main}
use secbuf.Examples.Rounds.{reports}
use secbuf.Examples.Simulation.{finished, summary, pooled_lem}
use secbuf.Examples.FastRounds.{fresh_packets_lem}
use secbuf.Examples.FastSimulation.{FastFinished, fast_lem}

-- With none allocated and some acquired, the pool's hit rate is 100 percent.
all_hits :
    (st : FastPoolStats) (num : ℕ)
    → st.allocated ≡ 0
    → st.acquired ≡ num
    → 0 < num
    → num < 2 ^ 53
    → Is 100 (pool_hit_rate st)
unfolding pool_hit_rate
all_hits st num none_new all some_packets small =
    let some_acquired : (num == 0) ≡ false = ground arith in
    let hits : num - 0 ≡ num = omega arith in
    rw (all, none_new) (rw (some_acquired, hits) (percentage_all num some_packets small))

-- For any number of packets from 1 to 2^32 - 1 the network simulation ends without an error or a
-- panic. It reports each thousandth packet with its own number and the length 1400 read back; of
-- the standard pool 100 idle buffers, none allocated, one acquire and one return for each packet,
-- none in use and a hit rate of 100; of the fast pool none allocated, one acquire and one return
-- for each packet, a cache hit for all but the first, and a pool hit rate of 100.
pub main_lem :
    (z : Zeroize) (S : SegQueue) (num : ℕ)
    → 0 < num
    → num < 2 ^ 32
    → (st : FastPoolStats) × (main z S num
        ≡ ok ((reports num 0 ++ summary config num) ++ fast_shown st))
      × Is 100 (hit_rate (finished config num))
      × FastFinished S z num st
      × Is 100 (pool_hit_rate st)
unfolding main
main_lem z S num some_packets small =
    let (lines, rate) =
      pooled_lem z config num (omega arith) (omega arith) (omega arith) (omega arith) (omega arith)
        some_packets small in
    let (st, shown, s) =
      fast_lem S z config num (omega arith) (omega arith) (omega arith) some_packets small in
    (
      st,
      rw (lines, fresh_packets_lem num 0, shown) refl,
      rate,
      s,
      all_hits st num s.allocated s.acquired some_packets (omega arith),
    )
