-- ===== src/Examples/Packets.antt =====
-- examples/network_simulation.rs. The times are left out, and the number of packets is a parameter.
use secbuf.Prelude.{
  ℕ, zero, suc, ◌+◌, ◌%◌, ◌==◌, true, some, List, [], ◌∷◌, ◌++◌, replicate, if◌then◌else◌,
}
use secbuf.Error.{Outcome, ok, Method, ◌>>=◌, ◌>>◌, return, lift, and_then}
use secbuf.Assert.{look}
use secbuf.Zeroize.{Zeroize}
use secbuf.Buffer
use secbuf.Buffer.{Buffer, set_pos}
use secbuf.Buffer.Ops.{put_u32, get_u32, put_bytes}
use secbuf.Pool
use secbuf.Pool.{BufferPool, PoolStats}
use secbuf.Pool.Config.{PoolConfig}
use secbuf.Pool.Rates.{hit_rate, cache_hit_rate, pool_hit_rate}
use secbuf.FastPool
use secbuf.FastPool.{View}
use secbuf.FastPool.Queue.{SegQueue}
use secbuf.FastPool.Handles.{FastPoolStats, fast_stats}
use secbuf.Examples.{Line, number, rate, block}

abbrev pub config : PoolConfig
config = record { buffer_size = 1500; max_pool_size = 1000; min_pool_size = 100 }

-- `vec![0x42; 1400]`
unfoldable pub payload : List ℕ
payload = replicate 1400 66

unfoldable pub put_packet : ℕ → Method Buffer (Unit {0})
put_packet i = do put_u32 i; put_u32 1400; put_bytes payload

-- a packet written, and its header read back
unfoldable pub handle_packet : ℕ → Method Buffer (ℕ × ℕ)
handle_packet i = do put_packet i; set_pos 0; seq ← get_u32; len ← get_u32; return (seq, len)

-- the values of a pool's statistics
unfoldable pub shown : PoolStats → List Line
shown s =
    (number s.available ∷ [])
    ∷ (number s.total_allocated ∷ [])
    ∷ (number s.total_acquired ∷ [])
    ∷ (number s.total_returned ∷ [])
    ∷ (number (Pool.in_use s) ∷ [])
    ∷ (rate (hit_rate s) ∷ [])
    ∷ []

unfoldable pub fast_shown : FastPoolStats → List Line
fast_shown s = (rate (cache_hit_rate s) ∷ []) ∷ (rate (pool_hit_rate s) ∷ []) ∷ []

-- Every thousandth packet is reported.
abbrev pub reported : ℕ → ℕ × ℕ → List Line → List Line
reported i r rest = if i % 1000 == 0 then (number i ∷ number r.0 ∷ number r.1 ∷ []) ∷ rest else rest

-- the second loop: a new buffer for each packet, freed at the end of the round
unfoldable pub fresh_packets : ℕ → ℕ → Outcome (Unit {0})
fresh_packets zero i = ok tt
fresh_packets (suc n) i =
    and_then (block (Buffer.new 1500) (put_packet i)) λ done. fresh_packets n (i + 1)

module _ (z : Zeroize) where
  -- The buffer goes back to the pool at the end of the round, also where a call in it fails.
  unfoldable pub pool_packet : ℕ → Method BufferPool (ℕ × ℕ)
  pool_packet i = do
    packet ← Pool.acquire
    freed ← Pool.drop_pooled z (some (handle_packet i packet).1)
    lift (handle_packet i packet).0

  -- the first loop, with `n` packets to go, from packet `i` on
  unfoldable pub pool_packets : ℕ → ℕ → Method BufferPool (List Line)
  pool_packets zero i = return []
  pool_packets (suc n) i = do
    r ← pool_packet i
    rest ← pool_packets n (i + 1)
    return (reported i r rest)

  unfoldable pub pooled : PoolConfig → ℕ → Outcome (List Line)
  pooled sizes num_packets = block (Pool.new sizes) do
    lines ← pool_packets num_packets 0
    stats ← Pool.stats
    return (lines ++ ((number num_packets ∷ []) ∷ shown stats))

  module _ (S : SegQueue) where
    -- the destructor of a handle, on a thread whose cache lives
    abbrev pub fast_return : Buffer → Method (View S) (List (List ℕ))
    fast_return b s = let (freed, t) = FastPool.drop_pooled S z true (some b) s in (ok freed, t)

    unfoldable pub fast_packet : ℕ → Method (View S) (Unit {0})
    fast_packet i = do
      packet ← FastPool.acquire S
      freed ← fast_return (put_packet i packet).1
      lift (put_packet i packet).0

    -- the third loop
    unfoldable pub fast_packets : ℕ → ℕ → Method (View S) (Unit {0})
    fast_packets zero i = return tt
    fast_packets (suc n) i = do fast_packet i; fast_packets n (i + 1)

    -- No pool has filled the thread's cache before.
    unfoldable pub fast : PoolConfig → ℕ → Outcome (List Line)
    fast sizes num_packets =
        block (and_then (FastPool.new S sizes) λ pool. ok (record { pool = pool; cache = [] }))
          do fast_packets num_packets 0; s ← look; return (fast_shown (fast_stats S s.pool))

    -- The program runs it with 10,000 packets.
    unfoldable pub main : ℕ → Outcome (List Line)
    main num_packets = and_then (pooled config num_packets) λ lines.
        and_then (fresh_packets num_packets 0)
          λ done. and_then (fast config num_packets) λ more. ok (lines ++ more)
