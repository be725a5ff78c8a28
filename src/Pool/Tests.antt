-- ===== src/Pool/Tests.antt =====
-- Runs of the pool on concrete buffers.
use secbuf.Prelude.{◌+◌, ◌*◌, ◌≡◌, refl, false, [], ◌∷◌, arith}
use secbuf.Error.{ok}
use secbuf.Vec
use secbuf.Zeroize.Volatile.{volatile}
use secbuf.Buffer.{Buffer}
use secbuf.Pool.{PoolInner, BufferPool, PoolStats, stats, in_use}
use secbuf.Float.{IsPercentage, times, divided, of_nat, round, coarser, finer, nearest, greater}
use secbuf.FastPool.Handles.{FastPoolStats}
use secbuf.Pool.Rates.{
  hit_rate, cache_hit_rate, pool_hit_rate, leaked_bytes, has_leak_concern, rates_are_percentages,
}
use secbuf.Pool.System.{System, acquires, uses, returns, leaks, clears, run, IsSafe}
use secbuf.Pool.Count.{run-IsSafe, in_use_lem}

abbrev used : Buffer
used = record { vec = Vec.of_list (1 ∷ 2 ∷ 3 ∷ []); pos = 1; len = 3 }

abbrev idle : PoolInner
idle = record {
  buffers = [];
  config = record { buffer_size = 3; max_pool_size = 2; min_pool_size = 0 };
  total_allocated = 1;
  total_acquired = 1;
  total_returned = 0;
}

abbrev pool : BufferPool
pool = record { inner = idle; poisoned = false }

-- one client holds one buffer
abbrev system : System
system = record { pool = pool; held = used ∷ []; gone = 0; freed = []; outgrown = [] }

system-IsSafe : IsSafe system
system-IsSafe = record {
  pool = record {
    sound = record { blank = tt; few = omega arith; size = omega arith };
    unpoisoned = refl;
  };
  held = omega arith;
  freed = tt;
  counted = refl;
}

run-IsSafe_example :
    (t : System) × (run volatile
        (uses used ((9 ∷ []) ∷ []) ∷ returns ∷ acquires ∷ leaks ∷ clears ∷ [])
        system
      ≡ ok t)
    × IsSafe t
run-IsSafe_example =
    run-IsSafe volatile (uses used ((9 ∷ []) ∷ []) ∷ returns ∷ acquires ∷ leaks ∷ clears ∷ [])
      system (omega arith) system-IsSafe

in_use_lem_example :
    (st : PoolStats) × (stats pool ≡ (ok st, pool)) × (in_use st ≡ 1 + 0) × (st.available ≡ 0)
in_use_lem_example = in_use_lem system system-IsSafe (omega arith)

abbrev too_large : BufferPool
too_large = record {
  inner = record idle {
    config = record { buffer_size = 2_000_000_000; max_pool_size = 2; min_pool_size = 0 };
  };
  poisoned = false;
}

-- seven of ten buffers reused, three times from the cache
abbrev some_stats : PoolStats
some_stats = record {
  available = 2;
  total_allocated = 3;
  total_acquired = 10;
  total_returned = 9;
  buffer_size = 3;
  max_pool_size = 2;
}

abbrev some_fast_stats : FastPoolStats
some_fast_stats = record {
  available = 2;
  allocated = 3;
  acquired = 10;
  returned = 9;
  cache_hits = 3;
  thread_local_lost = 0;
}

rates_are_percentages_example :
    IsPercentage (hit_rate some_stats)
    × IsPercentage (cache_hit_rate some_fast_stats)
    × IsPercentage (pool_hit_rate some_fast_stats)
rates_are_percentages_example =
    rates_are_percentages some_stats some_fast_stats (omega arith) (omega arith) (omega arith)

-- 0.7 and 0.3 are no floats; the products are rounded to 70 and 30.
rates_rounded :
    ((hit_rate some_stats).num ≡ 70 * (hit_rate some_stats).den)
    × ((cache_hit_rate some_fast_stats).num ≡ 30 * (cache_hit_rate some_fast_stats).den)
unfolding hit_rate cache_hit_rate times divided of_nat round coarser finer nearest
rates_rounded = (refl, refl)

no_leak : (leaked_bytes 8192 some_fast_stats ≡ 0) × (has_leak_concern some_fast_stats ≡ false)
unfolding leaked_bytes has_leak_concern greater times divided of_nat round coarser finer nearest
no_leak = (refl, refl)
