-- ===== src/Pool/Rates.antt =====
-- src/pool/stats.rs: the rates of a pool, in percent.
use secbuf.Prelude.{
  ℕ, ◌-◌, ◌^◌, ◌≤◌, ◌<◌, Bool, false, Bool-cases, inl, inr, ◌==◌, if◌then◌else◌, arith,
}
use secbuf.Machine.{mul_size}
use secbuf.Float.{F64, literal, greater, percentage, IsPercentage, percentage-IsPercentage}
use secbuf.Pool.{PoolStats}
use secbuf.FastPool.Handles.{FastPoolStats}

unfoldable pub hit_rate : PoolStats → F64
hit_rate s =
    if s.total_acquired == 0
    then literal 0
    else let reused = s.total_acquired - s.total_allocated in percentage reused s.total_acquired

unfoldable pub cache_hit_rate : FastPoolStats → F64
cache_hit_rate s = if s.acquired == 0 then literal 0 else percentage s.cache_hits s.acquired

unfoldable pub pool_hit_rate : FastPoolStats → F64
pool_hit_rate s =
    if s.acquired == 0
    then literal 0
    else let hits = s.acquired - s.allocated in percentage hits s.acquired

unfoldable pub leaked_bytes : ℕ → FastPoolStats → ℕ
leaked_bytes buffer_size s = mul_size s.thread_local_lost buffer_size

unfoldable pub has_leak_concern : FastPoolStats → Bool
has_leak_concern s =
    if s.allocated == 0
    then false
    else let leak_rate = percentage s.thread_local_lost s.allocated in
      greater leak_rate (literal 10)

-- The share of a part in a whole.
pub share_lem :
    (part whole : ℕ)
    → part ≤ whole
    → whole < 2 ^ 53
    → IsPercentage (if whole == 0 then literal 0 else percentage part whole)
share_lem part whole le small = elim (Bool-cases (whole == 0)) [
  | inl e ↦ rw e (omega arith, omega arith)
  | inr e ↦ rw e (percentage-IsPercentage part whole le (ground (arith, e)) small)
]

-- With fewer than 2^53 acquires, and no more cache hits than acquires, hit_rate, cache_hit_rate
-- and pool_hit_rate, each rounding of f64 included, lie between 0 and 100.
pub rates_are_percentages :
    (s : PoolStats) (t : FastPoolStats)
    → s.total_acquired < 2 ^ 53
    → t.acquired < 2 ^ 53
    → t.cache_hits ≤ t.acquired
    → IsPercentage (hit_rate s) × IsPercentage (cache_hit_rate t) × IsPercentage (pool_hit_rate t)
unfolding hit_rate cache_hit_rate pool_hit_rate
rates_are_percentages s t few_s few_t hits = (
  share_lem (s.total_acquired - s.total_allocated) s.total_acquired (omega arith) few_s,
  share_lem t.cache_hits t.acquired hits few_t,
  share_lem (t.acquired - t.allocated) t.acquired (omega arith) few_t,
)
