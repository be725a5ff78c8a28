-- ===== src/Examples/Basic.antt =====
-- examples/basic_usage.rs.
use secbuf.Prelude.{some, List, [], ◌∷◌, ◌++◌, replicate}
use secbuf.Error.{Outcome, ok, Method, ◌>>=◌, ◌>>◌, return, lift, and_then}
use secbuf.Assert.{look}
use secbuf.Zeroize.{Zeroize}
use secbuf.Buffer
use secbuf.Buffer.{Buffer, set_pos}
use secbuf.Buffer.Fields.{len, pos}
use secbuf.Buffer.Ops.{
  put_u32, get_u32, put_bytes, get_bytes, put_byte, get_byte, put_string, get_string,
}
use secbuf.Circular
use secbuf.Circular.{CircularBuffer}
use secbuf.Circular.Fields.{used, size}
use secbuf.Circular.Ops.{write, read}
use secbuf.Pool
use secbuf.Pool.{BufferPool}
use secbuf.Pool.Rates.{hit_rate, cache_hit_rate}
use secbuf.FastPool
use secbuf.FastPool.{View}
use secbuf.FastPool.Handle
use secbuf.FastPool.Handles.{fast_stats}
use secbuf.FastPool.Queue.{SegQueue}
use secbuf.Examples.{Line, number, text, rate, codes, block}
use secbuf.Examples.Packets.{fast_return}

basic_buffer : Outcome (List Line)
basic_buffer = block (Buffer.new 1024) do
  put_u32 12345
  put_bytes (codes "Hello, World!")
  put_byte 255
  buf ← look
  set_pos 0
  num ← get_u32
  bytes ← get_bytes 13
  byte ← get_byte
  return (
      (number (len buf) ∷ [])
      ∷ (number (pos buf) ∷ [])
      ∷ (number num ∷ [])
      ∷ (text bytes ∷ [])
      ∷ (number byte ∷ [])
      ∷ [])

strings : Outcome (List Line)
strings = block (Buffer.new 1024) do
  put_string (codes "This is a length-prefixed string")
  put_string (codes "Another one!")
  set_pos 0
  str1 ← get_string
  str2 ← get_string
  return ((text str1 ∷ []) ∷ (text str2 ∷ []) ∷ [])

-- A call on a handle: the buffer, after it.
abbrev on : {S A : Type 0} → Method Buffer A → Buffer → Method S Buffer
on call b = lift ((do done ← call; look) b).0

module _ (z : Zeroize) where
  -- The handles are dropped in the reverse of their order.
  pool_usage : Outcome (List Line)
  pool_usage =
      block (Pool.new (record { buffer_size = 4096; max_pool_size = 50; min_pool_size = 5 })) do
        initially ← Pool.available
        buf1 ← Pool.acquire
        buf2 ← Pool.acquire
        buf1 ← on (put_bytes (codes "Buffer 1")) buf1
        buf2 ← on (put_bytes (codes "Buffer 2")) buf2
        meanwhile ← Pool.available
        freed ← Pool.drop_pooled z (some buf2)
        freed ← Pool.drop_pooled z (some buf1)
        finally ← Pool.available
        stats ← Pool.stats
        return (
            (number initially ∷ [])
            ∷ (number meanwhile ∷ [])
            ∷ (number finally ∷ [])
            ∷ (number stats.total_acquired
                ∷ number stats.total_returned
                ∷ rate (hit_rate stats)
                ∷ [])
            ∷ [])

  fast_usage : SegQueue → Outcome (List Line)
  fast_usage S =
      block (and_then (Handle.default S) λ pool. ok (record { pool = pool; cache = [] })) do
        buf ← FastPool.acquire S
        buf ← on (put_string (codes "Fast pool buffer")) buf
        freed ← fast_return z S buf
        s ← look
        return (
            (number (fast_stats S s.pool).acquired
              ∷ rate (cache_hit_rate (fast_stats S s.pool))
              ∷ [])
            ∷ [])

-- `cbuf.used()` and `cbuf.size()`
abbrev usage : CircularBuffer → Line
usage c = number (used c) ∷ number (size c) ∷ []

ring_usage : Outcome (List Line)
ring_usage = block (Circular.new 256) do
  write (codes "First chunk of data")
  first ← look
  write (codes " | Second chunk")
  second ← look
  output ← read (replicate 15 0)
  third ← look
  write (codes " | Third chunk after wrap")
  fourth ← look
  return (usage first ∷ usage second ∷ (text output.1 ∷ []) ∷ usage third ∷ usage fourth ∷ [])

unfoldable pub main : Zeroize → SegQueue → Outcome (List Line)
unfolding basic_buffer strings pool_usage fast_usage ring_usage
main z S = and_then basic_buffer λ l1. and_then strings λ l2. and_then (pool_usage z) λ l3.
    and_then (fast_usage z S) λ l4. and_then ring_usage λ l5. ok (l1 ++ (l2 ++ (l3 ++ (l4 ++ l5))))
