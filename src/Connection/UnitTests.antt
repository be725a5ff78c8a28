-- ===== src/Connection/UnitTests.antt =====
-- src/connection.rs: the unit tests, on the model. What a test drops at its end is computed last.
use secbuf.Prelude.{
  ℕ, Bool, true, false, Option, none, some, List, [], ◌∷◌, ◌≡◌, refl, replicate, splice, ◌==◌,
}
use secbuf.Error.{Outcome, ok, panic, Method, ◌>>=◌, ◌>>◌, return, lift, and_then}
use secbuf.Vec
use secbuf.Zeroize.Volatile.{volatile}
use secbuf.Assert.{check, unwrap, look, update, test_of}
use secbuf.Buffer
use secbuf.Buffer.{Buffer}
use secbuf.Buffer.Fields
use secbuf.Buffer.Ops.{put_byte, put_u32}
use secbuf.Bytes.{store}
use secbuf.Buffer.Raw.{put_u32_unchecked, write_at_pos}
use secbuf.Circular
use secbuf.Pool
use secbuf.Pool.Config
use secbuf.Connection
use secbuf.Connection.{
  ConnectionBuffers, QueueResult, queued, refused, with_config, init_read_buf, init_write_buf,
  add_stream_buf, queue_packet, dequeue_packet, burn, memory_usage,
}
use secbuf.Connection.Fields.{packet_queue_len, packet_queue_bytes, buffers, pool}
use secbuf.Connection.Pooled
use secbuf.Connection.Pooled.{
  PooledConnectionBuffers, drop_connection, burn_and_release, drop_pooled_connection,
}

-- `unwrap` of what `queue_packet` returns
abbrev queue_unwrapped : Buffer → Method ConnectionBuffers (Unit {0})
queue_unwrapped buf c =
    let (r, d) = queue_packet buf c in elim r [ queued ↦ (ok tt, d) | refused e ↦ (panic, d) ]

abbrev is_err : QueueResult → Bool
is_err queued = false
is_err (refused e) = true

abbrev is_none : {A : Type 0} → Option A → Bool
is_none none = true
is_none (some a) = false

-- `drop(conn)`, with what it frees
abbrev drops : Method ConnectionBuffers (List (List ℕ))
drops c = (ok (drop_connection volatile c), c)

abbrev pooled_drops : Method PooledConnectionBuffers (List (List ℕ))
pooled_drops c = (ok (drop_pooled_connection volatile c), c)

-- `if let Some(ref mut buf) = conn.read_buf { buf.put_byte(0xAB).unwrap(); }`
abbrev put_in_read_buf : Method ConnectionBuffers (Unit {0})
put_in_read_buf c = elim c.read_buf [
  | none ↦ (ok tt, c)
  | some buf ↦ let (r, next) = unwrap (put_byte 171) buf in (r, record c { read_buf = some next })
]

abbrev test_connection_buffers_cleanup : Outcome (Unit {0})
test_connection_buffers_cleanup = test_of (ok Connection.new) do
  init_read_buf 1024
  init_write_buf 1024
  add_stream_buf 512
  put_in_read_buf
  freed ← drops
  return tt

abbrev test_burn_is_idempotent : Outcome (Unit {0})
test_burn_is_idempotent =
    test_of (ok Connection.new)
      do init_read_buf 256; update (burn volatile); update (burn volatile); freed ← drops; return tt

abbrev test_packet_queue_limits : Outcome (Unit {0})
test_packet_queue_limits =
    test_of (ok (with_config (record { max_packet_queue_size = 2; max_packet_queue_bytes = 1024 })))
      do
        first ← lift (Buffer.new 256)
        queue_unwrapped first
        second ← lift (Buffer.new 256)
        queue_unwrapped second
        third ← lift (Buffer.new 256)
        conn ← look
        check (is_err (queue_packet third conn).0)

abbrev test_memory_stats : Outcome (Unit {0})
test_memory_stats = test_of (ok Connection.new) do
  init_read_buf 1024
  init_write_buf 2048
  add_stream_buf 512
  conn ← look
  check ((memory_usage conn).read_buf_bytes == 1024)
  check ((memory_usage conn).write_buf_bytes == 2048)
  check ((memory_usage conn).stream_buf_bytes == 512)

abbrev test_pooled_connection_burn_and_release : Outcome (Unit {0})
test_pooled_connection_burn_and_release =
    test_of (and_then (Pool.new Config.default) λ pool. ok (Pooled.new pool)) do
      buffers (init_read_buf 512)
      update (burn_and_release volatile)
      pc ← look
      check (is_none (pool pc))
      freed ← pooled_drops
      return tt

abbrev test_dequeue_packet : Outcome (Unit {0})
test_dequeue_packet = test_of (ok Connection.new) do
  buf ← lift (Buffer.new 64)
  written ← lift ((do unwrap (put_u32 3735928559); look) buf).0
  queue_unwrapped written
  conn ← look
  let (packet, rest) = dequeue_packet conn in
      elim packet [
        | none ↦ λ c. (panic, c)
        | some pkt ↦ do
          update (λ c. rest)
          check (Fields.len pkt == 4)
          conn ← look
          check (packet_queue_len conn == 0)
          check (packet_queue_bytes conn == 0)
      ]

abbrev results : List (Outcome (Unit {0}))
results =
    test_connection_buffers_cleanup ∷ test_burn_is_idempotent ∷ test_packet_queue_limits
    ∷ test_memory_stats ∷ test_pooled_connection_burn_and_release ∷ test_dequeue_packet ∷ []

connection_tests_pass : results ≡ replicate 6 (ok tt)
unfolding Connection.new with_config init_read_buf init_write_buf add_stream_buf queue_packet
    dequeue_packet burn memory_usage packet_queue_len packet_queue_bytes buffers pool Pooled.new
    burn_and_release put_byte put_u32 put_u32_unchecked Buffer.new Circular.new Pool.new
    Pool.push_new Fields.len splice write_at_pos Vec.write_raw store
connection_tests_pass = refl
