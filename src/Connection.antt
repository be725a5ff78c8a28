-- ===== src/Connection.antt =====
-- src/connection.rs: the buffers of a connection, its transmit queue and their lifecycle.
pub mod Ledger
pub mod Burn
pub mod Pooled
pub mod Fields
mod UnitTests
mod Tests
use secbuf.Prelude.{
  ℕ, ◌+◌, ◌-◌, ◌/◌, Bool, true, false, ◌||◌, Option, none, some, List, [], ◌∷◌, ◌++◌, map, length,
  ltb, leb, if◌then◌else◌,
}
use mathlib.Core.Option
use secbuf.Machine.{add_size, mul_size}
use secbuf.Error.{Outcome, ok, err, panic, undefined, Method}
use secbuf.Zeroize.{Zeroize}
use secbuf.Buffer
use secbuf.Buffer.{Buffer}
use secbuf.Circular
use secbuf.Circular.{CircularBuffer}
use secbuf.Circular.Ops.{clear, free}

pub record ConnectionBufferConfig : Type 0 where
  pub max_packet_queue_size : ℕ
  pub max_packet_queue_bytes : ℕ

abbrev pub default_config : ConnectionBufferConfig
default_config = record { max_packet_queue_size = 100; max_packet_queue_bytes = 10_485_760 }

-- The packet queue has its front first.
pub record ConnectionBuffers : Type 0 where
  pub read_buf : Option Buffer
  pub write_buf : Option Buffer
  pub stream_bufs : List CircularBuffer
  pub packet_queue : List Buffer
  pub config : ConnectionBufferConfig
  pub packet_queue_bytes : ℕ
  pub burned : Bool

pub data QueueFullError : Type 0 where
  too_many_packets too_many_bytes : QueueFullError

pub data QueueResult : Type 0 where
  queued : QueueResult
  refused : QueueFullError → QueueResult

unfoldable pub with_config : ConnectionBufferConfig → ConnectionBuffers
with_config config = record {
  read_buf = none;
  write_buf = none;
  stream_bufs = [];
  packet_queue = [];
  config = config;
  packet_queue_bytes = 0;
  burned = false;
}

unfoldable pub new : ConnectionBuffers
unfolding with_config
new = with_config default_config

unfoldable pub init_read_buf : ℕ → Method ConnectionBuffers (Unit {0})
init_read_buf size c = elim (Buffer.new size) [
  | ok b ↦ (ok tt, record c { read_buf = some b })
  | err e ↦ (err e, c)
  | panic ↦ (panic, c)
  | undefined ↦ (undefined, c)
]

unfoldable pub init_write_buf : ℕ → Method ConnectionBuffers (Unit {0})
init_write_buf size c = elim (Buffer.new size) [
  | ok b ↦ (ok tt, record c { write_buf = some b })
  | err e ↦ (err e, c)
  | panic ↦ (panic, c)
  | undefined ↦ (undefined, c)
]

unfoldable pub add_stream_buf : ℕ → Method ConnectionBuffers (Unit {0})
add_stream_buf size c = elim (Circular.new size) [
  | ok r ↦ (ok tt, record c { stream_bufs = c.stream_bufs ++ (r ∷ []) })
  | err e ↦ (err e, c)
  | panic ↦ (panic, c)
  | undefined ↦ (undefined, c)
]

unfoldable pub queue_packet : Buffer → ConnectionBuffers → QueueResult × ConnectionBuffers
queue_packet buf c =
    if leb c.config.max_packet_queue_size (length c.packet_queue)
    then (refused too_many_packets, c)
    else if ltb c.config.max_packet_queue_bytes (add_size c.packet_queue_bytes buf.len)
    then (refused too_many_bytes, c)
    else (
      queued,
      record c {
        packet_queue_bytes = add_size c.packet_queue_bytes buf.len;
        packet_queue = c.packet_queue ++ (buf ∷ []);
      },
    )

-- `saturating_sub`
unfoldable pub dequeue_packet : ConnectionBuffers → Option Buffer × ConnectionBuffers
dequeue_packet c = elim c.packet_queue [
  | [] ↦ (none, c)
  | buf ∷ rest ↦ (
    some buf,
    record c { packet_queue = rest; packet_queue_bytes = c.packet_queue_bytes - buf.len },
  )
]

unfoldable pub is_queue_near_full : ConnectionBuffers → Bool
is_queue_near_full c =
    ltb (mul_size c.config.max_packet_queue_size 80 / 100) (length c.packet_queue)
    || ltb (mul_size c.config.max_packet_queue_bytes 80 / 100) c.packet_queue_bytes

unfoldable pub reset : ConnectionBuffers → ConnectionBuffers
reset c = record c {
  read_buf = Option.map Buffer.reset c.read_buf;
  write_buf = Option.map Buffer.reset c.write_buf;
  stream_bufs = map clear c.stream_bufs;
  packet_queue = [];
  packet_queue_bytes = 0;
  burned = false;
}

-- The packets are burned one by one as they leave the queue, and freed.
unfoldable pub burn : Zeroize → ConnectionBuffers → ConnectionBuffers
burn z c = if c.burned then c else record c {
  read_buf = Option.map (Buffer.burn z) c.read_buf;
  write_buf = Option.map (Buffer.burn z) c.write_buf;
  stream_bufs = map (λ r. (free z r).0) c.stream_bufs;
  packet_queue = [];
  packet_queue_bytes = 0;
  burned = true;
}

pub record ConnectionMemoryStats : Type 0 where
  pub read_buf_bytes : ℕ
  pub write_buf_bytes : ℕ
  pub stream_buf_bytes : ℕ
  pub packet_queue_bytes : ℕ
  pub total_bytes : ℕ

abbrev pub capacity_or_none : Option Buffer → ℕ
capacity_or_none none = 0
capacity_or_none (some b) = Buffer.capacity b

abbrev pub total_size : List CircularBuffer → ℕ
total_size [] = 0
total_size (r ∷ rs) = add_size r.size (total_size rs)

unfoldable pub memory_usage : ConnectionBuffers → ConnectionMemoryStats
memory_usage c =
    let read_bytes = capacity_or_none c.read_buf in
    let write_bytes = capacity_or_none c.write_buf in
    let stream_bytes = total_size c.stream_bufs in
    record {
      read_buf_bytes = read_bytes;
      write_buf_bytes = write_bytes;
      stream_buf_bytes = stream_bytes;
      packet_queue_bytes = c.packet_queue_bytes;
      total_bytes =
          add_size (add_size (add_size read_bytes write_bytes) stream_bytes) c.packet_queue_bytes;
    }
