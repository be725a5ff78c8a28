-- ===== src/Connection/Fields.antt =====
-- src/connection.rs: the methods that only read a field, the defaults, and the text of an error.
use Prim.Native.String.{String}
use secbuf.Prelude.{ℕ, Option, length}
use secbuf.Error.{Method}
use secbuf.Pool.{BufferPool}
use secbuf.Connection
use secbuf.Connection.{ConnectionBuffers, QueueFullError, too_many_packets, too_many_bytes}
use secbuf.Connection.Pooled.{PooledConnectionBuffers}

unfoldable pub packet_queue_len : ConnectionBuffers → ℕ
packet_queue_len c = length c.packet_queue

unfoldable pub packet_queue_bytes : ConnectionBuffers → ℕ
packet_queue_bytes c = c.packet_queue_bytes

unfoldable pub default : ConnectionBuffers
default = Connection.new

unfoldable pub fmt : QueueFullError → String
fmt too_many_packets = "Packet queue full (too many packets)"
fmt too_many_bytes = "Packet queue full (too many bytes)"

-- A call through the mutable reference that `buffers` gives.
unfoldable pub buffers :
    {A : Type 0} → Method ConnectionBuffers A → Method PooledConnectionBuffers A
buffers call c = let (r, next) = call c.buffers in (r, record c { buffers = next })

unfoldable pub pool : PooledConnectionBuffers → Option BufferPool
pool c = c.pool
