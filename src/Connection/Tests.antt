-- ===== src/Connection/Tests.antt =====
-- Runs of a connection on concrete packets.
use secbuf.Prelude.{◌≡◌, refl, true, false, none, some, [], ◌∷◌, arith}
use secbuf.Vec
use secbuf.Zeroize.Volatile.{volatile}
use secbuf.Buffer.{Buffer}
use secbuf.Connection.{ConnectionBuffers, burn}
use secbuf.Connection.Ledger.{IsBalanced, queues, dequeues, calls, queue_calls, calls_refine}
use secbuf.Pool.Idle.{AllZero}
use secbuf.Connection.Pooled.{
  PooledConnectionBuffers, burn_and_release, burn_frees, drop_connection, drop_pooled_connection,
  drop_connection-AllZero, burn_and_release_lem,
}
use secbuf.Connection.Burn.{IsWiped, IsFreed, burn-IsWiped, reburn_keeps}

abbrev packet : Buffer
packet = record { vec = Vec.of_list (1 ∷ 2 ∷ 3 ∷ []); pos = 0; len = 3 }

-- one packet queued, a read buffer, and at most two packets of ten bytes together
abbrev busy : ConnectionBuffers
busy = record {
  read_buf = some packet;
  write_buf = none;
  stream_bufs = [];
  packet_queue = packet ∷ [];
  config = record { max_packet_queue_size = 2; max_packet_queue_bytes = 10 };
  packet_queue_bytes = 3;
  burned = false;
}

busy-IsBalanced : IsBalanced busy
busy-IsBalanced = omega arith

calls_refine_example :
    calls (queues packet ∷ queues packet ∷ dequeues ∷ []) busy
    ≡ queue_calls busy.config (queues packet ∷ queues packet ∷ dequeues ∷ []) (packet ∷ [])
calls_refine_example =
    calls_refine (queues packet ∷ queues packet ∷ dequeues ∷ []) busy busy-IsBalanced (omega arith)

burn-IsWiped_example :
    IsWiped (burn volatile busy).read_buf
    × IsWiped (burn volatile busy).write_buf
    × IsFreed (burn volatile busy).stream_bufs
    × ((burn volatile busy).packet_queue ≡ [])
    × ((burn volatile busy).packet_queue_bytes ≡ 0)
    × ((burn volatile busy).burned ≡ true)
burn-IsWiped_example = burn-IsWiped volatile busy refl (omega arith) tt

reburn_keeps_example :
    (burn volatile (burn volatile busy) ≡ burn volatile busy)
    × (burn volatile
          (record (burn volatile busy) { read_buf = some packet; packet_queue = packet ∷ [] })
        ≡ record (burn volatile busy) { read_buf = some packet; packet_queue = packet ∷ [] })
reburn_keeps_example = reburn_keeps volatile busy packet (packet ∷ [])

drop_connection-AllZero_example : AllZero (drop_connection volatile busy)
drop_connection-AllZero_example = drop_connection-AllZero volatile busy

abbrev pooled : PooledConnectionBuffers
pooled = record { buffers = busy; pool = none }

burn_and_release_lem_example :
    (burn_and_release volatile (burn_and_release volatile pooled)
      ≡ burn_and_release volatile pooled)
    × ((burn_and_release volatile pooled).pool ≡ none)
    × (burn_frees volatile (burn_and_release volatile pooled).buffers ≡ [])
    × AllZero (burn_frees volatile busy)
    × AllZero (drop_pooled_connection volatile pooled)
burn_and_release_lem_example = burn_and_release_lem volatile pooled
