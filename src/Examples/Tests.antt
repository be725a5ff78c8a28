-- ===== src/Examples/Tests.antt =====
-- The three programs, run.
use secbuf.Prelude.{ℕ, ◌≡◌, ◌++◌, refl, some, List, [], ◌∷◌, length, splice, arith}
use secbuf.Error.{ok}
use secbuf.Vec
use secbuf.Zeroize.Volatile.{volatile}
use secbuf.Bytes.{store, load, swap_bytes}
use secbuf.Float.{percentage, times, divided, of_nat, round, coarser, finer, nearest}
use secbuf.Buffer
use secbuf.Buffer.{set_pos}
use secbuf.Buffer.Fields.{len, pos}
use secbuf.Buffer.Ops.{
  put_u32, get_u32, put_bytes, get_bytes, put_byte, get_byte, put_string, get_string,
}
use secbuf.Buffer.Raw.{
  put_u32_unchecked, get_u32_unchecked, put_bytes_unchecked, get_bytes_unchecked, write_at_pos,
  read_at_pos,
}
use secbuf.Pool
use secbuf.Pool.Rates.{hit_rate, cache_hit_rate, pool_hit_rate}
use secbuf.Float.Exact.{Is}
use secbuf.FastPool
use secbuf.FastPool.Handle
use secbuf.FastPool.Handles.{FastPoolStats, fast_stats}
use secbuf.FastPool.Queue.{push, pop}
use secbuf.FastPool.Tests.{list_queue}
use secbuf.Bits.{is_power_of_two, count_ones}
use secbuf.Circular.{new, available, is_empty, wrap}
use secbuf.Circular.Fields.{used, size}
use secbuf.Circular.Ops.{write, read, peek, read_ptrs, copy_in, copy_out, spread, gather}
use secbuf.Examples.{number, text, rate, codes}
use secbuf.Examples.Basic
use secbuf.Examples.Packets.{config, main, fast_shown}
use secbuf.Examples.Rounds.{reports}
use secbuf.Examples.Simulation.{finished, summary}
use secbuf.Examples.FastSimulation.{FastFinished}
use secbuf.Examples.Network.{main_lem}
use secbuf.Examples.Drain.{joined, numbered, ArePieces}
use secbuf.Examples.Fill.{progress, stream_lem}
use secbuf.Examples.Streams
use secbuf.Examples.Streams.{stream, write_chunks, read_pieces}

stream_processing_prints :
    Streams.main
    ≡ ok (
        some (
          (number 1 ∷ number 43 ∷ number 43 ∷ number 1024 ∷ [])
          ∷ (number 2 ∷ number 51 ∷ number 94 ∷ number 1024 ∷ [])
          ∷ (number 3 ∷ number 53 ∷ number 147 ∷ number 1024 ∷ [])
          ∷ (number 1 ∷ text (codes "This is the first chunk of streaming data. Here co") ∷ [])
          ∷ (number 2 ∷ text (codes "mes the second chunk with more information. And fi") ∷ [])
          ∷ (number 3 ∷ text (codes "nally, the third chunk to complete the message.") ∷ [])
          ∷ (number 147 ∷ [])
          ∷ (number 40 ∷ [])
          ∷ (number 20 ∷ number 44 ∷ [])
          ∷ (number 46 ∷ [])
          ∷ (text (codes "12345678901234567890ABCDEFGHIJKLMNOPQRSTUVWXYZ") ∷ [])
          ∷ (text (codes "Sensitive data that ") ∷ [])
          ∷ (number 38 ∷ [])
          ∷ (text (codes "Sensitive data that we want to inspect") ∷ [])
          ∷ (number 0 ∷ [])
          ∷ (text (codes "Zero-copy read example") ∷ [])
          ∷ (text [] ∷ [])
          ∷ (number 22 ∷ [])
          ∷ []))
unfolding Streams.main stream write_chunks read_pieces new available is_empty wrap used size write
    read peek read_ptrs copy_in copy_out spread gather is_power_of_two count_ones splice
stream_processing_prints = refl

basic_usage_prints :
    Basic.main volatile list_queue
    ≡ ok (
        (number 18 ∷ [])
        ∷ (number 18 ∷ [])
        ∷ (number 12345 ∷ [])
        ∷ (text (codes "Hello, World!") ∷ [])
        ∷ (number 255 ∷ [])
        ∷ (text (codes "This is a length-prefixed string") ∷ [])
        ∷ (text (codes "Another one!") ∷ [])
        ∷ (number 5 ∷ [])
        ∷ (number 3 ∷ [])
        ∷ (number 5 ∷ [])
        ∷ (number 2 ∷ number 2 ∷ rate (percentage 2 2) ∷ [])
        ∷ (number 1 ∷ rate (percentage 0 1) ∷ [])
        ∷ (number 19 ∷ number 256 ∷ [])
        ∷ (number 34 ∷ number 256 ∷ [])
        ∷ (text (codes "First chunk of ") ∷ [])
        ∷ (number 19 ∷ number 256 ∷ [])
        ∷ (number 44 ∷ number 256 ∷ [])
        ∷ [])
unfolding Basic.main Buffer.new Buffer.burn set_pos len pos put_u32 get_u32 put_bytes get_bytes
    put_byte get_byte put_string get_string put_u32_unchecked get_u32_unchecked put_bytes_unchecked
    get_bytes_unchecked write_at_pos read_at_pos Vec.write_raw Vec.read_raw store load swap_bytes
    splice Pool.new Pool.push_new Pool.acquire Pool.available Pool.stats Pool.drop_pooled hit_rate
    times divided of_nat round coarser finer nearest Handle.default FastPool.new FastPool.push_new
    FastPool.acquire FastPool.acquire_shared FastPool.drop_pooled push pop fast_stats cache_hit_rate
    new available is_empty wrap used size write read copy_in copy_out spread gather is_power_of_two
    count_ones
basic_usage_prints = refl

-- The stream of the example.
stream_lem_example :
    (pieces : List (List ℕ)) × (stream 1025 1024 Streams.chunks
      ≡ ok (
          some (
            progress 0 0 1024 Streams.chunks ++ numbered 1 pieces,
            length (joined Streams.chunks),
          )))
    × (joined pieces ≡ joined Streams.chunks)
    × ArePieces pieces
stream_lem_example =
    stream_lem 1025 1024 Streams.chunks (omega arith) (omega arith) (omega arith) (omega arith)

-- The number of packets of the example.
main_lem_example :
    (st : FastPoolStats) × (main volatile list_queue 10000
      ≡ ok ((reports 10000 0 ++ summary config 10000) ++ fast_shown st))
    × Is 100 (hit_rate (finished config 10000))
    × FastFinished list_queue volatile 10000 st
    × Is 100 (pool_hit_rate st)
main_lem_example = main_lem volatile list_queue 10000 (omega arith) (omega arith)
