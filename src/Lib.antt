-- ===== src/Lib.antt =====
-- secbuf: secure byte buffers, a ring buffer, buffer pools and connection buffers, modelled.
--
-- The parts and the files that model them:
--   src/buffer/core.rs        Buffer: `Buffer` and its methods, `burn`, the destructor
--   src/buffer/ops.rs         Buffer/Ops: checked puts and gets; Buffer/Simd: the AVX2 copy
--   src/buffer/unsafe_ops.rs  Buffer/Raw: the unchecked operations
--   src/circular/buffer.rs    Circular, Circular/Ops: `CircularBuffer`
--   src/connection.rs         Connection: `ConnectionBuffers` and its transmit queue;
--                             Connection/Pooled: `PooledConnectionBuffers`, destructors
--   src/pool/config.rs        Pool/Config
--   src/pool/standard.rs      Pool: `BufferPool` and `PooledBuffer`; src/pool/stats.rs: `PoolStats`
--   src/pool/fast.rs          FastPool, FastPool/Queue: `FastBufferPool` and `LockFreeQueue`;
--                             FastPool/Handles: `clear`, the statistics, `leak`, `drop_now`;
--                             FastPool/State, FastPool/Threads: the same calls in steps, for
--                             interleaved threads
--   src/error.rs              Error, Error/Convert, Error/Results
-- Methods that only read a field stand in the modules Fields and Handle, the rates of
-- src/pool/stats.rs in Pool/Rates. The unit tests in the sources are run on the model in the modules
-- UnitTests and in Error/Tests, those of src/lib.rs and tests/integration_tests.rs in Integration;
-- Integration/Workers has the threads of `test_buffer_pool_concurrency`, with turns in any order.
-- The programs of examples/ are in Examples/Basic, Examples/Packets (network_simulation.rs) and
-- Examples/Streams (stream_processing.rs); the other modules there prove what they print.
-- Float models `f64` for values from 0 up: 53 bits, rounded to the nearest and to the even one.
-- A `Buffer` is used by the connection and by both pools; the connection also holds rings. A pool
-- owns its idle buffers and burns each buffer that comes back.
--
-- A method with `&mut self` is a function from the old state to the result and the new state, with
-- the name of the Rust method. An `Outcome` is `Ok`, `Err`, a panic, or an access to memory outside
-- the allocation, which is undefined. Arithmetic on `usize` is that of a 64-bit target in an optimized
-- build: it wraps, and `debug_assert!` is not compiled. The target is little-endian. A panic is the
-- last outcome of a call. In Pool it also unwinds, which poisons the mutex: so it is in the tests, whose
-- builds do not read `panic = "abort"` of [profile.release], and in a program that links the crate and
-- whose own profile does not abort. Where it aborts, no call follows, and the state beside the outcome is
-- never seen.
--
-- A call that makes a vector move gives its old allocation back: the functions of Buffer whose names end
-- in _frees are that memory. Pool/System keeps it apart from what the pool's own calls free.
--
-- What stands outside the repository: Vec models `Vec<u8>` as an allocation and a number of
-- elements, with the growth policy of the standard library; memory that the allocator hands out is
-- written as zeros, and running out of memory is not modelled. The crate `zeroize` is the parameter
-- `Zeroize`, the crate `crossbeam` the parameter `SegQueue` and the crate `anyhow` the parameter
-- `Anyhow`, with what their documentation promises as laws; Zeroize/Volatile, FastPool/Tests and
-- Error/Tests give concrete ones.
--
-- Fuel: the AVX2 loop has one unit more than there are bytes, and each round takes 32 of them; the
-- loop of `FastBufferPool::clear` needs one unit for each queued buffer and one more. The loop of
-- examples/stream_processing.rs needs one for each byte in the ring and one more. Rounding to f64 has as
-- fuel the range of the exponent, 971 above and 1074 below.
--
-- A pool call runs under its lock, so Pool takes calls one after the other. FastPool takes one
-- thread's calls one after the other. FastPool/Threads takes the calls of any number of threads as a
-- step relation with one access to shared memory a step, in any order; each access is one of an
-- atomic counter or of crossbeam's queue, and sees the memory that the last one left. Between
-- its calls on the pool a thread may hand a buffer to another thread or receive one, from a thread of the
-- list or from one outside it, and call other pools, which take buffers from the cache that they share
-- with it and return others there. The theorems let `warm` be called with a target of `cap` at most, for
-- any `cap`.
--
-- Not modelled: that a load of an atomic counter with `Ordering::Relaxed` may return an older value
-- than the last; the two tests that start threads on a fast pool, as programs; the times that the
-- example programs measure, and the benchmarks.
pub mod Prelude
pub mod Integration
pub mod Machine
pub mod Assert
pub mod Bits
pub mod Error
pub mod Float
pub mod Vec
pub mod Zeroize
pub mod Bytes
pub mod Buffer
pub mod Circular
pub mod Connection
pub mod Pool
pub mod Examples
pub mod FastPool
