-- ===== src/Connection/Pooled.antt =====
-- src/connection.rs: `PooledConnectionBuffers`, and the memory that the destructors of a connection
-- free. The pool behind the `Arc` is what the methods hold on to and never change.
use secbuf.Prelude.{
  ℕ, ◌≡◌, refl, sym, ap, ◌∙◌, Bool-cases, inl, inr, Option, none, some, List, [], ◌∷◌, ◌++◌, map,
  length, replicate, length-replicate, if◌then◌else◌,
}
use mathlib.Core.Option
use secbuf.Vec
use secbuf.Zeroize.{Zeroize}
use secbuf.Buffer
use secbuf.Buffer.{Buffer}
use secbuf.Circular.{CircularBuffer}
use secbuf.Circular.Ops.{release, drop_ring}
use secbuf.Pool.{BufferPool}
use secbuf.Pool.Idle.{AllZero-append, AllZero, freed-zero}
use secbuf.Connection.{ConnectionBuffers, ConnectionBufferConfig, with_config, burn}
use secbuf.Connection
use secbuf.Connection.Burn.{burn_skips, burn_sets}

pub record PooledConnectionBuffers : Type 0 where
  pub buffers : ConnectionBuffers
  pub pool : Option BufferPool

unfoldable pub new : BufferPool → PooledConnectionBuffers
new pool = record { buffers = Connection.new; pool = some pool }

unfoldable pub pooled_with_config : BufferPool → ConnectionBufferConfig → PooledConnectionBuffers
pooled_with_config pool config = record { buffers = with_config config; pool = some pool }

-- the memory of one buffer or ring
abbrev pub block : Option (List ℕ) → List (List ℕ)
block none = []
block (some bytes) = bytes ∷ []

module _ (z : Zeroize) where
  unfoldable pub burn_and_release : PooledConnectionBuffers → PooledConnectionBuffers
  burn_and_release c = record { buffers = burn z c.buffers; pool = none }

  abbrev pub stream_blocks : List CircularBuffer → List (List ℕ)
  stream_blocks [] = []
  stream_blocks (r ∷ rs) = block (drop_ring z r) ++ stream_blocks rs

  -- What `burn` frees: each packet, burned first, and the storage of each stream.
  unfoldable pub burn_frees : ConnectionBuffers → List (List ℕ)
  burn_frees c =
      if c.burned
      then []
      else map (λ b. Buffer.drop_buffer z (Buffer.burn z b)) c.packet_queue
        ++ stream_blocks c.stream_bufs

  -- `impl Drop for ConnectionBuffers`: `burn`, and then the destructor of each field.
  unfoldable pub drop_connection : ConnectionBuffers → List (List ℕ)
  drop_connection c =
      let d = burn z c in
      burn_frees c
      ++ (block (Option.map (Buffer.drop_buffer z) d.read_buf)
          ++ (block (Option.map (Buffer.drop_buffer z) d.write_buf)
              ++ (stream_blocks d.stream_bufs ++ map (Buffer.drop_buffer z) d.packet_queue)))

  -- `impl Drop for PooledConnectionBuffers`: `burn`, and then the destructor of `buffers`.
  unfoldable pub drop_pooled_connection : PooledConnectionBuffers → List (List ℕ)
  drop_pooled_connection c = burn_frees c.buffers ++ drop_connection (burn z c.buffers)

all_zeros : (xs : List ℕ) (n : ℕ) → xs ≡ replicate n 0 → xs ≡ replicate (length xs) 0
all_zeros xs n e = e ∙ ap (λ k. replicate k 0) (sym (ap length e ∙ length-replicate {A = ℕ} n 0))

module _ (z : Zeroize) where
  storage-AllZero :
      (s : Option (List ℕ))
      → AllZero (block (elim s [ none ↦ none | some mem ↦ some (z.vec (Vec.of_list mem)).mem ]))
  storage-AllZero none = tt
  storage-AllZero (some mem) = (all_zeros _ _ (z.vec-mem (Vec.of_list mem)), tt)

  ring-AllZero : (r : CircularBuffer) → AllZero (block (drop_ring z r))
  unfolding drop_ring release
  ring-AllZero r = storage-AllZero r.store

  streams-AllZero : (rs : List CircularBuffer) → AllZero (stream_blocks z rs)
  streams-AllZero [] = tt
  streams-AllZero (r ∷ rs) = AllZero-append _ _ (ring-AllZero r) (streams-AllZero rs)

  packets-AllZero :
      (f : Buffer → Buffer) (bs : List Buffer) → AllZero (map (λ b. Buffer.drop_buffer z (f b)) bs)
  packets-AllZero f [] = tt
  packets-AllZero f (b ∷ bs) = (freed-zero z (f b), packets-AllZero f bs)

  buffer-AllZero : (o : Option Buffer) → AllZero (block (Option.map (Buffer.drop_buffer z) o))
  buffer-AllZero none = tt
  buffer-AllZero (some b) = (freed-zero z b, tt)

  burn_frees-AllZero : (c : ConnectionBuffers) → AllZero (burn_frees z c)
  unfolding burn_frees
  burn_frees-AllZero c = elim (Bool-cases c.burned) [
    | inl e ↦ rw e tt
    | inr e ↦ rw e (
        AllZero-append _ _ (packets-AllZero (Buffer.burn z) c.packet_queue)
          (streams-AllZero c.stream_bufs))
  ]

  -- Every block of memory that the destructors of a connection free is zero, whether or not it
  -- was burned before.
  pub drop_connection-AllZero : (c : ConnectionBuffers) → AllZero (drop_connection z c)
  unfolding drop_connection
  drop_connection-AllZero c =
      let d = burn z c in
      AllZero-append _ _ (burn_frees-AllZero c) (
        AllZero-append _ _ (buffer-AllZero d.read_buf) (
          AllZero-append _ _ (buffer-AllZero d.write_buf) (
            AllZero-append _ _ (streams-AllZero d.stream_bufs)
              (packets-AllZero (λ b. b) d.packet_queue))))

  -- burn_and_release of a pooled connection lets go of the pool, done twice it is done once and
  -- frees nothing more, and all memory that it or the destructor frees is zero.
  pub burn_and_release_lem :
      (c : PooledConnectionBuffers)
      → (burn_and_release z (burn_and_release z c) ≡ burn_and_release z c)
        × ((burn_and_release z c).pool ≡ none)
        × (burn_frees z (burn_and_release z c).buffers ≡ [])
        × AllZero (burn_frees z c.buffers)
        × AllZero (drop_pooled_connection z c)
  unfolding burn_and_release burn_frees drop_pooled_connection
  burn_and_release_lem c = (
    ap (λ d. record { buffers = d; pool = none }) (burn_skips z _ (burn_sets z c.buffers)),
    refl,
    rw (burn_sets z c.buffers) refl,
    burn_frees-AllZero c.buffers,
    AllZero-append _ _ (burn_frees-AllZero c.buffers) (drop_connection-AllZero (burn z c.buffers)),
  )
