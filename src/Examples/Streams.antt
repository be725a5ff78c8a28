-- ===== src/Examples/Streams.antt =====
-- examples/stream_processing.rs.
use secbuf.Prelude.{
  ℕ, zero, suc, ◌+◌, ◌%◌, ◌^◌, true, false, Option, none, some, List, [], ◌∷◌, ◌++◌, length, take,
  replicate,
}
use secbuf.Machine.{add_size}
use secbuf.Error.{Outcome, ok, Method, ◌>>=◌, ◌>>◌, return, lift, and_then}
use secbuf.Assert.{look}
use secbuf.Circular.{CircularBuffer, new, available, is_empty}
use secbuf.Circular.Fields.{used, size}
use secbuf.Circular.Ops.{write, read, peek, read_ptrs, bytes_of}
use secbuf.Circular.Queue.{memory}
use secbuf.Examples.{Line, number, text, codes, block}

-- `for (i, chunk) in chunks.iter().enumerate()`
unfoldable pub write_chunks : ℕ → List (List ℕ) → Method CircularBuffer (List Line)
write_chunks i [] = return []
write_chunks i (chunk ∷ chunks) = do
  taken ← write chunk
  stream ← look
  rest ← write_chunks (i + 1) chunks
  return (
      (number (i + 1) ∷ number (length chunk) ∷ number (used stream) ∷ number (size stream) ∷ [])
      ∷ rest)

-- `while !stream.is_empty()`, with fuel: `none` if it runs out. The first of a line's two values is
-- `chunk_num`, an `i32` as its bit pattern.
unfoldable pub read_pieces : ℕ → ℕ → ℕ → Method CircularBuffer (Option (List Line × ℕ))
read_pieces zero chunk_num total_read stream = (ok none, stream)
read_pieces (suc fuel) chunk_num total_read stream = elim (is_empty stream) [
  | true ↦ (ok (some ([], total_read)), stream)
  | false ↦
      (do
        r ← read (replicate 50 0)
        rest ← read_pieces fuel ((chunk_num + 1) % 2 ^ 32) (add_size total_read r.0)
        return (elim rest [
          | none ↦ none
          | some p ↦ some ((number chunk_num ∷ text (take r.0 r.1) ∷ []) ∷ p.0, p.1)
        ]))
        stream
]

-- The first part of `main`, for any size and any chunks.
unfoldable pub stream : ℕ → ℕ → List (List ℕ) → Outcome (Option (List Line × ℕ))
stream fuel size chunks = block (new size) do
  lines ← write_chunks 0 chunks
  pieces ← read_pieces fuel 1 0
  return (elim pieces [ none ↦ none | some p ↦ some (lines ++ p.0, p.1) ])

-- the ring goes round
wraparound : Outcome (List Line)
wraparound = block (new 64) do
  write (codes "1234567890123456789012345678901234567890")
  filled ← look
  discard ← read (replicate 20 0)
  ring ← look
  write (codes "ABCDEFGHIJKLMNOPQRSTUVWXYZ")
  round ← look
  final_data ← read (replicate (used round) 0)
  return (
      (number (used filled) ∷ [])
      ∷ (number (used ring) ∷ number (available ring) ∷ [])
      ∷ (number (used round) ∷ [])
      ∷ (text final_data.1 ∷ [])
      ∷ [])

-- a peek, then the read
peeking : Outcome (List Line)
peeking = block (new 128) do
  write (codes "Sensitive data that we want to inspect")
  before ← look
  peek_output ← lift (peek (replicate 20 0) before)
  read_output ← read (replicate (used before) 0)
  after ← look
  return (
      (text peek_output.1 ∷ [])
      ∷ (number (used before) ∷ [])
      ∷ (text read_output.1 ∷ [])
      ∷ (number (used after) ∷ [])
      ∷ [])

-- the two slices of `read_ptrs`
zero_copy : Outcome (List Line)
zero_copy = block (new 100) do
  write (codes "Zero-copy read example")
  zcbuf ← look
  ptrs ← lift (read_ptrs zcbuf)
  return (
      (text (bytes_of (memory zcbuf) ptrs.0) ∷ [])
      ∷ (text (bytes_of (memory zcbuf) ptrs.1) ∷ [])
      ∷ (number (used zcbuf) ∷ [])
      ∷ [])

abbrev pub chunks : List (List ℕ)
chunks =
    codes "This is the first chunk of streaming data. "
    ∷ codes "Here comes the second chunk with more information. "
    ∷ codes "And finally, the third chunk to complete the message."
    ∷ []

-- The fuel is one more than the ring has room for.
unfoldable pub main : Outcome (Option (List Line))
unfolding wraparound peeking zero_copy
main = and_then (stream 1025 1024 chunks) λ streamed. elim streamed [
  | none ↦ ok none
  | some p ↦ and_then wraparound λ l.
      and_then peeking
        λ m. and_then zero_copy λ n. ok (some (p.0 ++ ((number p.1 ∷ []) ∷ (l ++ (m ++ n)))))
]
