-- ===== src/Examples/Fill.antt =====
-- examples/stream_processing.rs: the chunks written, and the whole first part of `main`.
use mathlib.Core.List.{append-nil}
use secbuf.Prelude.{
  ℕ, ◌+◌, ◌≤◌, ◌<◌, ◌≡◌, refl, sym, ap, ap₂, ◌∙◌, Option, none, some, List, [], ◌∷◌, ◌++◌, length,
  length-append, arith,
}
use secbuf.Error.{ok, Method, ◌>>=◌, return, bind_ok}
use secbuf.Bits.{is_power_of_two}
use secbuf.Assert.{look}
use secbuf.Circular.{CircularBuffer, max_cbuf_size, empty_ring, new}
use secbuf.Circular.Fields.{used, size}
use secbuf.Circular.Ops.{write}
use secbuf.Circular.Valid.{IsValid, new-IsValid}
use secbuf.Circular.Queue.{contents}
use secbuf.Circular.Queue.Write.{length-contents, write_nothing, write-Room}
use secbuf.Circular.Queue.Stream.{append_assoc}
use secbuf.Examples.{Line, number, block_lem}
use secbuf.Examples.Streams.{write_chunks, read_pieces, stream}
use secbuf.Examples.Drain.{joined, numbered, ArePieces, drained}

-- what the loop over the chunks prints, from chunk `i` on, with `used` bytes in the ring
abbrev pub progress : ℕ → ℕ → ℕ → List (List ℕ) → List Line
progress i used size [] = []
progress i used size (c ∷ cs) =
    (number (i + 1) ∷ number (length c) ∷ number (used + length c) ∷ number size ∷ [])
    ∷ progress (i + 1) (used + length c) size cs

-- A write with room for it, of nothing or of some bytes.
chunk_written :
    (chunk : List ℕ) {c : CircularBuffer}
    → IsValid c
    → c.used + length chunk ≤ c.size
    → (d : CircularBuffer) × (write chunk c ≡ (ok (length chunk), d))
      × (contents d ≡ contents c ++ chunk)
      × IsValid d
      × (d.size ≡ c.size)
chunk_written [] {c} v fits = (c, write_nothing c [] refl, sym (append-nil (contents c)), v, refl)
chunk_written (x ∷ xs) {c} v fits = write-Room (x ∷ xs) v (omega arith) (omega arith)

abbrev progress_with : ℕ → List ℕ → List (List ℕ) → ℕ → ℕ → List Line
progress_with i chunk chunks used size =
    (number (i + 1) ∷ number (length chunk) ∷ number used ∷ number size ∷ [])
    ∷ progress (i + 1) used size chunks

chunk_step :
    (i : ℕ) (chunk : List ℕ) (chunks : List (List ℕ)) (lines : List Line)
    (c d last : CircularBuffer)
    → write chunk c ≡ (ok (length chunk), d)
    → write_chunks (i + 1) chunks d ≡ (ok lines, last)
    → write_chunks i (chunk ∷ chunks) c ≡ (
      ok ((number (i + 1) ∷ number (length chunk) ∷ number d.used ∷ number d.size ∷ []) ∷ lines),
      last,
    )
unfolding write_chunks used size
chunk_step i chunk chunks lines c d last called later =
    bind_ok (write chunk)
      (λ taken. do
        stream ← look
        rest ← write_chunks (i + 1) chunks
        return (
            (number (i + 1)
              ∷ number (length chunk)
              ∷ number (used stream)
              ∷ number (size stream)
              ∷ [])
            ∷ rest))
      called
    ∙ bind_ok (write_chunks (i + 1) chunks)
        (λ rest.
          return
            ((number (i + 1) ∷ number (length chunk) ∷ number d.used ∷ number d.size ∷ []) ∷ rest))
        later

-- What writing the chunks makes of a ring with room for them all.
record Written (i : ℕ) (chunks : List (List ℕ)) (c : CircularBuffer) : Type 0 where
  last : CircularBuffer
  runs : write_chunks i chunks c ≡ (ok (progress i c.used c.size chunks), last)
  holds : contents last ≡ contents c ++ joined chunks
  valid : IsValid last

written :
    (i : ℕ) (chunks : List (List ℕ)) {c : CircularBuffer}
    → IsValid c
    → c.used + length (joined chunks) ≤ c.size
    → Written i chunks c
unfolding write_chunks
written i [] {c} v fits = record {
  last = c;
  runs = refl;
  holds = sym (append-nil (contents c));
  valid = v;
}
written i (chunk ∷ chunks) {c} v fits =
    let (d, called, held, w, same) =
      chunk_written chunk v (omega (arith, length-append chunk (joined chunks))) in
    let count : d.used ≡ c.used + length chunk = omega (
      arith,
      length-contents c,
      length-contents d,
      ap length held,
      length-append (contents c) chunk,
    ) in
    let more = written (i + 1) chunks w (omega (arith, length-append chunk (joined chunks))) in
    record {
      last = more.last;
      runs =
          chunk_step i chunk chunks (progress (i + 1) d.used d.size chunks) c d more.last called
            more.runs
          ∙ ap₂ (λ u s. (ok (progress_with i chunk chunks u s), more.last)) count same;
      holds =
          more.holds
          ∙ ap (λ q. q ++ joined chunks) held
          ∙ append_assoc (contents c) chunk (joined chunks);
      valid = more.valid;
    }

-- the pieces' lines behind those of the chunks
abbrev behind : List Line → Option (List Line × ℕ) → Option (List Line × ℕ)
behind lines pieces = elim pieces [ none ↦ none | some p ↦ some (lines ++ p.0, p.1) ]

abbrev pieces_after : ℕ → List Line → Method CircularBuffer (Option (List Line × ℕ))
pieces_after fuel lines = do pieces ← read_pieces fuel 1 0; return (behind lines pieces)

-- Whatever chunks fit a ring of a size within the limit: with fuel for each byte and one more the
-- stream of the example ends without an error; it reports each chunk with its length and the
-- bytes then in the ring, and after them numbered pieces of 50 bytes, the last of 1 to 50, which
-- are the bytes of the chunks in order, and how many they are.
pub stream_lem :
    (fuel ring_size : ℕ) (chunks : List (List ℕ))
    → 0 < ring_size
    → ring_size ≤ max_cbuf_size
    → length (joined chunks) ≤ ring_size
    → length (joined chunks) < fuel
    → (pieces : List (List ℕ)) × (stream fuel ring_size chunks
        ≡ ok (some (progress 0 0 ring_size chunks ++ numbered 1 pieces, length (joined chunks))))
      × (joined pieces ≡ joined chunks)
      × ArePieces pieces
unfolding stream
stream_lem fuel ring_size chunks some_size most fits enough =
    let ring = empty_ring ring_size (is_power_of_two ring_size) in
    let made : new ring_size ≡ ok ring = unfold new in ground (arith, most) in
    let filled = written 0 chunks (new-IsValid ring_size some_size made) (omega arith) in
    let count : length (contents filled.last) ≡ length (joined chunks) = ap length filled.holds in
    let sum : 0 + length (contents filled.last) ≡ length (joined chunks) = omega (arith, count) in
    let read =
      drained fuel 1 0 filled.last filled.valid (omega (arith, count)) (omega (arith, count))
        (omega (arith, count)) in
    let lines = progress 0 0 ring_size chunks in
    (
      read.pieces,
      block_lem (new ring_size) (do lines ← write_chunks 0 chunks; pieces_after fuel lines) made
            (bind_ok (write_chunks 0 chunks) (pieces_after fuel) filled.runs
              ∙ bind_ok (read_pieces fuel 1 0) (λ pieces. return (behind lines pieces)) read.runs)
          ∙ ap (λ (t : ℕ). ok (some (lines ++ numbered 1 read.pieces, t))) sum,
      read.whole ∙ filled.holds,
      read.sizes,
    )
