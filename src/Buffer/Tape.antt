-- ===== src/Buffer/Tape.antt =====
-- What a client of `Buffer` relies on: a tape of valid bytes with a cursor, of bounded length.
-- Nothing here speaks of vectors, capacity or raw memory.
pub mod Refine
use secbuf.Prelude.{
  ℕ, ◌+◌, ◌-◌, Bool, ◌||◌, List, [], ◌∷◌, ◌++◌, length, take, drop, slice, ltb, if◌then◌else◌,
}
use secbuf.Error.{
  BufferError, position_out_of_bounds, increment_too_large, buffer_overflow, Outcome, ok, err,
}

pub record Tape : Type 0 where
  pub bytes : List ℕ
  pub at : ℕ
  pub room : ℕ

-- what a client asks for
pub data Request : Type 0 where
  put : List ℕ → Request
  get seek skip back : ℕ → Request

-- what it hears: bytes (none, but for a `get`) or an error
abbrev pub Reply : Type 0
Reply = Outcome (List ℕ)

-- `bs` written over the bytes from the cursor on, which they may lengthen
abbrev pub overwrite : List ℕ → Tape → List ℕ
overwrite bs t = take t.at t.bytes ++ (bs ++ drop (t.at + length bs) t.bytes)

-- the tape's answer; a request that does not fit changes nothing
unfoldable pub answer : Request → Tape → Reply × Tape
answer (put bs) t =
    if ltb t.room (t.at + length bs)
    then (err buffer_overflow, t)
    else (ok [], record t { bytes = overwrite bs t; at = t.at + length bs })
answer (get n) t =
    if ltb (length t.bytes) (t.at + n)
    then (err buffer_overflow, t)
    else (ok (slice t.bytes t.at n), record t { at = t.at + n })
answer (seek n) t =
    if ltb (length t.bytes) n then (err position_out_of_bounds, t) else (ok [], record t { at = n })
answer (skip n) t =
    if ltb 1_000_000_000 n || ltb (length t.bytes) (t.at + n)
    then (err increment_too_large, t)
    else (ok [], record t { at = t.at + n })
answer (back n) t =
    if ltb t.at n then (err position_out_of_bounds, t) else (ok [], record t { at = t.at - n })

unfoldable pub answers : List Request → Tape → List Reply
answers [] t = []
answers (q ∷ qs) t = let (r, t') = answer q t in r ∷ answers qs t'
