-- ===== src/Buffer/Tape/Refine.antt =====
-- A valid buffer answers as the tape of its valid bytes.
use secbuf.Prelude.{
  ℕ, ◌+◌, ◌≤◌, ◌≡◌, refl, inl, inr, List, [], ◌∷◌, length, take, ltb, Bool-cases, ltb→le, ltb→lt,
  length-take, take-splice, slice-take, arith,
}
use secbuf.Machine.{isize_max}
use secbuf.Error.{Method, ◌>>◌, return}
use secbuf.Buffer.{Buffer, set_pos, incr_pos, decr_pos}
use secbuf.Buffer.Valid.{IsValid}
use secbuf.Buffer.Access.{
  written, written-IsValid, advanced-IsValid, put_bytes_room, put_bytes_full, get_bytes_room,
  get_bytes_short, set_pos_past, set_pos_within, decr_pos_past, decr_pos_within,
}
use secbuf.Buffer.Ops.{put_bytes, get_bytes}
use secbuf.Buffer.Tape.{Tape, Request, put, get, seek, skip, back, Reply, answer, answers}

abbrev pub view : Buffer → Tape
view b = record { bytes = take b.len b.vec.mem; at = b.pos; room = b.vec.len }

-- the call that a request stands for
unfoldable pub serve : Request → Method Buffer (List ℕ)
serve (put bs) = do put_bytes bs; return []
serve (get n) = get_bytes n
serve (seek n) = do set_pos n; return []
serve (skip n) = do incr_pos n; return []
serve (back n) = do decr_pos n; return []

unfoldable pub serve_all : List Request → Buffer → List Reply
serve_all [] b = []
serve_all (q ∷ qs) b = let (r, b') = serve q b in r ∷ serve_all qs b'

-- A slice, and the length of one, is at most `isize::MAX`.
abbrev pub IsSmall : Request → Type 0
IsSmall (put bs) = length bs ≤ isize_max
IsSmall (get n) = n ≤ isize_max
IsSmall (seek n) = Unit {0}
IsSmall (skip n) = Unit {0}
IsSmall (back n) = Unit {0}

-- the answer as the client sees it, with the tape behind it
abbrev seen : Reply × Buffer → Reply × Tape
seen (r, b) = (r, view b)

abbrev Agrees : Request → Buffer → Type 0
Agrees q b = (seen (serve q b) ≡ answer q (view b)) × IsValid (serve q b).1

module _ {b : Buffer} (v : IsValid b) where
  valid_length : length (take b.len b.vec.mem) ≡ b.len
  valid_length = omega (arith, length-take b.len b.vec.mem, v.filled, v.vec.within)

  put-Agrees : (bs : List ℕ) → length bs ≤ isize_max → Agrees (put bs) b
  unfolding serve answer written
  put-Agrees bs small = elim (Bool-cases (ltb b.vec.len (b.pos + length bs))) [
    | inl full ↦ ground (arith, full, put_bytes_full v bs small (ltb→lt _ _ full), v)
    | inr room ↦ ground (
      arith,
      room,
      put_bytes_room v bs (ltb→le _ _ room),
      written-IsValid v bs (ltb→le _ _ room),
      take-splice b.vec.mem b.pos b.len bs v.cursor,
      v.filled,
      v.vec.within,
    )
  ]

  get-Agrees : (n : ℕ) → n ≤ isize_max → Agrees (get n) b
  unfolding serve answer
  get-Agrees n small = elim (Bool-cases (ltb b.len (b.pos + n))) [
    | inl short ↦ ground (
      arith,
      short,
      valid_length,
      get_bytes_short v n (ltb→lt _ _ short) (omega (arith, v.vec.within, v.vec.small)),
      v,
    )
    | inr room ↦ ground (
      arith,
      room,
      valid_length,
      get_bytes_room v n (ltb→le _ _ room),
      advanced-IsValid v n (ltb→le _ _ room),
      slice-take b.vec.mem b.len b.pos n (ltb→le _ _ room),
      v.filled,
      v.vec.within,
    )
  ]

  seek-Agrees : (n : ℕ) → Agrees (seek n) b
  unfolding serve answer
  seek-Agrees n = elim (Bool-cases (ltb b.len n)) [
    | inl past ↦ ground (arith, past, valid_length, set_pos_past n b, v)
    | inr within ↦ ground (arith, within, valid_length, set_pos_within n b, v)
  ]

  skip-Agrees : (n : ℕ) → Agrees (skip n) b
  unfolding serve answer incr_pos
  skip-Agrees n = ground (arith, valid_length, v.vec.within, v.vec.small, v)

  back-Agrees : (n : ℕ) → Agrees (back n) b
  unfolding serve answer
  back-Agrees n = elim (Bool-cases (ltb b.pos n)) [
    | inl past ↦ ground (arith, past, decr_pos_past n b, v)
    | inr within ↦ ground (arith, within, decr_pos_within n b, v)
  ]

  serve-Agrees : (q : Request) → IsSmall q → Agrees q b
  serve-Agrees (put bs) small = put-Agrees bs small
  serve-Agrees (get n) small = get-Agrees n small
  serve-Agrees (seek n) small = seek-Agrees n
  serve-Agrees (skip n) small = skip-Agrees n
  serve-Agrees (back n) small = back-Agrees n

abbrev pub AllSmall : List Request → Type 0
AllSmall [] = Unit {0}
AllSmall (q ∷ qs) = IsSmall q × AllSmall qs

-- No sequence of puts, gets and cursor moves, with lengths that Rust allows, tells a valid buffer
-- from a bounded tape of its bytes.
pub serve_all-refines :
    (qs : List Request) {b : Buffer}
    → IsValid b
    → AllSmall qs
    → serve_all qs b ≡ answers qs (view b)
unfolding serve_all answers
serve_all-refines [] v small = refl
serve_all-refines (q ∷ qs) {b} v small =
    let (same, valid) = serve-Agrees v q small.0 in
    rw (serve_all-refines qs valid small.1, ← same) refl
