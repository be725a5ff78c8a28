-- ===== src/Examples/Drain.antt =====
-- examples/stream_processing.rs: what goes into the stream in chunks comes out in pieces.
use secbuf.Prelude.{
  ℕ, zero, suc, ◌+◌, ◌-◌, ◌%◌, ◌^◌, ◌≤◌, ◌<◌, ◌≡◌, refl, sym, ap, ap₂, ◌∙◌, inl, inr, min,
  Bool-cases, ==_iff, true, false, Option, none, some, List, [], ◌∷◌, ◌++◌, length, length-append,
  length-take, length-drop, take, drop, take-append-drop, replicate, splice, arith,
}
use secbuf.Machine.{add_size}
use secbuf.Error.{Outcome, ok, Method, ◌>>=◌, return, bind_ok}
use secbuf.Circular.{CircularBuffer, is_empty}
use secbuf.Circular.Ops.{read}
use secbuf.Circular.Valid.{IsValid}
use secbuf.Circular.Queue.{contents, memory, round_trip}
use secbuf.Circular.Queue.Write.{length-contents}
use secbuf.Circular.Queue.Read.{front, read_refines}
use secbuf.Circular.Queue.Stream.{take-splice_front}
use secbuf.Examples.{Line, number, text}
use secbuf.Examples.Streams.{read_pieces}

abbrev pub joined : List (List ℕ) → List ℕ
joined [] = []
joined (p ∷ ps) = p ++ joined ps

-- what the second loop prints, from `n` on
abbrev pub numbered : ℕ → List (List ℕ) → List Line
numbered n [] = []
numbered n (p ∷ ps) = (number n ∷ text p ∷ []) ∷ numbered (n + 1) ps

-- what the first loop prints, from chunk `i` on, with `used` bytes in the ring
abbrev pub progress : ℕ → ℕ → ℕ → List (List ℕ) → List Line
progress i used size [] = []
progress i used size (c ∷ cs) =
    (number (i + 1) ∷ number (length c) ∷ number (used + length c) ∷ number size ∷ [])
    ∷ progress (i + 1) (used + length c) size cs

-- Every piece but the last has 50 bytes, and the last has some.
abbrev pub ArePieces : List (List ℕ) → Type 0
ArePieces [] = Unit {0}
ArePieces (p ∷ []) = (0 < length p) × (length p ≤ 50)
ArePieces (p ∷ q ∷ ps) = (length p ≡ 50) × ArePieces (q ∷ ps)

-- what a read into 50 bytes takes of the queue, and what it leaves
abbrev count_of : List ℕ → ℕ
count_of q = min 50 (length q)

-- A round: one read of up to 50 bytes.
read_round :
    {c : CircularBuffer} (output : List ℕ)
    → length output ≡ 50
    → IsValid c
    → let n = count_of (contents c) in
      (out : List ℕ) × (d : CircularBuffer) × (read output c ≡ (ok (n, out), d))
      × (take n out ≡ take n (contents c))
      × (contents d ≡ drop n (contents c))
      × IsValid d
read_round {c} output fifty v =
    let (e, rest, w) = read_refines output v in
    let q = contents c in
    let same : min (length output) (length q) ≡ count_of q = omega arith in
    let d = (read output c).1 in
    let called : read output c ≡ (ok (front output q), d) =
      ap (λ (r : Outcome (ℕ × List ℕ)). (r, d)) e in
    (
      splice output 0 (take (count_of q) q),
      d,
      called ∙ ap (λ (n : ℕ). (ok (n, splice output 0 (take n q)), d)) same,
      take-splice_front output q (count_of q) (omega arith) (omega arith),
      rest ∙ ap (λ n. drop n q) same,
      w,
    )

-- What the loop makes of a ring that holds `q`.
pub record Drained (q : List ℕ) (c : CircularBuffer) (fuel n total : ℕ) : Type 0 where
  pub pieces : List (List ℕ)
  pub last : CircularBuffer
  pub runs : read_pieces fuel n total c ≡ (ok (some (numbered n pieces, total + length q)), last)
  pub whole : joined pieces ≡ q
  pub sizes : ArePieces pieces
  pub valid : IsValid last
  pub empty : contents last ≡ []

ended :
    (fuel n total : ℕ) (c : CircularBuffer)
    → IsValid c
    → is_empty c ≡ true
    → Drained (contents c) c (suc fuel) n total
unfolding read_pieces is_empty
ended fuel n total c v done =
    let none_used : c.used ≡ 0 = (==_iff _ _).0 done in
    let nothing : contents c ≡ [] = ap (λ u. round_trip (memory c) c.size c.read_pos u) none_used in
    record {
      pieces = [];
      last = c;
      runs =
          rw (read_pieces, done)
            (ap (λ (t : ℕ). (ok (some ([], t)), c)) (omega (arith, ap length nothing)));
      whole = sym nothing;
      sizes = tt;
      valid = v;
      empty = nothing;
    }

ArePieces-cons :
    (p : List ℕ) (ps : List (List ℕ)) (q : List ℕ)
    → joined ps ≡ q
    → 0 < length p
    → length p ≤ 50
    → (0 < length q → length p ≡ 50)
    → ArePieces ps
    → ArePieces (p ∷ ps)
ArePieces-cons p [] q e some_p most_p full h = (some_p, most_p)
ArePieces-cons p (r ∷ []) q e some_p most_p full h =
    (full (omega (arith, ap length e, length-append r [], h.0)), h)
ArePieces-cons p (r ∷ s ∷ ps) q e some_p most_p full h =
    (full (omega (arith, ap length e, length-append r (s ++ joined ps), h.0)), h)

-- what the loop does with the pieces that come after a piece, and with what it has read
abbrev with_piece : ℕ → ℕ × List ℕ → Option (List Line × ℕ) → Option (List Line × ℕ)
with_piece n r rest = elim rest [
  | none ↦ none
  | some p ↦ some ((number n ∷ text (take r.0 r.1) ∷ []) ∷ p.0, p.1)
]

abbrev round_after : ℕ → ℕ → ℕ → ℕ × List ℕ → Method CircularBuffer (Option (List Line × ℕ))
round_after fuel n total r = do
  rest ← read_pieces fuel ((n + 1) % 2 ^ 32) (add_size total r.0)
  return (with_piece n r rest)

pieces_step :
    (fuel n total k t : ℕ) (out : List ℕ) (ls : List Line) (c d last : CircularBuffer)
    → is_empty c ≡ false
    → read (replicate 50 0) c ≡ (ok (k, out), d)
    → read_pieces fuel ((n + 1) % 2 ^ 32) (add_size total k) d ≡ (ok (some (ls, t)), last)
    → read_pieces (suc fuel) n total c
      ≡ (ok (some ((number n ∷ text (take k out) ∷ []) ∷ ls, t)), last)
unfolding read_pieces
pieces_step fuel n total k t out ls c d last busy called later =
    rw (read_pieces, busy)
      (bind_ok (read (replicate 50 0)) (round_after fuel n total) called
        ∙ bind_ok (read_pieces fuel ((n + 1) % 2 ^ 32) (add_size total k))
            (λ rest. return (with_piece n (k, out) rest)) later)

-- a round, and the rounds after it
module _ (fuel n total : ℕ) (c d : CircularBuffer) (out : List ℕ) where
  abbrev k : ℕ
  k = count_of (contents c)

  drained_after :
      is_empty c ≡ false
      → read (replicate 50 0) c ≡ (ok (k, out), d)
      → take k out ≡ take k (contents c)
      → contents d ≡ drop k (contents c)
      → n + length (contents c) < 2 ^ 32
      → total + length (contents c) < 2 ^ 64
      → Drained (contents d) d fuel (n + 1) (total + k)
      → Drained (contents c) c (suc fuel) n total
  drained_after busy called piece rest small fits more =
      let q = contents c in
      let some_q : 0 < length q = unfold is_empty in ground (arith, busy, length-contents c) in
      let left : length (contents d) ≡ length q - k = ap length rest ∙ length-drop k q in
      let len : length (take k q) ≡ k = omega (arith, length-take k q) in
      let num : (n + 1) % 2 ^ 32 ≡ n + 1 = omega arith in
      let sum : add_size total k ≡ total + k = omega arith in
      let all : total + k + length (contents d) ≡ total + length q = omega (arith, left) in
      record {
        pieces = take k q ∷ more.pieces;
        last = more.last;
        runs =
            pieces_step fuel n total k (total + length q) out (numbered (n + 1) more.pieces) c d
              more.last busy called
              (ap₂ (λ a b. read_pieces fuel a b d) num sum
                ∙ more.runs
                ∙ ap (λ (t : ℕ). (ok (some (numbered (n + 1) more.pieces, t)), more.last)) all)
            ∙ ap
                (λ (p : List ℕ). (
                  ok (
                      some (
                        (number n ∷ text p ∷ []) ∷ numbered (n + 1) more.pieces,
                        total + length q,
                      )),
                  more.last,
                ))
                piece;
        whole = ap (λ l. take k q ++ l) (more.whole ∙ rest) ∙ take-append-drop k q;
        sizes =
            ArePieces-cons (take k q) more.pieces (contents d) more.whole (omega (arith, len))
              (omega (arith, len)) (λ h. omega (arith, len, left)) more.sizes;
        valid = more.valid;
        empty = more.empty;
      }

-- The loop ends: fuel of one more than the bytes held is enough.
pub drained :
    (fuel n total : ℕ) (c : CircularBuffer)
    → IsValid c
    → length (contents c) < fuel
    → n + length (contents c) < 2 ^ 32
    → total + length (contents c) < 2 ^ 64
    → Drained (contents c) c fuel n total
drained zero n total c v enough small fits = absurd (omega arith)
drained (suc fuel) n total c v enough small fits = elim (Bool-cases (is_empty c)) [
  | inl done ↦ ended fuel n total c v done
  | inr busy ↦
      let (out, d, called, piece, rest, w) = read_round (replicate 50 0) refl v in
      let some_q : 0 < length (contents c) =
        unfold is_empty in ground (arith, busy, length-contents c) in
      let left = ap length rest ∙ length-drop (count_of (contents c)) (contents c) in
      drained_after fuel n total c d out busy called piece rest small fits (
        drained fuel (n + 1) (total + count_of (contents c)) d w (omega (arith, left))
          (omega (arith, left)) (omega (arith, left)))
]
