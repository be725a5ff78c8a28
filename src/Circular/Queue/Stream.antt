-- ===== src/Circular/Queue/Stream.antt =====
-- src/circular/buffer.rs: the ring as a stream, over any sequence of calls of `write` and `read`.
use mathlib.Core.List.{append-nil}
use secbuf.Prelude.{
  ℕ, zero, suc, ◌≤◌, ◌≡◌, refl, sym, ap, ap₂, subst, ◌-◌, take-append-drop, ◌∙◌, min, inl, inr,
  Bool-cases, List, [], ◌∷◌, ◌++◌, length, take, splice, ltb, ◌==◌, arith,
}
use secbuf.Error.{Outcome, ok}
use secbuf.Circular.{CircularBuffer}
use secbuf.Circular.Ops.{write, read}
use secbuf.Circular.Valid.{IsValid}
use secbuf.Circular.Queue.{contents}
use secbuf.Circular.Queue.Write.{enqueue, write_refines}
use secbuf.Circular.Queue.Read.{read_refines}

pub data Call : Type 0 where
  writes : List ℕ → Call
  reads : List ℕ → Call

-- the bytes that a `write` says it took
abbrev pub accepted : Outcome ℕ → List ℕ → List ℕ
accepted (ok n) bytes = take n bytes
accepted _ bytes = []

-- the bytes that a `read` says it put at the front of the output
abbrev pub handed : Outcome (ℕ × List ℕ) → List ℕ
handed (ok r) = take r.0 r.1
handed _ = []

-- What the calls took in and handed out, and the ring at the end.
unfoldable pub run : List Call → CircularBuffer → List ℕ × List ℕ × CircularBuffer
run [] c = ([], [], c)
run (writes bytes ∷ calls) c =
    let (r, next) = write bytes c in
    let (ins, outs, last) = run calls next in (accepted r bytes ++ ins, outs, last)
run (reads output ∷ calls) c =
    let (r, next) = read output c in
    let (ins, outs, last) = run calls next in (ins, handed r ++ outs, last)

pub append_assoc : (xs ys zs : List ℕ) → (xs ++ ys) ++ zs ≡ xs ++ (ys ++ zs)
append_assoc [] ys zs = refl
append_assoc (x ∷ xs) ys zs = ap (λ l. x ∷ l) (append_assoc xs ys zs)

take-all_of : (xs : List ℕ) → take (length xs) xs ≡ xs
take-all_of [] = refl
take-all_of (x ∷ xs) = ap (λ l. x ∷ l) (take-all_of xs)

enqueue_appends :
    (cap : ℕ) (bytes q : List ℕ)
    → let (r, next) = enqueue cap bytes q in q ++ accepted r bytes ≡ next
unfolding enqueue
enqueue_appends cap bytes q = elim (Bool-cases (length bytes == 0)) [
  | inl nothing ↦ rw nothing (append-nil q)
  | inr something ↦ elim (Bool-cases (ltb (cap - length q) (length bytes))) [
    | inl full ↦ rw (something, full) (append-nil q)
    | inr room ↦ rw (something, room) (ap (λ l. q ++ l) (take-all_of bytes))
  ]
]

write_appends :
    {c : CircularBuffer} (bytes : List ℕ)
    → IsValid c
    → let (r, next) = write bytes c in
      (contents c ++ accepted r bytes ≡ contents next) × IsValid next
write_appends {c} bytes v =
    let (e, w) = write_refines bytes v in
    (
      subst (λ (p : Outcome ℕ × List ℕ). contents c ++ accepted p.0 bytes ≡ p.1) (sym e)
          (enqueue_appends c.size bytes (contents c)),
      w,
    )

pub take-splice_front :
    (output q : List ℕ) (n : ℕ)
    → n ≤ length output
    → n ≤ length q
    → take n (splice output 0 (take n q)) ≡ take n q
unfolding splice
take-splice_front output q zero h k = refl
take-splice_front [] q (suc n) h k = absurd (omega arith)
take-splice_front (x ∷ output) [] (suc n) h k = absurd (omega arith)
take-splice_front (x ∷ output) (y ∷ q) (suc n) h k =
    ap (λ l. y ∷ l) (take-splice_front output q n (omega arith) (omega arith))

read_takes :
    {c : CircularBuffer} (output : List ℕ)
    → IsValid c
    → let (r, next) = read output c in (contents c ≡ handed r ++ contents next) × IsValid next
read_takes {c} output v =
    let (e, d, w) = read_refines output v in
    let q = contents c in
    let n = min (length output) (length q) in
    let front_is : handed (read output c).0 ≡ take n q =
      ap handed e ∙ take-splice_front output q n (omega arith) (omega arith) in
    (sym (ap₂ (λ xs ys. xs ++ ys) front_is d ∙ take-append-drop n q), w)

-- Over any sequence of writes and reads of a valid ring, the bytes held at the start followed by
-- those the writes accepted are those the reads handed out followed by the bytes held at the end:
-- nothing is lost, doubled or reordered; the ring stays valid.
pub stream_in_order :
    (calls : List Call) (c : CircularBuffer)
    → IsValid c
    → let (ins, outs, last) = run calls c in
      (contents c ++ ins ≡ outs ++ contents last) × IsValid last
unfolding run
stream_in_order [] c v = (append-nil (contents c), v)
stream_in_order (writes bytes ∷ calls) c v =
    let (e, w) = write_appends bytes v in
    let (r, next) = write bytes c in
    let (e', w') = stream_in_order calls next w in
    let ins = (run calls next).0 in
    (sym (append_assoc (contents c) (accepted r bytes) ins) ∙ ap (λ l. l ++ ins) e ∙ e', w')
stream_in_order (reads output ∷ calls) c v =
    let (e, w) = read_takes output v in
    let (r, next) = read output c in
    let (e', w') = stream_in_order calls next w in
    let (ins, outs, last) = run calls next in
    (
      ap (λ l. l ++ ins) e
          ∙ append_assoc (handed r) (contents next) ins
          ∙ ap (λ l. handed r ++ l) e'
          ∙ sym (append_assoc (handed r) outs (contents last)),
      w',
    )
