-- ===== src/Circular/Queue/Read.antt =====
-- `read`, `peek` and `read_ptrs` against the queue.
use secbuf.Prelude.{
  ℕ, zero, suc, ◌+◌, ◌-◌, ◌≤◌, ◌<◌, ◌≡◌, refl, sym, ap, subst, splice-none, ◌∙◌, inl, inr, min,
  Option, none, some, Option-cases, List, [], ◌∷◌, length, take, drop, splice, ◌==◌, ==_iff,
  Bool-cases, arith,
}
use secbuf.Machine.{sub_size}
use secbuf.Error.{ok, and_then}
use secbuf.Circular.{CircularBuffer, max_cbuf_size, storage, wrap}
use secbuf.Circular.Ops.{gather, copy_out, read, peek}
use secbuf.Circular.Valid.{IsValid, IsStored, turn, wrap_lem}
use secbuf.Circular.Queue.{length-tabulate, round_trip, memory, contents}
use secbuf.Circular.Queue.Gather.{gather_lem, take-round_trip, drop-round_trip}

-- the ring after its first `n` bytes are taken
abbrev taken : ℕ → CircularBuffer → CircularBuffer
taken n c = record c { read_pos = turn c.size (c.read_pos + n); used = c.used - n }

-- What a read into `output` brings: the count, and the output with the front of the queue over it.
abbrev pub front : List ℕ → List ℕ → ℕ × List ℕ
front output q = let n = min (length output) (length q) in (n, splice output 0 (take n q))

drained :
    (s : Option (List ℕ)) (size used n : ℕ)
    → n ≤ used
    → IsStored s size used
    → IsStored s size (used - n)
drained none size used n h st = omega arith
drained (some mem) size used n h st = st

gather_at :
    (mem : List ℕ) (size rp n : ℕ)
    → length mem ≡ size
    → size ≤ max_cbuf_size
    → rp < size
    → n ≤ size
    → gather mem rp (sub_size size rp) n ≡ ok (round_trip mem size rp n)
gather_at mem size rp n e small start fits =
    subst (λ k. gather mem rp (sub_size k rp) n ≡ ok (round_trip mem k rp n)) e
      (gather_lem mem rp n (omega arith) (omega arith) (omega arith))

module _ {c : CircularBuffer} (v : IsValid c) where
  length-contents : length (contents c) ≡ c.used
  length-contents = length-tabulate c.used _

  taken-IsValid : (n : ℕ) → n ≤ c.used → IsValid (taken n c)
  taken-IsValid n h = record {
    sized = v.sized;
    small = v.small;
    fits = omega (arith, v.fits);
    reads_in = ground (arith, v.reads_in, v.fits);
    writes_at = ground (arith, v.writes_at, v.reads_in, v.fits);
    stored = drained c.store c.size c.used n h v.stored;
    pow2 = v.pow2;
  }

  contents-taken : (n : ℕ) → n ≤ c.used → contents (taken n c) ≡ drop n (contents c)
  contents-taken n h =
      sym (drop-round_trip (memory c) c.size c.read_pos c.used n v.reads_in v.fits h)

  module _ (mem : List ℕ) (has : c.store ≡ some mem) where
    size_mem : length mem ≡ c.size
    size_mem = ground (arith, has, v.stored)

    held : memory c ≡ mem
    held = ground (arith, has)

    bytes_in :
        (n : ℕ)
        → n ≤ c.used
        → gather mem c.read_pos (sub_size c.size c.read_pos) n ≡ ok (take n (contents c))
    bytes_in n h =
        gather_at mem c.size c.read_pos n size_mem v.small v.reads_in (omega (arith, v.fits))
        ∙ ap (λ m. ok (round_trip m c.size c.read_pos n)) (sym held)
        ∙ ap ok (sym (take-round_trip (memory c) c.size c.read_pos c.used n h))

    copy_out_lem : (n : ℕ) → n ≤ c.used → copy_out n c ≡ ok (take n (contents c))
    unfolding copy_out
    copy_out_lem n h =
        ap (λ r. and_then r (λ m. gather m c.read_pos (sub_size c.size c.read_pos) n)) unwrapped
        ∙ bytes_in n h
      where
        unwrapped : storage c ≡ ok mem
        unwrapped = ground (arith, has)

    back_round :
        (n : ℕ)
        → n ≤ c.used
        → wrap c.read_pos n c.size c.is_pow2 ≡ ok (turn c.size (c.read_pos + n))
    back_round n h =
        wrap_lem c.read_pos n c.size c.is_pow2 v.reads_in (omega (arith, v.fits)) v.small v.pow2

    read_some :
        (output : List ℕ)
        → 0 < c.used
        → read output c ≡ (ok (front output (contents c)), taken (min (length output) c.used) c)
    unfolding read
    read_some output some_used = ground (
      arith,
      has,
      length-contents,
      copy_out_lem (min (length output) c.used) (omega arith),
      back_round (min (length output) c.used) (omega arith),
      v.fits,
      v.small,
    )

    peek_some : (output : List ℕ) → 0 < c.used → peek output c ≡ ok (front output (contents c))
    unfolding peek
    peek_some output some_used = ground (
      arith,
      has,
      length-contents,
      copy_out_lem (min (length output) c.used) (omega arith),
      back_round (min (length output) c.used) (omega arith),
    )

-- a read of an empty ring
read_none :
    (c : CircularBuffer) (output : List ℕ)
    → c.used ≡ 0
    → (read output c ≡ (ok (0, output), c)) × (peek output c ≡ ok (0, output))
unfolding read peek
read_none c output e = (ground (arith, e), ground (arith, e))

-- A valid ring with data has storage.
pub has_storage :
    {c : CircularBuffer} → IsValid c → 0 < c.used → (mem : List ℕ) × (c.store ≡ some mem)
has_storage {c} v h = elim (Option-cases c.store) [
  | inl missing ↦ absurd (ground (arith, missing, v.stored))
  | inr found ↦ found
]

-- A read of nothing brings the output back.
front-nil : (output q : List ℕ) → length q ≡ 0 → front output q ≡ (0, output)
front-nil output [] e =
    let nothing : min (length output) 0 ≡ 0 = omega arith in rw (nothing, splice-none output) refl
front-nil output (x ∷ q) e = absurd (omega arith)

drop-none : (n : ℕ) (q : List ℕ) → length q ≡ 0 → drop n q ≡ q
drop-none zero q e = refl
drop-none (suc n) [] e = refl
drop-none (suc n) (x ∷ q) e = absurd (omega arith)

-- read of a valid ring hands out the front of the queue, as much as the output has room for,
-- keeps the rest of the output, leaves the ring holding the rest of the queue, and keeps the
-- invariant.
pub read_refines :
    {c : CircularBuffer} (output : List ℕ)
    → IsValid c
    → let (r, c') = read output c in
      (r ≡ ok (front output (contents c)))
      × (contents c' ≡ drop (min (length output) (length (contents c))) (contents c))
      × IsValid c'
read_refines {c} output v = elim (Bool-cases (c.used == 0)) [
  | inl none_used ↦
      let e : length (contents c) ≡ 0 =
        omega (arith, length-contents v, (==_iff _ _).0 none_used) in
      rw ((read_none c output ((==_iff _ _).0 none_used)).0)
        (ap ok (sym (front-nil output (contents c) e)), sym (drop-none _ (contents c) e), v)
  | inr some_used ↦
      let (mem, has) = has_storage v (ground (arith, some_used)) in
      rw (read_some v mem has output (ground (arith, some_used))) (
        refl,
        contents-taken v (min (length output) c.used) (omega arith)
            ∙ ap (λ k. drop (min (length output) k) (contents c)) (sym (length-contents v)),
        taken-IsValid v (min (length output) c.used) (omega arith),
      )
]

-- peek of a valid ring hands out what read would.
pub peek_refines :
    {c : CircularBuffer} (output : List ℕ) → IsValid c → peek output c ≡ (read output c).0
peek_refines {c} output v = elim (Bool-cases (c.used == 0)) [
  | inl none_used ↦
      let (e, e') = read_none c output ((==_iff _ _).0 none_used) in e' ∙ sym (ap (λ r. r.0) e)
  | inr some_used ↦
      let (mem, has) = has_storage v (ground (arith, some_used)) in
      peek_some v mem has output (ground (arith, some_used))
      ∙ sym (ap (λ r. r.0) (read_some v mem has output (ground (arith, some_used))))
]
