-- ===== src/Buffer/SimdCopy.antt =====
-- src/buffer/ops.rs: the AVX2 copy writes what the plain copy writes.
use secbuf.Prelude.{
  ℕ, zero, suc, ◌+◌, ◌≤◌, ◌<◌, ◌≡◌, sym, ap, ◌∙◌, Bool, inl, inr, List, length, take, drop, splice,
  ltb, Bool-cases, ltb→le, ltb→lt, arith, length-take, length-drop, length-splice, take-append-drop,
  splice-splice,
}
use secbuf.Machine.{isize_max}
use secbuf.Error.{ok}
use secbuf.Vec.{Vec, capacity, write_raw}
use secbuf.Buffer.{Buffer}
use secbuf.Buffer.Valid.{IsValid}
use secbuf.Buffer.Raw.{write_at_pos, put_bytes_unchecked}
use secbuf.Buffer.Ops.{put_bytes}
use secbuf.Buffer.Simd.{avx2_copy, copy_avx2, put_bytes_avx2_impl, put_bytes_fast}

-- One round and the rest of the copy are one copy.
split_copy :
    (mem : List ℕ) (dst : ℕ) (src : List ℕ)
    → 32 ≤ length src
    → dst + length src ≤ length mem
    → splice (splice mem dst (take 32 src)) (dst + 32) (drop 32 src) ≡ splice mem dst src
split_copy mem dst src long fits =
    ap (λ k. splice (splice mem dst (take 32 src)) (dst + k) (drop 32 src)) (sym front)
    ∙ splice-splice mem dst (take 32 src) (drop 32 src) (omega (arith, front, length-drop 32 src))
    ∙ ap (splice mem dst) (take-append-drop 32 src)
  where
    front : length (take 32 src) ≡ 32
    front = omega (arith, length-take 32 src)

-- the vector after one round
abbrev round : List ℕ → ℕ → Vec → Vec
round src dst v = record v { mem = splice v.mem dst (take 32 src) }

copy_last :
    (fuel : ℕ) (src : List ℕ) (dst : ℕ) (v : Vec)
    → dst + length src ≤ capacity v
    → length src < 32
    → avx2_copy (suc fuel) src dst v ≡ ok (record v { mem = splice v.mem dst src })
unfolding avx2_copy write_raw
copy_last fuel src dst v fits short = ground arith

copy_round :
    (fuel : ℕ) (src : List ℕ) (dst : ℕ) (v : Vec)
    → dst + length src ≤ capacity v
    → 32 ≤ length src
    → avx2_copy (suc fuel) src dst v ≡ avx2_copy fuel (drop 32 src) (dst + 32) (round src dst v)
unfolding avx2_copy write_raw
copy_round fuel src dst v fits long = ground (arith, length-take 32 src)

-- The copied parts fit, and the fuel is enough for them.
copy_rest :
    (fuel : ℕ) (src : List ℕ) (dst : ℕ) (v : Vec)
    → length src < suc fuel
    → dst + length src ≤ capacity v
    → 32 ≤ length src
    → (length (drop 32 src) < fuel) × (dst + 32 + length (drop 32 src) ≤ capacity (round src dst v))
copy_rest fuel src dst v h fits long =
    omega (arith, length-drop 32 src, length-splice v.mem dst (take 32 src))

avx2_copy_lem :
    (fuel : ℕ) (src : List ℕ) (dst : ℕ) (v : Vec)
    → length src < fuel
    → dst + length src ≤ capacity v
    → avx2_copy fuel src dst v ≡ ok (record v { mem = splice v.mem dst src })
avx2_copy_lem zero src dst v h fits = absurd (omega arith)
avx2_copy_lem (suc fuel) src dst v h fits = elim (Bool-cases (ltb (length src) 32)) [
  | inl last ↦ copy_last fuel src dst v fits (ltb→lt (length src) 32 last)
  | inr more ↦
      let long = ltb→le (length src) 32 more in
      let rest = copy_rest fuel src dst v h fits long in
      copy_round fuel src dst v fits long
      ∙ avx2_copy_lem fuel (drop 32 src) (dst + 32) (round src dst v) rest.0 rest.1
      ∙ ap (λ m. ok (record v { mem = m })) (split_copy v.mem dst src long fits)
]

-- The AVX2 routine does, inside the allocation, exactly what the plain copy does.
pub avx2-eq-unchecked :
    (bytes : List ℕ) (b : Buffer)
    → b.pos + length bytes ≤ capacity b.vec
    → put_bytes_avx2_impl bytes b ≡ put_bytes_unchecked bytes b
unfolding put_bytes_avx2_impl copy_avx2 put_bytes_unchecked write_at_pos write_raw
avx2-eq-unchecked bytes b fits =
    ground (arith, avx2_copy_lem (suc (length bytes)) bytes b.pos b.vec (omega arith) fits)

-- With or without AVX2, put_bytes_fast does on a valid buffer what put_bytes does, on every
-- branch; the AVX2 loop ends within its fuel.
pub put_bytes_fast-eq-put_bytes :
    (has_avx2 : Bool) (bytes : List ℕ) {b : Buffer}
    → IsValid b
    → length bytes ≤ isize_max
    → put_bytes_fast has_avx2 bytes b ≡ put_bytes bytes b
unfolding put_bytes_fast put_bytes
put_bytes_fast-eq-put_bytes has_avx2 bytes {b} v small =
    ground (arith, avx2-eq-unchecked bytes b, v.vec.within, v.vec.small)
