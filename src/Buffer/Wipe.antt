-- ===== src/Buffer/Wipe.antt =====
-- src/buffer/core.rs: what `burn`, `burn_free` and the destructor leave in memory.
use mathlib.Core.List.{append-nil}
use secbuf.Prelude.{
  ℕ, ◌-◌, ◌≤◌, ◌<◌, ◌≡◌, refl, ap, ◌∙◌, min, ◌++◌, length, get_or, drop, replicate, length-drop,
  length-append, length-replicate, drop-all, take-all, take-append_left, drop-append, get_or-drop,
  get_or-append_right, arith,
}
use secbuf.Error.{ok}
use secbuf.Vec
use secbuf.Vec.{Vec}
use secbuf.Vec.Laws.{IsVec, length-elements}
use secbuf.Zeroize.{Zeroize}
use secbuf.Buffer.{Buffer, burn, burn_free, drop_buffer, wipe_elements, resize, buf_max_size}
use secbuf.Buffer.Valid.{IsValid}

-- Every byte of the allocation is zero.
abbrev pub IsClean : Buffer → Type 0
IsClean b = b.vec.mem ≡ replicate (length b.vec.mem) 0

-- A shrinking `resize` moves the end of the vector and touches no byte.
pub resize_shrinks :
    (n : ℕ) (b : Buffer)
    → n < b.vec.len
    → n ≤ buf_max_size
    → resize n b
      ≡ (ok tt, record { vec = record (b.vec) { len = n }; pos = min b.pos n; len = min b.len n })
unfolding resize Vec.resize
resize_shrinks n b lt small = ground arith

module _ (z : Zeroize) where
  wiped_mem : (v : Vec) → IsVec v → (wipe_elements z v).mem ≡ replicate v.len 0 ++ drop v.len v.mem
  wiped_mem v h =
      ap (λ xs. xs ++ drop v.len v.mem)
        (z.slice-eq (Vec.elements v) ∙ ap (λ k. replicate k 0) (length-elements v h))

  length-wiped : (v : Vec) → IsVec v → length (wipe_elements z v).mem ≡ length v.mem
  length-wiped v h = omega (
    arith,
    ap length (wiped_mem v h),
    length-append (replicate v.len 0) (drop v.len v.mem),
    length-replicate {A = ℕ} v.len 0,
    length-drop v.len v.mem,
  )

  -- `burn` keeps the invariant: the buffer can be used again.
  pub burn-IsValid : {b : Buffer} → IsValid b → IsValid (burn z b)
  unfolding burn
  burn-IsValid {b} v = omega (arith, v.vec.within, v.vec.small, length-wiped b.vec v.vec)

  -- burn zeroes the bytes that the vector of a valid buffer holds, keeps those behind them and
  -- the vector's length, and sets cursor and length to 0.
  pub burn_lem :
      {b : Buffer}
      → IsValid b
      → (Vec.elements (burn z b).vec ≡ replicate b.vec.len 0)
        × (drop b.vec.len (burn z b).vec.mem ≡ drop b.vec.len b.vec.mem)
        × ((burn z b).vec.len ≡ b.vec.len)
        × ((burn z b).pos ≡ 0)
        × ((burn z b).len ≡ 0)
  unfolding burn
  burn_lem {b} v = (
    rw (wiped_mem b.vec v.vec) (
        take-append_left b.vec.len (replicate b.vec.len 0) (drop b.vec.len b.vec.mem)
          (omega (arith, count))
        ∙ take-all b.vec.len (replicate b.vec.len 0) (omega (arith, count))),
    rw (wiped_mem b.vec v.vec) (drop-append b.vec.len (replicate b.vec.len 0) _ count),
    refl,
    refl,
    refl,
  )
    where
      count : length (replicate {A = ℕ} b.vec.len 0) ≡ b.vec.len
      count = length-replicate {A = ℕ} b.vec.len 0

  -- If the vector fills its allocation, `burn` leaves no byte but zeros.
  pub burn-IsClean : {b : Buffer} → IsValid b → b.vec.len ≡ length b.vec.mem → IsClean (burn z b)
  unfolding burn
  burn-IsClean {b} v full =
      wiped_mem b.vec v.vec
      ∙ ap (λ xs. replicate b.vec.len 0 ++ xs) (drop-all b.vec.len b.vec.mem (omega arith))
      ∙ append-nil (replicate b.vec.len 0)
      ∙ ap (λ k. replicate k 0) (omega (arith, length-wiped b.vec v.vec))

  -- The memory that the destructor frees is zero throughout, the capacity behind the elements too.
  pub drop_buffer-zero : (b : Buffer) → drop_buffer z b ≡ replicate (length b.vec.mem) 0
  unfolding drop_buffer
  drop_buffer-zero b = z.vec-mem b.vec

  -- So is what `burn_free` frees.
  pub burn_free-zero : {b : Buffer} → IsValid b → burn_free z b ≡ replicate (length b.vec.mem) 0
  unfolding burn_free
  burn_free-zero {b} v = drop_buffer-zero _ ∙ ap (λ k. replicate k 0) (length-wiped b.vec v.vec)

  -- After a shrinking resize of a valid buffer within the size limit, burn leaves each byte
  -- between the new and the old end in the allocation.
  pub burn-resize_keeps :
      (n i : ℕ) {b : Buffer}
      → IsValid b
      → n ≤ i
      → i < b.vec.len
      → n ≤ buf_max_size
      → get_or (burn z (resize n b).1).vec.mem i 0 ≡ get_or b.vec.mem i 0
  unfolding burn
  burn-resize_keeps n i {b} v le lt small = rw (resize_shrinks n b (omega arith) small) (
      rw (wiped_mem cut (omega (arith, v.vec))) (
        get_or-append_right (replicate n 0) (drop n b.vec.mem) i 0 (omega (arith, count))
        ∙ get_or-drop n b.vec.mem (i - length (replicate n 0)) 0
        ∙ ap (λ k. get_or b.vec.mem k 0) (omega (arith, count))))
    where
      cut : Vec
      cut = record { mem = b.vec.mem; len = n }

      count : length (replicate {A = ℕ} n 0) ≡ n
      count = length-replicate {A = ℕ} n 0
