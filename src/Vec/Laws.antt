-- ===== src/Vec/Laws.antt =====
-- What the methods of a vector promise: lengths, capacity and the bytes that they keep.
use mathlib.Core.List.{append-nil}
use secbuf.Prelude.{
  ℕ, ◌+◌, ◌-◌, ◌*◌, ◌≤◌, ◌<◌, ◌≡◌, refl, sym, ap, ◌∙◌, max, List, ◌++◌, length, take, replicate,
  splice, arith, length-take, length-append, length-replicate, length-splice, take-take, take-all,
  drop-all, take-splice, take-append_left, ltb, Bool-cases, inl, inr, ltb→lt, ltb→le, lt→ltb,
  le→ltb,
}
use secbuf.Machine.{isize_max}
use secbuf.Error.{ok}
use secbuf.Vec.{Vec, elements, reserve, resize, truncate}

-- The standard library's own invariant.
pub record IsVec (v : Vec) : Type 0 where
  pub within : v.len ≤ length v.mem
  pub small : length v.mem ≤ isize_max

pub length-elements : (v : Vec) → IsVec v → length (elements v) ≡ v.len
length-elements v h = omega (arith, length-take v.len v.mem)

-- What `reserve` makes of `v`: the elements stay, and there is room for `k` more.
pub record Reserved (k : ℕ) (v w : Vec) : Type 0 where
  pub vec : IsVec w
  pub kept_len : w.len ≡ v.len
  pub room : v.len + k ≤ length w.mem
  pub grown : length v.mem ≤ length w.mem
  pub kept : elements w ≡ elements v

pub reserve_lem :
    (k : ℕ) (v : Vec)
    → IsVec v
    → (v.len + k) * 2 ≤ isize_max
    → (w : Vec) × (reserve k v ≡ ok w) × Reserved k v w
unfolding reserve
reserve_lem k v h small = elim (Bool-cases (ltb (length v.mem) (v.len + k))) [
  | inr fits ↦ (
    v,
    rw fits,
    record { vec = h; kept_len = refl; room = ltb→le _ _ fits; grown = omega arith; kept = refl },
  )
  | inl more ↦ (
    record { mem = take v.len v.mem ++ replicate (wanted - v.len) 0; len = v.len },
    rw more (rw (le→ltb isize_max wanted (omega (arith, ltb→lt _ _ more))) refl),
    record {
      vec = omega (arith, len, ltb→lt _ _ more);
      kept_len = refl;
      room = omega (arith, len, ltb→lt _ _ more);
      grown = omega (arith, len, ltb→lt _ _ more);
      kept =
          take-append_left v.len (take v.len v.mem) _ (omega (arith, length-take v.len v.mem))
          ∙ take-take v.len v.len v.mem (omega arith);
    },
  )
]
  where
    wanted : ℕ
    wanted = max (max (length v.mem * 2) (v.len + k)) 8

    len : length (take v.len v.mem ++ replicate (wanted - v.len) 0) ≡ v.len + (wanted - v.len)
    len = omega (
      arith,
      length-append (take v.len v.mem) (replicate (wanted - v.len) 0),
      length-take v.len v.mem,
      length-replicate {A = ℕ} (wanted - v.len) 0,
    )

-- What `resize` makes of `v`: `n` elements, the old ones first and zeros behind them.
pub record Resized (n : ℕ) (v w : Vec) : Type 0 where
  pub vec : IsVec w
  pub new_len : w.len ≡ n
  pub grown : length v.mem ≤ length w.mem
  pub kept : elements w ≡ take n (elements v) ++ replicate (n - v.len) 0

truncate-elements :
    (n : ℕ) (v : Vec)
    → IsVec v
    → n ≤ v.len
    → take n v.mem ≡ take n (elements v) ++ replicate (n - v.len) 0
truncate-elements n v h le =
    let none_new : n - v.len ≡ 0 = omega arith in
    rw (none_new, append-nil) (sym (take-take n v.len v.mem le))

resize_shorter : (n : ℕ) (v : Vec) → IsVec v → n ≤ v.len → Resized n v (truncate n v)
resize_shorter n v h le = elim (Bool-cases (ltb n v.len)) [
  | inl lt ↦ rw lt (record {
    vec = omega arith;
    new_len = refl;
    grown = omega arith;
    kept = truncate-elements n v h le;
  })
  | inr ge ↦ rw ge (record {
    vec = h;
    new_len = omega (arith, ltb→le _ _ ge);
    grown = omega arith;
    kept =
        let e : v.len ≡ n = omega (arith, ltb→le _ _ ge) in
        ap (λ k. take k v.mem) e ∙ truncate-elements n v h le;
  })
]

zero_fill : ℕ → Vec → Vec → Vec
zero_fill n v w = record { mem = splice w.mem v.len (replicate (n - v.len) 0); len = n }

zero_fill-Resized :
    (n : ℕ) (v w : Vec)
    → IsVec v
    → v.len < n
    → Reserved (n - v.len) v w
    → Resized n v (zero_fill n v w)
unfolding zero_fill
zero_fill-Resized n v w h lt r = record {
  vec = omega (arith, len, r.vec.small, r.room);
  new_len = refl;
  grown = omega (arith, len, r.grown);
  kept =
      ap (λ k. take k (splice w.mem v.len zeros)) end
      ∙ take-splice w.mem v.len v.len zeros (omega arith) (omega (arith, r.room))
          (omega (arith, count, r.room))
      ∙ rw (
        old,
        take-all v.len (elements v) (omega (arith, length-elements v h)),
        take-all n (elements v) (omega (arith, length-elements v h)),
        drop-all (v.len + length zeros) (elements v) (omega (arith, length-elements v h)),
        append-nil,
      );
}
  where
    old : take v.len w.mem ≡ elements v
    old = ap (λ k. take k w.mem) (sym r.kept_len) ∙ r.kept

    zeros : List ℕ
    zeros = replicate (n - v.len) 0

    count : length zeros ≡ n - v.len
    count = length-replicate {A = ℕ} (n - v.len) 0

    end : n ≡ max v.len (v.len + length zeros)
    end = omega (arith, count)

    len : length (splice w.mem v.len (replicate (n - v.len) 0)) ≡ length w.mem
    len = length-splice w.mem v.len (replicate (n - v.len) 0)

resize_longer :
    (n : ℕ) (v : Vec)
    → IsVec v
    → n * 2 ≤ isize_max
    → v.len < n
    → (w : Vec) × (resize n v ≡ ok w) × Resized n v w
unfolding resize zero_fill
resize_longer n v h small lt =
    let (w, e, r) = reserve_lem (n - v.len) v h (omega arith) in
    (zero_fill n v w, rw (lt→ltb _ _ lt, e, resize), zero_fill-Resized n v w h lt r)

pub resize_lem :
    (n : ℕ) (v : Vec)
    → IsVec v
    → n * 2 ≤ isize_max
    → (w : Vec) × (resize n v ≡ ok w) × Resized n v w
unfolding resize
resize_lem n v h small = elim (Bool-cases (ltb v.len n)) [
  | inl more ↦ resize_longer n v h small (ltb→lt _ _ more)
  | inr less ↦ (truncate n v, rw (less, resize) refl, resize_shorter n v h (ltb→le _ _ less))
]
