-- ===== src/Pool/Idle.antt =====
-- src/pool/standard.rs: what an idle buffer is, and how many a pool holds.
use secbuf.Prelude.{
  ◌++◌, ℕ, zero, suc, ◌+◌, ◌≤◌, ◌≡◌, refl, sym, ap, ◌∙◌, List, [], ◌∷◌, map, length, drop,
  replicate, length-replicate, take-all, arith,
}
use secbuf.Error.{ok}
use secbuf.Vec
use secbuf.Zeroize.{Zeroize}
use secbuf.Buffer
use secbuf.Buffer.{Buffer, buf_max_size}
use secbuf.Buffer.Valid.{IsValid}
use secbuf.Buffer.Wipe.{burn_lem, burn-IsValid}
use secbuf.Pool.{push_new}

-- Nothing is left of an earlier user: the elements are zero, and none counts as valid data.
pub record IsBlank (b : Buffer) : Type 0 where
  pub valid : IsValid b
  pub pos : b.pos ≡ 0
  pub len : b.len ≡ 0
  pub zeros : Vec.elements b.vec ≡ replicate b.vec.len 0

abbrev pub AllBlank : List Buffer → Type 0
AllBlank [] = Unit {0}
AllBlank (b ∷ bs) = IsBlank b × AllBlank bs

abbrev pub fresh : ℕ → Buffer
fresh size = record { vec = Vec.zeroed size; pos = 0; len = 0 }

pub new_lem : (size : ℕ) → size ≤ buf_max_size → Buffer.new size ≡ ok (fresh size)
unfolding Buffer.new
new_lem size le = ground arith

pub fresh-IsBlank : (size : ℕ) → size ≤ buf_max_size → IsBlank (fresh size)
fresh-IsBlank size le = record {
  valid = omega (arith, length-replicate {A = ℕ} size 0);
  pos = refl;
  len = refl;
  zeros = take-all size (replicate size 0) (omega (arith, length-replicate {A = ℕ} size 0));
}

pub burned-IsBlank : (z : Zeroize) (b : Buffer) → IsValid b → IsBlank (Buffer.burn z b)
burned-IsBlank z b v =
    let (zeros, _, len, pos, none_valid) = burn_lem z v in
    record {
      valid = burn-IsValid z v;
      pos = pos;
      len = none_valid;
      zeros = zeros ∙ ap (λ k. replicate k 0) (sym len);
    }

-- `push_new` adds `count` blank buffers.
pub push_new_lem :
    (count size : ℕ) (bs : List Buffer)
    → size ≤ buf_max_size
    → AllBlank bs
    → (cs : List Buffer) × (push_new count size bs ≡ ok cs)
      × AllBlank cs
      × (length cs ≡ count + length bs)
unfolding push_new
push_new_lem zero size bs le blank = (bs, refl, blank, omega arith)
push_new_lem (suc count) size bs le blank =
    let (cs, e, more, n) =
      push_new_lem count size (fresh size ∷ bs) le (fresh-IsBlank size le, blank) in
    (cs, rw (push_new, new_lem size le) e, more, omega (arith, n))

pub drop-AllBlank : (n : ℕ) (bs : List Buffer) → AllBlank bs → AllBlank (drop n bs)
drop-AllBlank zero bs blank = blank
drop-AllBlank (suc n) [] blank = tt
drop-AllBlank (suc n) (b ∷ bs) blank = drop-AllBlank n bs blank.1

-- Freed memory of which no byte is left.
abbrev pub AllZero : List (List ℕ) → Type 0
AllZero [] = Unit {0}
AllZero (xs ∷ xss) = (xs ≡ replicate (length xs) 0) × AllZero xss

pub freed-zero :
    (z : Zeroize) (b : Buffer)
    → Buffer.drop_buffer z b ≡ replicate (length (Buffer.drop_buffer z b)) 0
unfolding Buffer.drop_buffer
freed-zero z b =
    z.vec-mem b.vec
    ∙ ap (λ k. replicate k 0)
        (sym (ap length (z.vec-mem b.vec) ∙ length-replicate {A = ℕ} (length b.vec.mem) 0))

pub freed-AllZero : (z : Zeroize) (bs : List Buffer) → AllZero (map (Buffer.drop_buffer z) bs)
freed-AllZero z [] = tt
freed-AllZero z (b ∷ bs) = (freed-zero z b, freed-AllZero z bs)

pub AllZero-append : (xs ys : List (List ℕ)) → AllZero xs → AllZero ys → AllZero (xs ++ ys)
AllZero-append [] ys h k = k
AllZero-append (x ∷ xs) ys h k = (h.0, AllZero-append xs ys h.1 k)
