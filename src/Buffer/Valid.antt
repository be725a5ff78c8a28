-- ===== src/Buffer/Valid.antt =====
-- The representation invariant of a `Buffer`, and that the methods of core.rs keep it.
use secbuf.Prelude.{
  ℕ, ◌+◌, ◌*◌, ◌≤◌, ◌≡◌, refl, inl, inr, length, ltb, Bool-cases, ltb→lt, ltb→le, length-replicate,
  length-take, arith,
}
use secbuf.Machine.{add_size, isize_max}
use secbuf.Error.{Outcome, ok, err, panic, undefined}
use secbuf.Vec.Laws.{IsVec, resize_lem, reserve_lem}
use secbuf.Buffer.{
  Buffer, buf_max_size, buf_max_incr, new, with_capacity, set_pos, grow_to, set_len, incr_pos,
  decr_pos, incr_len, incr_write_pos, reset, resize, reserve, shrink_to_fit,
}

-- The cursor stands within the valid bytes, and those within the vector.
pub record IsValid (b : Buffer) : Type 0 where
  pub vec : IsVec b.vec
  pub cursor : b.pos ≤ b.len
  pub filled : b.len ≤ b.vec.len

-- A call came back, with `Ok` or `Err`: it neither panicked nor touched memory outside its own.
abbrev pub Returns : {A : Type 0} → Outcome A → Type 0
Returns (ok a) = Unit {0}
Returns (err e) = Unit {0}
Returns panic = ⊥
Returns undefined = ⊥

-- The call came back and left a valid buffer.
abbrev pub Keeps : {A : Type 0} → Outcome A × Buffer → Type 0
Keeps (r, b) = Returns r × IsValid b

pub new-IsValid : (size : ℕ) {b : Buffer} → new size ≡ ok b → IsValid b
unfolding new
new-IsValid size h = ground (arith, length-replicate {A = ℕ} size 0)

-- What `grow_to` leaves of `b`.
pub record Grown (n : ℕ) (b c : Buffer) : Type 0 where
  pub vec : IsVec c.vec
  pub same_pos : c.pos ≡ b.pos
  pub same_len : c.len ≡ b.len
  pub room : n ≤ c.vec.len
  pub larger : b.vec.len ≤ c.vec.len

pub grow_to_lem :
    (n : ℕ) (b : Buffer)
    → IsVec b.vec
    → n ≤ buf_max_size
    → (c : Buffer) × (grow_to n b ≡ (ok tt, c)) × Grown n b c
unfolding grow_to
grow_to_lem n b h small = elim (Bool-cases (ltb b.vec.len n)) [
  | inr enough ↦ (b, rw enough refl, omega (arith, ltb→le _ _ enough))
  | inl more ↦
      let (w, e, r) = resize_lem n b.vec h (omega arith) in
      (
        record b { vec = w },
        rw (more, e, grow_to) refl,
        omega (arith, r.vec.within, r.vec.small, r.new_len, ltb→lt _ _ more),
      )
]

facts :
    {n : ℕ} {b c : Buffer}
    → Grown n b c
    → (c.vec.len ≤ length c.vec.mem)
      × (length c.vec.mem ≤ isize_max)
      × (c.pos ≡ b.pos)
      × (c.len ≡ b.len)
      × (n ≤ c.vec.len)
      × (b.vec.len ≤ c.vec.len)
facts g = (g.vec.within, g.vec.small, g.same_pos, g.same_len, g.room, g.larger)

pub with_capacity-IsValid : (size : ℕ) {b : Buffer} → with_capacity size ≡ ok b → IsValid b
unfolding with_capacity
with_capacity-IsValid size h = ground (arith, length-replicate {A = ℕ} size 0)

pub set_pos-Keeps : (n : ℕ) (b : Buffer) → IsValid b → Keeps (set_pos n b)
unfolding set_pos
set_pos-Keeps n b v = ground arith

pub incr_pos-Keeps : (n : ℕ) (b : Buffer) → IsValid b → Keeps (incr_pos n b)
unfolding incr_pos
incr_pos-Keeps n b v = ground arith

pub decr_pos-Keeps : (n : ℕ) (b : Buffer) → IsValid b → Keeps (decr_pos n b)
unfolding decr_pos
decr_pos-Keeps n b v = ground arith

pub set_len-Keeps : (n : ℕ) (b : Buffer) → IsValid b → Keeps (set_len n b)
unfolding set_len
set_len-Keeps n b v = elim (Bool-cases (ltb buf_max_size n)) [
  | inl big ↦ rw big (tt, v)
  | inr small ↦
      let (c, e, g) = grow_to_lem n b v.vec (ltb→le _ _ small) in ground (arith, small, e, facts g)
]

pub incr_len-Keeps : (n : ℕ) (b : Buffer) → IsValid b → Keeps (incr_len n b)
unfolding incr_len
incr_len-Keeps n b v = elim (Bool-cases (ltb buf_max_incr n)) [
  | inl big ↦ rw big (tt, v)
  | inr fits ↦ elim (Bool-cases (ltb buf_max_size (add_size b.len n))) [
    | inl big ↦ rw (fits, big) (tt, v)
    | inr small ↦
        let (c, e, g) = grow_to_lem (add_size b.len n) b v.vec (ltb→le _ _ small) in
        ground (arith, fits, small, e, facts g)
  ]
]

pub incr_write_pos-Keeps : (n : ℕ) (b : Buffer) → IsValid b → Keeps (incr_write_pos n b)
unfolding incr_write_pos
incr_write_pos-Keeps n b v = elim (Bool-cases (ltb buf_max_incr n)) [
  | inl big ↦ rw big (tt, v)
  | inr fits ↦ elim (Bool-cases (ltb buf_max_size (add_size b.pos n))) [
    | inl big ↦ rw (fits, big) (tt, v)
    | inr small ↦
        let (c, e, g) = grow_to_lem (add_size b.pos n) b v.vec (ltb→le _ _ small) in
        ground (arith, fits, small, e, facts g)
  ]
]

pub reset-IsValid : (b : Buffer) → IsValid b → IsValid (reset b)
unfolding reset
reset-IsValid b v = ground arith

pub resize-Keeps : (n : ℕ) (b : Buffer) → IsValid b → Keeps (resize n b)
unfolding resize
resize-Keeps n b v = elim (Bool-cases (ltb buf_max_size n)) [
  | inl big ↦ rw big (tt, v)
  | inr small ↦
      let (w, e, r) = resize_lem n b.vec v.vec (omega (arith, ltb→le _ _ small)) in
      rw (small, e) (tt, omega (arith, r.vec.within, r.vec.small, r.new_len))
]

pub shrink_to_fit-IsValid : (b : Buffer) → IsValid b → IsValid (shrink_to_fit b)
unfolding shrink_to_fit
shrink_to_fit-IsValid b v =
    ground (arith, length-take b.len b.vec.mem, length-take b.vec.len b.vec.mem)

-- `reserve` is the one method of core.rs that can panic: when the allocation would pass `isize::MAX`.
pub reserve-Keeps :
    (n : ℕ) (b : Buffer) → IsValid b → (b.vec.len + n) * 2 ≤ isize_max → Keeps (reserve n b)
unfolding reserve
reserve-Keeps n b v h =
    let (w, e, r) = reserve_lem n b.vec v.vec h in
    rw (e, reserve) (tt, omega (arith, r.vec.within, r.vec.small, r.kept_len))
