-- ===== src/Circular/Valid.antt =====
-- The representation invariant of a ring, and what its wrapping arithmetic computes under it.
use Prim.Native.Nat.{bit_and}
use native.Mathlib.Nat.{mod-eq_of_lt, mod-eq-sub-mod}
use secbuf.Prelude.{
  ℕ, ◌+◌, ◌-◌, ◌*◌, ◌%◌, ◌^◌, ◌≤◌, ◌<◌, ◌≡◌, refl, sym, ap, subst, ◌∙◌, inl, inr, Bool, true, false,
  Option, none, some, List, length, ltb, leb, leb→le, Bool-cases, ltb→lt, ltb→le, if◌then◌else◌,
  arith,
}
use secbuf.Machine.{add_size, sub_size}
use secbuf.Bits.{is_power_of_two}
use secbuf.Bits.Mask.{bit_and-mask, is_power_of_two_sound}
use secbuf.Error.{ok}
use secbuf.Circular.{CircularBuffer, max_cbuf_size, empty_ring, wrap, new}

-- a position past the end of the ring, brought back round
abbrev pub turn : ℕ → ℕ → ℕ
turn size p = if ltb p size then p else p - size

-- Without storage there is no data; storage has the ring's size.
abbrev pub IsStored : Option (List ℕ) → ℕ → ℕ → Type 0
IsStored none size used = used ≡ 0
IsStored (some mem) size used = length mem ≡ size

-- The flag is set for powers of two only.
abbrev pub IsPow2 : ℕ → Type 0
IsPow2 size = (k : ℕ) × (size ≡ 2 ^ k)

pub record IsValid (c : CircularBuffer) : Type 0 where
  pub sized : 0 < c.size
  pub small : c.size ≤ max_cbuf_size
  pub fits : c.used ≤ c.size
  pub reads_in : c.read_pos < c.size
  pub writes_at : c.write_pos ≡ turn c.size (c.read_pos + c.used)
  pub stored : IsStored c.store c.size c.used
  pub pow2 : c.is_pow2 ≡ true → IsPow2 c.size

turn_mod : (size p : ℕ) → 0 < size → p < size * 2 → p % size ≡ turn size p
turn_mod size p pos h = elim (Bool-cases (ltb p size)) [
  | inl below ↦ rw below (mod-eq_of_lt (ltb→lt p size below))
  | inr above ↦
      rw above
        (mod-eq-sub-mod (ltb→le p size above) ∙ mod-eq_of_lt (omega (arith, ltb→le p size above)))
]

mask_mod :
    (size x : ℕ)
    → 0 < size
    → size ≤ max_cbuf_size
    → IsPow2 size
    → bit_and x (sub_size size 1) ≡ x % size
mask_mod size x pos small (k, e) = ap (bit_and x) mask ∙ bit_and-mask k x ∙ ap (λ m. x % m) (sym e)
  where
    mask : sub_size size 1 ≡ 2 ^ k - 1
    mask = omega (arith, e)

-- On its masked and on its plain path wrap brings a position back into the ring, for a size
-- within the limit that is a power of two where the mask is used.
pub wrap_lem :
    (p d size : ℕ) (is_pow2 : Bool)
    → p < size
    → d ≤ size
    → size ≤ max_cbuf_size
    → (is_pow2 ≡ true → IsPow2 size)
    → wrap p d size is_pow2 ≡ ok (turn size (p + d))
unfolding wrap
wrap_lem p d size true hp hd small pow2 = ap ok (
    mask_mod size (add_size p d) (omega arith) small (pow2 refl)
    ∙ ap (λ k. k % size) (let e : add_size p d ≡ p + d = omega arith in e)
    ∙ turn_mod size (p + d) (omega arith) (omega arith))
wrap_lem p d size false hp hd small pow2 =
    ground (arith, turn_mod size (p + d) (omega arith) (omega arith), sum)
  where
    sum : add_size p d ≡ p + d
    sum = omega arith

pub empty_ring-IsValid :
    (size : ℕ) (is_pow2 : Bool)
    → 0 < size
    → size ≤ max_cbuf_size
    → (is_pow2 ≡ true → IsPow2 size)
    → IsValid (empty_ring size is_pow2)
empty_ring-IsValid size is_pow2 pos small pow2 = record {
  sized = pos;
  small = small;
  fits = omega arith;
  reads_in = pos;
  writes_at = ground arith;
  stored = refl;
  pow2 = pow2;
}

-- What `new` accepts is valid, if it has room for a byte.
pub new-IsValid : (size : ℕ) {c : CircularBuffer} → 0 < size → new size ≡ ok c → IsValid c
unfolding new
new-IsValid size {c} pos e = elim (Bool-cases (leb size max_cbuf_size)) [
  | inr big ↦ cc (rw big at e)
  | inl small ↦ subst IsValid (ground arith) (
      empty_ring-IsValid size (is_power_of_two size) pos (leb→le _ _ small)
        (is_power_of_two_sound size (omega (arith, leb→le _ _ small))))
]
