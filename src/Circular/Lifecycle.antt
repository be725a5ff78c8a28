-- ===== src/Circular/Lifecycle.antt =====
-- src/circular/buffer.rs: what `clear`, `free` and the destructor leave, and rings of odd sizes.
use secbuf.Prelude.{
  ℕ, ◌+◌, ◌%◌, ◌≡◌, refl, false, Option, none, some, List, [], length, replicate, arith,
}
use secbuf.Error.{panic}
use secbuf.Vec
use secbuf.Zeroize.{Zeroize}
use secbuf.Circular.{CircularBuffer, wrap, new_pow2, available}
use secbuf.Circular.Ops.{incr_write, incr_read, clear, release, free, drop_ring, burn_free}
use secbuf.Circular.Valid.{IsValid, IsStored}
use secbuf.Circular.Queue.{contents}

still-IsStored : (s : Option (List ℕ)) (size used : ℕ) → IsStored s size used → IsStored s size 0
still-IsStored none size used h = refl
still-IsStored (some mem) size used h = h

-- `clear` empties the ring and keeps it valid.
pub clear_lem : {c : CircularBuffer} → IsValid c → IsValid (clear c) × (contents (clear c) ≡ [])
unfolding clear
clear_lem {c} v = (
  record {
    sized = v.sized;
    small = v.small;
    fits = omega arith;
    reads_in = v.sized;
    writes_at = ground (arith, v.sized);
    stored = still-IsStored c.store c.size c.used v.stored;
    pow2 = v.pow2;
  },
  refl,
)

module _ (z : Zeroize) where
  -- free of a valid ring with storage leaves a valid, empty ring without, and what it and
  -- burn_free give back is zero throughout, once.
  pub free_lem :
      {c : CircularBuffer} (mem : List ℕ)
      → IsValid c
      → c.store ≡ some mem
      → IsValid (free z c).0
        × ((free z c).0.store ≡ none)
        × (contents (free z c).0 ≡ [])
        × ((free z c).1 ≡ some (replicate (length mem) 0))
        × (burn_free z c ≡ (some (replicate (length mem) 0), none))
  unfolding free release drop_ring burn_free clear
  free_lem {c} mem v has = (
    record {
      sized = v.sized;
      small = v.small;
      fits = omega arith;
      reads_in = v.sized;
      writes_at = ground (arith, v.sized);
      stored = refl;
      pow2 = v.pow2;
    },
    refl,
    refl,
    ground (arith, has, z.vec-mem (Vec.of_list mem)),
    ground (arith, has, z.vec-mem (Vec.of_list mem)),
  )

-- An empty ring of size 0, not flagged as a power of two, panics when a cursor is moved by
-- nothing.
pub zero_ring_panics :
    (c : CircularBuffer)
    → c.size ≡ 0
    → c.is_pow2 ≡ false
    → c.used ≡ 0
    → ((incr_write 0 c).0 ≡ panic) × ((incr_read 0 c).0 ≡ panic)
unfolding incr_write incr_read available wrap
zero_ring_panics c e f g = ground (arith, e, f, g)

-- new_pow2 takes an exponent of 64 or more modulo 64.
pub new_pow2_wraps : (k : ℕ) → new_pow2 (64 + k) ≡ new_pow2 k
unfolding new_pow2
new_pow2_wraps k = let e : (64 + k) % 64 ≡ k % 64 = omega arith in rw e refl
