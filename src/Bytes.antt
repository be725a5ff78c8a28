-- ===== src/Bytes.antt =====
-- `u32` and `u64` as bytes on a little-endian target: what `to_be` and `from_be` make of a value,
-- and what an unaligned store and load put into memory and take out of it.
pub mod Order
use mathlib.Core.List.{reverse}
use secbuf.Prelude.{ℕ, zero, suc, ◌+◌, ◌*◌, ◌/◌, ◌%◌, List, [], ◌∷◌}

-- The bytes that `write_unaligned` stores for a value of `n` bytes: the low byte first.
unfoldable pub store : ℕ → ℕ → List ℕ
store zero v = []
store (suc n) v = v % 256 ∷ store n (v / 256)

-- The value that `read_unaligned` loads.
unfoldable pub load : List ℕ → ℕ
load [] = 0
load (b ∷ bs) = b + 256 * load bs

-- `to_be` and `from_be` swap the bytes of a value of `n` bytes.
unfoldable pub swap_bytes : ℕ → ℕ → ℕ
unfolding store load
swap_bytes n v = load (reverse (store n v))
