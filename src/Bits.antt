-- ===== src/Bits.antt =====
-- `usize` bit operations of the standard library that src/circular/buffer.rs uses.
pub mod Mask
use secbuf.Prelude.{ℕ, zero, suc, ◌+◌, ◌/◌, ◌%◌, Bool, ◌==◌}

-- the number of ones among the low `bits` bits
unfoldable pub count_ones : ℕ → ℕ → ℕ
count_ones zero n = 0
count_ones (suc bits) n = n % 2 + count_ones bits (n / 2)

unfoldable pub is_power_of_two : ℕ → Bool
is_power_of_two n = count_ones 64 n == 1
