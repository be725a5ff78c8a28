-- ===== src/Machine.antt =====
-- `usize` of a 64-bit target, in the release profile: an addition that overflows wraps.
use secbuf.Prelude.{ℕ, ◌+◌, ◌-◌, ◌*◌, ◌%◌, ◌^◌}

abbrev pub usize_mod : ℕ
usize_mod = 2 ^ 64

-- `isize::MAX`, which no allocation exceeds
abbrev pub isize_max : ℕ
isize_max = 2 ^ 63 - 1

abbrev pub add_size : ℕ → ℕ → ℕ
add_size a b = (a + b) % usize_mod

-- `a - b`, which wraps below 0
abbrev pub sub_size : ℕ → ℕ → ℕ
sub_size a b = (a + usize_mod - b) % usize_mod

abbrev pub mul_size : ℕ → ℕ → ℕ
mul_size a b = a * b % usize_mod
