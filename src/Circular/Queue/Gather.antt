-- ===== src/Circular/Queue/Gather.antt =====
-- src/circular/buffer.rs: what the one or two copies of `read` and `peek` take from the storage.
use secbuf.Prelude.{
  ℕ, ◌+◌, ◌-◌, ◌≤◌, ◌<◌, ◌≡◌, inl, inr, List, ◌++◌, length, get_or, take, drop, slice, leb,
  Bool-cases, leb→le, length-take, length-drop, length-append, length-slice, get_or-slice,
  get_or-take, get_or-drop, get_or-append_left, get_or-append_right, get_or_ext, arith,
}
use secbuf.Machine.{sub_size}
use secbuf.Error.{ok}
use secbuf.Circular.{max_cbuf_size}
use secbuf.Circular.Ops.{gather}
use secbuf.Circular.Valid.{turn}
use secbuf.Circular.Queue.{tabulate, length-tabulate, get_or-tabulate, round_trip}

module _ (mem : List ℕ) (rp n : ℕ) (small : length mem ≤ max_cbuf_size) (start : rp < length mem)
    (fits : n ≤ length mem) where
  pub one_part : n ≤ length mem - rp → slice mem rp n ≡ round_trip mem (length mem) rp n
  one_part h =
      get_or_ext 0 _ _ (omega (arith, len, length-tabulate n f))
        λ i p. ground (arith, len, get_or-slice mem rp n i, get_or-tabulate n f i)
    where
      f : ℕ → ℕ
      f i = get_or mem (turn (length mem) (rp + i)) 0

      len : length (slice mem rp n) ≡ n
      len = length-slice mem rp n (omega arith)

  pub two_parts :
      length mem - rp < n
      → slice mem rp (length mem - rp) ++ slice mem 0 (n - (length mem - rp))
        ≡ round_trip mem (length mem) rp n
  two_parts h = get_or_ext 0 _ _ (omega (arith, len, len', whole, length-tabulate n f)) λ i p.
      ground (
        arith,
        len,
        len',
        whole,
        get_or-append_left (slice mem rp s) (slice mem 0 (n - s)) i 0,
        get_or-append_right (slice mem rp s) (slice mem 0 (n - s)) i 0,
        get_or-slice mem rp s i,
        get_or-slice mem 0 (n - s) (i - s),
        get_or-tabulate n f i,
      )
    where
      s : ℕ
      s = length mem - rp

      f : ℕ → ℕ
      f i = get_or mem (turn (length mem) (rp + i)) 0

      len : length (slice mem rp s) ≡ s
      len = length-slice mem rp s (omega arith)

      len' : length (slice mem 0 (n - s)) ≡ n - s
      len' = length-slice mem 0 (n - s) (omega arith)

      whole :
          length (slice mem rp s ++ slice mem 0 (n - s))
          ≡ length (slice mem rp s) + length (slice mem 0 (n - s))
      whole = length-append (slice mem rp s) (slice mem 0 (n - s))

  pub gather_lem :
      gather mem rp (sub_size (length mem) rp) n ≡ ok (round_trip mem (length mem) rp n)
  unfolding gather
  gather_lem = elim (Bool-cases (leb n (length mem - rp))) [
    | inl one ↦ ground (arith, one, one_part (leb→le _ _ one))
    | inr two ↦ ground (arith, two, two_parts)
  ]

-- The first bytes of the data, and those behind them.
pub take-round_trip :
    (mem : List ℕ) (size rp used n : ℕ)
    → n ≤ used
    → take n (round_trip mem size rp used) ≡ round_trip mem size rp n
take-round_trip mem size rp used n h = get_or_ext 0 _ _ len λ i p. ground (
  arith,
  length-tabulate n f,
  len,
  get_or-take n (tabulate used f) i 0,
  get_or-tabulate used f i,
  get_or-tabulate n f i,
)
  where
    f : ℕ → ℕ
    f i = get_or mem (turn size (rp + i)) 0

    len : length (take n (tabulate used f)) ≡ length (tabulate n f)
    len =
        omega (arith, length-take n (tabulate used f), length-tabulate used f, length-tabulate n f)

pub drop-round_trip :
    (mem : List ℕ) (size rp used n : ℕ)
    → rp < size
    → used ≤ size
    → n ≤ used
    → drop n (round_trip mem size rp used) ≡ round_trip mem size (turn size (rp + n)) (used - n)
drop-round_trip mem size rp used n start fits h = get_or_ext 0 _ _ len λ i p. ground (
  arith,
  length-tabulate (used - n) g,
  len,
  get_or-drop n (tabulate used f) i 0,
  get_or-tabulate used f (n + i),
  get_or-tabulate (used - n) g i,
)
  where
    f : ℕ → ℕ
    f i = get_or mem (turn size (rp + i)) 0

    g : ℕ → ℕ
    g i = get_or mem (turn size (turn size (rp + n) + i)) 0

    len : length (drop n (tabulate used f)) ≡ length (tabulate (used - n) g)
    len = omega (
      arith,
      length-drop n (tabulate used f),
      length-tabulate used f,
      length-tabulate (used - n) g,
    )
