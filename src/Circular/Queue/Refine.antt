-- ===== src/Circular/Queue/Refine.antt =====
-- `write` appends to the queue of the ring's bytes: where its one or two copies put them.
use secbuf.Prelude.{
  ℕ, ◌+◌, ◌-◌, ◌≤◌, ◌<◌, ◌≡◌, subst, inl, inr, ◌&&◌, List, ◌++◌, length, get_or, take, drop, splice,
  ltb, leb, Bool-cases, if◌then◌else◌, length-take, length-drop, length-append, length-splice,
  get_or-splice, get_or-take, get_or-drop, get_or-append_left, get_or-append_right, get_or_ext,
  arith,
}
use secbuf.Machine.{sub_size}
use secbuf.Error.{ok}
use secbuf.Circular.{max_cbuf_size}
use secbuf.Circular.Ops.{spread}
use secbuf.Circular.Valid.{turn}
use secbuf.Circular.Queue.{tabulate, length-tabulate, get_or-tabulate, round_trip}

-- what the copies of `write` make of the storage
unfoldable pub laid : List ℕ → ℕ → List ℕ → List ℕ
laid mem wp bytes =
    let space = length mem - wp in
    if leb (length bytes) space
    then splice mem wp bytes
    else splice (splice mem wp (take space bytes)) 0 (drop space bytes)

module _ (mem : List ℕ) (wp : ℕ) (bytes : List ℕ) (small : length mem ≤ max_cbuf_size)
    (start : wp < length mem) (fits : length bytes ≤ length mem) where
  pub spread_lem : spread mem wp (sub_size (length mem) wp) bytes ≡ ok (laid mem wp bytes)
  unfolding spread laid
  spread_lem = ground (
    arith,
    length-take (length mem - wp) bytes,
    length-drop (length mem - wp) bytes,
    length-splice mem wp (take (length mem - wp) bytes),
  )

  pub length-laid : length (laid mem wp bytes) ≡ length mem
  unfolding laid
  length-laid = ground (
    arith,
    length-splice mem wp bytes,
    length-splice mem wp (take (length mem - wp) bytes),
    length-splice (splice mem wp (take (length mem - wp) bytes)) 0 (drop (length mem - wp) bytes),
  )

  -- A byte of the storage after the copies.
  pub get_or-laid :
      (j : ℕ)
      → j < length mem
      → get_or (laid mem wp bytes) j 0 ≡ (
          if leb wp j && ltb j (wp + length bytes)
          then get_or bytes (j - wp) 0
          else if ltb (j + length mem) (wp + length bytes)
          then get_or bytes (j + length mem - wp) 0
          else get_or mem j 0)
  unfolding laid
  get_or-laid j h = elim (Bool-cases (leb (length bytes) (length mem - wp))) [
    | inl one ↦ ground (arith, one, get_or-splice mem wp bytes j)
    | inr two ↦ ground (
      arith,
      two,
      length-take (length mem - wp) bytes,
      length-drop (length mem - wp) bytes,
      length-splice mem wp (take (length mem - wp) bytes),
      get_or-splice (splice mem wp (take (length mem - wp) bytes)) 0 (drop (length mem - wp) bytes)
          j,
      get_or-splice mem wp (take (length mem - wp) bytes) j,
      get_or-take (length mem - wp) bytes (j - wp) 0,
      get_or-drop (length mem - wp) bytes j 0,
    )
  ]

-- Bytes laid behind the data make the data longer by those bytes.
pub round_trip-laid :
    (mem : List ℕ) (rp used : ℕ) (bytes : List ℕ)
    → length mem ≤ max_cbuf_size
    → rp < length mem
    → used + length bytes ≤ length mem
    → round_trip
        (laid mem (turn (length mem) (rp + used)) bytes)
        (length mem)
        rp
        (used + length bytes)
      ≡ round_trip mem (length mem) rp used ++ bytes
round_trip-laid mem rp used bytes small start fits = get_or_ext 0 _ _ lens λ i h. ground (
  arith,
  length-tabulate used old,
  length-tabulate (used + length bytes) now,
  get_or-tabulate (used + length bytes) now i,
  get_or-tabulate used old i,
  get_or-append_left (tabulate used old) bytes i 0,
  get_or-append_right (tabulate used old) bytes i 0,
  get_or-laid mem wp bytes small in_ring (omega arith) (turn (length mem) (rp + i)),
)
  where
    wp : ℕ
    wp = turn (length mem) (rp + used)

    in_ring : wp < length mem
    in_ring = ground arith

    old : ℕ → ℕ
    old i = get_or mem (turn (length mem) (rp + i)) 0

    now : ℕ → ℕ
    now i = get_or (laid mem wp bytes) (turn (length mem) (rp + i)) 0

    lens : length (tabulate (used + length bytes) now) ≡ length (tabulate used old ++ bytes)
    lens = omega (
      arith,
      length-tabulate (used + length bytes) now,
      length-tabulate used old,
      length-append (tabulate used old) bytes,
    )

-- The same for a ring whose size is named apart from its storage.
pub round_trip-laid_at :
    (mem : List ℕ) (size rp used : ℕ) (bytes : List ℕ)
    → length mem ≡ size
    → size ≤ max_cbuf_size
    → rp < size
    → used + length bytes ≤ size
    → round_trip (laid mem (turn size (rp + used)) bytes) size rp (used + length bytes)
      ≡ round_trip mem size rp used ++ bytes
round_trip-laid_at mem size rp used bytes e small start fits =
    subst
      (λ n.
        round_trip (laid mem (turn n (rp + used)) bytes) n rp (used + length bytes)
        ≡ round_trip mem n rp used ++ bytes)
      e (round_trip-laid mem rp used bytes (omega arith) (omega arith) (omega arith))
