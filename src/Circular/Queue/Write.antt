-- ===== src/Circular/Queue/Write.antt =====
-- `write` against the bounded queue, on every branch.
use secbuf.Prelude.{
  ℕ, zero, suc, ==_iff, ◌+◌, ◌-◌, ◌≤◌, ◌<◌, ◌≡◌, refl, sym, ap, ◌∙◌, inl, inr, none, some,
  Option-cases, List, [], ◌++◌, length, replicate, ltb, ◌==◌, Bool-cases, ltb→lt, ltb→le,
  length-replicate, if◌then◌else◌, arith,
}
use secbuf.Error.{Outcome, ok, err, insufficient_space}
use secbuf.Circular.{CircularBuffer, available}
use secbuf.Circular.Ops.{copy_in, write}
use secbuf.Circular.Valid.{IsValid, turn, wrap_lem}
use secbuf.Circular.Queue.{tabulate, length-tabulate, round_trip, memory, contents}
use secbuf.Circular.Queue.Refine.{laid, spread_lem, length-laid, round_trip-laid_at}

-- A queue of at most `cap` bytes takes all of `bytes`, or none.
unfoldable pub enqueue : ℕ → List ℕ → List ℕ → Outcome ℕ × List ℕ
enqueue cap bytes q =
    if length bytes == 0
    then (ok 0, q)
    else if ltb (cap - length q) (length bytes)
    then (err insufficient_space, q)
    else (ok (length bytes), q ++ bytes)

pub available_lem : {c : CircularBuffer} → IsValid c → available c ≡ c.size - c.used
unfolding available
available_lem v = omega (arith, v.fits, v.small)

-- what `write` makes of a ring with storage `mem`
abbrev pub appended : CircularBuffer → List ℕ → List ℕ → CircularBuffer
appended c mem bytes = record c {
  store = some (laid mem c.write_pos bytes);
  write_pos = turn c.size (c.write_pos + length bytes);
  used = c.used + length bytes;
}

module _ {c : CircularBuffer} (v : IsValid c) (mem : List ℕ) (has : c.store ≡ some mem) where
  pub size_mem : length mem ≡ c.size
  size_mem = ground (arith, has, v.stored)

  pub writes_in : c.write_pos < c.size
  writes_in = ground (arith, v.writes_at, v.reads_in, v.fits)

  copy_in_lem :
      (bytes : List ℕ)
      → length bytes ≤ c.size
      → copy_in bytes c ≡ (ok tt, record c { store = some (laid mem c.write_pos bytes) })
  unfolding copy_in
  copy_in_lem bytes fits = ground (
    arith,
    has,
    size_mem,
    spread_lem mem c.write_pos bytes (omega (arith, size_mem, v.small))
        (omega (arith, size_mem, writes_in)) (omega (arith, size_mem)),
  )

  pub write_stored :
      (bytes : List ℕ)
      → 0 < length bytes
      → c.used + length bytes ≤ c.size
      → write bytes c ≡ (ok (length bytes), appended c mem bytes)
  unfolding write
  write_stored bytes some_bytes fits = ground (
    arith,
    has,
    available_lem v,
    copy_in_lem bytes (omega arith),
    wrap_lem c.write_pos (length bytes) c.size c.is_pow2 writes_in (omega arith) v.small v.pow2,
    v.small,
  )

  appended-IsValid :
      (bytes : List ℕ) → c.used + length bytes ≤ c.size → IsValid (appended c mem bytes)
  appended-IsValid bytes fits = record {
    sized = v.sized;
    small = v.small;
    fits = fits;
    reads_in = v.reads_in;
    writes_at = ground (arith, v.writes_at, v.reads_in, v.fits);
    stored =
        length-laid mem c.write_pos bytes (omega (arith, size_mem, v.small))
          (omega (arith, size_mem, writes_in)) (omega (arith, size_mem))
        ∙ size_mem;
    pow2 = v.pow2;
  }

  contents-appended :
      (bytes : List ℕ)
      → c.used + length bytes ≤ c.size
      → contents (appended c mem bytes) ≡ contents c ++ bytes
  contents-appended bytes fits =
      ap (λ w. round_trip (laid mem w bytes) c.size c.read_pos (c.used + length bytes)) v.writes_at
      ∙ round_trip-laid_at mem c.size c.read_pos c.used bytes size_mem v.small v.reads_in fits
      ∙ ap (λ m. round_trip m c.size c.read_pos c.used ++ bytes) (sym held)
    where
      held : memory c ≡ mem
      held = ground (arith, has)

pub length-contents : (c : CircularBuffer) → length (contents c) ≡ c.used
length-contents c = length-tabulate c.used _

pub write_nothing :
    (c : CircularBuffer) (bytes : List ℕ) → length bytes ≡ 0 → write bytes c ≡ (ok 0, c)
unfolding write
write_nothing c bytes e = ground (arith, e)

write_full :
    {c : CircularBuffer} (bytes : List ℕ)
    → IsValid c
    → 0 < length bytes
    → c.size - c.used < length bytes
    → write bytes c ≡ (err insufficient_space, c)
unfolding write
write_full bytes v something full = ground (arith, available_lem v)

-- A ring without storage writes as it does after the allocation.
abbrev pub allocated : CircularBuffer → CircularBuffer
allocated c = record c { store = some (replicate c.size 0) }

pub tabulate-none : (n : ℕ) (f : ℕ → ℕ) → n ≡ 0 → tabulate n f ≡ []
tabulate-none zero f e = refl
tabulate-none (suc n) f e = absurd (omega arith)

module _ {c : CircularBuffer} (v : IsValid c) (has : c.store ≡ none) where
  unused : c.used ≡ 0
  unused = ground (arith, has, v.stored)

  pub allocated-IsValid : IsValid (allocated c)
  allocated-IsValid = record {
    sized = v.sized;
    small = v.small;
    fits = v.fits;
    reads_in = v.reads_in;
    writes_at = v.writes_at;
    stored = length-replicate {A = ℕ} c.size 0;
    pow2 = v.pow2;
  }

  contents-allocated : contents (allocated c) ≡ contents c
  contents-allocated = tabulate-none c.used _ unused ∙ sym (tabulate-none c.used _ unused)

  pub write_unallocated :
      (bytes : List ℕ)
      → 0 < length bytes
      → length bytes ≤ c.size - c.used
      → write bytes c ≡ write bytes (allocated c)
  unfolding write
  write_unallocated bytes something room =
      ground (arith, has, available_lem v, available_lem allocated-IsValid)

-- what a write with room for it comes to
abbrev pub Room : CircularBuffer → List ℕ → Type 0
Room c bytes =
    (d : CircularBuffer) × (write bytes c ≡ (ok (length bytes), d))
    × (contents d ≡ contents c ++ bytes)
    × IsValid d
    × (d.size ≡ c.size)

module _ {c : CircularBuffer} (bytes : List ℕ) (v : IsValid c) (something : 0 < length bytes)
    (room : length bytes ≤ c.size - c.used) where
  fits' : c.used + length bytes ≤ c.size
  fits' = omega (arith, v.fits)

  Room-stored : (mem : List ℕ) → c.store ≡ some mem → Room c bytes
  Room-stored mem has = (
    appended c mem bytes,
    write_stored v mem has bytes something fits',
    contents-appended v mem has bytes fits',
    appended-IsValid v mem has bytes fits',
    refl,
  )

  Room-unstored : c.store ≡ none → Room c bytes
  Room-unstored has = (
    appended (allocated c) (replicate c.size 0) bytes,
    write_unallocated v has bytes something room
        ∙ write_stored (allocated-IsValid v has) _ refl bytes something fits',
    contents-appended (allocated-IsValid v has) _ refl bytes fits'
        ∙ ap (λ q. q ++ bytes) (contents-allocated v has),
    appended-IsValid (allocated-IsValid v has) _ refl bytes fits',
    refl,
  )

  pub write-Room : Room c bytes
  write-Room = elim (Option-cases c.store) [
    | inl has ↦ Room-unstored has
    | inr (mem, has) ↦ Room-stored mem has
  ]

-- On every branch write of a valid ring answers as the bounded byte queue of the ring's size,
-- leaves the ring holding that queue's bytes, and keeps the invariant.
pub write_refines :
    {c : CircularBuffer} (bytes : List ℕ)
    → IsValid c
    → let (r, c') = write bytes c in
      ((r, contents c') ≡ enqueue c.size bytes (contents c)) × IsValid c'
unfolding enqueue
write_refines {c} bytes v = elim (Bool-cases (length bytes == 0)) [
  | inl nothing ↦ rw (write_nothing c bytes ((==_iff _ _).0 nothing)) (ground (arith, nothing), v)
  | inr something ↦ elim (Bool-cases (ltb (c.size - c.used) (length bytes))) [
    | inl full ↦
        rw (write_full bytes v (ground (arith, something)) (ltb→lt _ _ full))
          (ground (arith, something, full, length-contents c), v)
    | inr room ↦
        let (d, e, q, w, _) = write-Room bytes v (ground (arith, something)) (ltb→le _ _ room) in
        rw e (ground (arith, something, room, length-contents c, q), w)
  ]
]
