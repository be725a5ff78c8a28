-- ===== src/Connection/Burn.antt =====
-- src/connection.rs: what `burn` leaves of a connection, and what a second one does.
use secbuf.Prelude.{
  ◌≡◌, refl, sym, ap, ◌∙◌, true, false, Bool-cases, inl, inr, Option, none, some, List, [], ◌∷◌,
  map, replicate, arith,
}
use mathlib.Core.Option
use secbuf.Vec
use secbuf.Zeroize.{Zeroize}
use secbuf.Buffer
use secbuf.Buffer.{Buffer}
use secbuf.Buffer.Valid
use secbuf.Buffer.Wipe.{burn_lem}
use secbuf.Circular.{CircularBuffer}
use secbuf.Circular.Ops.{free, clear}
use secbuf.Connection.{ConnectionBuffers, burn, reset}

-- The bytes that the vector holds are zero, and nothing counts as valid data.
abbrev pub IsWiped : Option Buffer → Type 0
IsWiped none = Unit {0}
IsWiped (some b) = (Vec.elements b.vec ≡ replicate b.vec.len 0) × (b.len ≡ 0)

abbrev pub IsFreed : List CircularBuffer → Type 0
IsFreed [] = Unit {0}
IsFreed (r ∷ rs) = (r.store ≡ none) × (r.used ≡ 0) × IsFreed rs

abbrev pub AreValid : Option Buffer → Type 0
AreValid none = Unit {0}
AreValid (some b) = Valid.IsValid b

module _ (z : Zeroize) where
  burned_buffer : (o : Option Buffer) → AreValid o → IsWiped (Option.map (Buffer.burn z) o)
  burned_buffer none v = tt
  burned_buffer (some b) v =
      let (zeros, _, len, _, none_valid) = burn_lem z v in
      (zeros ∙ ap (λ k. replicate k 0) (sym len), none_valid)

  IsFreed-streams : (rs : List CircularBuffer) → IsFreed (map (λ r. (free z r).0) rs)
  unfolding free clear
  IsFreed-streams [] = tt
  IsFreed-streams (r ∷ rs) = (refl, refl, IsFreed-streams rs)

  -- The first burn of a connection with valid buffers wipes its two buffers, frees the memory
  -- of every stream, and empties the transmit queue with its byte count.
  pub burn-IsWiped :
      (c : ConnectionBuffers)
      → c.burned ≡ false
      → AreValid c.read_buf
      → AreValid c.write_buf
      → IsWiped (burn z c).read_buf
        × IsWiped (burn z c).write_buf
        × IsFreed (burn z c).stream_bufs
        × ((burn z c).packet_queue ≡ [])
        × ((burn z c).packet_queue_bytes ≡ 0)
        × ((burn z c).burned ≡ true)
  unfolding burn
  burn-IsWiped c first r w = rw first (
    burned_buffer c.read_buf r,
    burned_buffer c.write_buf w,
    IsFreed-streams c.stream_bufs,
    refl,
    refl,
    refl,
  )

  pub burn_skips : (c : ConnectionBuffers) → c.burned ≡ true → burn z c ≡ c
  unfolding burn
  burn_skips c e = rw e refl

  pub burn_sets : (c : ConnectionBuffers) → (burn z c).burned ≡ true
  unfolding burn
  burn_sets c = elim (Bool-cases c.burned) [
    | inl e ↦ ap (λ d. d.burned) (burn_skips c e) ∙ e
    | inr e ↦ rw e refl
  ]

  -- Between burn and reset a second burn does nothing: a read buffer or packets put in
  -- meanwhile stay as they are.
  pub reburn_keeps :
      (c : ConnectionBuffers) (b : Buffer) (q : List Buffer)
      → (burn z (burn z c) ≡ burn z c)
        × (burn z (record (burn z c) { read_buf = some b; packet_queue = q })
            ≡ record (burn z c) { read_buf = some b; packet_queue = q })
  reburn_keeps c b q = (burn_skips _ (burn_sets c), burn_skips _ (burn_sets c))

  -- After `reset` it wipes again.
  pub burn-reset :
      (c : ConnectionBuffers)
      → AreValid c.read_buf
      → AreValid c.write_buf
      → IsWiped (burn z (reset c)).read_buf × IsWiped (burn z (reset c)).write_buf
  unfolding reset Buffer.reset
  burn-reset c r w =
      let (x, y, _, _, _, _) =
        burn-IsWiped (reset c) refl (again c.read_buf r) (again c.write_buf w) in
      (x, y)
    where
      again : (o : Option Buffer) → AreValid o → AreValid (Option.map Buffer.reset o)
      again none v = tt
      again (some b) v = omega (arith, v.vec.within, v.vec.small)
