-- ===== src/Buffer/Outgrow.antt =====
-- src/buffer/core.rs: the memory that a buffer gives back when its vector moves.
use secbuf.Prelude.{ℕ, ◌-◌, ◌≤◌, ◌<◌, ◌≡◌, refl, min, [], ◌++◌, take, replicate, ◌∷◌, le→ltb, arith}
use secbuf.Error.{ok}
use secbuf.Zeroize.{Zeroize}
use secbuf.Vec
use secbuf.Vec.Laws.{resize_lem}
use secbuf.Buffer
use secbuf.Buffer.{Buffer, buf_max_size, capacity, resize, set_len, resize_frees, grow_to_frees}
use secbuf.Buffer.Valid.{IsValid}
use secbuf.Pool.Idle.{AllZero, freed-zero}

module _ (z : Zeroize) {b : Buffer} (v : IsValid b) (n : ℕ) (beyond : capacity b < n)
    (small : n ≤ buf_max_size) where
  moves : grow_to_frees n b ≡ b.vec.mem ∷ []
  unfolding grow_to_frees Vec.reserve_frees
  moves = ground (arith, v.vec.within, beyond)

  -- A resize of a valid buffer past its capacity, to a size within the maximum, copies its
  -- bytes to a new allocation, with zeros behind them, and gives the old one back to the
  -- allocator as it was, while the destructor zeroes the memory that it frees.
  pub resize_leaves_old :
      (c : Buffer) × (resize n b ≡ (ok tt, c))
      × (Vec.elements c.vec ≡ take n (Vec.elements b.vec) ++ replicate (n - b.vec.len) 0)
      × (resize_frees n b ≡ b.vec.mem ∷ [])
      × AllZero (Buffer.drop_buffer z c ∷ [])
  unfolding resize resize_frees
  resize_leaves_old =
      let (w, e, r) = resize_lem n b.vec v.vec (omega arith) in
      let c : Buffer = record { vec = w; pos = min b.pos n; len = min b.len n } in
      (
        c,
        rw (le→ltb buf_max_size n small, e) refl,
        r.kept,
        rw (le→ltb buf_max_size n small) moves,
        (freed-zero z c, tt),
      )
