-- ===== src/FastPool/Drain.antt =====
-- src/pool/fast.rs: `clear` empties the global queue.
use secbuf.Prelude.{
  ℕ, zero, suc, ◌<◌, ◌≡◌, refl, sym, ap, ◌∙◌, Option, none, some, List, [], ◌∷◌, length, arith,
}
use secbuf.Machine.{usize_mod}
use secbuf.Zeroize.{Zeroize}
use secbuf.Buffer
use secbuf.Buffer.{Buffer, buf_max_size}
use secbuf.Pool.Idle.{AllZero, freed-zero}
use secbuf.FastPool.Queue.{SegQueue, LockFreeQueue, pop}
use secbuf.FastPool.{drain}
use secbuf.FastPool.Laws.{IsQueue, Popped, pop_lem, some_left, nothing_left}

module _ (S : SegQueue) (z : Zeroize) where
  -- what `drain` makes of `q` with enough fuel
  abbrev pub Drained : ℕ → LockFreeQueue S → Type 0
  Drained fuel q =
      (freed : List (List ℕ)) × (rest : LockFreeQueue S) × (drain S z fuel q ≡ some (freed, rest))
      × AllZero freed
      × (length freed ≡ q.size)
      × (S.items rest.items ≡ [])
      × (rest.size ≡ 0)

  drain_step :
      (fuel : ℕ) (q : LockFreeQueue S)
      → IsQueue S q
      → Popped S q (pop S q).0 (pop S q).1
      → ((0 < q.size) → Drained fuel (pop S q).1)
      → Drained (suc fuel) q
  unfolding drain
  drain_step fuel q v popped again = go (pop S q).0 refl
    where
      go : (r : Option Buffer) → (pop S q).0 ≡ r → Drained (suc fuel) q
      go none h =
          let (no_items, left) =
            nothing_left (S.items q.items) (S.items (pop S q).1.items)
              (ap (λ r. (r, S.items (pop S q).1.items)) (sym h) ∙ popped.taken) in
          (
            [],
            (pop S q).1,
            rw (drain, h) refl,
            tt,
            omega (arith, v.counted, ap length no_items),
            left,
            omega (arith, popped.smaller, v.counted, ap length no_items),
          )
      go (some b) h =
          let some_item =
            some_left b (S.items q.items) (S.items (pop S q).1.items)
              (ap (λ r. (r, S.items (pop S q).1.items)) (sym h) ∙ popped.taken) in
          let (freed, rest, e, zero_bytes, n, none_left, size) =
            again (omega (arith, v.counted, some_item)) in
          (
            Buffer.drop_buffer z b ∷ freed,
            rest,
            rw (drain, h, e) refl,
            (freed-zero z b, zero_bytes),
            omega (arith, n, popped.smaller, v.counted, some_item),
            none_left,
            size,
          )

  -- The loop of clear empties the global queue, given fuel for each of its items and one more,
  -- and what it frees is zero.
  pub drain_lem :
      (fuel : ℕ) (q : LockFreeQueue S)
      → IsQueue S q
      → q.size < usize_mod
      → q.size < fuel
      → (freed : List (List ℕ)) × (rest : LockFreeQueue S) × (drain S z fuel q ≡ some (freed, rest))
        × AllZero freed
        × (length freed ≡ q.size)
        × (S.items rest.items ≡ [])
        × (rest.size ≡ 0)
  drain_lem zero q v small enough = absurd (omega (arith, enough))
  drain_lem (suc fuel) q v small enough =
      let popped = pop_lem S q v small in
      drain_step fuel q v popped λ some_item.
        drain_lem fuel (pop S q).1 popped.queue (omega (arith, popped.smaller, small))
          (omega (arith, popped.smaller, enough))
