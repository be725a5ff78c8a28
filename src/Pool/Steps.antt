-- ===== src/Pool/Steps.antt =====
-- src/pool/standard.rs: that every step of the clients and of the owner keeps the system safe.
use secbuf.Prelude.{ℕ, ◌+◌, ◌≡◌, refl, ap, subst, List, [], ◌∷◌, ◌++◌, length, length-append, arith}
use secbuf.Error.{Outcome, ok}
use secbuf.Zeroize.{Zeroize}
use secbuf.Buffer
use secbuf.Buffer.{Buffer}
use secbuf.Buffer.Valid.{IsValid}
use secbuf.Pool.{BufferPool, leak, drop_now}
use secbuf.Pool.Idle.{AllZero-append, AllZero, freed-zero}
use secbuf.Pool.Safety.{IsNext, acquire_lem, grow_lem}
use secbuf.Pool.Freed.{shrink_lem, clear_pool_lem, drop_pooled_lem}
use secbuf.Pool.System.{
  System, Step, acquires, uses, turns, returns, leaks, discards, grows, shrinks, clears, give_back,
  give_away, discard, with_held, advance, AllValid, AllUsesValid, IsSafe,
}

AllValid-append : (xs ys : List Buffer) → AllValid xs → AllValid ys → AllValid (xs ++ ys)
AllValid-append [] ys h k = k
AllValid-append (x ∷ xs) ys h k = (h.0, AllValid-append xs ys h.1 k)

module _ (z : Zeroize) where
  -- The system after `r` exists and is safe.
  abbrev pub Succeeds : Outcome System → Type 0
  Succeeds r = (t : System) × (r ≡ ok t) × IsSafe t

  acquires-IsSafe : (s : System) → IsSafe s → Succeeds (advance z acquires s)
  unfolding advance
  acquires-IsSafe s v =
      let (b, p, e, blank, next) = acquire_lem s.pool v.pool in
      (
        record s { pool = p; held = b ∷ s.held },
        rw e refl,
        record {
          pool = next.pool;
          held = (blank.valid, v.held);
          freed = v.freed;
          counted = omega (arith, next.acquired, next.returned, v.counted);
        },
      )

  give_back-IsSafe :
      (b : Buffer) (bs : List Buffer) (s : System)
      → s.held ≡ b ∷ bs
      → IsSafe s
      → Succeeds (give_back z b bs s)
  unfolding give_back
  give_back-IsSafe b bs s h v =
      let (valid, rest) = subst (λ xs. AllValid xs) h v.held in
      let (f, p, e, zero, next) = drop_pooled_lem z b s.pool v.pool valid in
      (
        record s { pool = p; held = bs; freed = f ++ s.freed },
        rw e refl,
        record {
          pool = next.pool;
          held = rest;
          freed = AllZero-append f s.freed zero v.freed;
          counted = omega (arith, next.acquired, next.returned, v.counted, ap length h);
        },
      )

  give_away-IsSafe :
      (b : Buffer) (bs : List Buffer) (s : System)
      → s.held ≡ b ∷ bs
      → IsSafe s
      → Succeeds (give_away z b bs s)
  unfolding give_away leak
  give_away-IsSafe b bs s h v =
      let (_, rest) = subst (λ xs. AllValid xs) h v.held in
      (
        record s { held = bs; gone = s.gone + 1 },
        refl,
        record {
          pool = v.pool;
          held = rest;
          freed = v.freed;
          counted = omega (arith, v.counted, ap length h);
        },
      )

  discard-IsSafe :
      (b : Buffer) (bs : List Buffer) (s : System)
      → s.held ≡ b ∷ bs
      → IsSafe s
      → Succeeds (discard z b bs s)
  unfolding discard drop_now
  discard-IsSafe b bs s h v =
      let (_, rest) = subst (λ xs. AllValid xs) h v.held in
      let gone = freed-zero z (Buffer.burn z b) in
      (
        record s {
          held = bs;
          gone = s.gone + 1;
          freed = Buffer.drop_buffer z (Buffer.burn z b) ∷ s.freed;
        },
        refl,
        record {
          pool = v.pool;
          held = rest;
          freed = (gone, v.freed);
          counted = omega (arith, v.counted, ap length h);
        },
      )

  with_held-IsSafe :
      (f : Buffer → List Buffer → System → Outcome System) (s : System)
      → IsSafe s
      → ((b : Buffer) (bs : List Buffer) → s.held ≡ b ∷ bs → Succeeds (f b bs s))
      → Succeeds (with_held z f s)
  with_held-IsSafe f s v k = go s.held refl
    where
      go : (bs : List Buffer) → s.held ≡ bs → Succeeds (elim bs [ [] ↦ ok s | b ∷ bs' ↦ f b bs' s ])
      go [] e = (s, refl, v)
      go (b ∷ bs) e = k b bs e

  uses-IsSafe :
      (c : Buffer) (f : List (List ℕ)) (s : System)
      → IsValid c
      → IsSafe s
      → Succeeds (advance z (uses c f) s)
  unfolding advance
  uses-IsSafe c f s w v =
      with_held-IsSafe (λ b bs t. ok (record t { held = c ∷ bs; outgrown = f ++ t.outgrown })) s v
        λ b bs h.
          let (_, rest) = subst (λ xs. AllValid xs) h v.held in
          (
            record s { held = c ∷ bs; outgrown = f ++ s.outgrown },
            refl,
            record {
              pool = v.pool;
              held = (w, rest);
              freed = v.freed;
              counted = omega (arith, v.counted, ap length h);
            },
          )

  turns-IsSafe : (s : System) → IsSafe s → Succeeds (advance z turns s)
  unfolding advance
  turns-IsSafe s v =
      with_held-IsSafe (λ b bs t. ok (record t { held = bs ++ (b ∷ []) })) s v
        λ b bs h.
          let (first, rest) = subst (λ xs. AllValid xs) h v.held in
          (
            record s { held = bs ++ (b ∷ []) },
            refl,
            record {
              pool = v.pool;
              held = AllValid-append bs (b ∷ []) rest (first, tt);
              freed = v.freed;
              counted = omega (arith, v.counted, ap length h, length-append bs (b ∷ []));
            },
          )

  -- A call of the owner that neither acquires nor returns.
  owner-IsSafe :
      (s : System) (f : List (List ℕ)) (p : BufferPool)
      → IsSafe s
      → AllZero f
      → IsNext s.pool s.pool.inner.total_acquired s.pool.inner.total_returned p
      → IsSafe (record s { pool = p; freed = f ++ s.freed })
  owner-IsSafe s f p v zero next = record {
    pool = next.pool;
    held = v.held;
    freed = AllZero-append f s.freed zero v.freed;
    counted = omega (arith, next.acquired, next.returned, v.counted);
  }

  -- Every step on a safe system comes back and leaves a safe system.
  pub advance-IsSafe :
      (e : Step) (s : System) → AllUsesValid (e ∷ []) → IsSafe s → Succeeds (advance z e s)
  unfolding advance
  advance-IsSafe acquires s w v = acquires-IsSafe s v
  advance-IsSafe (uses c f) s w v = uses-IsSafe c f s w.0 v
  advance-IsSafe turns s w v = turns-IsSafe s v
  advance-IsSafe returns s w v =
      with_held-IsSafe (give_back z) s v (λ b bs h. give_back-IsSafe b bs s h v)
  advance-IsSafe leaks s w v =
      with_held-IsSafe (give_away z) s v (λ b bs h. give_away-IsSafe b bs s h v)
  advance-IsSafe discards s w v =
      with_held-IsSafe (discard z) s v (λ b bs h. discard-IsSafe b bs s h v)
  advance-IsSafe (grows n) s w v =
      let (p, e, _, next) = grow_lem n s.pool v.pool in
      (record s { pool = p }, rw e refl, owner-IsSafe s [] p v tt next)
  advance-IsSafe shrinks s w v =
      let (f, p, e, zero, _, next) = shrink_lem z s.pool v.pool in
      (record s { pool = p; freed = f ++ s.freed }, rw e refl, owner-IsSafe s f p v zero next)
  advance-IsSafe clears s w v =
      let (f, p, e, zero, _, next) = clear_pool_lem z s.pool v.pool in
      (record s { pool = p; freed = f ++ s.freed }, rw e refl, owner-IsSafe s f p v zero next)
