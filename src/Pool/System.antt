-- ===== src/Pool/System.antt =====
-- src/pool/standard.rs: clients that acquire, use, return, leak and discard buffers in any order,
-- with the owner's calls in between.
use secbuf.Prelude.{ℕ, ◌+◌, ◌%◌, ◌≡◌, List, [], ◌∷◌, ◌++◌, length, some}
use secbuf.Machine.{usize_mod}
use secbuf.Error.{Outcome, ok, err, panic, undefined, and_then}
use secbuf.Zeroize.{Zeroize}
use secbuf.Buffer.{Buffer}
use secbuf.Buffer.Valid.{IsValid}
use secbuf.Pool.{BufferPool, acquire, drop_pooled, drop_now, leak, grow, shrink, clear}
use secbuf.Pool.Idle.{AllZero}
use secbuf.Pool.Safety.{IsPool}

-- A pool with the buffers that its clients hold. `gone` counts the buffers that left by `leak` or
-- `drop_now`, `freed` is the memory that the calls of the pool and of its `PooledBuffer`s have freed, and
-- `outgrown` the memory that held buffers gave up as their clients made them grow or shrink.
pub record System : Type 0 where
  pub pool : BufferPool
  pub held : List Buffer
  pub gone : ℕ
  pub freed : List (List ℕ)
  pub outgrown : List (List ℕ)

-- One step. `uses b f` leaves `b` of the first held buffer, and its reallocations give up `f`; `turns`
-- lets the next client act.
pub data Step : Type 0 where
  acquires : Step
  uses : Buffer → List (List ℕ) → Step
  turns : Step
  returns : Step
  leaks : Step
  discards : Step
  grows : ℕ → Step
  shrinks : Step
  clears : Step

-- what a call that came back makes of the system
abbrev pub after :
    {A : Type 0} → (A → BufferPool → System) → Outcome A × BufferPool → Outcome System
after f (ok a, p) = ok (f a p)
after f (err e, p) = err e
after f (panic, p) = panic
after f (undefined, p) = undefined

module _ (z : Zeroize) where
  -- the first held buffer returned, leaked or discarded
  unfoldable pub give_back : Buffer → List Buffer → System → Outcome System
  give_back b bs s =
      after (λ f p. record s { pool = p; held = bs; freed = f ++ s.freed })
        (drop_pooled z (some b) s.pool)

  unfoldable pub give_away : Buffer → List Buffer → System → Outcome System
  give_away b bs s =
      and_then (leak (some b)).0 (λ _. ok (record s { held = bs; gone = s.gone + 1 }))

  unfoldable pub discard : Buffer → List Buffer → System → Outcome System
  discard b bs s =
      ok (record s { held = bs; gone = s.gone + 1; freed = (drop_now z (some b)).0 ++ s.freed })

  abbrev pub with_held : (Buffer → List Buffer → System → Outcome System) → System → Outcome System
  with_held f s = elim s.held [ [] ↦ ok s | b ∷ bs ↦ f b bs s ]

  -- A step on a held buffer does nothing where none is held.
  unfoldable pub advance : Step → System → Outcome System
  advance acquires s = after (λ b p. record s { pool = p; held = b ∷ s.held }) (acquire s.pool)
  advance (uses c f) s =
      with_held (λ b bs t. ok (record t { held = c ∷ bs; outgrown = f ++ t.outgrown })) s
  advance turns s = with_held (λ b bs t. ok (record t { held = bs ++ (b ∷ []) })) s
  advance returns s = with_held give_back s
  advance leaks s = with_held give_away s
  advance discards s = with_held discard s
  advance (grows n) s = after (λ _ p. record s { pool = p }) (grow n s.pool)
  advance shrinks s = after (λ f p. record s { pool = p; freed = f ++ s.freed }) (shrink z s.pool)
  advance clears s = after (λ f p. record s { pool = p; freed = f ++ s.freed }) (clear z s.pool)

  unfoldable pub run : List Step → System → Outcome System
  run [] s = ok s
  run (e ∷ es) s = elim (advance e s) [ ok t ↦ run es t | other ↦ other ]

abbrev pub AllValid : List Buffer → Type 0
AllValid [] = Unit {0}
AllValid (b ∷ bs) = IsValid b × AllValid bs

-- Clients leave their buffers valid, as every safe method does.
abbrev pub AllUsesValid : List Step → Type 0
AllUsesValid [] = Unit {0}
AllUsesValid (uses b f ∷ es) = IsValid b × AllUsesValid es
AllUsesValid (_ ∷ es) = AllUsesValid es

-- The pool is sound, the held buffers are valid, the freed memory is zero, and every acquired
-- buffer is returned, held or gone.
pub record IsSafe (s : System) : Type 0 where
  pub pool : IsPool s.pool
  pub held : AllValid s.held
  pub freed : AllZero s.freed
  pub counted :
      s.pool.inner.total_acquired
      ≡ (s.pool.inner.total_returned + length s.held + s.gone) % usize_mod
