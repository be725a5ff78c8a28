-- ===== src/FastPool/Threads/Serial/Unfold.antt =====
-- src/pool/fast.rs: the loops and branches of the calls, one round or branch at a time.
use secbuf.Prelude.{
  ℕ, suc, ◌≡◌, ◌⊎◌, refl, sym, ap, ◌∙◌, inl, inr, Option-cases, Option, none, some, List, ◌∷◌,
}
use secbuf.Machine.{add_size, sub_size}
use secbuf.Error.{Outcome, ok, err, panic, undefined}
use secbuf.Zeroize.{Zeroize}
use secbuf.Buffer
use secbuf.Buffer.{Buffer}
use secbuf.FastPool.Queue.{SegQueue, LockFreeQueue, push, pop}
use secbuf.FastPool.{FastPool, acquire_shared, push_new, drain}

module _ (S : SegQueue) (z : Zeroize) where
  pub same_buffer : {a b : Buffer} → ok a ≡ ok b → a ≡ b
  same_buffer e = cc

  pub pop-none :
      (q : LockFreeQueue S)
      → (S.pop q.items).0 ≡ none
      → pop S q ≡ (none, record q { items = (S.pop q.items).1 })
  unfolding pop
  pop-none q e = rw (pop, e) refl

  pub pop-some :
      (q : LockFreeQueue S) {b : Buffer}
      → (S.pop q.items).0 ≡ some b
      → pop S q ≡ (some b, record { items = (S.pop q.items).1; size = sub_size q.size 1 })
  unfolding pop
  pop-some q e = rw (pop, e) refl

  pub same_queue : {p q : LockFreeQueue S} → ok p ≡ ok q → p ≡ q
  same_queue e = cc

  pub push_one :
      (k size : ℕ) (q r : LockFreeQueue S)
      → push_new S (suc k) size q ≡ ok r
      → (b : Buffer) × (Buffer.new size ≡ ok b) × (push_new S k size (push S b q) ≡ ok r)
  unfolding push_new
  push_one k size q r made = go (Buffer.new size) refl
    where
      go :
          (o : Outcome Buffer)
          → Buffer.new size ≡ o
          → (b : Buffer) × (Buffer.new size ≡ ok b) × (push_new S k size (push S b q) ≡ ok r)
      go (ok b) e = (b, e, rw (push_new, e) at made)
      go (err x) e = let no = rw (push_new, e) at made in cc
      go panic e = let no = rw (push_new, e) at made in cc
      go undefined e = let no = rw (push_new, e) at made in cc

  abbrev pub after_pop : LockFreeQueue S → LockFreeQueue S
  after_pop q = record { items = (S.pop q.items).1; size = sub_size q.size 1 }

  -- the rest of `drain` behind a buffer
  abbrev again :
      Buffer → Option (List (List ℕ) × LockFreeQueue S) → Option (List (List ℕ) × LockFreeQueue S)
  again b none = none
  again b (some r) = some (Buffer.drop_buffer z b ∷ r.0, r.1)

  pub again_gives :
      (b : Buffer) (o : Option (List (List ℕ) × LockFreeQueue S)) (freed : List (List ℕ))
      (r : LockFreeQueue S)
      → again b o ≡ some (freed, r)
      → (more : List (List ℕ)) × (o ≡ some (more, r))
  again_gives b none freed r e = cc
  again_gives b (some (more, q)) freed r e =
      let same : q ≡ r = cc in (more, ap (λ q. some (more, q)) same)

  pub same_rest :
      {xs ys : List (List ℕ)} {q r : LockFreeQueue S}
      → ◌≡◌ {A = Option (List (List ℕ) × LockFreeQueue S)} (some (xs, q)) (some (ys, r))
      → q ≡ r
  same_rest e = cc

  pub drain_one :
      (fuel : ℕ) (q : LockFreeQueue S) (freed : List (List ℕ)) (r : LockFreeQueue S)
      → drain S z (suc fuel) q ≡ some (freed, r)
      → (((S.pop q.items).0 ≡ none) × (record q { items = (S.pop q.items).1 } ≡ r))
        ⊎ ((b : Buffer) × (more : List (List ℕ)) × ((S.pop q.items).0 ≡ some b)
            × (drain S z fuel (after_pop q) ≡ some (more, r)))
  unfolding drain
  drain_one fuel q freed r e = elim (Option-cases (S.pop q.items).0) [
    | inl nothing ↦
        let popped = pop-none q nothing in
        let left : (pop S q).1 ≡ r = same_rest (rw (drain, ap (λ p. p.0) popped) at e) in
        inl (nothing, ap (λ p. p.1) (sym popped) ∙ left)
    | inr (b, something) ↦
        let popped = pop-some q something in
        let (more, rest) =
          again_gives b (drain S z fuel (pop S q).1) freed r
            (rw (drain, ap (λ p. p.0) popped) at e) in
        inr (b, more, something, ap (λ p. drain S z fuel p.1) (sym popped) ∙ rest)
  ]

  pub shared-none :
      (pool : FastPool S)
      → (S.pop pool.global_pool.items).0 ≡ none
      → acquire_shared S pool ≡ (
        Buffer.new pool.config.buffer_size,
        record pool {
          global_pool = record (pool.global_pool) { items = (S.pop pool.global_pool.items).1 };
          allocated = add_size pool.allocated 1;
        },
      )
  unfolding acquire_shared
  shared-none pool e =
      let popped = pop-none pool.global_pool e in
      rw (acquire_shared, popped)
        (ap
          (λ (r : Option Buffer × LockFreeQueue S). (
            Buffer.new pool.config.buffer_size,
            record pool { global_pool = r.1; allocated = add_size pool.allocated 1 },
          ))
          popped)

  pub shared-some :
      (pool : FastPool S) {b : Buffer}
      → (S.pop pool.global_pool.items).0 ≡ some b
      → acquire_shared S pool ≡ (
        ok b,
        record pool {
          global_pool = record {
            items = (S.pop pool.global_pool.items).1;
            size = sub_size pool.global_pool.size 1;
          };
        },
      )
  unfolding acquire_shared
  shared-some pool {b} e =
      let popped = pop-some pool.global_pool e in
      rw (acquire_shared, popped)
        (ap (λ (r : Option Buffer × LockFreeQueue S). (ok b, record pool { global_pool = r.1 }))
          popped)
