-- ===== src/FastPool/Laws.antt =====
-- src/pool/fast.rs: `push` and `pop` of the global queue, with no other thread in between.
use secbuf.Prelude.{
  ◌+◌, ◌-◌, ◌<◌, ◌≡◌, refl, sym, ap, subst, ◌∙◌, Option, none, some, List, [], ◌∷◌, ◌++◌, length,
  length-append, arith,
}
use secbuf.Machine.{usize_mod}
use secbuf.Buffer.{Buffer}
use secbuf.Pool.Idle.{IsBlank, AllBlank}
use secbuf.FastPool.Queue.{SegQueue, LockFreeQueue, take_first, push, pop}

pub AllBlank-snoc :
    (xs : List Buffer) (b : Buffer) → AllBlank xs → IsBlank b → AllBlank (xs ++ (b ∷ []))
AllBlank-snoc [] b h k = (k, tt)
AllBlank-snoc (x ∷ xs) b h k = (h.0, AllBlank-snoc xs b h.1 k)

pub first-IsBlank :
    (b : Buffer) (xs ys : List Buffer)
    → ◌≡◌ {A = Option Buffer × List Buffer} (some b, ys) (take_first xs)
    → AllBlank xs
    → IsBlank b
first-IsBlank b [] ys e h = cc
first-IsBlank b (x ∷ xs) ys e h = let same : x ≡ b = cc in subst (λ c. IsBlank c) same h.0

pub some_left :
    (b : Buffer) (xs ys : List Buffer)
    → ◌≡◌ {A = Option Buffer × List Buffer} (some b, ys) (take_first xs)
    → 0 < length xs
some_left b [] ys e = cc
some_left b (x ∷ xs) ys e = omega arith

pub nothing_left :
    (xs ys : List Buffer)
    → ◌≡◌ {A = Option Buffer × List Buffer} (none, ys) (take_first xs)
    → (xs ≡ []) × (ys ≡ [])
nothing_left [] ys e = (refl, cc)
nothing_left (x ∷ xs) ys e = cc

module _ (S : SegQueue) where
  -- No action is half done: the counter is right, and the items are blank.
  pub record IsQueue (q : LockFreeQueue S) : Type 0 where
    pub blank : AllBlank (S.items q.items)
    pub counted : q.size ≡ length (S.items q.items)

  pub push_lem :
      (b : Buffer) (q : LockFreeQueue S)
      → IsQueue q
      → IsBlank b
      → q.size + 1 < usize_mod
      → IsQueue (push S b q) × ((push S b q).size ≡ q.size + 1)
  unfolding push
  push_lem b q v w small = (
    record {
      blank =
          subst (λ xs. AllBlank xs) (sym (S.items-push b q.items))
            (AllBlank-snoc (S.items q.items) b v.blank w);
      counted = omega (
        arith,
        v.counted,
        ap length (S.items-push b q.items),
        length-append (S.items q.items) (b ∷ []),
      );
    },
    omega arith,
  )

  -- what `pop` makes of a sound queue: it takes the oldest item
  pub record Popped (q : LockFreeQueue S) (r : Option Buffer) (rest : LockFreeQueue S)
      : Type 0 where
    pub queue : IsQueue rest
    pub taken :
        ◌≡◌ {A = Option Buffer × List Buffer} (r, S.items rest.items) (take_first (S.items q.items))
    pub smaller : rest.size ≡ q.size - 1

  nothing-Popped :
      (q : LockFreeQueue S)
      → IsQueue q
      → (S.pop q.items).0 ≡ none
      → S.items q.items ≡ []
      → Popped q (pop S q).0 (pop S q).1
  unfolding pop
  nothing-Popped q v h e =
      let law : ◌≡◌ {A = Option Buffer × List Buffer} ((S.pop q.items).0, S.items (S.pop q.items).1)
          (take_first (S.items q.items)) =
        S.items-pop q.items in
      let left : S.items (S.pop q.items).1 ≡ [] = ap (λ r. r.1) (law ∙ ap take_first e) in
      rw (pop, h)
        (record {
          queue = record {
            blank = subst (λ xs. AllBlank xs) (sym left) tt;
            counted = omega (arith, v.counted, ap length e, ap length left);
          };
          taken = ap (λ r. (r, S.items (S.pop q.items).1)) (sym h) ∙ law;
          smaller = omega (arith, v.counted, ap length e);
        })

  one-Popped :
      (q : LockFreeQueue S) (b : Buffer) (bs : List Buffer)
      → IsQueue q
      → q.size < usize_mod
      → (S.pop q.items).0 ≡ some b
      → S.items q.items ≡ b ∷ bs
      → Popped q (pop S q).0 (pop S q).1
  unfolding pop
  one-Popped q b bs v small h e =
      let law : ◌≡◌ {A = Option Buffer × List Buffer} ((S.pop q.items).0, S.items (S.pop q.items).1)
          (take_first (S.items q.items)) =
        S.items-pop q.items in
      let left : S.items (S.pop q.items).1 ≡ bs = ap (λ r. r.1) (law ∙ ap take_first e) in
      let all : AllBlank (b ∷ bs) = subst (λ xs. AllBlank xs) e v.blank in
      rw (pop, h)
        (record {
          queue = record {
            blank = subst (λ xs. AllBlank xs) (sym left) all.1;
            counted = omega (arith, v.counted, ap length e, ap length left);
          };
          taken = ap (λ r. (r, S.items (S.pop q.items).1)) (sym h) ∙ law;
          smaller = omega (arith, v.counted, ap length e);
        })

  pub pop_lem :
      (q : LockFreeQueue S) → IsQueue q → q.size < usize_mod → Popped q (pop S q).0 (pop S q).1
  pop_lem q v small = go (S.items q.items) refl
    where
      go : (xs : List Buffer) → S.items q.items ≡ xs → Popped q (pop S q).0 (pop S q).1
      go [] e = nothing-Popped q v (ap (λ r. r.0) (S.items-pop q.items ∙ ap take_first e)) e
      go (b ∷ bs) e =
          one-Popped q b bs v small (ap (λ r. r.0) (S.items-pop q.items ∙ ap take_first e)) e
