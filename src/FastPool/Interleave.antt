-- ===== src/FastPool/Interleave.antt =====
-- src/pool/fast.rs: the counter of `LockFreeQueue` under every interleaving of pushes and pops.
use secbuf.Prelude.{
  ◌+◌, ◌-◌, ◌%◌, ◌≡◌, refl, ap, ◌∙◌, Option, some, List, [], ◌∷◌, ◌++◌, length, length-append,
  arith,
}
use secbuf.Machine.{usize_mod}
use secbuf.Buffer.{Buffer}
use secbuf.FastPool.Queue.{
  SegQueue, Shared, push_item, count_push, pop_item, count_pop, Reached, start, then, take_first,
}

module _ (S : SegQueue) where
  pub length-push :
      (b : Buffer) (q : S.Queue) → length (S.items (S.push b q)) ≡ length (S.items q) + 1
  length-push b q = ap length (S.items-push b q) ∙ length-append (S.items q) (b ∷ [])

  pub first_taken :
      (b : Buffer) (xs ys : List Buffer) (r : Option Buffer)
      → (r, ys) ≡ take_first xs
      → r ≡ some b
      → xs ≡ b ∷ ys
  first_taken b [] ys r e h = cc
  first_taken b (x ∷ xs) ys r e h = cc

  pub length-pop :
      (b : Buffer) (q : S.Queue)
      → (S.pop q).0 ≡ some b
      → length (S.items q) ≡ length (S.items (S.pop q).1) + 1
  length-pop b q h = omega (
    arith,
    ap length (first_taken b (S.items q) (S.items (S.pop q).1) (S.pop q).0 (S.items-pop q) h),
  )

  -- In whatever order the atomic actions of pushes and pops come, the counter is the number of
  -- items less the pushes and plus the pops still to count, modulo 2^64.
  pub counter_lem :
      {s : Shared S}
      → Reached S s
      → (s.queue.size + s.entered) % usize_mod
        ≡ (length (S.items s.queue.items) + s.left) % usize_mod
  counter_lem start = omega (arith, ap length S.items-fresh)
  counter_lem (then r (push_item b s)) = omega (arith, counter_lem r, length-push b s.queue.items)
  counter_lem (then r (count_push s some_entered)) = omega (arith, counter_lem r, some_entered)
  counter_lem (then r (pop_item b s h)) = omega (arith, counter_lem r, length-pop b s.queue.items h)
  counter_lem (then r (count_pop s some_left)) = omega (arith, counter_lem r, some_left)

  one_item : (b : Buffer) → S.items (S.push b S.fresh) ≡ b ∷ []
  one_item b = S.items-push b S.fresh ∙ ap (λ xs. xs ++ (b ∷ [])) S.items-fresh

  one_taken :
      (b : Buffer)
      → ◌≡◌ {A = Option Buffer × List Buffer}
          ((S.pop (S.push b S.fresh)).0, S.items (S.pop (S.push b S.fresh)).1)
          (some b, [])
  one_taken b = S.items-pop (S.push b S.fresh) ∙ ap take_first (one_item b)

  -- A pop that takes an item before its push is counted makes the counter read 2^64 - 1 on an
  -- empty queue.
  pub counter_underflows :
      (b : Buffer)
      → (s : Shared S) × Reached S s × (S.items s.queue.items ≡ []) × (s.queue.size ≡ usize_mod - 1)
  counter_underflows b =
      let pushed : Shared S = record {
        queue = record { items = S.push b S.fresh; size = 0 };
        entered = 1;
        left = 0;
      } in
      let popped : Shared S = record {
        queue = record { items = (S.pop (S.push b S.fresh)).1; size = 0 };
        entered = 1;
        left = 1;
      } in
      (
        record {
          queue = record { items = (S.pop (S.push b S.fresh)).1; size = usize_mod - 1 };
          entered = 1;
          left = 0;
        },
        then {s = popped}
            (then {s = pushed} (then start (push_item b _))
              (pop_item b pushed (ap (λ r. r.0) (one_taken b))))
            (count_pop popped (omega arith)),
        ap (λ r. r.1) (one_taken b),
        refl,
      )
