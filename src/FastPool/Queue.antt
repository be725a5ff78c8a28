-- ===== src/FastPool/Queue.antt =====
-- src/pool/fast.rs: `LockFreeQueue`, a queue of crossbeam with a counter beside it.
use secbuf.Prelude.{ℕ, ◌+◌, ◌-◌, ◌<◌, ◌≡◌, Option, none, some, List, [], ◌∷◌, ◌++◌}
use secbuf.Machine.{add_size, sub_size}
use secbuf.Buffer.{Buffer}

-- what taking the first of a list gives
abbrev pub take_first : List Buffer → Option Buffer × List Buffer
take_first [] = (none, [])
take_first (b ∷ bs) = (some b, bs)

-- `crossbeam::queue::SegQueue`, which the program calls and does not contain: documented as an
-- unbounded first-in first-out queue.
pub record SegQueue : Type 1 where
  pub Queue : Type 0
  pub fresh : Queue
  pub push : Buffer → Queue → Queue
  pub pop : Queue → Option Buffer × Queue
  pub items : Queue → List Buffer
  pub items-fresh : items fresh ≡ []
  pub items-push : (b : Buffer) (q : Queue) → items (push b q) ≡ items q ++ (b ∷ [])
  pub items-pop : (q : Queue) → ((pop q).0, items (pop q).1) ≡ take_first (items q)

module _ (S : SegQueue) where
  pub record LockFreeQueue : Type 0 where
    pub items : S.Queue
    pub size : ℕ

  abbrev pub empty_queue : LockFreeQueue
  empty_queue = record { items = S.fresh; size = 0 }

  unfoldable pub push : Buffer → LockFreeQueue → LockFreeQueue
  push b q = record { items = S.push b q.items; size = add_size q.size 1 }

  unfoldable pub pop : LockFreeQueue → Option Buffer × LockFreeQueue
  pop q =
      let (popped, rest) = S.pop q.items in
      elim popped [
        | none ↦ (none, record q { items = rest })
        | some b ↦ (some b, record { items = rest; size = sub_size q.size 1 })
      ]

  -- The state between the two atomic actions of a call: `entered` pushes have put their item in and
  -- not counted it yet, `left` pops have taken theirs out and not counted it yet.
  pub record Shared : Type 0 where
    pub queue : LockFreeQueue
    pub entered : ℕ
    pub left : ℕ

  -- One atomic action of any thread.
  pub data Action : Shared → Shared → Type 0 where
    push_item :
        (b : Buffer) (s : Shared)
        → Action s (record s {
          queue = record (s.queue) { items = S.push b s.queue.items };
          entered = s.entered + 1;
        })
    count_push :
        (s : Shared)
        → 0 < s.entered
        → Action s (record s {
          queue = record (s.queue) { size = add_size s.queue.size 1 };
          entered = s.entered - 1;
        })
    pop_item :
        (b : Buffer) (s : Shared)
        → (S.pop s.queue.items).0 ≡ some b
        → Action s (record s {
          queue = record (s.queue) { items = (S.pop s.queue.items).1 };
          left = s.left + 1;
        })
    count_pop :
        (s : Shared)
        → 0 < s.left
        → Action s (record s {
          queue = record (s.queue) { size = sub_size s.queue.size 1 };
          left = s.left - 1;
        })

  pub data Reached : Shared → Type 0 where
    start : Reached (record { queue = empty_queue; entered = 0; left = 0 })
    then : {s t : Shared} → Reached s → Action s t → Reached t
