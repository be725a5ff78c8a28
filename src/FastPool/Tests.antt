-- ===== src/FastPool/Tests.antt =====
-- Runs of the lock-free pool on a queue of lists.
use secbuf.Prelude.{ℕ, ◌-◌, ◌≡◌, refl, true, some, List, [], ◌∷◌, ◌++◌, arith}
use secbuf.Machine.{add_size, usize_mod}
use secbuf.Error.{ok}
use secbuf.Vec
use secbuf.Zeroize.Volatile.{volatile}
use secbuf.Buffer
use secbuf.Buffer.{Buffer}
use secbuf.Pool.Idle.{AllZero, IsBlank}
use secbuf.FastPool.Queue.{SegQueue, Shared, Reached, take_first}
use secbuf.FastPool.{FastPool, View, acquire, available, drop_pooled}
use secbuf.FastPool.Interleave.{counter_underflows}
use secbuf.FastPool.Laws.{IsQueue}
use secbuf.FastPool.Idle.{IsIdle, IsView}
use secbuf.FastPool.Safety.{Returned, fast_drop_lem}
use secbuf.FastPool.Handles.{fast_stats, fast_clear, fast_clear_lem}
use secbuf.FastPool.Cache.{acquire-drop_other}

abbrev pub list_queue : SegQueue
list_queue = record {
  Queue = List Buffer;
  fresh = [];
  push = λ b q. q ++ (b ∷ []);
  pop = take_first;
  items = λ q. q;
  items-fresh = refl;
  items-push = λ b q. refl;
  items-pop = λ q. refl;
}

abbrev pub used : Buffer
used = record { vec = Vec.of_list (1 ∷ 2 ∷ 3 ∷ []); pos = 1; len = 3 }

abbrev pub blank : Buffer
blank = record { vec = Vec.of_list (0 ∷ 0 ∷ 0 ∷ []); pos = 0; len = 0 }

blank-IsBlank : IsBlank blank
blank-IsBlank = record { valid = omega arith; pos = refl; len = refl; zeros = refl }

abbrev pool : FastPool list_queue
pool = record {
  global_pool = record { items = blank ∷ []; size = 1 };
  config = record { buffer_size = 3; max_pool_size = 2; min_pool_size = 1 };
  allocated = 0;
  acquired = 1;
  returned = 0;
  cache_hits = 0;
}

abbrev other : FastPool list_queue
other = record pool { config = record { buffer_size = 9; max_pool_size = 2; min_pool_size = 1 } }

abbrev view : View list_queue
view = record { pool = pool; cache = [] }

pool-IsQueue : IsQueue list_queue pool.global_pool
pool-IsQueue = record { blank = (blank-IsBlank, tt); counted = refl }

pool-IsIdle : IsIdle list_queue pool
pool-IsIdle = record {
  queue = pool-IsQueue;
  few = omega arith;
  bounded = omega arith;
  size = omega arith;
}

view-IsView : IsView list_queue view
view-IsView = record { pool = pool-IsIdle; blank = tt; few = omega arith }

fast_drop_lem_example :
    let (freed, t) = drop_pooled list_queue volatile true (some used) view in
    AllZero freed × IsView list_queue t × Returned list_queue volatile true used view freed t
fast_drop_lem_example = fast_drop_lem list_queue volatile true used view view-IsView (omega arith)

fast_clear_lem_example :
    (freed : List (List ℕ)) × (next : FastPool list_queue) × (fast_clear list_queue volatile 2 pool
      ≡ some (freed, next))
    × AllZero freed
    × (available list_queue next ≡ 0)
    × (fast_stats list_queue next ≡ record (fast_stats list_queue pool) { available = 0 })
fast_clear_lem_example = fast_clear_lem list_queue volatile pool pool-IsQueue (omega arith)

counter_underflows_example :
    (s : Shared list_queue) × Reached list_queue s
    × (s.queue.items ≡ [])
    × (s.queue.size ≡ usize_mod - 1)
counter_underflows_example = counter_underflows list_queue blank

acquire-drop_other_example :
    let (_, s) =
      drop_pooled list_queue volatile true (some used) (record { pool = pool; cache = [] }) in
    acquire list_queue (record { pool = other; cache = s.cache }) ≡ (
      ok (Buffer.burn volatile used),
      record {
        pool = record other { acquired = add_size 1 1; cache_hits = add_size 0 1 };
        cache = [];
      },
    )
acquire-drop_other_example = acquire-drop_other list_queue volatile used pool other [] (omega arith)
