-- ===== src/FastPool/Threads/Tests.antt =====
-- Runs of two threads on a pool of lists.
use secbuf.Prelude.{
  ◌<◌, ℕ, ◌+◌, ◌*◌, ◌≤◌, ◌≡◌, refl, some, max, ◌⊎◌, [], ◌∷◌, length, replicate, arith,
}
use secbuf.Error.{ok}
use secbuf.Zeroize.Volatile.{volatile}
use secbuf.Buffer
use secbuf.Buffer.{Buffer}
use secbuf.Float.{IsPercentage}
use secbuf.Pool.Rates.{cache_hit_rate}
use secbuf.Pool.Config.{PoolConfig}
use secbuf.Pool.Idle.{AllBlank}
use secbuf.FastPool.Queue.{push, pop}
use secbuf.FastPool.{FastPool, new, push_new, acquire, acquire_shared}
use secbuf.FastPool.Tests.{list_queue, blank}
use secbuf.FastPool.State.{without_first, Thread, Shared, idle, missed, dry}
use secbuf.FastPool.Threads.{
  pop_some, count_taken, System, Move, Reached, at, opened, moves, start, then, acquire_miss,
  pop_none,
}
use secbuf.FastPool.Threads.Count.{queued, total}
use secbuf.FastPool.Threads.Blank.{AllClean, passed_on_is_wiped}
use secbuf.FastPool.Threads.Statistics.{stats_of, acquires_of, statistics_count}
use secbuf.FastPool.Threads.Population.{weigh, owned, came, went, buffers_are_kept}
use secbuf.FastPool.Threads.Snapshot.{hits_outrun_acquires}
use secbuf.FastPool.Threads.Quiet.{quiet_counter_is_right}
use secbuf.FastPool.Threads.Limit.{queue_is_limited}
use secbuf.FastPool.Threads.Progress.{called, goes_on, calls_end}
use secbuf.FastPool.Threads.Serial.{snapshot, serve, acquires}
use secbuf.FastPool.Threads.Serial.Calls.{calls_are_steps}
use secbuf.FastPool.Threads.Warm.{warm_multiplies}

abbrev config : PoolConfig
config = record { buffer_size = 3; max_pool_size = 2; min_pool_size = 1 }

abbrev made : FastPool list_queue
made = record {
  global_pool = record { items = blank ∷ []; size = 1 };
  config = config;
  allocated = 0;
  acquired = 0;
  returned = 0;
  cache_hits = 0;
}

made_by_new : new list_queue config ≡ ok made
unfolding new push_new push Buffer.new
made_by_new = refl

abbrev opening : System list_queue volatile config
opening = opened list_queue volatile config 2 made

-- The second thread starts an `acquire`.
abbrev begun : System list_queue volatile config
begun = record opening {
  shared = record (opening.shared) { acquired = 1 };
  threads =
      at list_queue volatile config idle [] [] ∷ (at list_queue volatile config missed [] [] ∷ []);
}

abbrev begins : (cap : ℕ) → Reached list_queue volatile config cap opening begun
begins cap =
    then start
      (moves (at list_queue volatile config idle [] [] ∷ []) [] (acquire_miss opening.shared []))

queue_is_limited_example : 1 + 2 ≤ max (1 + 2) (2 + 2 * 2)
queue_is_limited_example =
    queue_is_limited list_queue volatile config 2 (omega arith) 2 made made_by_new (omega arith)
      (omega arith) (begins 2)

passed_on_is_wiped_example : AllBlank (blank ∷ []) × AllClean begun.threads
passed_on_is_wiped_example =
    passed_on_is_wiped list_queue volatile config (omega arith) 2 made made_by_new (omega arith)
      (begins 1)

abbrev empty_handed : Thread
empty_handed = at list_queue volatile config dry [] []

-- Another thread takes the only buffer before this one looks.
calls_end_example :
    (1 + 1 ≤ 2)
    × ((dry ≡ idle)
        ⊎ ((m : Shared list_queue)
            → (m' : Shared list_queue) × (u : Thread) × Move list_queue volatile config 2 m
                empty_handed m' u))
calls_end_example =
    calls_end list_queue volatile config 2 {t = at list_queue volatile config missed [] []}
      {u = empty_handed} (omega arith) refl
      (goes_on called refl
        (pop_none (record (begun.shared) { queue = record { items = []; size = 1 } }) [] [] refl))

abbrev bare : PoolConfig
bare = record config { min_pool_size = 0 }

abbrev made_bare : FastPool list_queue
made_bare = record made { global_pool = record { items = []; size = 0 }; config = bare }

made_bare_by_new : new list_queue bare ≡ ok made_bare
unfolding new push_new
made_bare_by_new = refl

warm_multiplies_example :
    (m : Shared list_queue) × Reached list_queue volatile bare 2
      (opened list_queue volatile bare 2 made_bare)
      (record { shared = m; threads = replicate 2 (at list_queue volatile bare idle [] []) })
    × (queued list_queue m ≡ 2 * 2)
warm_multiplies_example =
    warm_multiplies list_queue volatile bare (omega arith) 2 made_bare made_bare_by_new refl

-- The first thread takes the only buffer before the second one, in the middle of an `acquire`, goes on.
abbrev emptied : FastPool list_queue
emptied = record made { global_pool = record { items = []; size = 0 }; acquired = 1 }

taken_alone : serve list_queue volatile acquires made [] [] ≡ some (emptied, [], blank ∷ [])
unfolding acquire acquire_shared pop
taken_alone = refl

calls_are_steps_example :
    Reached list_queue volatile config 1
      (record {
        shared = snapshot list_queue volatile made;
        threads =
            at list_queue volatile config idle [] []
            ∷ (at list_queue volatile config missed [] [] ∷ []);
      })
      (record {
        shared = snapshot list_queue volatile emptied;
        threads =
            at list_queue volatile config idle [] (blank ∷ [])
            ∷ (at list_queue volatile config missed [] [] ∷ []);
      })
calls_are_steps_example =
    calls_are_steps list_queue volatile 1 acquires made emptied [] [] [] (blank ∷ []) []
      (at list_queue volatile config missed [] [] ∷ []) (omega arith) taken_alone

-- The second thread ends its `acquire`.
abbrev ended : System list_queue volatile config
ended = record begun {
  shared = record (begun.shared) { queue = record { items = []; size = 0 } };
  threads =
      at list_queue volatile config idle [] []
      ∷ (at list_queue volatile config idle [] (blank ∷ []) ∷ []);
}

abbrev after : Reached list_queue volatile config 2 begun ended
after =
    then
      (then start (
        moves (at list_queue volatile config idle [] [] ∷ []) []
          (pop_some begun.shared blank [] [] refl)))
      (moves (at list_queue volatile config idle [] [] ∷ []) []
        (count_taken (without_first list_queue begun.shared) blank [] []))

abbrev ends : Reached list_queue volatile config 2 opening ended
ends =
    then
      (then (begins 2) (
        moves (at list_queue volatile config idle [] [] ∷ []) []
          (pop_some begun.shared blank [] [] refl)))
      (moves (at list_queue volatile config idle [] [] ∷ []) []
        (count_taken (without_first list_queue begun.shared) blank [] []))

quiet_counter_is_right_example : 0 ≡ length {A = Buffer} []
quiet_counter_is_right_example =
    quiet_counter_is_right list_queue volatile config 2 2 made (omega arith) made_by_new
      (omega arith) (omega arith) ends (refl, (refl, tt))

statistics_count_example :
    (1 ≡ acquires_of list_queue volatile config (begins 2))
    × (0
        ≤ acquires_of list_queue volatile config (begins 2)
          + acquires_of list_queue volatile config after)
    × ((0 < acquires_of list_queue volatile config after)
        ⊎ IsPercentage (
            cache_hit_rate (
              stats_of list_queue opening.shared opening.shared begun.shared ended.shared
                ended.shared)))
statistics_count_example =
    statistics_count list_queue volatile config 2 made made_by_new (begins 2) after (omega arith)
      opening.shared opening.shared ended.shared

hits_outrun_acquires_example :
    (s t : System list_queue volatile bare) × Reached list_queue volatile bare 2
      (opened list_queue volatile bare 2 made_bare)
      s
    × Reached list_queue volatile bare 2 s t
    × ((stats_of list_queue opening.shared opening.shared s.shared opening.shared t.shared).acquired
        ≡ 1)
    × ((stats_of list_queue opening.shared opening.shared s.shared opening.shared
          t.shared).cache_hits
        ≡ 7)
hits_outrun_acquires_example =
    hits_outrun_acquires list_queue volatile bare 2 1 7 made_bare made_bare_by_new refl
      (omega arith) (omega arith) opening.shared opening.shared opening.shared

-- Weighs a buffer by its bytes.
abbrev bytes_in : Buffer → ℕ
bytes_in b = b.vec.len

buffers_are_kept_example :
    weigh bytes_in []
      + total (owned bytes_in) ended.threads
      + weigh bytes_in (went list_queue volatile config ends)
    ≡ weigh bytes_in (blank ∷ []) + weigh bytes_in (came list_queue volatile config ends)
buffers_are_kept_example = buffers_are_kept list_queue volatile config 2 made ends bytes_in
