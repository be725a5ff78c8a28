-- ===== src/Examples/FastSimulation.antt =====
-- examples/network_simulation.rs: the last part of `main`, for any number of packets.
use secbuf.Prelude.{
  ℕ, zero, suc, ◌+◌, ◌-◌, ◌^◌, ◌≤◌, ◌<◌, ◌≡◌, refl, sym, ap, subst, ◌∙◌, Option, some, List, [],
  ◌∷◌, ◌++◌, length, length-append, arith,
}
use secbuf.Machine.{add_size, sub_size}
use secbuf.Error.{Outcome, ok, Method, ◌>>=◌, ◌>>◌, return, and_then, bind_ok}
use secbuf.Assert.{look}
use secbuf.Zeroize.{Zeroize}
use secbuf.Buffer
use secbuf.Buffer.{Buffer, buf_max_size}
use secbuf.Pool.Config.{PoolConfig}
use secbuf.Pool.Idle.{IsBlank, fresh, fresh-IsBlank, new_lem}
use secbuf.FastPool
use secbuf.FastPool.{FastPool, View, acquire, acquire_shared, push_new}
use secbuf.FastPool.Queue.{SegQueue, LockFreeQueue, take_first, push, pop, empty_queue}
use secbuf.FastPool.Handles.{FastPoolStats, fast_stats}
use secbuf.Examples.{Line, block_lem}
use secbuf.Examples.Packet.{packet_size}
use secbuf.Examples.Packets.{fast_packet, fast_packets, fast, fast_shown}
use secbuf.Pool.Roomy.{AllRoomy}
use secbuf.Examples.FastRounds.{
  FastServed, cached_rounds, returned-IsBlank, back, sent, fast_packet_lem,
}

AllRoomy-snoc :
    (xs : List Buffer) (b : Buffer)
    → AllRoomy packet_size xs
    → IsBlank b
    → packet_size ≤ b.vec.len
    → AllRoomy packet_size (xs ++ (b ∷ []))
AllRoomy-snoc [] b h blank room = (blank, room, tt)
AllRoomy-snoc (x ∷ xs) b h blank room = (h.0, h.1, AllRoomy-snoc xs b h.2 blank room)

module _ (S : SegQueue) where
  -- `new` fills the queue with buffers that have room.
  roomy_queue :
      (count size : ℕ) (q : LockFreeQueue S)
      → size ≤ buf_max_size
      → packet_size ≤ size
      → AllRoomy packet_size (S.items q.items)
      → (r : LockFreeQueue S) × (push_new S count size q ≡ ok r)
        × AllRoomy packet_size (S.items r.items)
        × (length (S.items r.items) ≡ length (S.items q.items) + count)
  unfolding push_new push
  roomy_queue zero size q le room roomy = (q, refl, roomy, omega arith)
  roomy_queue (suc count) size q le room roomy =
      let law = S.items-push (fresh size) q.items in
      let (r, e, more, n) = roomy_queue count size (push S (fresh size) q) le room (
        subst (λ xs. AllRoomy packet_size xs) (sym law)
          (AllRoomy-snoc (S.items q.items) (fresh size) roomy (fresh-IsBlank size le) room)) in
      (
        r,
        rw (push_new, new_lem size le) e,
        more,
        omega (arith, n, ap length law, length-append (S.items q.items) (fresh size ∷ [])),
      )

  -- The first acquire of a thread with an empty cache takes the oldest buffer of the queue.
  first_acquire :
      (p : FastPool S) (b : Buffer) (bs : List Buffer)
      → S.items p.global_pool.items ≡ b ∷ bs
      → (q : LockFreeQueue S) × (acquire S (record { pool = p; cache = [] }) ≡ (
        ok b,
        record {
          pool = record p { acquired = add_size p.acquired 1; global_pool = q };
          cache = [];
        },
      ))
  unfolding acquire acquire_shared
  first_acquire p b bs e =
      let law = S.items-pop p.global_pool.items in
      let popped : (S.pop p.global_pool.items).0 ≡ some b = ap (λ r. r.0) (law ∙ ap take_first e) in
      let q : LockFreeQueue S = record {
        items = (S.pop p.global_pool.items).1;
        size = sub_size p.global_pool.size 1;
      } in
      let took : pop S p.global_pool ≡ (some b, q) = unfold pop in rw (pop, popped) refl in
      let shared : acquire_shared S (record p { acquired = add_size p.acquired 1 })
          ≡ (ok b, record p { acquired = add_size p.acquired 1; global_pool = q }) =
        rw (acquire_shared, took)
          (ap
            (λ (r : Option Buffer × LockFreeQueue S).
              (ok b, record p { acquired = add_size p.acquired 1; global_pool = r.1 }))
            took) in
      (q, ap (λ (r : Outcome Buffer × FastPool S). (r.0, record { pool = r.1; cache = [] })) shared)

  module _ (z : Zeroize) where
    -- All rounds on a new pool: the first takes a buffer of the queue, the others that of the cache.
    fast_rounds :
        (n : ℕ) (p : FastPool S)
        → AllRoomy packet_size (S.items p.global_pool.items)
        → 0 < length (S.items p.global_pool.items)
        → p.acquired + suc n < 2 ^ 64
        → p.returned + suc n < 2 ^ 64
        → p.cache_hits + n < 2 ^ 64
        → (s : View S) × (fast_packets z S (suc n) 0 (record { pool = p; cache = [] }) ≡ (ok tt, s))
          × FastServed S (suc n) n p s.pool
    unfolding fast_packets
    fast_rounds n p roomy some_item acq ret hits = go (S.items p.global_pool.items) refl
      where
        go :
            (bs : List Buffer)
            → S.items p.global_pool.items ≡ bs
            → (s : View S) × (fast_packets z S (suc n) 0 (record { pool = p; cache = [] })
                ≡ (ok tt, s))
              × FastServed S (suc n) n p s.pool
        go [] e = absurd (omega (arith, ap length e))
        go (b ∷ bs) e =
            let (blank, room, _) = subst (λ xs. AllRoomy packet_size xs) e roomy in
            let (q, got) = first_acquire p b bs e in
            let taken : FastPool S = record p {
              acquired = add_size p.acquired 1;
              global_pool = q;
            } in
            let (blank', room') = returned-IsBlank z 0 b blank room in
            let (s, later, counts) =
              cached_rounds S z n 1 (back z 0 b blank room S taken).pool (Buffer.burn z (sent 0 b))
                blank' room' (omega arith) (omega arith) (omega arith) in
            (
              s,
              bind_ok (fast_packet z S 0) (λ _. fast_packets z S n 1)
                    (fast_packet_lem z 0 b blank room S (record { pool = p; cache = [] }) taken got)
                  ∙ later,
              record {
                allocated = counts.allocated;
                acquired = omega (arith, counts.acquired);
                returned = omega (arith, counts.returned);
                cache_hits = omega (arith, counts.cache_hits);
              },
            )

    -- The statistics of the fast pool at the end.
    pub record FastFinished (num : ℕ) (st : FastPoolStats) : Type 0 where
      pub allocated : st.allocated ≡ 0
      pub acquired : st.acquired ≡ num
      pub returned : st.returned ≡ num
      pub cache_hits : st.cache_hits ≡ num - 1

    pub fast_lem :
        (sizes : PoolConfig) (num : ℕ)
        → packet_size ≤ sizes.buffer_size
        → sizes.buffer_size ≤ buf_max_size
        → 0 < sizes.min_pool_size
        → 0 < num
        → num < 2 ^ 32
        → (st : FastPoolStats) × (fast z S sizes num ≡ ok (fast_shown st)) × FastFinished num st
    unfolding fast FastPool.new fast_stats
    fast_lem sizes zero room size some_idle some_packet small = absurd (omega arith)
    fast_lem sizes (suc n) room size some_idle some_packet small =
        let (r, e, roomy, count) =
          roomy_queue sizes.min_pool_size sizes.buffer_size (empty_queue S) size room
            (subst (λ xs. AllRoomy packet_size xs) (sym S.items-fresh) tt) in
        let p : FastPool S = record {
          global_pool = r;
          config = sizes;
          allocated = 0;
          acquired = 0;
          returned = 0;
          cache_hits = 0;
        } in
        let opened : Outcome (View S) =
          and_then (FastPool.new S sizes) (λ pool. ok (record { pool = pool; cache = [] })) in
        let made : opened ≡ ok (record { pool = p; cache = [] }) = rw (FastPool.new, e) refl in
        let (s, runs, counts) =
          fast_rounds n p roomy (omega (arith, count)) (omega arith) (omega arith) (omega arith) in
        let shows : Unit {0} → Method (View S) (List Line) =
          λ done. (do s ← look; return (fast_shown (fast_stats S s.pool))) in
        (
          fast_stats S s.pool,
          block_lem opened (do fast_packets z S (suc n) 0; shows tt) made
              (bind_ok (fast_packets z S (suc n) 0) shows runs),
          record {
            allocated = counts.allocated;
            acquired = omega (arith, counts.acquired);
            returned = omega (arith, counts.returned);
            cache_hits = omega (arith, counts.cache_hits);
          },
        )
