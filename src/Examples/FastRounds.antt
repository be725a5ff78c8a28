-- ===== src/Examples/FastRounds.antt =====
-- examples/network_simulation.rs: what the rounds without a pool and on the fast pool make of it.
use secbuf.Prelude.{ℕ, zero, suc, ◌+◌, ◌^◌, ◌≤◌, ◌<◌, ◌≡◌, refl, ap, ◌∙◌, [], ◌∷◌, arith}
use secbuf.Machine.{add_size}
use secbuf.Error.{ok, ◌>>=◌, lift, bind_ok}
use secbuf.Zeroize.{Zeroize}
use secbuf.Buffer
use secbuf.Buffer.{Buffer, buf_max_size}
use secbuf.Buffer.Access.{written, written-IsValid}
use secbuf.Buffer.Wipe.{burn_lem}
use secbuf.Pool.Idle.{IsBlank, burned-IsBlank, fresh-IsBlank, new_lem}
use secbuf.FastPool.{FastPool, View, acquire, drop_pooled}
use secbuf.FastPool.Queue.{SegQueue}
use secbuf.Examples.{block_lem}
use secbuf.Examples.Packet.{packet_size, packet_bytes, length-packet_bytes, put_packet_room}
use secbuf.Examples.Packets.{put_packet, fresh_packets, fast_return, fast_packet, fast_packets}

-- A round with a new buffer: nothing fails.
pub fresh_packets_lem : (n i : ℕ) → fresh_packets n i ≡ ok tt
unfolding fresh_packets
fresh_packets_lem zero i = refl
fresh_packets_lem (suc n) i =
    let blank = fresh-IsBlank 1500 (omega arith) in
    let done =
      block_lem (Buffer.new 1500) (put_packet i) (new_lem 1500 (omega arith))
        (put_packet_room i blank.valid (omega arith)) in
    rw done (fresh_packets_lem n (i + 1))

-- a buffer after its packet, and when it comes back
abbrev pub sent : ℕ → Buffer → Buffer
sent i b = written (packet_bytes i) b

module _ (z : Zeroize) (i : ℕ) (b : Buffer) (blank : IsBlank b)
    (roomy : packet_size ≤ b.vec.len) where
  sent_ok : put_packet i b ≡ (ok tt, sent i b)
  sent_ok = put_packet_room i blank.valid (omega (arith, blank.pos))

  pub returned-IsBlank :
      IsBlank (Buffer.burn z (sent i b)) × (packet_size ≤ (Buffer.burn z (sent i b)).vec.len)
  returned-IsBlank =
      let v =
        written-IsValid blank.valid (packet_bytes i)
          (omega (arith, blank.pos, length-packet_bytes i)) in
      let (_, _, len, _, _) = burn_lem z v in
      let same : (sent i b).vec.len ≡ b.vec.len = unfold written in refl in
      (burned-IsBlank z (sent i b) v, omega (arith, len, same, roomy))

  module _ (S : SegQueue) where
    abbrev pub back : FastPool S → View S
    back pool = record {
      pool = record pool { returned = add_size pool.returned 1 };
      cache = Buffer.burn z (sent i b) ∷ [];
    }

    -- A round on a buffer that leaves the thread's cache empty.
    pub fast_packet_lem :
        (s : View S) (pool : FastPool S)
        → acquire S s ≡ (ok b, record { pool = pool; cache = [] })
        → fast_packet z S i s ≡ (ok tt, back pool)
    unfolding fast_packet drop_pooled
    fast_packet_lem s pool got =
        bind_ok (acquire S)
          (λ packet. (do
            freed ← fast_return z S (put_packet i packet).1
            lift (put_packet i packet).0))
          got
        ∙ bind_ok (fast_return z S (put_packet i b).1) (λ freed. lift (put_packet i b).0)
            {s = record { pool = pool; cache = [] }} given_back
        ∙ ap (λ r. (r.0, back pool)) sent_ok
      where
        given_back :
            fast_return z S (put_packet i b).1 (record { pool = pool; cache = [] })
            ≡ (ok [], back pool)
        given_back = ap (λ r. fast_return z S r.1 (record { pool = pool; cache = [] })) sent_ok

module _ (S : SegQueue) where
  -- `p` after `n` rounds, `hits` of them on the buffer of the cache, and none allocated
  pub record FastServed (n hits : ℕ) (p q : FastPool S) : Type 0 where
    pub allocated : q.allocated ≡ p.allocated
    pub acquired : q.acquired ≡ p.acquired + n
    pub returned : q.returned ≡ p.returned + n
    pub cache_hits : q.cache_hits ≡ p.cache_hits + hits

  module _ (z : Zeroize) where
    -- Once the cache holds a buffer, each round takes that one and puts it back.
    pub cached_rounds :
        (n i : ℕ) (p : FastPool S) (b : Buffer)
        → IsBlank b
        → packet_size ≤ b.vec.len
        → p.acquired + n < 2 ^ 64
        → p.returned + n < 2 ^ 64
        → p.cache_hits + n < 2 ^ 64
        → (s : View S) × (fast_packets z S n i (record { pool = p; cache = b ∷ [] }) ≡ (ok tt, s))
          × FastServed n n p s.pool
    unfolding fast_packets
    cached_rounds zero i p b blank roomy acq ret hits = (
      record { pool = p; cache = b ∷ [] },
      refl,
      record {
        allocated = refl;
        acquired = omega arith;
        returned = omega arith;
        cache_hits = omega arith;
      },
    )
    cached_rounds (suc n) i p b blank roomy acq ret hits =
        let taken : FastPool S = record p {
          acquired = add_size p.acquired 1;
          cache_hits = add_size p.cache_hits 1;
        } in
        let (blank', roomy') = returned-IsBlank z i b blank roomy in
        let next = (back z i b blank roomy S taken).pool in
        let (s, later, counts) =
          cached_rounds n (i + 1) next (Buffer.burn z (sent i b)) blank' roomy' (omega arith)
            (omega arith) (omega arith) in
        (
          s,
          bind_ok (fast_packet z S i) (λ _. fast_packets z S n (i + 1))
                (fast_packet_lem z i b blank roomy S (record { pool = p; cache = b ∷ [] }) taken
                  (unfold acquire in refl))
              ∙ later,
          record {
            allocated = counts.allocated;
            acquired = omega (arith, counts.acquired);
            returned = omega (arith, counts.returned);
            cache_hits = omega (arith, counts.cache_hits);
          },
        )
