-- ===== src/Connection/Ledger.antt =====
-- src/connection.rs: the transmit queue is first in first out, within its limits, and the byte count
-- is the sum of what is queued.
use secbuf.Prelude.{
  ℕ, ◌+◌, ◌*◌, ◌≤◌, ◌<◌, ◌≡◌, refl, sym, ap, subst, ◌∙◌, ◌||◌, Option, none, some, List, [], ◌∷◌,
  ◌++◌, length, length-append, ltb, leb, if◌then◌else◌, arith,
}
use secbuf.Machine.{add_size, usize_mod}
use secbuf.Zeroize.{Zeroize}
use secbuf.Buffer.{Buffer}
use secbuf.Connection.{
  ConnectionBuffers, ConnectionBufferConfig, QueueResult, queued, refused, too_many_packets,
  too_many_bytes, with_config, queue_packet, dequeue_packet, is_queue_near_full, reset, burn,
}

abbrev pub queued_bytes : List Buffer → ℕ
queued_bytes [] = 0
queued_bytes (b ∷ bs) = b.len + queued_bytes bs

queued_bytes-append :
    (xs ys : List Buffer) → queued_bytes (xs ++ ys) ≡ queued_bytes xs + queued_bytes ys
queued_bytes-append [] ys = omega arith
queued_bytes-append (x ∷ xs) ys = omega (arith, queued_bytes-append xs ys)

-- The count is right, and neither limit is passed.
pub record IsBalanced (c : ConnectionBuffers) : Type 0 where
  pub counted : c.packet_queue_bytes ≡ queued_bytes c.packet_queue
  pub few : length c.packet_queue ≤ c.config.max_packet_queue_size
  pub light : c.packet_queue_bytes ≤ c.config.max_packet_queue_bytes

pub with_config-IsBalanced : (config : ConnectionBufferConfig) → IsBalanced (with_config config)
unfolding with_config
with_config-IsBalanced config = omega arith

-- What the transmit queue promises, without the byte count: it refuses a packet that would pass a
-- limit and otherwise puts it at the end.
unfoldable pub enqueue : ConnectionBufferConfig → Buffer → List Buffer → QueueResult × List Buffer
enqueue config buf q =
    if leb config.max_packet_queue_size (length q)
    then (refused too_many_packets, q)
    else if ltb config.max_packet_queue_bytes (queued_bytes q + buf.len)
    then (refused too_many_bytes, q)
    else (queued, q ++ (buf ∷ []))

unfoldable pub dequeue : List Buffer → Option Buffer × List Buffer
dequeue [] = (none, [])
dequeue (b ∷ q) = (some b, q)

-- queue_packet on a balanced connection answers as the bounded queue, and keeps the byte count
-- and both limits, unless the count would wrap.
pub queue_packet_refines :
    (buf : Buffer) (c : ConnectionBuffers)
    → IsBalanced c
    → c.config.max_packet_queue_bytes + buf.len < usize_mod
    → let (r, d) = queue_packet buf c in
      ((r, d.packet_queue) ≡ enqueue c.config buf c.packet_queue) × IsBalanced d
unfolding queue_packet enqueue
queue_packet_refines buf c v small = ground (
  arith,
  queued_bytes-append c.packet_queue (buf ∷ []),
  length-append c.packet_queue (buf ∷ []),
  sum,
)
  where
    sum : add_size c.packet_queue_bytes buf.len ≡ queued_bytes c.packet_queue + buf.len
    sum = omega (arith, v.counted, v.light)

-- `dequeue_packet` takes the oldest packet, and keeps the count and the limits.
pub dequeue_packet_refines :
    (c : ConnectionBuffers)
    → IsBalanced c
    → let (r, d) = dequeue_packet c in ((r, d.packet_queue) ≡ dequeue c.packet_queue) × IsBalanced d
unfolding dequeue_packet dequeue
dequeue_packet_refines c v = go c.packet_queue refl
  where
    go :
        (q : List Buffer)
        → c.packet_queue ≡ q
        → let (r, d) = dequeue_packet c in
          ((r, d.packet_queue) ≡ dequeue c.packet_queue) × IsBalanced d
    go [] e = ground (arith, e, v.counted, v.few, v.light)
    go (b ∷ q) e = ground (arith, e, v.counted, v.few, v.light)

-- `reset` and `burn` empty the queue and keep the books.
pub reset-burn-IsBalanced :
    (z : Zeroize) (c : ConnectionBuffers)
    → IsBalanced c
    → IsBalanced (reset c) × IsBalanced (burn z c)
unfolding reset burn
reset-burn-IsBalanced z c v = ground arith

-- The transmit queue counts as nearly full exactly when it holds more than 80 in 100 of either
-- limit, for limits that do not make the product wrap.
pub is_queue_near_full_lem :
    (c : ConnectionBuffers)
    → c.config.max_packet_queue_size * 80 < usize_mod
    → c.config.max_packet_queue_bytes * 80 < usize_mod
    → is_queue_near_full c ≡ (
        ltb (c.config.max_packet_queue_size * 80) (length c.packet_queue * 100)
        || ltb (c.config.max_packet_queue_bytes * 80) (c.packet_queue_bytes * 100))
unfolding is_queue_near_full
is_queue_near_full_lem c few light = ground arith

-- one call on the transmit queue, and what it brings
pub data QueueCall : Type 0 where
  queues : Buffer → QueueCall
  dequeues : QueueCall

pub data QueueReply : Type 0 where
  sent : QueueResult → QueueReply
  received : Option Buffer → QueueReply

unfoldable pub calls : List QueueCall → ConnectionBuffers → List QueueReply
calls [] c = []
calls (queues b ∷ qs) c = let (r, d) = queue_packet b c in sent r ∷ calls qs d
calls (dequeues ∷ qs) c = let (r, d) = dequeue_packet c in received r ∷ calls qs d

unfoldable pub queue_calls : ConnectionBufferConfig → List QueueCall → List Buffer → List QueueReply
queue_calls config [] q = []
queue_calls config (queues b ∷ qs) q =
    let (r, q') = enqueue config b q in sent r ∷ queue_calls config qs q'
queue_calls config (dequeues ∷ qs) q =
    let (r, q') = dequeue q in received r ∷ queue_calls config qs q'

-- Every packet is small enough for the count not to wrap.
abbrev pub AllLight : ℕ → List QueueCall → Type 0
AllLight limit [] = Unit {0}
AllLight limit (queues b ∷ qs) = (limit + b.len < usize_mod) × AllLight limit qs
AllLight limit (dequeues ∷ qs) = AllLight limit qs

config-queue_packet : (b : Buffer) (c : ConnectionBuffers) → (queue_packet b c).1.config ≡ c.config
unfolding queue_packet
config-queue_packet b c = ground arith

config-dequeue_packet : (c : ConnectionBuffers) → (dequeue_packet c).1.config ≡ c.config
unfolding dequeue_packet
config-dequeue_packet c = ground arith

-- No sequence of queue_packet and dequeue_packet calls, with packets that do not make the byte
-- count wrap, tells the transmit queue of a balanced connection from the bounded packet queue.
pub calls_refine :
    (qs : List QueueCall) (c : ConnectionBuffers)
    → IsBalanced c
    → AllLight c.config.max_packet_queue_bytes qs
    → calls qs c ≡ queue_calls c.config qs c.packet_queue
unfolding calls queue_calls
calls_refine [] c v light = refl
calls_refine (queues b ∷ qs) c v light =
    let (same, w) = queue_packet_refines b c v light.0 in
    let d = (queue_packet b c).1 in
    let ih : calls qs d ≡ queue_calls d.config qs d.packet_queue =
      calls_refine qs d w (
        subst (λ k. AllLight k.max_packet_queue_bytes qs) (sym (config-queue_packet b c))
          light.1) in
    ap (λ r. sent (queue_packet b c).0 ∷ r) ih
    ∙ ap (λ k. sent (queue_packet b c).0 ∷ queue_calls k qs d.packet_queue)
        (config-queue_packet b c)
    ∙ ap (λ (r : QueueResult × List Buffer). sent r.0 ∷ queue_calls c.config qs r.1) same
calls_refine (dequeues ∷ qs) c v light =
    let (same, w) = dequeue_packet_refines c v in
    let d = (dequeue_packet c).1 in
    let ih : calls qs d ≡ queue_calls d.config qs d.packet_queue =
      calls_refine qs d w
        (subst (λ k. AllLight k.max_packet_queue_bytes qs) (sym (config-dequeue_packet c)) light) in
    ap (λ r. received (dequeue_packet c).0 ∷ r) ih
    ∙ ap (λ k. received (dequeue_packet c).0 ∷ queue_calls k qs d.packet_queue)
        (config-dequeue_packet c)
    ∙ ap (λ (r : Option Buffer × List Buffer). received r.0 ∷ queue_calls c.config qs r.1) same
