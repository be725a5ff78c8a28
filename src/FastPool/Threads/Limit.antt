-- ===== src/FastPool/Threads/Limit.antt =====
-- src/pool/fast.rs: how many buffers the queue can hold, whatever the order of the threads' steps.
use secbuf.Prelude.{
  ℕ, zero, suc, ◌+◌, ◌*◌, ◌%◌, ◌≤◌, ◌<◌, ◌≡◌, refl, max, List, [], ◌∷◌, ◌++◌, replicate, arith,
}
use secbuf.Machine.{usize_mod}
use secbuf.Error.{ok}
use secbuf.Zeroize.{Zeroize}
use secbuf.Buffer.{buf_max_size}
use secbuf.Pool.Config.{PoolConfig}
use secbuf.FastPool.Queue.{SegQueue}
use secbuf.FastPool.{FastPool, new}
use secbuf.FastPool.State.{Phase, Thread, idle}
use secbuf.FastPool.Threads.{System, Step, Reached, at, opened, moves, start, then}
use secbuf.FastPool.Threads.Count.{
  uncounted, untaken, total, total-append, queued, IsCounted, Move-IsCounted,
}
use secbuf.FastPool.Threads.Opened.{new-IsQueue}
use secbuf.FastPool.Threads.Bound.{budget, load, IsWithin, Move-IsWithin}

abbrev AllLoaded : ℕ → List Thread → Type 0
AllLoaded cap [] = Unit {0}
AllLoaded cap (t ∷ ts) = (load t.phase ≤ cap) × AllLoaded cap ts

AllLoaded-split :
    (cap : ℕ) (t : Thread) (xs ys : List Thread)
    → AllLoaded cap (xs ++ (t ∷ ys))
    → AllLoaded cap xs × (load t.phase ≤ cap) × AllLoaded cap ys
AllLoaded-split cap t [] ys h = (tt, h.0, h.1)
AllLoaded-split cap t (x ∷ xs) ys h =
    let (a, b, c) = AllLoaded-split cap t xs ys h.1 in ((h.0, a), b, c)

AllLoaded-join :
    (cap : ℕ) (t : Thread) (xs ys : List Thread)
    → AllLoaded cap xs
    → load t.phase ≤ cap
    → AllLoaded cap ys
    → AllLoaded cap (xs ++ (t ∷ ys))
AllLoaded-join cap t [] ys a b c = (b, c)
AllLoaded-join cap t (x ∷ xs) ys a b c = (a.0, AllLoaded-join cap t xs ys a.1 b c)

abbrev pub caps : ℕ → List Thread → ℕ
caps cap = total (λ t. cap)

abbrev pub pushes : List Thread → ℕ
pushes = total (λ t. uncounted t.phase)

abbrev pub pops_left : List Thread → ℕ
pops_left = total (λ t. untaken t.phase)

abbrev pub budgets : List Thread → ℕ
budgets = total (λ t. budget t.phase)

untaken_few : (p : Phase) → untaken p ≤ 1
untaken_few p = ground arith

-- What the threads have on their hands is within their shares.
loads_few :
    (cap : ℕ) (ts : List Thread)
    → 0 < cap
    → AllLoaded cap ts
    → (pushes ts + budgets ts ≤ caps cap ts) × (pops_left ts ≤ caps cap ts)
loads_few cap [] some_cap h = omega arith
loads_few cap (t ∷ ts) some_cap h =
    omega (arith, h.0, untaken_few t.phase, loads_few cap ts some_cap h.1)

-- The totals, with one thread apart.
totals :
    (cap : ℕ) (xs : List Thread) (t : Thread) (ys : List Thread)
    → let ts = xs ++ (t ∷ ys) in
      (pushes ts ≡ pushes xs + (uncounted t.phase + pushes ys))
      × (pops_left ts ≡ pops_left xs + (untaken t.phase + pops_left ys))
      × (budgets ts ≡ budgets xs + (budget t.phase + budgets ys))
      × (caps cap ts ≡ caps cap xs + (cap + caps cap ys))
totals cap xs t ys = (
  total-append (λ t. uncounted t.phase) xs (t ∷ ys),
  total-append (λ t. untaken t.phase) xs (t ∷ ys),
  total-append (λ t. budget t.phase) xs (t ∷ ys),
  total-append (λ t. cap) xs (t ∷ ys),
)

module _ (S : SegQueue) (z : Zeroize) (config : PoolConfig) (cap : ℕ) (some_cap : 0 < cap) where
  pub record IsBounded (n : ℕ) (s : System S z config) : Type 0 where
    pub counted :
        (s.shared.queue.size + pushes s.threads) % usize_mod
        ≡ (queued S s.shared + pops_left s.threads) % usize_mod
    pub size : s.shared.queue.size < usize_mod
    pub loaded : AllLoaded cap s.threads
    pub bound :
        queued S s.shared + budgets s.threads + cap
        ≤ max (config.min_pool_size + cap) (config.max_pool_size + caps cap s.threads)
    pub all : caps cap s.threads ≡ n

  Step-IsBounded :
      {s s' : System S z config} (n : ℕ)
      → config.min_pool_size + config.max_pool_size + n * 2 < usize_mod
      → Step S z config cap s s'
      → IsBounded n s
      → IsBounded n s'
  Step-IsBounded n roomy (moves before after {m} {m'} {t} {t'} mv) v =
      let (a, one, b) = AllLoaded-split cap t before after v.loaded in
      let few_before = loads_few cap before some_cap a in
      let few_after = loads_few cap after some_cap b in
      let x : ℕ = pushes before + pushes after in
      let y : ℕ = pops_left before + pops_left after in
      let r : ℕ = budgets before + budgets after in
      let l : ℕ = caps cap before + caps cap after in
      let c : IsCounted S m t x y = omega (arith, v.counted, totals cap before t after) in
      let w : IsWithin S z config cap m t r l = record {
        size = v.size;
        loaded = one;
        bound = omega (arith, v.bound, totals cap before t after);
      } in
      let c' : IsCounted S m' t' x y = Move-IsCounted S z config x y mv c in
      let w' =
        Move-IsWithin S z config cap x y r l some_cap (omega (arith, few_before, few_after))
          (omega (arith, few_before, few_after))
          (omega (arith, roomy, v.all, totals cap before t after)) mv c w in
      record {
        counted = omega (arith, c', totals cap before t' after);
        size = w'.size;
        loaded = AllLoaded-join cap t' before after a w'.loaded b;
        bound = omega (arith, w'.bound, totals cap before t' after);
        all = omega (arith, v.all, totals cap before t after, totals cap before t' after);
      }

  Reached-IsBounded :
      {s s' : System S z config} (n : ℕ)
      → config.min_pool_size + config.max_pool_size + n * 2 < usize_mod
      → IsBounded n s
      → Reached S z config cap s s'
      → IsBounded n s'
  Reached-IsBounded n roomy v start = v
  Reached-IsBounded n roomy v (then p q) = Step-IsBounded n roomy q (Reached-IsBounded n roomy v p)

  at_rest :
      (n : ℕ)
      → let ts = replicate n (at S z config idle [] []) in
        AllLoaded cap ts
        × (pushes ts ≡ 0)
        × (pops_left ts ≡ 0)
        × (budgets ts ≡ 0)
        × (caps cap ts ≡ n * cap)
  at_rest zero = (tt, refl, refl, refl, omega arith)
  at_rest (suc n) =
      let (a, b, c, d, e) = at_rest n in
      ((omega arith, a), omega (arith, b), omega (arith, c), omega (arith, d), grind (arith, e))

  -- What holds of a pool that `new` has made holds whatever the threads do with it.
  pub opened-IsBounded :
      (n : ℕ) (pool : FastPool S) {s : System S z config}
      → new S config ≡ ok pool
      → config.buffer_size ≤ buf_max_size
      → config.min_pool_size + config.max_pool_size + n * cap * 2 < usize_mod
      → Reached S z config cap (opened S z config n pool) s
      → IsBounded (n * cap) s
  opened-IsBounded n pool made size roomy path =
      let (q, few) = new-IsQueue S config pool made size (omega (arith, roomy)) in
      let (a, b, c, d, e) = at_rest n in
      let v : IsBounded (n * cap) (opened S z config n pool) = record {
        counted = omega (arith, q.counted, b, c);
        size = omega (arith, roomy, few);
        loaded = a;
        bound = omega (arith, q.counted, few, d);
        all = e;
      } in
      Reached-IsBounded (n * cap) roomy v path

  -- In whatever order n threads take the steps of their calls on a pool that new has made,
  -- warming it to cap at most: with cap at least 1, a buffer size within the maximum and no
  -- counter near 2^64, the queue holds at most the larger of min_pool_size and max_pool_size +
  -- (n - 1) * cap buffers.
  pub queue_is_limited :
      (n : ℕ) (pool : FastPool S) {s : System S z config}
      → new S config ≡ ok pool
      → config.buffer_size ≤ buf_max_size
      → config.min_pool_size + config.max_pool_size + n * cap * 2 < usize_mod
      → Reached S z config cap (opened S z config n pool) s
      → queued S s.shared + cap ≤ max (config.min_pool_size + cap) (config.max_pool_size + n * cap)
  queue_is_limited n pool made size roomy path =
      let w = opened-IsBounded n pool made size roomy path in omega (arith, w.bound, w.all)
