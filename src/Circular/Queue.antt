-- ===== src/Circular/Queue.antt =====
-- A ring seen as a queue: the bytes that it holds, oldest first.
pub mod Refine
pub mod Write
pub mod Gather
pub mod Read
pub mod ZeroCopy
pub mod Stream
use secbuf.Prelude.{
  ℕ, zero, suc, ◌+◌, ◌-◌, ◌≤◌, ◌<◌, ◌≡◌, refl, ap, ap₂, ◌∙◌, Option, none, some, List, [], ◌∷◌,
  ◌++◌, length, get_or, get_or_ext, replicate, arith,
}
use secbuf.Circular.{CircularBuffer}
use secbuf.Circular.Valid.{turn}

-- `f 0`, `f 1`, … : `n` of them
abbrev pub tabulate : ℕ → (ℕ → ℕ) → List ℕ
tabulate zero f = []
tabulate (suc n) f = f 0 ∷ tabulate n (λ i. f (suc i))

pub length-tabulate : (n : ℕ) (f : ℕ → ℕ) → length (tabulate n f) ≡ n
length-tabulate zero f = refl
length-tabulate (suc n) f = ap suc (length-tabulate n (λ i. f (suc i)))

pub get_or-tabulate : (n : ℕ) (f : ℕ → ℕ) (i : ℕ) → i < n → get_or (tabulate n f) i 0 ≡ f i
get_or-tabulate zero f i h = absurd (omega arith)
get_or-tabulate (suc n) f zero h = refl
get_or-tabulate (suc n) f (suc i) h = get_or-tabulate n (λ i. f (suc i)) i (omega arith)

-- the `n` bytes of `mem` from `start` on, going round at `size`
abbrev pub round_trip : List ℕ → ℕ → ℕ → ℕ → List ℕ
round_trip mem size start n = tabulate n (λ i. get_or mem (turn size (start + i)) 0)

abbrev pub memory : CircularBuffer → List ℕ
memory c = elim c.store [ none ↦ [] | some mem ↦ mem ]

abbrev pub contents : CircularBuffer → List ℕ
contents c = round_trip (memory c) c.size c.read_pos c.used
