-- ===== src/Examples.antt =====
-- examples/*.rs: the three example programs, as clients of the library. Each `main` is its result and
-- what it prints: for each `println!` that shows values, those values. The fixed texts and the times
-- that are measured are left out.
pub mod Basic
pub mod Streams
pub mod Packets
pub mod Packet
pub mod Rounds
pub mod Simulation
pub mod FastRounds
pub mod FastSimulation
pub mod Network
pub mod Drain
pub mod Fill
mod Tests
use Prim.Native.Char.{code}
use Prim.Native.String.{String}
use secbuf.Prelude.{ℕ, ◌≡◌, ap, List, [], ◌∷◌}
use secbuf.Error.{Outcome, ok, Method, and_then}
use secbuf.Float.{F64}

-- a number, bytes through `String::from_utf8_lossy` (ASCII here), and an f64
pub data Shown : Type 0 where
  number : ℕ → Shown
  text : List ℕ → Shown
  rate : F64 → Shown

abbrev pub Line : Type 0
Line = List Shown

-- `b"..."`
abbrev pub codes : String → List ℕ
codes String.[] = []
codes (String.◌∷◌ c s) = code c ∷ codes s

-- A variable that lives to the end of its block, from the call that makes it.
abbrev pub block : {S A : Type 0} → Outcome S → Method S A → Outcome A
block made body = and_then made (λ s. (body s).0)

pub block_lem :
    {S A : Type 0} (made : Outcome S) (body : Method S A) {s t : S} {a : A}
    → made ≡ ok s
    → body s ≡ (ok a, t)
    → block made body ≡ ok a
block_lem made body e f = rw e (ap (λ r. r.0) f)
