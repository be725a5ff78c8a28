-- ===== src/Zeroize.antt =====
-- The crate `zeroize`, which the program calls and does not contain: its documented effect on a
-- byte slice and on a `Vec<u8>`.
pub mod Volatile
use secbuf.Prelude.{ℕ, ◌≡◌, List, length, replicate}
use secbuf.Vec.{Vec, capacity}

pub record Zeroize : Type 0 where
  -- `<[u8]>::zeroize`
  pub slice : List ℕ → List ℕ
  -- `Vec::zeroize`, which clears the vector and wipes the entire capacity
  pub vec : Vec → Vec
  pub slice-eq : (bs : List ℕ) → slice bs ≡ replicate (length bs) 0
  pub vec-mem : (v : Vec) → (vec v).mem ≡ replicate (capacity v) 0
  pub vec-len : (v : Vec) → (vec v).len ≡ 0
