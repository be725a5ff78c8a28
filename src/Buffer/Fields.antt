-- ===== src/Buffer/Fields.antt =====
-- src/buffer/core.rs: the methods that only read a field, `AsRef<[u8]>` and `Clone`.
use secbuf.Prelude.{ℕ, List}
use secbuf.Error.{Outcome}
use secbuf.Vec
use secbuf.Buffer.{Buffer, as_slice}

unfoldable pub len : Buffer → ℕ
len b = b.len

unfoldable pub pos : Buffer → ℕ
pos b = b.pos

unfoldable pub as_ref : Buffer → Outcome (List ℕ)
as_ref b = as_slice b

-- `#[derive(Clone)]`: the clone of a vector has its elements.
unfoldable pub clone : Buffer → Buffer
clone b = record b { vec = Vec.of_list (Vec.elements b.vec) }
