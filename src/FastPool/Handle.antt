-- ===== src/FastPool/Handle.antt =====
-- src/pool/fast.rs: what a `FastPooledBuffer`, an `Option<Buffer>` beside its pool, gives access to, the
-- length of the queue, and the default pool.
use secbuf.Prelude.{ℕ, Option, none, some}
use secbuf.Error.{Outcome, ok, panic, Method}
use secbuf.Buffer
use secbuf.Buffer.{Buffer}
use secbuf.Pool.Config
use secbuf.FastPool
use secbuf.FastPool.{FastPool}
use secbuf.FastPool.Queue.{SegQueue, LockFreeQueue}

unfoldable pub capacity : Option Buffer → Outcome ℕ
capacity none = panic
capacity (some b) = ok (Buffer.capacity b)

unfoldable pub deref : Option Buffer → Outcome Buffer
deref none = panic
deref (some b) = ok b

-- A call through the mutable reference that `deref_mut` gives.
unfoldable pub deref_mut : {A : Type 0} → Method Buffer A → Method (Option Buffer) A
deref_mut call none = (panic, none)
deref_mut call (some b) = let (r, next) = call b in (r, some next)

module _ (S : SegQueue) where
  unfoldable pub len : LockFreeQueue S → ℕ
  len q = q.size

  unfoldable pub default : Outcome (FastPool S)
  default = FastPool.new S Config.default
