-- ===== src/Pool/Handle.antt =====
-- src/pool/standard.rs: what a `PooledBuffer`, an `Option<Buffer>` beside its pool, gives access to, and
-- the default pool.
use secbuf.Prelude.{ℕ, Option, none, some}
use secbuf.Error.{Outcome, ok, panic, Method}
use secbuf.Buffer
use secbuf.Buffer.{Buffer}
use secbuf.Pool
use secbuf.Pool.{BufferPool}
use secbuf.Pool.Config

unfoldable pub default : Outcome BufferPool
default = Pool.new Config.default

unfoldable pub capacity : Option Buffer → Outcome ℕ
capacity none = panic
capacity (some b) = ok (Buffer.capacity b)

unfoldable pub deref : Option Buffer → Outcome Buffer
deref none = panic
deref (some b) = ok b

-- A call through the mutable reference that `deref_mut` gives.
unfoldable pub deref_mut : {A : Type 0} → Method Buffer A → Method (Option Buffer) A
deref_mut call none = (panic, none)
deref_mut call (some b) = let (r, next) = call b in (r, some next)
