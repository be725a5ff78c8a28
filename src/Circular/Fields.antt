-- ===== src/Circular/Fields.antt =====
-- src/circular/buffer.rs: the methods that only read a field.
use secbuf.Prelude.{ℕ}
use secbuf.Circular.{CircularBuffer}

unfoldable pub used : CircularBuffer → ℕ
used c = c.used

unfoldable pub size : CircularBuffer → ℕ
size c = c.size
