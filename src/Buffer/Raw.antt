-- ===== src/Buffer/Raw.antt =====
-- src/buffer/unsafe_ops.rs: the unchecked operations. Their `debug_assert!` is not compiled into
-- the release profile. An access outside the allocation is undefined.
use secbuf.Prelude.{ℕ, List, length}
use secbuf.Machine.{add_size}
use secbuf.Error.{ok, err, panic, undefined, Method, ◌>>=◌, ◌>>◌, return}
use secbuf.Vec
use secbuf.Bytes.{store, load, swap_bytes}
use secbuf.Buffer.{Buffer, move_write_pos}

-- A write through `self.data.as_mut_ptr().add(self.pos)`.
unfoldable pub write_at_pos : List ℕ → Method Buffer (Unit {0})
write_at_pos bs b = elim (Vec.write_raw b.pos bs b.vec) [
  | ok v ↦ (ok tt, record b { vec = v })
  | err e ↦ (err e, b)
  | panic ↦ (panic, b)
  | undefined ↦ (undefined, b)
]

-- A read through `self.data.as_ptr().add(self.pos)`.
unfoldable pub read_at_pos : ℕ → Method Buffer (List ℕ)
read_at_pos n b = (Vec.read_raw b.pos n b.vec, b)

abbrev pub advance_write : ℕ → Method Buffer (Unit {0})
advance_write n b = (ok tt, move_write_pos (add_size b.pos n) b)

abbrev pub advance_read : ℕ → Method Buffer (Unit {0})
advance_read n b = (ok tt, record b { pos = add_size b.pos n })

unfoldable pub put_u32_unchecked : ℕ → Method Buffer (Unit {0})
put_u32_unchecked val = do write_at_pos (store 4 (swap_bytes 4 val)); advance_write 4

unfoldable pub get_u32_unchecked : Method Buffer ℕ
get_u32_unchecked = do val ← read_at_pos 4; advance_read 4; return (swap_bytes 4 (load val))

unfoldable pub put_u64_unchecked : ℕ → Method Buffer (Unit {0})
put_u64_unchecked val = do write_at_pos (store 8 (swap_bytes 8 val)); advance_write 8

unfoldable pub get_u64_unchecked : Method Buffer ℕ
get_u64_unchecked = do val ← read_at_pos 8; advance_read 8; return (swap_bytes 8 (load val))

unfoldable pub put_bytes_unchecked : List ℕ → Method Buffer (Unit {0})
put_bytes_unchecked bytes = do write_at_pos bytes; advance_write (length bytes)

unfoldable pub get_bytes_unchecked : ℕ → Method Buffer (List ℕ)
get_bytes_unchecked len = do bytes ← read_at_pos len; advance_read len; return bytes
