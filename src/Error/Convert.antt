-- ===== src/Error/Convert.antt =====
-- src/error.rs: `Display`, and the conversions from and to `std::io::Error`.
use Prim.Native.String.{String, ◌++◌}
use secbuf.Error.{
  BufferError, position_out_of_bounds, increment_too_large, size_too_big, buffer_overflow,
  invalid_state, buffer_full, buffer_empty, insufficient_space, invalid_string, invalid_data, io,
}

unfoldable pub display : BufferError → String
display position_out_of_bounds = "Position out of bounds"
display increment_too_large = "Increment too large"
display size_too_big = "Buffer size too big"
display buffer_overflow = "Buffer overflow"
display (invalid_state msg) = "Invalid state: " ++ msg
display buffer_full = "Circular buffer is full"
display buffer_empty = "Circular buffer is empty"
display insufficient_space = "Insufficient space in buffer"
display invalid_string = "Invalid string encoding"
display (invalid_data msg) = "Invalid data: " ++ msg
display (io msg) = "I/O error: " ++ msg

-- `std::io::Error` with a payload, as `new` and `other` build it
pub data ErrorKind : Type 0 where
  write_zero unexpected_eof other_kind : ErrorKind

pub data Payload : Type 0 where
  error : BufferError → Payload
  message : String → Payload

pub record IoError : Type 0 where
  pub kind : ErrorKind
  pub payload : Payload

-- `to_string` shows the payload.
abbrev to_string : IoError → String
to_string e = elim e.payload [ error err ↦ display err | message msg ↦ msg ]

unfoldable pub into_io : BufferError → IoError
into_io buffer_overflow = record { kind = write_zero; payload = error buffer_overflow }
into_io insufficient_space = record { kind = write_zero; payload = error insufficient_space }
into_io buffer_empty = record { kind = unexpected_eof; payload = error buffer_empty }
into_io (io msg) = record { kind = other_kind; payload = message msg }
into_io err = record { kind = other_kind; payload = error err }

unfoldable pub from_io : IoError → BufferError
from_io e = io (to_string e)

abbrev pub shown : BufferError → String
shown (io msg) = msg
shown err = display err
