-- ===== src/Buffer/Message.antt =====
-- src/buffer/ops.rs: a whole message, field by field, and its bytes.
pub mod Codec
pub mod Decode
use mathlib.Core.List.{append-nil}
use secbuf.Prelude.{
  ℕ, zero, suc, ◌+◌, ◌^◌, ◌≤◌, ◌<◌, ◌≡◌, refl, sym, ap, ap₂, ◌∙◌, List, [], ◌∷◌, ◌++◌, map, length,
  slice, get_or, get_or-slice, take, drop, splice, splice-none, slice-splice_same, length-append,
  length-take, length-drop, max, arith,
}
use secbuf.Error.{ok, ◌>>=◌, ◌>>◌, return, Method}
use secbuf.Bytes.Order.{big_endian, length-big_endian, swap_bytes-load}
use secbuf.Buffer.{Buffer, set_pos}
use secbuf.Buffer.Valid.{IsValid}
use secbuf.Buffer.Access.{
  written, advanced, written-IsValid, advanced-IsValid, put_bytes_room, put_u32-eq-put_bytes,
  put_u64-eq-put_bytes, get_u32_room, get_u64_room, get_bytes_room,
}
use secbuf.Buffer.Ops.{
  max_string_len, put_u32, get_u32, put_u64, get_u64, put_bytes, get_bytes, put_byte, get_byte,
  put_string, get_string,
}
use secbuf.Buffer.RoundTrip.{rewound, rewind, rewound-IsValid, reread, written-written}
use secbuf.Buffer.Strings.{encoded, length-encoded, put_string_room}

-- A field, with its value; and what a reader knows of it before.
pub data Field : Type 0 where
  u32 u64 byte : ℕ → Field
  bytes string : List ℕ → Field

pub data Kind : Type 0 where
  a_u32 a_u64 a_byte a_string : Kind
  some_bytes : ℕ → Kind

abbrev pub kind : Field → Kind
kind (u32 v) = a_u32
kind (u64 v) = a_u64
kind (byte v) = a_byte
kind (bytes s) = some_bytes (length s)
kind (string s) = a_string

-- The value is one of the field's type.
abbrev pub IsField : Field → Type 0
IsField (u32 v) = v < 2 ^ 32
IsField (u64 v) = v < 2 ^ 64
IsField (byte v) = v < 256
IsField (bytes s) = Unit {0}
IsField (string s) = length s ≤ max_string_len

abbrev pub AllFields : List Field → Type 0
AllFields [] = Unit {0}
AllFields (f ∷ fs) = IsField f × AllFields fs

-- the format
abbrev pub wire : Field → List ℕ
wire (u32 v) = big_endian 4 v
wire (u64 v) = big_endian 8 v
wire (byte v) = v ∷ []
wire (bytes s) = s
wire (string s) = encoded s

abbrev pub wires : List Field → List ℕ
wires [] = []
wires (f ∷ fs) = wire f ++ wires fs

abbrev pub put_field : Field → Method Buffer (Unit {0})
put_field (u32 v) = put_u32 v
put_field (u64 v) = put_u64 v
put_field (byte v) = put_byte v
put_field (bytes s) = put_bytes s
put_field (string s) = put_string s

abbrev pub get_field : Kind → Method Buffer Field
get_field a_u32 = do v ← get_u32; return (u32 v)
get_field a_u64 = do v ← get_u64; return (u64 v)
get_field a_byte = do v ← get_byte; return (byte v)
get_field (some_bytes n) = do s ← get_bytes n; return (bytes s)
get_field a_string = do s ← get_string; return (string s)

abbrev pub put_message : List Field → Method Buffer (Unit {0})
put_message [] = return tt
put_message (f ∷ fs) = do put_field f; put_message fs

abbrev pub get_message : List Kind → Method Buffer (List Field)
get_message [] = return []
get_message (k ∷ ks) = do f ← get_field k; fs ← get_message ks; return (f ∷ fs)
