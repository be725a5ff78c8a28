-- ===== src/Error/Results.antt =====
-- src/error.rs: `ResultExt` and the macros, and the conversions from and to errors of the crate `anyhow`.
use Prim.Native.String.{String}
use secbuf.Prelude.{◌≡◌, ◌⊎◌, inl, inr}
use secbuf.Error.{BufferError, invalid_state}
use secbuf.Error.Convert.{display, IoError, into_io}

-- `std::result::Result<A, E>`: `Err` is left
abbrev pub Result : Type 0 → Type 0 → Type 0
Result E A = E ⊎ A

abbrev pub map_err : {E F A : Type 0} → (E → F) → Result E A → Result F A
map_err f (inl e) = inl (f e)
map_err f (inr a) = inr a

-- `anyhow::Error`, of a crate that the program calls and does not contain: it is made of any error,
-- and shows the text of what it is made of.
pub record Anyhow : Type 1 where
  pub Error : Type 0
  pub from : BufferError → Error
  pub to_string : Error → String
  pub to_string-from : (e : BufferError) → to_string (from e) ≡ display e

unfoldable pub result_into_io : {A : Type 0} → Result BufferError A → Result IoError A
result_into_io r = map_err into_io r

-- `buffer_op!`, with the conversion to the target type, and with `std::io::Error` for it
unfoldable pub buffer_op : {F A : Type 0} → (BufferError → F) → Result BufferError A → Result F A
buffer_op convert r = map_err convert r

unfoldable pub buffer_op_io : {A : Type 0} → Result BufferError A → Result IoError A
buffer_op_io r = map_err into_io r

-- `buffer_try!`, in a function that goes on with `rest`
unfoldable pub buffer_try :
    {F A B : Type 0} → (BufferError → F) → Result BufferError A → (A → Result F B) → Result F B
buffer_try convert (inl e) rest = inl (convert e)
buffer_try convert (inr a) rest = rest a

module _ (anyhow : Anyhow) where
  unfoldable pub from_anyhow : anyhow.Error → BufferError
  from_anyhow e = invalid_state (anyhow.to_string e)

  unfoldable pub into_anyhow : {A : Type 0} → Result BufferError A → Result anyhow.Error A
  into_anyhow r = map_err anyhow.from r
