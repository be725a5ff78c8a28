-- ===== src/Error/Tests.antt =====
-- Runs of the error conversions, and the unit tests of src/error.rs.
use Prim.Native.Char.{code}
use Prim.Native.String.{String}
use secbuf.Prelude.{ℕ, ◌≡◌, refl, Bool, true, false, inl, inr, ◌==◌, ◌&&◌, ◌||◌, ap}
use secbuf.Error.{buffer_overflow, invalid_string}
use secbuf.Error.Convert.{ErrorKind, IoError, write_zero, display, into_io}
use secbuf.Error.Results.{Result, Anyhow, result_into_io}

-- an `anyhow::Error` that keeps the text only
abbrev text_errors : Anyhow
text_errors = record {
  Error = String;
  from = display;
  to_string = λ s. s;
  to_string-from = λ e. refl;
}

abbrev is_write_zero : ErrorKind → Bool
is_write_zero write_zero = true
is_write_zero _ = false

abbrev test_error_conversion_io : Bool
test_error_conversion_io = is_write_zero (into_io buffer_overflow).kind

-- `io_result.unwrap() == n`
abbrev unwraps_to : ℕ → Result IoError ℕ → Bool
unwraps_to n (inl e) = false
unwraps_to n (inr m) = m == n

abbrev test_result_ext : Bool
test_result_ext = unwraps_to 42 (result_into_io (inr 42))

error_tests_pass : (test_error_conversion_io ≡ true) × (test_result_ext ≡ true)
unfolding into_io result_into_io
error_tests_pass = (refl, refl)

-- `str::contains`
abbrev is_prefix : String → String → Bool
is_prefix String.[] s = true
is_prefix (String.◌∷◌ c cs) String.[] = false
is_prefix (String.◌∷◌ c cs) (String.◌∷◌ d ds) = (code c == code d) && is_prefix cs ds

abbrev contains : String → String → Bool
contains pattern String.[] = is_prefix pattern ""
contains pattern (String.◌∷◌ c cs) = is_prefix pattern (String.◌∷◌ c cs) || contains pattern cs

abbrev test_anyhow_conversion : Anyhow → Bool
test_anyhow_conversion anyhow =
    contains "Invalid string" (anyhow.to_string (anyhow.from invalid_string))

anyhow_test_passes : (anyhow : Anyhow) → test_anyhow_conversion anyhow ≡ true
unfolding display
anyhow_test_passes anyhow = ap (contains "Invalid string") (anyhow.to_string-from invalid_string)

text_errors_pass : test_anyhow_conversion text_errors ≡ true
text_errors_pass = anyhow_test_passes text_errors
