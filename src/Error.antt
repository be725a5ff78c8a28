-- ===== src/Error.antt =====
-- src/error.rs: `BufferError`, `Result`, and the conversions from and to `std::io::Error`.
mod Convert
mod Results
mod Tests
use Prim.Native.String.{String}
use secbuf.Prelude.{ℕ, ◌≡◌, refl, ap, Bool, true, false}

-- `enum BufferError`
pub data BufferError : Type 0 where
  position_out_of_bounds : BufferError
  increment_too_large : BufferError
  size_too_big : BufferError
  buffer_overflow : BufferError
  invalid_state : String → BufferError
  buffer_full : BufferError
  buffer_empty : BufferError
  insufficient_space : BufferError
  invalid_string : BufferError
  invalid_data : String → BufferError
  io : String → BufferError

-- How a call ends: it returns `Ok` or `Err`, it panics, or it reads or writes memory that it does
-- not own, which Rust leaves undefined.
pub data Outcome {ℓ} (A : Type ℓ) : Type ℓ where
  ok : A → Outcome A
  err : BufferError → Outcome A
  panic : Outcome A
  undefined : Outcome A

-- A method with `&mut self` returns its result and the state that it leaves, whatever the result.
abbrev pub Method : Type 0 → Type 0 → Type 0
Method S A = S → Outcome A × S

infixl 5 ◌>>=◌ ◌>>◌
abbrev pub ◌>>=◌ : {S A B : Type 0} → Method S A → (A → Method S B) → Method S B
◌>>=◌ m f s =
    let (r, t) = m s in
    elim r [ ok a ↦ f a t | err e ↦ (err e, t) | panic ↦ (panic, t) | undefined ↦ (undefined, t) ]

abbrev pub ◌>>◌ : {S A B : Type 0} → Method S A → Method S B → Method S B
m >> k = m >>= λ _. k

-- A call that succeeds, before the rest.
pub bind_ok :
    {S A B : Type 0} (m : Method S A) (f : A → Method S B) {s t : S} {a : A}
    → m s ≡ (ok a, t)
    → (◌>>=◌ m f) s ≡ f a t
bind_ok m f {s} {t} {a} e = rw (◌>>=◌, e) (ap (f a) (ap (λ p. p.1) e))

-- A call that returns `Err` ends the rest.
pub bind_err :
    {S A B : Type 0} (m : Method S A) (f : A → Method S B) {s t : S} {e : BufferError}
    → m s ≡ (err e, t)
    → (◌>>=◌ m f) s ≡ (err e, t)
bind_err m f {s} {t} {e} h = rw (◌>>=◌, h) (ap (λ p. (err e, p.1)) h)

-- `Ok(a)` and `return Err(e)`, with the state unchanged.
abbrev pub return : {S A : Type 0} → A → Method S A
return a s = (ok a, s)

abbrev pub throw : {S A : Type 0} → BufferError → Method S A
throw e s = (err e, s)

-- A computation that changes no state, inside a method.
abbrev pub lift : {S A : Type 0} → Outcome A → Method S A
lift r s = (r, s)

abbrev pub and_then : {A B : Type 0} → Outcome A → (A → Outcome B) → Outcome B
and_then (ok a) f = f a
and_then (err e) f = err e
and_then panic f = panic
and_then undefined f = undefined
