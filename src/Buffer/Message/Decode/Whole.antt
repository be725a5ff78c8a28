-- ===== src/Buffer/Message/Decode/Whole.antt =====
-- src/buffer/ops.rs: what a sequence of gets makes of any bytes.
use secbuf.Prelude.{ℕ, ◌≡◌, refl, sym, ap, ap₂, subst, ◌∙◌, List, [], ◌∷◌, length, arith}
use secbuf.Error.{Outcome, ok, err, panic, undefined, Method, ◌>>=◌, return, bind_ok, bind_err}
use secbuf.Bytes.Order.{Bytes}
use secbuf.Buffer.{Buffer}
use secbuf.Buffer.Valid.{IsValid}
use secbuf.Buffer.Access.{advanced, advanced-IsValid}
use secbuf.Buffer.Message.{Field, Kind, kind, IsField, wire, wires, get_field, get_message}
use secbuf.Buffer.Message.Decode.{AllKinds, StandsAt, Decoded, DecodedAll, both_stand}
use secbuf.Buffer.Message.Decode.Gets.{get_field-Decoded}

-- A field, and the message behind it.
module _ (k : Kind) (ks : List Kind) (b : Buffer) (v : IsValid b) where
  abbrev all_of : Buffer → Outcome (List Field) × Buffer
  all_of = get_message (k ∷ ks)

  abbrev behind : Field → Method Buffer (List Field)
  behind f = do fs ← get_message ks; return (f ∷ fs)

  rest-Decoded :
      (f : Field)
      → kind f ≡ k
      → IsField f
      → StandsAt (wire f) b
      → get_field k b ≡ (ok f, advanced (length (wire f)) b)
      → (r : Outcome (List Field) × Buffer) → get_message ks (advanced (length (wire f)) b) ≡ r
      → DecodedAll ks (advanced (length (wire f)) b) r
      → DecodedAll (k ∷ ks) b (all_of b)
  rest-Decoded f same good there e (ok fs, d) e' (kinds, goods, next, end) =
      let (whole, joined) = both_stand (wire f) (wires fs) b v there next in
      subst (λ r. DecodedAll (k ∷ ks) b r)
        (sym (bind_ok (get_field k) behind e ∙ bind_ok (get_message ks) (λ fs. return (f ∷ fs)) e'))
        (ap₂ (λ x xs. x ∷ xs) same kinds, (good, goods), whole, end ∙ joined)
  rest-Decoded f same good there e (err x, d) e' w =
      subst (λ r. DecodedAll (k ∷ ks) b r)
        (sym
          (bind_ok (get_field k) behind e ∙ bind_err (get_message ks) (λ fs. return (f ∷ fs)) e'))
        w
  rest-Decoded f same good there e (panic, d) e' w = absurd w
  rest-Decoded f same good there e (undefined, d) e' w = absurd w

  cons-Decoded :
      Bytes b.vec.mem
      → ((c : Buffer) → IsValid c → Bytes c.vec.mem → DecodedAll ks c (get_message ks c))
      → (r : Outcome Field × Buffer) → get_field k b ≡ r
      → Decoded k b r
      → DecodedAll (k ∷ ks) b (all_of b)
  cons-Decoded m later (ok f, c) e (same, good, there, at) =
      let here : get_field k b ≡ (ok f, advanced (length (wire f)) b) =
        e ∙ ap (λ d. (ok f, d)) at in
      rest-Decoded f same good there here _ refl
        (later (advanced (length (wire f)) b) (advanced-IsValid v (length (wire f)) there.0) m)
  cons-Decoded m later (err x, c) e w =
      subst (λ r. DecodedAll (k ∷ ks) b r) (sym (bind_err (get_field k) behind e)) w
  cons-Decoded m later (panic, c) e w = absurd w
  cons-Decoded m later (undefined, c) e w = absurd w

-- Whatever bytes a valid buffer holds, a sequence of gets, of byte strings with lengths that an
-- allocation can have, either returns fields of just the kinds asked for, each within its type
-- and each string within the limit, whose format stood at the cursor within the valid bytes, and
-- ends behind it; or it returns Err and leaves a valid buffer. It never panics and never leaves
-- the allocation.
pub get_message-Decoded :
    (ks : List Kind) {b : Buffer}
    → IsValid b
    → Bytes b.vec.mem
    → AllKinds ks
    → DecodedAll ks b (get_message ks b)
get_message-Decoded [] {b} v m h =
    (refl, tt, (omega (arith, v.cursor), refl), ap (λ (p : ℕ). record b { pos = p }) (omega arith))
get_message-Decoded (k ∷ ks) {b} v m h =
    cons-Decoded k ks b v m (λ c w n. get_message-Decoded ks w n h.1) _ refl
      (get_field-Decoded k v m h.0)
