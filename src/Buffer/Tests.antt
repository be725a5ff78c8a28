-- ===== src/Buffer/Tests.antt =====
-- Runs of the buffer on concrete bytes.
use secbuf.Prelude.{
  ℕ, ◌-◌, ◌^◌, ◌<◌, ◌≡◌, true, List, [], ◌∷◌, get_or, drop, take, ◌++◌, replicate, arith,
}
use secbuf.Error.{ok, panic, undefined, ◌>>◌}
use secbuf.Bytes.Order.{big_endian}
use secbuf.Vec
use secbuf.Zeroize.Volatile.{volatile}
use secbuf.Buffer
use secbuf.Buffer.{Buffer, as_slice, set_pos, resize, resize_frees, burn}
use secbuf.Buffer.Outgrow.{resize_leaves_old}
use secbuf.Pool.Idle.{AllZero}
use secbuf.Buffer.Valid.{IsValid, Keeps}
use secbuf.Buffer.Access.{written}
use secbuf.Buffer.Raw.{put_bytes_unchecked}
use secbuf.Buffer.Ops.{put_bytes, get_bytes, get_bytes_ref}
use secbuf.Buffer.Simd.{put_bytes_fast}
use secbuf.Buffer.SimdCopy.{put_bytes_fast-eq-put_bytes}
use secbuf.Buffer.Message.{
  Field, u32, byte, bytes, a_u32, a_byte, a_string, some_bytes, put_message, get_message,
}
use secbuf.Buffer.Message.Codec.{get_message-put_message}
use secbuf.Buffer.Message.Decode.{DecodedAll}
use secbuf.Buffer.Message.Decode.Whole.{get_message-Decoded}
use secbuf.Buffer.Session.{start, then_call, call, put_u32_call, eat_string_call, Session-Keeps}
use secbuf.Buffer.Tape.{put, get, seek, answers}
use secbuf.Buffer.Tape.Refine.{serve_all, view, serve_all-refines}
use secbuf.Buffer.Overflow.{get_bytes_wraps}
use secbuf.Buffer.Contract.{contract_too_weak}
use secbuf.Buffer.Wipe.{burn_lem, burn-resize_keeps}

-- a buffer of twelve bytes, the first two valid, with the cursor behind the first
abbrev twelve : Buffer
twelve = record { vec = Vec.of_list (1 ∷ 2 ∷ replicate 10 0); pos = 1; len = 2 }

-- four elements in an allocation of eight
abbrev spare : Buffer
spare = record { vec = record { mem = 1 ∷ 2 ∷ 3 ∷ 4 ∷ replicate 4 0; len = 4 }; pos = 2; len = 4 }

abbrev hello : List ℕ
hello = 104 ∷ 101 ∷ 108 ∷ 108 ∷ 111 ∷ []

twelve-IsValid : IsValid twelve
twelve-IsValid = omega arith

spare-IsValid : IsValid spare
spare-IsValid = omega arith

Session-Keeps_example : Keeps (call eat_string_call (call (put_u32_call 258) twelve).1)
Session-Keeps_example =
    Session-Keeps eat_string_call twelve-IsValid (then_call (put_u32_call 258) start tt) tt

serve_all-refines_example :
    serve_all (put hello ∷ seek 1 ∷ get 5 ∷ get 9 ∷ []) twelve
    ≡ answers (put hello ∷ seek 1 ∷ get 5 ∷ get 9 ∷ []) (view twelve)
serve_all-refines_example =
    serve_all-refines (put hello ∷ seek 1 ∷ get 5 ∷ get 9 ∷ []) twelve-IsValid (omega arith)

put_bytes_fast-eq-put_bytes_example : put_bytes_fast true hello twelve ≡ put_bytes hello twelve
put_bytes_fast-eq-put_bytes_example =
    put_bytes_fast-eq-put_bytes true hello twelve-IsValid (omega arith)

get_bytes_wraps_example :
    ((get_bytes (2 ^ 64 - 1) twelve).0 ≡ undefined)
    × ((get_bytes_ref (2 ^ 64 - 1) twelve).0 ≡ undefined)
get_bytes_wraps_example = get_bytes_wraps twelve-IsValid (2 ^ 64 - 1) (omega arith) (omega arith)

contract_too_weak_example :
    let (r, c) = put_bytes_unchecked (9 ∷ 9 ∷ 9 ∷ 9 ∷ []) spare in
    (r ≡ ok tt) × (c.vec.len < c.len) × (as_slice c ≡ panic)
contract_too_weak_example =
    contract_too_weak (9 ∷ 9 ∷ 9 ∷ 9 ∷ []) spare-IsValid (omega arith) (omega arith)

burn_lem_example :
    (Vec.elements (burn volatile twelve).vec ≡ replicate 12 0)
    × (drop 12 (burn volatile twelve).vec.mem ≡ drop 12 twelve.vec.mem)
    × ((burn volatile twelve).vec.len ≡ 12)
    × ((burn volatile twelve).pos ≡ 0)
    × ((burn volatile twelve).len ≡ 0)
burn_lem_example = burn_lem volatile twelve-IsValid

resize_leaves_old_example :
    (c : Buffer) × (resize 64 spare ≡ (ok tt, c))
    × (Vec.elements c.vec ≡ take 64 (Vec.elements spare.vec) ++ replicate (64 - spare.vec.len) 0)
    × (resize_frees 64 spare ≡ spare.vec.mem ∷ [])
    × AllZero (Buffer.drop_buffer volatile c ∷ [])
resize_leaves_old_example = resize_leaves_old volatile spare-IsValid 64 (omega arith) (omega arith)

-- the third byte survives `resize` and `burn`
burn-resize_keeps_example : get_or (burn volatile (resize 1 spare).1).vec.mem 2 0 ≡ 3
burn-resize_keeps_example =
    burn-resize_keeps volatile 1 2 spare-IsValid (omega arith) (omega arith) (omega arith)

-- a u32, a byte and two bytes: seven in all
abbrev letter : List Field
letter = u32 258 ∷ byte 7 ∷ bytes (3 ∷ 4 ∷ []) ∷ []

get_message-put_message_example :
    (do put_message letter; set_pos 1; get_message (a_u32 ∷ a_byte ∷ some_bytes 2 ∷ [])) twelve
    ≡ (ok letter, written (0 ∷ 0 ∷ 1 ∷ 2 ∷ 7 ∷ 3 ∷ 4 ∷ []) twelve)
unfolding big_endian
get_message-put_message_example =
    get_message-put_message letter twelve-IsValid (omega arith, (omega arith, (tt, tt)))
      (omega arith)

-- the word 258 and the string "abc"
abbrev message : Buffer
message = record {
  vec = Vec.of_list (0 ∷ 0 ∷ 1 ∷ 2 ∷ 0 ∷ 0 ∷ 0 ∷ 3 ∷ 97 ∷ 98 ∷ 99 ∷ []);
  pos = 0;
  len = 11;
}

get_message-Decoded_example :
    DecodedAll (a_u32 ∷ a_string ∷ []) message (get_message (a_u32 ∷ a_string ∷ []) message)
get_message-Decoded_example =
    get_message-Decoded (a_u32 ∷ a_string ∷ []) {b = message} (omega arith) (omega arith)
      (omega arith)
