-- ===== src/Examples/Packet.antt =====
-- examples/network_simulation.rs: one packet, in any buffer with room for it.
use secbuf.Prelude.{
  ℕ, ◌+◌, ◌^◌, ◌≤◌, ◌<◌, ◌≡◌, refl, sym, ap, ap₂, ◌∙◌, List, ◌++◌, length, length-append,
  length-replicate, slice, arith,
}
use secbuf.Error.{ok, Method, ◌>>=◌, ◌>>◌, return, bind_ok}
use secbuf.Bytes.Order.{big_endian, length-big_endian, swap_bytes-load}
use secbuf.Buffer.{Buffer, set_pos}
use secbuf.Buffer.Valid.{IsValid}
use secbuf.Buffer.Ops.{put_u32, get_u32, put_bytes}
use secbuf.Buffer.Access.{
  written, advanced, written-IsValid, advanced-IsValid, put_u32-eq-put_bytes, put_bytes_room,
  get_u32_room,
}
use secbuf.Buffer.RoundTrip.{rewound, rewind, rewound-IsValid, reread, written-written}
use secbuf.Buffer.Message.Codec.{slice_parts}
use secbuf.Examples.Packets.{payload, put_packet, handle_packet}

-- the header and the payload
abbrev pub packet_size : ℕ
packet_size = 1408

pub packet_bytes : ℕ → List ℕ
packet_bytes i = big_endian 4 i ++ (big_endian 4 1400 ++ payload)

length-payload : length payload ≡ 1400
unfolding payload
length-payload = length-replicate {A = ℕ} 1400 66

pub length-packet_bytes : (i : ℕ) → length (packet_bytes i) ≡ packet_size
unfolding packet_bytes
length-packet_bytes i = omega (
  arith,
  length-append (big_endian 4 i) (big_endian 4 1400 ++ payload),
  length-append (big_endian 4 1400) payload,
  length-big_endian 4 i,
  length-big_endian 4 1400,
  length-payload,
)

module _ {b : Buffer} (v : IsValid b) where
  put_u32_room :
      (val : ℕ) → b.pos + 4 ≤ b.vec.len → put_u32 val b ≡ (ok tt, written (big_endian 4 val) b)
  put_u32_room val fits =
      put_u32-eq-put_bytes val b
      ∙ put_bytes_room v (big_endian 4 val) (omega (arith, length-big_endian 4 val))

  get_u32_at :
      (val : ℕ)
      → val < 2 ^ 32
      → b.pos + 4 ≤ b.len
      → slice b.vec.mem b.pos 4 ≡ big_endian 4 val
      → get_u32 b ≡ (ok val, advanced 4 b)
  get_u32_at val small fits e = ground (arith, get_u32_room v, e, swap_bytes-load 4 val small, fits)

-- A packet put into a buffer with room for it.
pub put_packet_room :
    (i : ℕ) {b : Buffer}
    → IsValid b
    → b.pos + packet_size ≤ b.vec.len
    → put_packet i b ≡ (ok tt, written (packet_bytes i) b)
unfolding put_packet packet_bytes
put_packet_room i {b} v fits =
    let h = big_endian 4 i in
    let l = big_endian 4 1400 in
    let four = length-big_endian 4 i in
    let four' = length-big_endian 4 1400 in
    let all = length-payload in
    let both = length-append l payload in
    let v1 = written-IsValid v h (omega (arith, four)) in
    let room : (written h b).pos + (length l + length payload) ≤ (written h b).vec.len =
      unfold written in omega (arith, four, four', all) in
    let v2 = written-IsValid v1 l (omega (arith, room)) in
    let last : (written l (written h b)).pos + length payload ≤ (written l (written h b)).vec.len =
      unfold written in omega (arith, four, four', all) in
    bind_ok (put_u32 i) (λ _. do put_u32 1400; put_bytes payload) (put_u32_room v i (omega arith))
    ∙ bind_ok (put_u32 1400) (λ _. put_bytes payload)
        (put_u32_room v1 1400 (omega (arith, room, four')))
    ∙ put_bytes_room v2 payload last
    ∙ ap (λ c. (ok tt, c)) (written-written v1 l payload room)
    ∙ ap (λ c. (ok tt, c))
        (written-written v h (l ++ payload) (omega (arith, four, four', all, both)))

-- A buffer after its packet was handled: the cursor is behind the header.
abbrev pub handled : ℕ → Buffer → Buffer
handled i b = advanced 4 (advanced 4 (rewound (packet_bytes i) b))

module _ (i : ℕ) {b : Buffer} (v : IsValid b) (start : b.pos ≡ 0) (room : packet_size ≤ b.vec.len)
    (small : i < 2 ^ 32) where
  fits : b.pos + length (packet_bytes i) ≤ b.vec.len
  fits = omega (arith, length-packet_bytes i)

  abbrev again : Buffer
  again = rewound (packet_bytes i) b

  again-IsValid : IsValid again
  again-IsValid = rewound-IsValid v (packet_bytes i) fits

  filled : again.pos + packet_size ≤ again.len
  unfolding written
  filled = omega (arith, length-packet_bytes i)

  -- the two words of the header, where they stand
  header_there :
      (slice again.vec.mem again.pos 4 ≡ big_endian 4 i)
      × (slice again.vec.mem (again.pos + 4) 4 ≡ big_endian 4 1400)
  unfolding packet_bytes
  header_there =
      let mem = again.vec.mem in
      let (front, back) =
        slice_parts mem b.pos (big_endian 4 i) (big_endian 4 1400 ++ payload)
          (reread v (packet_bytes i) fits) in
      let (next, _) =
        slice_parts mem (b.pos + length (big_endian 4 i)) (big_endian 4 1400) payload back in
      (
        ap (slice mem b.pos) (sym (length-big_endian 4 i)) ∙ front,
        ap₂ (λ k n. slice mem (b.pos + k) n) (sym (length-big_endian 4 i))
              (sym (length-big_endian 4 1400))
            ∙ next,
      )

  pub handle_packet_lem : handle_packet i b ≡ (ok (i, 1400), handled i b)
  unfolding handle_packet
  handle_packet_lem =
      let (first, second) = header_there in
      let rest : ℕ → Method Buffer (ℕ × ℕ) = λ seq. (do len ← get_u32; return (seq, len)) in
      bind_ok (put_packet i) (λ _. do set_pos 0; seq ← get_u32; rest seq)
        (put_packet_room i v (omega (arith, start)))
      ∙ bind_ok (set_pos 0) (λ _. do seq ← get_u32; rest seq)
          (ap (λ p. set_pos p (written (packet_bytes i) b)) (sym start)
            ∙ rewind v (packet_bytes i) fits)
      ∙ bind_ok get_u32 rest (get_u32_at again-IsValid i small (omega (arith, filled)) first)
      ∙ bind_ok get_u32 (λ len. return (i, len))
          (get_u32_at (advanced-IsValid again-IsValid 4 (omega (arith, filled))) 1400 (omega arith)
            (omega (arith, filled)) second)

  pub handled-IsValid : IsValid (handled i b)
  handled-IsValid =
      advanced-IsValid (advanced-IsValid again-IsValid 4 (omega (arith, filled))) 4
        (omega (arith, filled))

  pub handled-size : (handled i b).vec.len ≡ b.vec.len
  unfolding written
  handled-size = refl
