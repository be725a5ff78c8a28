-- ===== src/Circular/Tests.antt =====
-- Runs of the ring on concrete bytes.
use secbuf.Prelude.{
  ℕ, ◌≡◌, refl, true, false, none, some, List, [], ◌∷◌, ◌++◌, length, min, drop, splice, replicate,
  arith,
}
use secbuf.Error.{ok}
use secbuf.Zeroize.Volatile.{volatile}
use secbuf.Circular.{CircularBuffer, Range, wrap, available}
use secbuf.Circular.Ops.{
  write, read, read_ptrs, copy_in, copy_out, spread, gather, incr_write, incr_read, free, burn_free,
  bytes_of,
}
use secbuf.Circular.Valid.{IsValid}
use secbuf.Circular.Queue.{contents, memory}
use secbuf.Circular.Queue.Write.{enqueue, write_refines}
use secbuf.Circular.Queue.Read.{front, read_refines}
use secbuf.Circular.Queue.ZeroCopy.{write_in_place, write_in_place-eq-write, read_ptrs_refines}
use secbuf.Circular.Queue.Stream.{Call, writes, reads, run, stream_in_order}
use secbuf.Circular.Lifecycle.{free_lem}

-- four bytes; 7, 8 and 9 stand round the end
abbrev round : CircularBuffer
round = record {
  store = some (9 ∷ 0 ∷ 7 ∷ 8 ∷ []);
  size = 4;
  used = 3;
  read_pos = 2;
  write_pos = 1;
  is_pow2 = true;
}

-- five bytes, 1 and 2 held
abbrev five : CircularBuffer
five = record {
  store = some (0 ∷ 0 ∷ 1 ∷ 2 ∷ 0 ∷ []);
  size = 5;
  used = 2;
  read_pos = 2;
  write_pos = 4;
  is_pow2 = false;
}

round-IsValid : IsValid round
round-IsValid = record {
  sized = omega arith;
  small = omega arith;
  fits = omega arith;
  reads_in = omega arith;
  writes_at = refl;
  stored = refl;
  pow2 = λ _. (2, refl);
}

five-IsValid : IsValid five
five-IsValid = record {
  sized = omega arith;
  small = omega arith;
  fits = omega arith;
  reads_in = omega arith;
  writes_at = refl;
  stored = refl;
  pow2 = λ h. cc;
}

contents-round : contents round ≡ 7 ∷ 8 ∷ 9 ∷ []
contents-round = refl

write_refines_example :
    let (r, c) = write (3 ∷ 4 ∷ 5 ∷ []) five in
    ((r, contents c) ≡ enqueue 5 (3 ∷ 4 ∷ 5 ∷ []) (contents five)) × IsValid c
write_refines_example = write_refines (3 ∷ 4 ∷ 5 ∷ []) five-IsValid

read_refines_example :
    let (r, c) = read (0 ∷ 0 ∷ []) round in
    (r ≡ ok (front (0 ∷ 0 ∷ []) (contents round)))
    × (contents c
        ≡ drop (min (length {A = ℕ} (0 ∷ 0 ∷ [])) (length (contents round))) (contents round))
    × IsValid c
read_refines_example = read_refines (0 ∷ 0 ∷ []) round-IsValid

write_in_place-eq-write_example : write_in_place (3 ∷ 4 ∷ []) five ≡ write (3 ∷ 4 ∷ []) five
write_in_place-eq-write_example =
    write_in_place-eq-write (3 ∷ 4 ∷ []) five-IsValid (omega arith) (omega arith)

read_ptrs_refines_example :
    (p q : Range) × (read_ptrs round ≡ ok (p, q))
    × (bytes_of (memory round) p ++ bytes_of (memory round) q ≡ contents round)
read_ptrs_refines_example = read_ptrs_refines round-IsValid

free_lem_example :
    IsValid (free volatile round).0
    × ((free volatile round).0.store ≡ none)
    × (contents (free volatile round).0 ≡ [])
    × ((free volatile round).1 ≡ some (replicate 4 0))
    × (burn_free volatile round ≡ (some (replicate 4 0), none))
free_lem_example = free_lem volatile (9 ∷ 0 ∷ 7 ∷ 8 ∷ []) round-IsValid refl

-- The write of four bytes finds no room and takes none in; the last goes round the end.
abbrev round_calls : List Call
round_calls = writes (1 ∷ 2 ∷ 3 ∷ 4 ∷ []) ∷ (reads (0 ∷ 0 ∷ []) ∷ (writes (5 ∷ 6 ∷ []) ∷ []))

stream_in_order_example :
    let (ins, outs, last) = run round_calls round in
    (contents round ++ ins ≡ outs ++ contents last) × IsValid last
stream_in_order_example = stream_in_order round_calls round round-IsValid

stream_taken : ((run round_calls round).0 ≡ 5 ∷ 6 ∷ []) × ((run round_calls round).1 ≡ 7 ∷ 8 ∷ [])
unfolding run write read copy_in spread gather copy_out incr_write incr_read wrap available splice
stream_taken = (refl, refl)
