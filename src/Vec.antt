-- ===== src/Vec.antt =====
-- `Vec<u8>` of the standard library, as far as src/buffer and src/circular use it.
pub mod Laws
use secbuf.Prelude.{
  ℕ, ◌+◌, ◌-◌, ◌*◌, ◌≤◌, max, ◌≡◌, Bool, List, [], ◌∷◌, ◌++◌, length, take, replicate, slice,
  splice, ltb, if◌then◌else◌,
}
use secbuf.Machine.{isize_max}
use secbuf.Error.{Outcome, ok, panic, undefined}

-- `mem` is the whole allocation, `len` the number of its bytes that the vector holds as elements.
-- Memory that the allocator hands out is written as zeros; no checked operation reads it before
-- it is written.
pub record Vec : Type 0 where
  pub mem : List ℕ
  pub len : ℕ

abbrev pub capacity : Vec → ℕ
capacity v = length v.mem

-- `vec![0; n]`
abbrev pub zeroed : ℕ → Vec
zeroed n = record { mem = replicate n 0; len = n }

abbrev pub with_capacity : ℕ → Vec
with_capacity n = record { mem = replicate n 0; len = 0 }

abbrev pub of_list : List ℕ → Vec
of_list xs = record { mem = xs; len = length xs }

abbrev pub elements : Vec → List ℕ
elements v = take v.len v.mem

-- `reserve`: the capacity at least doubles, and is at least 8; the new part lies behind the old.
unfoldable pub reserve : ℕ → Vec → Outcome Vec
reserve additional v =
    let wanted = max (max (capacity v * 2) (v.len + additional)) 8 in
    if ltb (capacity v) (v.len + additional)
    then (if ltb isize_max wanted
        then panic
        else ok (record v { mem = take v.len v.mem ++ replicate (wanted - v.len) 0 }))
    else ok v

-- The old allocation, where `reserve` takes a new one: it goes back to the allocator as it is.
unfoldable pub reserve_frees : ℕ → Vec → List (List ℕ)
reserve_frees additional v = if ltb (capacity v) (v.len + additional) then v.mem ∷ [] else []

-- `truncate` moves the end alone: the bytes behind it stay in the allocation.
abbrev pub truncate : ℕ → Vec → Vec
truncate n v = if ltb n v.len then record v { len = n } else v

unfoldable pub resize : ℕ → Vec → Outcome Vec
resize n v =
    if ltb v.len n
    then elim (reserve (n - v.len) v) [
      | ok w ↦ ok (record { mem = splice w.mem v.len (replicate (n - v.len) 0); len = n })
      | other ↦ other
    ]
    else ok (truncate n v)

-- `shrink_to_fit`, and the old allocation where it takes a new one
abbrev pub shrink : Vec → Vec
shrink v = record v { mem = take v.len v.mem }

unfoldable pub shrink_frees : Vec → List (List ℕ)
shrink_frees v = if ltb v.len (capacity v) then v.mem ∷ [] else []

-- `ptr.add(i)` read or written for `n` bytes: defined inside the allocation only.
unfoldable pub read_raw : ℕ → ℕ → Vec → Outcome (List ℕ)
read_raw i n v = if ltb (capacity v) (i + n) then undefined else ok (slice v.mem i n)

unfoldable pub write_raw : ℕ → List ℕ → Vec → Outcome Vec
write_raw i bs v =
    if ltb (capacity v) (i + length bs)
    then undefined
    else ok (record v { mem = splice v.mem i bs })
