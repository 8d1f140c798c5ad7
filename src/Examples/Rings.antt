-- ===== src/Examples/Rings.antt =====
-- Applications of the theorems on the ring, for a ring of four bytes.
use iocp.Common.{◌-◌, min, ◌≡◌, inl, refl, false, some, [], ◌∷◌, ◌++◌, arith, drop, take}
use iocp.RingBuffer.{RingBuffer, size, write, read}
use iocp.RingBuffer.Valid.{IsValid}
use iocp.RingBuffer.Contents.{contents}
use iocp.RingBuffer.Transfer.{write_lem, read_lem}

-- Holds 12, 13 and 10, across the end of the array.
abbrev ring : RingBuffer
ring = record { buffer = 10 ∷ 11 ∷ 12 ∷ 13 ∷ []; head = 1; tail = 2; full = false }

ring-IsValid : IsValid 4 ring
ring-IsValid = record {
  stored = refl;
  small = omega arith;
  head_in = omega arith;
  tail_in = omega arith;
  full_at = inl refl;
}

contents_test : contents 4 ring ≡ 12 ∷ 13 ∷ 10 ∷ []
unfolding contents size
contents_test = refl

write_lem_example :
    ((write 4 ring (some (1 ∷ 2 ∷ []))).0 ≡ min 2 (4 - size 4 ring))
    × (contents 4 (write 4 ring (some (1 ∷ 2 ∷ []))).1
        ≡ contents 4 ring ++ take (4 - size 4 ring) (1 ∷ 2 ∷ []))
    × IsValid 4 (write 4 ring (some (1 ∷ 2 ∷ []))).1
write_lem_example = write_lem 4 (1 ∷ 2 ∷ []) ring (omega arith) ring-IsValid

read_lem_example :
    ((read 4 ring 2).0 ≡ take 2 (contents 4 ring))
    × (contents 4 (read 4 ring 2).1 ≡ drop 2 (contents 4 ring))
    × IsValid 4 (read 4 ring 2).1
read_lem_example = read_lem 4 2 ring ring-IsValid
