-- ===== src/RingBuffer/Transfer.antt =====
-- What `Write`, `Read`, `Peek` and the byte operations move in and out of a valid ring.
use native.Mathlib.Decide.{dec_lt}
use iocp.Common.{
  get_elem?_above, take-nil, take_more, take_none, ℕ, zero, suc, ◌+◌, ◌-◌, ◌^◌, ◌<◌, min, ◌≡◌, refl,
  inl, inr, List, [], ◌∷◌, ◌++◌, append-nil, append_assoc, some, ltb, if◌then◌else◌, Bool-cases,
  arith, length, take, drop, get_elem?,
}
use iocp.RingBuffer.{
  RingBuffer, is_empty, size, store, load, write_byte, read_byte, write_loop, write, read_loop,
  read, peek,
}
use iocp.RingBuffer.Valid.{
  IsValid, size-head, full-size, is_empty-size, store-IsValid, load-IsValid, size-store,
}
use iocp.RingBuffer.Contents.{
  contents, length-contents, contents-store, contents-load, contents_at, contents-empty,
}

module _ (limit : ℕ) where
  -- What the loop of `Write` has done when it stops.
  record Wrote (r : RingBuffer) (bytes : List ℕ) (n : ℕ) (out : ℕ × RingBuffer) : Type 0 where
    valid : IsValid limit out.1
    count : out.0 ≡ n + min (length bytes) (limit - size limit r)
    held : contents limit out.1 ≡ contents limit r ++ take (limit - size limit r) bytes

  write_loop-Wrote :
      (bytes : List ℕ) (r : RingBuffer) (n : ℕ)
      → n + length bytes < 2 ^ 64
      → IsValid limit r
      → Wrote r bytes n (write_loop limit r bytes n)
  unfolding write_loop
  write_loop-Wrote [] r n bound v = record {
    valid = v;
    count = omega arith;
    held = rw (take-nil, append-nil);
  }
  write_loop-Wrote (x ∷ xs) r n bound v = elim (Bool-cases r.full) [
    | inl full ↦ ground (
      arith,
      full-size v,
      size-head v,
      take_none (limit - size limit r) (x ∷ xs),
      append-nil (contents limit r),
    )
    | inr room ↦ ground (
      arith,
      full-size v,
      size-head v,
      size-store x room v,
      write_loop-Wrote xs (store limit r x) (n + 1) (omega arith) (store-IsValid x room v),
      contents-store x room v,
      take_more (limit - size limit r) (limit - size limit (store limit r x)) x xs,
      append_assoc (contents limit r) (x ∷ []) (take (limit - size limit (store limit r x)) xs),
    )
  ]

  -- `Write` of at most 2 ^ 64 - 1 bytes into a valid ring takes as many of the bytes as fit, in
  -- order, behind those that it holds, returns how many these are, and keeps the ring valid.
  pub write_lem :
      (bytes : List ℕ) (r : RingBuffer)
      → length bytes < 2 ^ 64
      → IsValid limit r
      → let (n, r') = write limit r (some bytes) in
        (n ≡ min (length bytes) (limit - size limit r))
        × (contents limit r' ≡ contents limit r ++ take (limit - size limit r) bytes)
        × IsValid limit r'
  unfolding write
  write_lem [] r bound v = (omega arith, rw (take-nil, append-nil), v)
  write_lem (x ∷ xs) r bound v = ground (arith, write_loop-Wrote (x ∷ xs) r 0 (omega arith) v)

  -- What the loop of `Read` has done when it stops.
  record ReadOut (r : RingBuffer) (n : ℕ) (out : List ℕ × RingBuffer) : Type 0 where
    valid : IsValid limit out.1
    got : out.0 ≡ take n (contents limit r)
    left : contents limit out.1 ≡ drop n (contents limit r)

  read_loop-ReadOut : (n : ℕ) (r : RingBuffer) → IsValid limit r → ReadOut r n (read_loop limit n r)
  unfolding read_loop
  read_loop-ReadOut zero r v = record { valid = v; got = refl; left = refl }
  read_loop-ReadOut (suc n) r v = elim (Bool-cases (is_empty r)) [
    | inl done ↦ ground (arith, contents-empty r done v)
    | inr more ↦
        ground (arith, contents-load more v, read_loop-ReadOut n (load limit r).1 (load-IsValid v))
  ]

  -- `Read` of at most `n` bytes out of a valid ring gives the oldest `n` bytes that it holds, or
  -- all if there are fewer, leaves the rest in order, and keeps the ring valid.
  pub read_lem :
      (n : ℕ) (r : RingBuffer)
      → IsValid limit r
      → let (bytes, r') = read limit r n in
        (bytes ≡ take n (contents limit r))
        × (contents limit r' ≡ drop n (contents limit r))
        × IsValid limit r'
  unfolding read
  read_lem zero r v = (refl, refl, v)
  read_lem (suc n) r v = ground (arith, read_loop-ReadOut (suc n) r v)

  -- `Peek` at an offset reads the byte at that place among those that a valid ring holds, and
  -- fails exactly when there is none.
  pub peek_lem :
      (r : RingBuffer) (offset : ℕ)
      → IsValid limit r
      → peek limit r offset ≡ get_elem? (contents limit r) offset
  unfolding peek
  peek_lem r offset v = elim (dec_lt offset (size limit r)) [
    | yes p ↦ ground (arith, is_empty-size v, contents_at r offset v p, size-head v)
    | no p ↦
        ground (
          arith,
          is_empty-size v,
          get_elem?_above (contents limit r) offset,
          length-contents limit r,
        )
  ]

  -- On a valid ring `WriteByte` fails exactly when `BufferSize` bytes are held, and these then
  -- stay; otherwise it appends its byte; the ring stays valid.
  write_byte_lem :
      (r : RingBuffer) (x : ℕ)
      → IsValid limit r
      → let (done, r') = write_byte limit r x in
        (done ≡ ltb (length (contents limit r)) limit)
        × (contents limit r' ≡ (if done then contents limit r ++ x ∷ [] else contents limit r))
        × IsValid limit r'
  unfolding write_byte
  write_byte_lem r x v = elim (Bool-cases r.full) [
    | inl full ↦ ground (arith, full-size v, length-contents limit r)
    | inr room ↦ ground (
      arith,
      full-size v,
      length-contents limit r,
      contents-store x room v,
      store-IsValid x room v,
    )
  ]

  -- `ReadByte` on a valid ring takes the oldest byte held, fails exactly when none is, and keeps
  -- the ring valid.
  read_byte_lem :
      (r : RingBuffer)
      → IsValid limit r
      → let (out, r') = read_byte limit r in
        (out ≡ get_elem? (contents limit r) 0)
        × (contents limit r' ≡ drop 1 (contents limit r))
        × IsValid limit r'
  unfolding read_byte
  read_byte_lem r v = elim (Bool-cases (is_empty r)) [
    | inl done ↦ ground (arith, contents-empty r done v)
    | inr more ↦ ground (arith, contents-load more v, load-IsValid v)
  ]

  -- A `Read` of no bytes.
  pub read_none : (r : RingBuffer) → read limit r 0 ≡ ([], r)
  unfolding read
  read_none r = refl
