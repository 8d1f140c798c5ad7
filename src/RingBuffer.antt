-- ===== src/RingBuffer.antt =====
-- IOCPChatServer/RingBuffer.h: the byte ring that assembles packets. `BufferSize`, the template's
-- parameter, is the parameter of the section. Bytes are numbers below 256.
pub mod Valid
pub mod Contents
pub mod Transfer
use iocp.Common.{
  ℕ, zero, suc, ◌%◌, Bool, true, false, not, ◌&&◌, ◌||◌, Option, none, some, List, [], ◌∷◌, leb,
  ◌==◌, if◌then◌else◌, add_size, sub_size, length, get_or, set,
}

pub record RingBuffer : Type 0 where
  pub buffer : List ℕ
  pub head : ℕ
  pub tail : ℕ
  pub full : Bool

unfoldable pub is_empty : RingBuffer → Bool
is_empty r = (r.head == r.tail) && not r.full

unfoldable pub is_full : RingBuffer → Bool
is_full r = r.full

unfoldable pub clear : RingBuffer → RingBuffer
clear r = record r { head = 0; tail = 0; full = false }

module _ (buffer_size : ℕ) where
  -- Of the two tests `head >= tail` and `tail > head` one holds.
  unfoldable pub size : RingBuffer → ℕ
  size r =
      if r.full
      then buffer_size
      else if leb r.tail r.head
      then sub_size r.head r.tail
      else add_size (sub_size buffer_size r.tail) r.head

  -- The statements that `WriteByte` and the loop of `Write` share: store, advance, mark as full.
  unfoldable pub store : RingBuffer → ℕ → RingBuffer
  store r byte = record r {
    buffer = set r.buffer r.head byte;
    head = add_size r.head 1 % buffer_size;
    full = (add_size r.head 1 % buffer_size == r.tail) || r.full;
  }

  unfoldable pub write_byte : RingBuffer → ℕ → Bool × RingBuffer
  unfolding store
  write_byte r byte = if r.full then (false, r) else (true, store r byte)

  -- The statements that `ReadByte` and the loop of `Read` share. The index is in range by
  -- `Valid.in_bounds`.
  unfoldable pub load : RingBuffer → ℕ × RingBuffer
  load r =
      (get_or r.buffer r.tail 0, record r { tail = add_size r.tail 1 % buffer_size; full = false })

  -- `none` is the result `false`.
  unfoldable pub read_byte : RingBuffer → Option ℕ × RingBuffer
  unfolding load is_empty
  read_byte r = if is_empty r then (none, r) else (some (load r).0, (load r).1)

  -- The list is what is left of `data`, the number is `written_count`.
  unfoldable pub write_loop : RingBuffer → List ℕ → ℕ → ℕ × RingBuffer
  unfolding store
  write_loop r [] written_count = (written_count, r)
  write_loop r (x ∷ xs) written_count =
      let rest = write_loop (store r x) xs (add_size written_count 1) in
      if r.full then (written_count, r) else rest

  -- `none` is the null pointer.
  unfoldable pub write : RingBuffer → Option (List ℕ) → ℕ × RingBuffer
  unfolding write_loop
  write r none = (0, r)
  write r (some bytes) = if length bytes == 0 then (0, r) else write_loop r bytes 0

  -- The number is `max_length - read_count`; the list is what goes to `output`.
  unfoldable pub read_loop : ℕ → RingBuffer → List ℕ × RingBuffer
  unfolding load is_empty
  read_loop zero r = ([], r)
  read_loop (suc left) r =
      let rest = read_loop left (load r).1 in
      if is_empty r then ([], r) else ((load r).0 ∷ rest.0, rest.1)

  -- `output` is never null where `Read` is called; `read_count` is the length of the list.
  unfoldable pub read : RingBuffer → ℕ → List ℕ × RingBuffer
  unfolding read_loop
  read r max_length = if max_length == 0 then ([], r) else read_loop max_length r

  unfoldable pub peek : RingBuffer → ℕ → Option ℕ
  unfolding is_empty size
  peek r offset =
      if is_empty r || leb (size r) offset
      then none
      else some (get_or r.buffer (add_size r.tail offset % buffer_size) 0)
