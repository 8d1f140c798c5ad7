-- ===== src/RingBuffer/Valid.antt =====
-- The representation invariant of `RingBuffer`, and what `head`, `tail` and `full` say of `Size`.
use native.Mathlib.Nat.{mod-eq_of_lt, mod-eq-sub-mod}
use native.Mathlib.Decide.{dec_lt}
use iocp.Common.{
  add_size, ap, ◌∙◌, ℕ, suc, ◌+◌, ◌%◌, ◌^◌, ◌≤◌, ◌<◌, ◌≡◌, ◌⊎◌, inl, inr, false, arith, length,
  length-set, leb,
}
use iocp.RingBuffer.{RingBuffer, is_empty, size, store, load, clear}

pub record IsValid (buffer_size : ℕ) (r : RingBuffer) : Type 0 where
  pub stored : length r.buffer ≡ buffer_size
  pub small : buffer_size ≤ 2 ^ 63
  pub head_in : r.head < buffer_size
  pub tail_in : r.tail < buffer_size
  pub full_at : (r.full ≡ false) ⊎ (r.head ≡ r.tail)

mod_self : (n : ℕ) → n % n ≡ 0
mod_self n = grind arith

-- One step on from an index either stays below the end or goes round to 0.
pub next_cases :
    (i limit : ℕ)
    → limit ≤ 2 ^ 63
    → i < limit
    → ((i + 1 < limit) × (add_size i 1 % limit ≡ i + 1))
      ⊎ ((i + 1 ≡ limit) × (add_size i 1 % limit ≡ 0))
next_cases i limit small below = elim (dec_lt (i + 1) limit) [
  | yes p ↦ inl (p, ap (λ k. k % limit) (omega arith) ∙ mod-eq_of_lt p)
  | no p ↦
      inr (
        let e : i + 1 ≡ limit = omega arith in e,
        ap (λ k. k % limit) (omega arith) ∙ mod_self limit,
      )
]

module _ {limit : ℕ} where
  -- Where `head` stands, as the end of the stored bytes.
  pub size-head :
      {r : RingBuffer}
      → IsValid limit r
      → (size limit r ≤ limit) × ((r.tail + size limit r) % limit ≡ r.head)
  unfolding size
  size-head {r} v = ground (
    arith,
    mod-eq_of_lt {n = r.head} {m = limit},
    mod-eq-sub-mod {n = r.tail + limit} {m = limit},
    mod-eq-sub-mod {n = r.head + limit} {m = limit},
    mod-eq_of_lt {n = r.tail} {m = limit},
  )

  pub full-size : {r : RingBuffer} → IsValid limit r → r.full ≡ leb limit (size limit r)
  unfolding size
  full-size v = ground arith

  pub is_empty-size : {r : RingBuffer} → IsValid limit r → is_empty r ≡ leb (size limit r) 0
  unfolding size is_empty
  is_empty-size v = ground arith

  pub clear-IsValid : {r : RingBuffer} → IsValid limit r → IsValid limit (clear r)
  unfolding clear
  clear-IsValid v = ground arith

  pub store-IsValid :
      {r : RingBuffer} (x : ℕ) → r.full ≡ false → IsValid limit r → IsValid limit (store limit r x)
  unfolding store
  store-IsValid {r} x room v = ground (arith, length-set r.buffer r.head x)

  pub load-IsValid : {r : RingBuffer} → IsValid limit r → IsValid limit (load limit r).1
  unfolding load
  load-IsValid v = ground arith

  pub size-store :
      {r : RingBuffer} (x : ℕ)
      → r.full ≡ false
      → IsValid limit r
      → size limit (store limit r x) ≡ size limit r + 1
  unfolding size store
  size-store {r} x room v = elim (next_cases r.head limit v.small v.head_in) [
    | inl (p, e) ↦ rw (room, e) (ground arith)
    | inr (p, e) ↦ rw (room, e) (ground arith)
  ]

  pub size-load :
      {r : RingBuffer}
      → is_empty r ≡ false
      → IsValid limit r
      → size limit r ≡ suc (size limit (load limit r).1)
  unfolding size load is_empty
  size-load {r} some_left v = elim (next_cases r.tail limit v.small v.tail_in) [
    | inl (p, e) ↦ rw e (ground arith)
    | inr (p, e) ↦ rw e (ground arith)
  ]
