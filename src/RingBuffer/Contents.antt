-- ===== src/RingBuffer/Contents.antt =====
-- The bytes that a `RingBuffer` holds, oldest first, and how one store or load changes them.
use native.Mathlib.Nat.{add-zero, mod-eq_of_lt, mod-eq-sub-mod, mod-add-mod}
use native.Mathlib.Numerals.{add-one}
use native.Mathlib.Decide.{dec_lt}
use iocp.Common.{
  ℕ, zero, suc, ◌+◌, ◌-◌, ◌%◌, ◌≤◌, ◌<◌, ◌≡◌, refl, sym, ap, ap₂, ◌∙◌, ◌≢◌, true, false, List, [],
  ◌∷◌, ◌++◌, some, get_elem?, get_elem?-append_left, get_elem?-append_end, arith, length,
  length-append, get_or, set, get_or-set_self, get_or-set_ne,
}
use iocp.RingBuffer.{RingBuffer, is_empty, size, store, load}
use iocp.RingBuffer.Valid.{IsValid, size-head, is_empty-size, full-size, size-store, size-load}

module _ (limit : ℕ) where
  -- The first `n` bytes at and after index `t`, going round at `limit`.
  abbrev pub window : List ℕ → ℕ → ℕ → List ℕ
  window buf t zero = []
  window buf t (suc n) = window buf t n ++ get_or buf ((t + n) % limit) 0 ∷ []

  length-window : (buf : List ℕ) (t n : ℕ) → length (window buf t n) ≡ n
  length-window buf t zero = refl
  length-window buf t (suc n) = omega (
    arith,
    length-append (window buf t n) (get_or buf ((t + n) % limit) 0 ∷ []),
    length-window buf t n,
  )

  unfoldable pub contents : RingBuffer → List ℕ
  contents r = window r.buffer r.tail (size limit r)

  pub length-contents : (r : RingBuffer) → length (contents r) ≡ size limit r
  unfolding contents
  length-contents r = length-window r.buffer r.tail (size limit r)

-- Two places of one turn round the ring differ.
place-ne : (limit t j k : ℕ) → t < limit → j < k → k < limit → (t + k) % limit ≢ (t + j) % limit
place-ne limit t j k ht hj hk = ground (
  arith,
  mod-eq_of_lt {n = t + j} {m = limit},
  mod-eq_of_lt {n = t + k} {m = limit},
  mod-eq-sub-mod {n = t + j} {m = limit},
  mod-eq-sub-mod {n = t + k} {m = limit},
  mod-eq_of_lt {n = t + j - limit} {m = limit},
  mod-eq_of_lt {n = t + k - limit} {m = limit},
)

window-set_after :
    (limit : ℕ) (buf : List ℕ) (t n k x : ℕ)
    → t < limit
    → n ≤ k
    → k < limit
    → window limit (set buf ((t + k) % limit) x) t n ≡ window limit buf t n
window-set_after limit buf t zero k x ht hn hk = refl
window-set_after limit buf t (suc n) k x ht hn hk =
    ap₂ (λ l b. l ++ b ∷ []) (window-set_after limit buf t n k x ht (omega arith) hk)
      (get_or-set_ne buf ((t + k) % limit) ((t + n) % limit) x 0 (place-ne limit t n k ht hn hk))

window-uncons :
    (limit : ℕ) (buf : List ℕ) (t n : ℕ)
    → t < limit
    → window limit buf t (suc n) ≡ get_or buf t 0 ∷ window limit buf ((t + 1) % limit) n
window-uncons limit buf t zero h =
    ap (λ i. get_or buf i 0 ∷ []) (ap (λ k. k % limit) (add-zero t) ∙ mod-eq_of_lt h)
window-uncons limit buf t (suc n) h =
    ap₂ (λ l i. l ++ get_or buf i 0 ∷ []) (window-uncons limit buf t n h)
      (rw mod-add-mod (ap (λ k. k % limit) (omega arith)))

-- What `Peek` reads: the window at a place inside it.
pub get_elem?-window :
    (limit : ℕ) (buf : List ℕ) (t n i : ℕ)
    → i < n
    → get_elem? (window limit buf t n) i ≡ some (get_or buf ((t + i) % limit) 0)
get_elem?-window limit buf t zero i h = absurd (omega arith)
get_elem?-window limit buf t (suc n) i h = elim (dec_lt i n) [
  | yes p ↦
      get_elem?-append_left (window limit buf t n) _ i (omega (arith, length-window limit buf t n))
      ∙ get_elem?-window limit buf t n i p
  | no p ↦
      get_elem?-append_end (window limit buf t n) _ i (omega (arith, length-window limit buf t n))
      ∙ ap (λ k. some (get_or buf ((t + k) % limit) 0)) (omega arith)
]

-- Writing just past a window makes it longer by that byte.
window-push :
    (limit : ℕ) (buf : List ℕ) (t n i x : ℕ)
    → t < limit
    → n < limit
    → i < length buf
    → i ≡ (t + n) % limit
    → window limit (set buf i x) t (suc n) ≡ window limit buf t n ++ x ∷ []
window-push limit buf t n i x ht hn hi e =
    ap₂ (λ l b. l ++ b ∷ [])
      (ap (λ j. window limit (set buf j x) t n) e
        ∙ window-set_after limit buf t n n x ht (omega arith) hn)
      (ap (λ j. get_or (set buf i x) j 0) (sym e) ∙ get_or-set_self buf i x 0 hi)

module _ {limit : ℕ} where
  not_full : {r : RingBuffer} → r.full ≡ false → IsValid limit r → size limit r < limit
  not_full {r} room v = ground (arith, full-size v, size-head v)

  pub contents-store :
      {r : RingBuffer} (x : ℕ)
      → r.full ≡ false
      → IsValid limit r
      → contents limit (store limit r x) ≡ contents limit r ++ x ∷ []
  unfolding contents store
  contents-store {r} x room v =
      rw (size-store x room v, add-one)
        (window-push limit r.buffer r.tail (size limit r) r.head x v.tail_in
          (omega (arith, not_full room v)) (omega arith) (sym (size-head v).1))

  pub contents-load :
      {r : RingBuffer}
      → is_empty r ≡ false
      → IsValid limit r
      → contents limit r ≡ (load limit r).0 ∷ contents limit (load limit r).1
  unfolding contents load
  contents-load {r} some_left v = rw (size-load some_left v) (
      window-uncons limit r.buffer r.tail (size limit (load limit r).1) v.tail_in
      ∙ ap (λ i. get_or r.buffer r.tail 0 ∷ window limit r.buffer i (size limit (load limit r).1))
          (ap (λ k. k % limit) (omega arith)))

  pub contents-empty :
      (r : RingBuffer) → is_empty r ≡ true → IsValid limit r → contents limit r ≡ []
  unfolding contents
  contents-empty r e v =
      ap (window limit r.buffer r.tail) {x = size limit r} {y = 0} (ground (arith, is_empty-size v))

  -- What stands `offset` bytes behind the oldest.
  pub contents_at :
      (r : RingBuffer) (offset : ℕ)
      → IsValid limit r
      → offset < size limit r
      → get_elem? (contents limit r) offset ≡ some (get_or r.buffer ((r.tail + offset) % limit) 0)
  unfolding contents
  contents_at r offset v h = get_elem?-window limit r.buffer r.tail (size limit r) offset h
