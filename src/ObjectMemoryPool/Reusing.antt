-- ===== src/ObjectMemoryPool/Reusing.antt =====
-- What the pool of IOCPChatServer/ObjectMemoryPool.h hands out, before and after a chunk is returned.
use iocp.Common.{
  ℕ, zero, suc, ◌+◌, ◌<◌, ◌≡◌, refl, Option, none, some, arith, get_elem?, length, set,
  get_elem?-set_self,
}
use iocp.ObjectMemoryPool.{ObjectMemoryPool, links, new_pool, allocate, deallocate, write_word}

links-next : (i n k : ℕ) → k < n → get_elem? (links i (suc n)) k ≡ some (some (i + k + 1))
unfolding links
links-next i zero k h = absurd (omega arith)
links-next i (suc n) zero h = ground arith
links-next i (suc n) (suc k) h = ground (arith, links-next (i + 1) n k (omega arith))

links-last : (i n : ℕ) → get_elem? (links i (suc n)) n ≡ some none
unfolding links
links-last i zero = refl
links-last i (suc n) = links-last (i + 1) n

length-links : (i n : ℕ) → length (links i n) ≡ n
unfolding links
length-links i zero = refl
length-links i (suc zero) = refl
length-links i (suc (suc n)) = omega (arith, length-links (i + 1) (suc n))

-- The pool of `suc n` chunks, with the list from `head` on.
abbrev pub from : ℕ → ℕ → Option ℕ → ObjectMemoryPool
from n size head = record {
  free_list_head = head;
  words = links 0 (suc n);
  chunk_size = size;
  pool_size = suc n;
}

-- A new pool of `suc n` chunks of 8 bytes or more hands out the chunks from 0 on, in their order, and
-- after the last it hands out none. A chunk that comes back is handed out again next, and then what
-- its holder left in its first word is the head of the list, whatever the list was before: when
-- this is null, the pool hands out no more chunk, however many are free. Of a chunk that comes back as it
-- was handed out, other than the last, this is the chunk that first stood behind it, free or not.
pub allocate-deallocate :
    (n size : ℕ)
    → 7 < size
    → (new_pool (suc n) size ≡ some (from n size (some 0)))
      × ((k : ℕ)
          → k < n
          → allocate (from n size (some k)) ≡ some (some k, from n size (some (k + 1))))
      × (allocate (from n size (some n)) ≡ some (some n, from n size none))
      × (allocate (from n size none) ≡ some (none, from n size none))
      × ((k : ℕ) (head word : Option ℕ)
          → k < suc n
          → (p : ObjectMemoryPool) × (allocate
                (deallocate (write_word (from n size head) k word) (some k))
              ≡ some (some k, p))
            × (p.free_list_head ≡ word)
            × (word ≡ none → allocate p ≡ some (none, p)))
      × ((k : ℕ) (head : Option ℕ)
          → k < n
          → allocate (deallocate (from n size head) (some k))
            ≡ some (some k, from n size (some (k + 1))))
unfolding new_pool allocate deallocate write_word
allocate-deallocate n size big = (
  ground arith,
  (λ k h. ground (arith, links-next 0 n k h)),
  ground (arith, links-last 0 n),
  refl,
  (λ k head word h. (
    record (from n size word) { words = set (links 0 (suc n)) k word },
    ground (
      arith,
      get_elem?-set_self (links 0 (suc n)) k word (omega (arith, length-links 0 (suc n))),
    ),
    refl,
    λ null. ground (arith, null),
  )),
  (λ k head h. ground (arith, links-next 0 n k h)),
)
