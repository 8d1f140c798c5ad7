-- ===== src/ClientSession/Contents.antt =====
-- What the queue and the pool of send buffers of one connection (IOCPChatServer/ClientSession.h)
-- hold, and what has been handed to Windows to send.
use iocp.Common.{
  ℕ, suc, ◌+◌, ◌≤◌, ◌<◌, ◌≡◌, refl, ap, none, some, List, [], ◌∷◌, ◌++◌, arith, length, get_elem?,
  get_elem?-set_ne, set, take,
}
use iocp.Net.{Request, SendOverlapped, send_request, recv_request, accept_request, shutdown_request}
use iocp.ClientSession.{Link}
use iocp.Membership.Lists.{count}

-- The bytes that a block is set to send.
abbrev pub block_bytes : List SendOverlapped → ℕ → List ℕ
block_bytes blocks b = elim (get_elem? blocks b) [ none ↦ [] | some o ↦ take o.len o.buffer ]

abbrev pub contents : List SendOverlapped → List ℕ → List (List ℕ)
contents blocks [] = []
contents blocks (b ∷ bs) = block_bytes blocks b ∷ contents blocks bs

-- The sends among the requests, by their bytes.
abbrev pub sends_of : List Request → List (List ℕ)
sends_of [] = []
sends_of (send_request i b bytes ∷ rs) = bytes ∷ sends_of rs
sends_of (recv_request i ∷ rs) = sends_of rs
sends_of (accept_request i ∷ rs) = sends_of rs
sends_of (shutdown_request i ∷ rs) = sends_of rs

-- What the queue is to send.
abbrev pub waiting : Link → List (List ℕ)
waiting l = contents l.send_pool.all_blocks l.session.send_data_queue

-- Every block is in one place at most, free or queued, and there is such a block.
pub record IsOwned (l : Link) : Type 0 where
  pub once : (b : ℕ) → count b l.send_pool.free_list + count b l.session.send_data_queue ≤ 1
  pub inside :
      (b : ℕ)
      → 0 < count b l.send_pool.free_list + count b l.session.send_data_queue
      → b < length l.send_pool.all_blocks

pub sends_of-append : (rs qs : List Request) → sends_of (rs ++ qs) ≡ sends_of rs ++ sends_of qs
sends_of-append [] qs = refl
sends_of-append (send_request i b bytes ∷ rs) qs = ap (λ l. bytes ∷ l) (sends_of-append rs qs)
sends_of-append (recv_request i ∷ rs) qs = sends_of-append rs qs
sends_of-append (accept_request i ∷ rs) qs = sends_of-append rs qs
sends_of-append (shutdown_request i ∷ rs) qs = sends_of-append rs qs

pub contents-append :
    (blocks : List SendOverlapped) (xs ys : List ℕ)
    → contents blocks (xs ++ ys) ≡ contents blocks xs ++ contents blocks ys
contents-append blocks [] ys = refl
contents-append blocks (x ∷ xs) ys =
    ap (λ l. block_bytes blocks x ∷ l) (contents-append blocks xs ys)

-- A block that is not queued can be filled.
pub contents-set :
    (blocks : List SendOverlapped) (b : ℕ) (o : SendOverlapped) (q : List ℕ)
    → count b q ≡ 0
    → contents (set blocks b o) q ≡ contents blocks q
contents-set blocks b o [] h = refl
contents-set blocks b o (x ∷ q) h = ground (
  arith,
  get_elem?-set_ne blocks b x o (λ e. ground (arith, e, h)),
  contents-set blocks b o q (omega arith),
)

pub length-contents :
    (blocks : List SendOverlapped) (q : List ℕ) → length (contents blocks q) ≡ length q
length-contents blocks [] = refl
length-contents blocks (x ∷ q) = ap suc (length-contents blocks q)
