-- ===== src/ClientSession/Sending.antt =====
-- The sends of one connection (IOCPChatServer/ClientSession.h): what one send or one completion does
-- to the queue, to the pool of send buffers and to what is handed to Windows.
use iocp.Common.{
  ℕ, ◌≤◌, ◌<◌, ◌≡◌, refl, ap, ◌∙◌, true, false, some, List, [], ◌∷◌, ◌++◌, arith, ◌==◌,
  if◌then◌else◌, length, length-append, get_elem?, get_elem?_of_lt, get_elem?-lt,
  get_elem?-set_self, set, take, drop, take-append, take_all,
}
use iocp.ObjectPool
use iocp.ObjectPool.{ObjectPool}
use iocp.Net
use iocp.Net.{
  Windows, Request, SendOverlapped, max_sockbuf, send_request, recv_request, accept_request,
  shutdown_request,
}
use iocp.ClientSession.{Link, send_io, fill, enqueue, send_msg, send_complete}
use iocp.Membership.Lists.{count}
use iocp.ClientSession.Contents.{block_bytes}

take_front : (n : ℕ) (xs ys : List ℕ) → n ≡ length xs → take n (take n xs ++ ys) ≡ xs
take_front n xs ys e =
    ap (λ l. take n (l ++ ys)) (take_all xs n (omega arith)) ∙ take-append xs ys n e

module _ (w : Windows) (sends : (i g n : ℕ) → w.send i g n ≡ true) where
  send_io_lem :
      (l : Link) (b : ℕ) (rest : List ℕ)
      → l.session.send_data_queue ≡ b ∷ rest
      → b < length l.send_pool.all_blocks
      → send_io w l
        ≡ some (
          true,
          record l {
            requests =
                l.requests
                ++ send_request l.session.index b (block_bytes l.send_pool.all_blocks b) ∷ [];
          },
        )
  unfolding send_io
  send_io_lem l b rest e lt =
      let (o, there) = get_elem?_of_lt l.send_pool.all_blocks b lt in
      ground (arith, e, there, sends l.session.index l.session.generation (length l.requests))

  -- The state after a message has been put into the block `b`.
  abbrev pub after_send : Link → ℕ → List ℕ → SendOverlapped → List ℕ → Link
  after_send l b free o msg = record l {
    send_pool = record l.send_pool {
      all_blocks = set l.send_pool.all_blocks b o;
      free_list = free;
    };
    session = record l.session { send_data_queue = l.session.send_data_queue ++ b ∷ [] };
    requests =
        if length l.session.send_data_queue == 0
        then l.requests ++ send_request l.session.index b msg ∷ []
        else l.requests;
  }

  abbrev filled : Link → SendOverlapped → List ℕ → SendOverlapped
  filled l o msg = record {
    len = length msg;
    operation = Net.send;
    generation = l.session.generation;
    buffer = take (length msg) msg ++ drop (length msg) o.buffer;
  }

  enqueue_lem :
      (l : Link) (b : ℕ) (o : SendOverlapped) (msg : List ℕ)
      → get_elem? l.send_pool.all_blocks b ≡ some o
      → take o.len o.buffer ≡ msg
      → enqueue w l b
        ≡ some (
          true,
          record l {
            session = record l.session { send_data_queue = l.session.send_data_queue ++ b ∷ [] };
            requests =
                if length l.session.send_data_queue == 0
                then l.requests ++ send_request l.session.index b msg ∷ []
                else l.requests;
          },
        )
  unfolding enqueue
  enqueue_lem l b o msg there bytes = by_queue l.session.send_data_queue refl
    where
      by_queue :
          (q : List ℕ)
          → l.session.send_data_queue ≡ q
          → enqueue w l b
            ≡ some (
              true,
              record l {
                session = record l.session {
                  send_data_queue = l.session.send_data_queue ++ b ∷ [];
                };
                requests =
                    if length l.session.send_data_queue == 0
                    then l.requests ++ send_request l.session.index b msg ∷ []
                    else l.requests;
              },
            )
      by_queue [] e = ground (
        arith,
        e,
        there,
        bytes,
        send_io_lem (record l { session = record l.session { send_data_queue = b ∷ [] } }) b [] refl
            (get_elem?-lt l.send_pool.all_blocks b there),
      )
      by_queue (x ∷ q) e = ground (arith, e, length-append q (b ∷ []))

  fill_lem :
      (l : Link) (rest : List ℕ) (b : ℕ) (o : SendOverlapped) (msg : List ℕ)
      → get_elem? l.send_pool.all_blocks b ≡ some o
      → length msg ≤ max_sockbuf
      → fill (record l.send_pool { free_list = rest }) b l.session.generation (length msg) msg
        ≡ some (record l.send_pool {
          free_list = rest;
          all_blocks = set l.send_pool.all_blocks b (filled l o msg);
        })
  unfolding fill ObjectPool.put_block
  fill_lem l rest b o msg there fits = ground (arith, there)

  -- With a block free.
  pub send_msg_lem :
      (l : Link) (b : ℕ) (rest msg : List ℕ)
      → l.send_pool.free_list ≡ b ∷ rest
      → b < length l.send_pool.all_blocks
      → length msg ≤ max_sockbuf
      → (o : SendOverlapped) × (take o.len o.buffer ≡ msg)
        × (send_msg w l (length msg) msg ≡ some (true, after_send l b rest o msg))
  unfolding send_msg ObjectPool.alloc
  send_msg_lem l b rest msg free lt fits =
      let (o, there) = get_elem?_of_lt l.send_pool.all_blocks b lt in
      let bytes = take_front (length msg) msg (drop (length msg) o.buffer) refl in
      (
        filled l o msg,
        bytes,
        ground (
          arith,
          free,
          fill_lem l rest b o msg there fits,
          enqueue_lem
              (record l {
                send_pool = record l.send_pool {
                  free_list = rest;
                  all_blocks = set l.send_pool.all_blocks b (filled l o msg);
                };
              })
              b (filled l o msg) msg
              (get_elem?-set_self l.send_pool.all_blocks b (filled l o msg) lt) bytes,
        ),
      )

  -- With none.
  pub send_msg_refused :
      (l : Link) (n : ℕ) (msg : List ℕ)
      → l.send_pool.free_list ≡ []
      → send_msg w l n msg ≡ some (false, l)
  unfolding send_msg ObjectPool.alloc
  send_msg_refused l n msg none_free = ground (arith, none_free)

  -- The state after the completion of the send at the front.
  abbrev pub after_complete : Link → ℕ → List ℕ → Link
  after_complete l b rest = record l {
    send_pool = record l.send_pool { free_list = b ∷ l.send_pool.free_list };
    session = record l.session { send_data_queue = rest };
    requests = elim rest [
      | [] ↦ l.requests
      | c ∷ others ↦
          l.requests ++ send_request l.session.index c (block_bytes l.send_pool.all_blocks c) ∷ []
    ];
  }

  pub send_complete_lem :
      (l : Link) (b : ℕ) (rest : List ℕ) (size : ℕ)
      → l.session.send_data_queue ≡ b ∷ rest
      → ((c : ℕ) → 0 < count c rest → c < length l.send_pool.all_blocks)
      → send_complete w l size ≡ some (after_complete l b rest)
  unfolding send_complete ObjectPool.free
  send_complete_lem l b [] size e inside = ground (arith, e)
  send_complete_lem l b (c ∷ rest) size e inside = ground (
    arith,
    e,
    send_io_lem
        (record l {
          send_pool = record l.send_pool { free_list = b ∷ l.send_pool.free_list };
          session = record l.session { send_data_queue = c ∷ rest };
        })
        c rest refl (inside c (ground arith)),
  )
