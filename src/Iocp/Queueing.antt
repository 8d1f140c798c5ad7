-- ===== src/Iocp/Queueing.antt =====
-- What a message that IOCPChatServer/ClientSession.h takes leaves of its session and of the pool, whatever
-- `WSASend` gives.
use iocp.Common.{
  ℕ, ◌≤◌, ◌<◌, ◌≡◌, refl, ap, ◌∙◌, Bool, true, false, some, List, [], ◌∷◌, ◌++◌, arith, length,
  get_elem?_of_lt, length-set, length-append, set, take, drop, take-append, length-take, get_elem?,
  get_elem?-set_self,
}
use iocp.ObjectPool
use iocp.ObjectPool.{ObjectPool}
use iocp.Net
use iocp.Net.{Windows, Request, SendOverlapped, max_sockbuf, send_request, shutdown_request}
use iocp.ClientSession.{Link, send_msg, send_io, enqueue, fill}
use iocp.ClientSession.Contents.{IsOwned}
use iocp.Iocp.Sends.{send_io-total}
use iocp.Membership.Lists.{count}

module _ (w : Windows) where
  pub enqueue-total :
      (l : Link) (b : ℕ)
      → b < length l.send_pool.all_blocks
      → (r : Bool × Link) × (enqueue w l b ≡ some r)
        × (r.1.session ≡ record l.session { send_data_queue = l.session.send_data_queue ++ b ∷ [] })
        × (r.1.send_pool ≡ l.send_pool)
  unfolding enqueue
  enqueue-total l b lt = by_queue l.session.send_data_queue refl
    where
      queued : Link
      queued = record l {
        session = record l.session { send_data_queue = l.session.send_data_queue ++ b ∷ [] };
      }

      by_queue :
          (q : List ℕ)
          → l.session.send_data_queue ≡ q
          → (r : Bool × Link) × (enqueue w l b ≡ some r)
            × (r.1.session
                ≡ record l.session { send_data_queue = l.session.send_data_queue ++ b ∷ [] })
            × (r.1.send_pool ≡ l.send_pool)
      by_queue [] e =
          let (r, sent, session, pool) = send_io-total w queued b [] (ap (λ q. q ++ b ∷ []) e) lt in
          ((true, r.1), ground (arith, ap (λ q. length (q ++ b ∷ [])) e, sent), session, pool)
      by_queue (x ∷ q) e = (
        (true, queued),
        ground (arith, ap (λ k. length (k ++ b ∷ [])) e, length-append q (b ∷ [])),
        refl,
        refl,
      )

  -- On an empty queue, the send of what the block holds is asked for.
  enqueue_first :
      (l : Link) (b : ℕ) (o : SendOverlapped)
      → l.session.send_data_queue ≡ []
      → get_elem? l.send_pool.all_blocks b ≡ some o
      → w.send l.session.index l.session.generation (length l.requests) ≡ true
      → enqueue w l b
        ≡ some (
          true,
          record l {
            session = record l.session { send_data_queue = l.session.send_data_queue ++ b ∷ [] };
            requests = l.requests ++ send_request l.session.index b (take o.len o.buffer) ∷ [];
          },
        )
  unfolding enqueue send_io
  enqueue_first l b o e there sent = ground (arith, e, there, sent)

  -- What a message of `n` bytes that is taken leaves: its bytes in the first free block, which is queued,
  -- and, when it is first in the queue, its send.
  pub record IsQueued (l l' : Link) (b : ℕ) (rest bytes : List ℕ) : Type 0 where
    pub session :
        l'.session ≡ record l.session { send_data_queue = l.session.send_data_queue ++ b ∷ [] }
    pub block : SendOverlapped
    pub there : get_elem? l'.send_pool.all_blocks b ≡ some block
    pub filled : take block.len block.buffer ≡ bytes
    pub free : l'.send_pool.free_list ≡ rest
    pub sent :
        l.session.send_data_queue ≡ []
        → w.send l.session.index l.session.generation (length l.requests) ≡ true
        → l'.requests ≡ l.requests ++ send_request l.session.index b bytes ∷ []

  pub send_msg-IsQueued :
      (l : Link) (n b : ℕ) (rest msg : List ℕ)
      → l.send_pool.free_list ≡ b ∷ rest
      → b < length l.send_pool.all_blocks
      → n ≤ length msg
      → n ≤ max_sockbuf
      → (r : Bool × Link) × (send_msg w l n msg ≡ some r) × IsQueued l r.1 b rest (take n msg)
  unfolding send_msg ObjectPool.alloc fill ObjectPool.put_block
  send_msg-IsQueued l n b rest msg e lt enough fits =
      let (o, there) = get_elem?_of_lt l.send_pool.all_blocks b lt in
      let o' : SendOverlapped = record {
        len = n;
        operation = Net.send;
        generation = l.session.generation;
        buffer = take n msg ++ drop n o.buffer;
      } in
      let filled : Link = record l {
        send_pool = record l.send_pool {
          free_list = rest;
          all_blocks = set l.send_pool.all_blocks b o';
        };
      } in
      let bytes : take n o'.buffer ≡ take n msg =
        take-append (take n msg) (drop n o.buffer) n (omega (arith, length-take {0} n msg)) in
      let placed = get_elem?-set_self l.send_pool.all_blocks b o' lt in
      let (r, sent, session, pool) =
        enqueue-total filled b (omega (arith, length-set l.send_pool.all_blocks b o')) in
      (
        r,
        ground (arith, e, there, sent, fits, enough),
        record {
          session = session;
          block = o';
          there = ap (λ (p : ObjectPool SendOverlapped). get_elem? p.all_blocks b) pool ∙ placed;
          filled = bytes;
          free = ap (λ (p : ObjectPool SendOverlapped). p.free_list) pool;
          sent = λ first goes.
              ground (arith, sent, enqueue_first filled b o' first placed goes, bytes);
        },
      )

  pub send_msg-refused :
      (l : Link) (n : ℕ) (msg : List ℕ)
      → l.send_pool.free_list ≡ []
      → send_msg w l n msg ≡ some (false, l)
  unfolding send_msg ObjectPool.alloc
  send_msg-refused l n msg e = ground (arith, e)

  -- With blocks that exist, a message that fits is taken or refused; of the session nothing changes but
  -- the queue.
  pub send_msg-keeps :
      (l : Link) (n : ℕ) (msg : List ℕ)
      → IsOwned l
      → n ≤ length msg
      → n ≤ max_sockbuf
      → (r : Bool × Link) × (send_msg w l n msg ≡ some r)
        × (q : List ℕ) × (r.1.session ≡ record l.session { send_data_queue = q })
  send_msg-keeps l n msg v enough fits = by_free l.send_pool.free_list refl
    where
      by_free :
          (free : List ℕ)
          → l.send_pool.free_list ≡ free
          → (r : Bool × Link) × (send_msg w l n msg ≡ some r)
            × (q : List ℕ) × (r.1.session ≡ record l.session { send_data_queue = q })
      by_free [] e = ((false, l), send_msg-refused l n msg e, l.session.send_data_queue, refl)
      by_free (b ∷ rest) e =
          let (r, sent, queued) =
            send_msg-IsQueued l n b rest msg e (v.inside b (ground (arith, ap (count b) e))) enough
              fits in
          (r, sent, l.session.send_data_queue ++ b ∷ [], queued.session)
