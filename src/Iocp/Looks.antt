-- ===== src/Iocp/Looks.antt =====
-- What a message to send, or a look of the timeout thread, leaves of one session of IOCPChatServer/IOCP.h.
use iocp.Common.{
  ℕ, ◌≤◌, ◌<◌, ◌≡◌, refl, ap, ◌∙◌, inl, inr, Bool, false, ◌&&◌, some, List, [], ◌∷◌, ◌++◌, arith,
  leb, sub_size, length, length-set, get_elem?_of_lt, set, take, drop, Bool-cases, Option-cases,
}
use iocp.Net
use iocp.Net.{Windows, Request, SendOverlapped, max_sockbuf, shutdown_request}
use iocp.ObjectPool
use iocp.ObjectPool.{ObjectPool}
use iocp.ClientSession
use iocp.ClientSession.{ClientSession, Link, send_msg, enqueue, fill, disconnect_async}
use iocp.Packet.{packet_header_length}
use iocp.Packet.Wire.{ping, encode}
use iocp.Iocp.{check_session, timeout_ms, ping_interval_ms}
use iocp.Iocp.Queueing.{enqueue-total}
use iocp.Iocp.Timeout.{length-ping}
use iocp.Membership.Lists.{count, count-append}

-- What a message that is sent on `l` leaves, in `l'`: only the queue of the session has changed, and
-- every free or queued block still exists.
pub record IsSent (l l' : Link) : Type 0 where
  pub queue : List ℕ
  pub session : l'.session ≡ record l.session { send_data_queue = queue }
  pub blocks : length l'.send_pool.all_blocks ≡ length l.send_pool.all_blocks
  pub free_in : (b : ℕ) → 0 < count b l'.send_pool.free_list → b < length l.send_pool.all_blocks
  pub queue_in : (b : ℕ) → 0 < count b queue → b < length l.send_pool.all_blocks

module _ (w : Windows) where
  pub send_msg-IsSent :
      (l : Link) (n : ℕ) (msg : List ℕ)
      → ((b : ℕ) → 0 < count b l.send_pool.free_list → b < length l.send_pool.all_blocks)
      → ((b : ℕ) → 0 < count b l.session.send_data_queue → b < length l.send_pool.all_blocks)
      → n ≤ length msg
      → n ≤ max_sockbuf
      → (r : Bool × Link) × (send_msg w l n msg ≡ some r) × IsSent l r.1
  unfolding send_msg ObjectPool.alloc fill ObjectPool.put_block
  send_msg-IsSent l n msg free_in queue_in enough fits = by_free l.send_pool.free_list refl
    where
      by_free :
          (free : List ℕ)
          → l.send_pool.free_list ≡ free
          → (r : Bool × Link) × (send_msg w l n msg ≡ some r) × IsSent l r.1
      by_free [] e = (
        (false, l),
        ground (arith, e),
        record {
          queue = l.session.send_data_queue;
          session = refl;
          blocks = refl;
          free_in = free_in;
          queue_in = queue_in;
        },
      )
      by_free (b ∷ rest) e =
          let lt : b < length l.send_pool.all_blocks = free_in b (ground (arith, ap (count b) e)) in
          let (o, there) = get_elem?_of_lt l.send_pool.all_blocks b lt in
          let o' : SendOverlapped = record {
            len = n;
            operation = Net.send;
            generation = l.session.generation;
            buffer = take n msg ++ drop n o.buffer;
          } in
          let filled : Link = record l {
            send_pool = record l.send_pool {
              free_list = rest;
              all_blocks = set l.send_pool.all_blocks b o';
            };
          } in
          let (r, sent, session, pool) =
            enqueue-total w filled b (omega (arith, length-set l.send_pool.all_blocks b o')) in
          (
            r,
            ground (arith, e, there, sent, fits, enough),
            record {
              queue = l.session.send_data_queue ++ b ∷ [];
              session = session;
              blocks =
                  ap (λ (p : ObjectPool SendOverlapped). length p.all_blocks) pool
                  ∙ length-set l.send_pool.all_blocks b o';
              free_in = λ c h. free_in c (ground (arith, ap (count c) e, pool));
              queue_in = λ c h.
                  ground (arith, count-append c l.session.send_data_queue (b ∷ []), queue_in c, lt);
            },
          )

  -- What a look of the timeout thread leaves: the time of a ping may be noted, and its packet sent.
  pub check_session-IsSent :
      (l : Link) (now : ℕ)
      → ((b : ℕ) → 0 < count b l.send_pool.free_list → b < length l.send_pool.all_blocks)
      → ((b : ℕ) → 0 < count b l.session.send_data_queue → b < length l.send_pool.all_blocks)
      → (l' : Link) × (time : ℕ) × (check_session w now l ≡ some l')
        × IsSent (record l { session = record l.session { last_ping_time = time } }) l'
  unfolding check_session disconnect_async ClientSession.set_last_ping_time
  check_session-IsSent l now free_in queue_in = elim (Bool-cases l.session.is_connected) [
    | inr off ↦ (l, l.session.last_ping_time, ground (arith, off), unsent l.requests)
    | inl on ↦ elim (Bool-cases (leb timeout_ms (sub_size now l.session.last_activity_time))) [
      | inl idle ↦ elim (Option-cases l.session.socket_client) [
        | inl closed ↦
            (l, l.session.last_ping_time, ground (arith, on, idle, closed), unsent l.requests)
        | inr (socket, open_) ↦ (
          record l { requests = l.requests ++ shutdown_request l.session.index ∷ [] },
          l.session.last_ping_time,
          ground (arith, on, idle, open_),
          unsent (l.requests ++ shutdown_request l.session.index ∷ []),
        )
      ]
      | inr active ↦
          elim (Bool-cases (
            leb ping_interval_ms (sub_size now l.session.last_activity_time)
            && leb ping_interval_ms (sub_size now l.session.last_ping_time))) [
              | inr quiet ↦ (
                l,
                l.session.last_ping_time,
                ground (arith, on, active, quiet),
                unsent l.requests,
              )
              | inl due ↦
                  let (r, sent, is_sent) =
                    send_msg-IsSent
                      (record l { session = record l.session { last_ping_time = now } })
                      packet_header_length (encode 0 ping) free_in queue_in length-ping
                      (omega arith) in
                  (r.1, now, ground (arith, on, active, due, sent), is_sent)
            ]
    ]
  ]
    where
      unsent : (requests : List Request) → IsSent l (record l { requests = requests })
      unsent requests = record {
        queue = l.session.send_data_queue;
        session = refl;
        blocks = refl;
        free_in = free_in;
        queue_in = queue_in;
      }
