-- ===== src/Iocp/Rounds.antt =====
-- Messages to send, and rounds of the timeout thread, keep the accounts of IOCPChatServer/IOCP.h.
use iocp.Common.{
  ℕ, zero, suc, ◌+◌, ◌≤◌, ◌<◌, ◌≡◌, refl, sym, Bool, some, List, arith, length, length-set,
  get_elem?, get_elem?_of_lt, subst,
}
use iocp.Common.Int.{ℤ}
use iocp.Net.{Windows, SendOverlapped, max_sockbuf}
use iocp.ObjectPool.{ObjectPool}
use iocp.ClientSession.{ClientSession, Link}
use iocp.Iocp
use iocp.Iocp.{
  IoCompletionPort, CompletionEntry, handle_entry, start_server, check_session, check_sessions,
  get_client_info, put_link, timeout_ms, ping_interval_ms,
}
use iocp.Iocp.Accounts.{IsSlot, IsAccounted, IsExact, IsAccounted-set}
use iocp.Membership.Lists.{count}
use iocp.Iocp.Looks.{IsSent, send_msg-IsSent, check_session-IsSent}

-- The pool may change, as long as its blocks stay.
IsAccounted-pool :
    {clients : List ClientSession} {free : List ℕ} {cnt : ℤ} {pool : ObjectPool SendOverlapped}
    (pool' : ObjectPool SendOverlapped)
    → IsAccounted clients free cnt pool
    → length pool'.all_blocks ≡ length pool.all_blocks
    → ((b : ℕ) → 0 < count b pool'.free_list → b < length pool.all_blocks)
    → IsAccounted clients free cnt pool'
IsAccounted-pool pool' v same free_in = record {
  few = v.few;
  slot = v.slot;
  free_in = v.free_in;
  counted = v.counted;
  queued = λ j s at b h. omega (arith, v.queued j s at b h, same);
  pooled = λ b h. omega (arith, free_in b h, same);
}

-- A session and the pool as a send, or the note of a ping, leaves them.
IsSent-IsExact :
    (srv : IoCompletionPort) (i : ℕ) (s : ClientSession) (time : ℕ) (l' : Link)
    → IsExact srv
    → get_elem? srv.client_infos i ≡ some s
    → IsSent
        (record {
          session = record s { last_ping_time = time };
          send_pool = srv.send_buffer_pool;
          requests = srv.requests;
        })
        l'
    → IsExact (put_link srv i l')
unfolding put_link
IsSent-IsExact srv i s time l' v at sent =
    let o = v.slot i s at in
    let here : IsSlot srv.free_session_list i
        (record s { last_ping_time = time; send_data_queue = sent.queue }) =
      record {
        index = o.index;
        once = o.once;
        open_socket = o.open_socket;
        accepting = o.accepting;
        tagged = o.tagged;
      } in
    IsAccounted-pool l'.send_pool
      (IsAccounted-set i l'.session v at (record {
        here = subst (IsSlot srv.free_session_list i) (sym sent.session) here;
        elsewhere = λ j ne. refl;
        counted = λ n h. ground (arith, v.counted, sent.session);
        queued = λ b h. sent.queue_in b (ground (arith, sent.session));
      }))
      sent.blocks sent.free_in

module _ (w : Windows) where
  pub send_msg-IsExact :
      (srv : IoCompletionPort) (i n : ℕ) (msg : List ℕ)
      → IsExact srv
      → i < length srv.client_infos
      → n ≤ length msg
      → n ≤ max_sockbuf
      → (r : Bool × IoCompletionPort) × (Iocp.send_msg w srv i n msg ≡ some r) × IsExact r.1
  unfolding Iocp.send_msg get_client_info
  send_msg-IsExact srv i n msg v lt enough fits =
      let (s, at) = get_elem?_of_lt srv.client_infos i lt in
      let l : Link = record {
        session = s;
        send_pool = srv.send_buffer_pool;
        requests = srv.requests;
      } in
      let (r, e, sent) = send_msg-IsSent w l n msg v.pooled (v.queued i s at) enough fits in
      (
        (r.0, put_link srv i r.1),
        ground (arith, at, e),
        IsSent-IsExact srv i s s.last_ping_time r.1 v at sent,
      )

  pub check_sessions-IsExact :
      (now i left : ℕ) (srv : IoCompletionPort)
      → IsExact srv
      → i + left ≡ length srv.client_infos
      → (srv' : IoCompletionPort) × (check_sessions w now i left srv ≡ some srv') × IsExact srv'
  unfolding check_sessions get_client_info
  check_sessions-IsExact now i zero srv v e = (srv, refl, v)
  check_sessions-IsExact now i (suc left) srv v e =
      let (s, at) = get_elem?_of_lt srv.client_infos i (omega arith) in
      let l : Link = record {
        session = s;
        send_pool = srv.send_buffer_pool;
        requests = srv.requests;
      } in
      let (l', time, looked, sent) = check_session-IsSent w l now v.pooled (v.queued i s at) in
      let (srv', rest, v') =
        check_sessions-IsExact now (i + 1) left (put_link srv i l')
          (IsSent-IsExact srv i s time l' v at sent)
          (unfold put_link in (omega (arith, length-set srv.client_infos i l'.session))) in
      (srv', ground (arith, at, looked, rest), v')
