-- ===== src/Iocp/Workers.antt =====
-- What the worker threads of IOCPChatServer/IOCP.h do with one completion, where the calls of Windows
-- succeed.
use iocp.Common.{
  ℕ, suc, ◌<◌, ◌≡◌, ◌≢◌, refl, sym, ap, ◌∙◌, inl, inr, true, false, none, some, List, [], ◌∷◌, ◌++◌,
  arith, length, get_elem?, get_elem?_of_lt, set, inc_uint32, Bool-cases,
}
use iocp.Common.Int.{dec32}
use iocp.Net.{
  Windows, invalid_handle_value, recv_request, accept_request, shutdown_request, uint32_max,
}
use iocp.ClientSession
use iocp.ClientSession.{ClientSession, Link}
use iocp.Iocp.{
  IoCompletionPort, on_close, get_client_info, put_link, push_free_session_index, close_socket,
}
use iocp.Iocp.Accounts.{IsExact, IsAccounted-set, idle_at}
use iocp.Membership.Lists.{count}

-- The calls for accepts and receives succeed; sends may fail. `CreateIoCompletionPort` gives a handle.
pub record Works (w : Windows) : Type 0 where
  pub recv : (i g n : ℕ) → w.recv i g n ≡ true
  pub accept_ex : (i g n : ℕ) → w.accept_ex i g n ≡ true
  pub accept_context : (i g n : ℕ) → w.accept_context i g n ≡ true
  pub bind_port : (i g n : ℕ) → w.bind_port i g n ≢ invalid_handle_value
  pub socket : (i g n : ℕ) → (s : ℕ) × (w.socket i g n ≡ some s)

module _ (w : Windows) (good : Works w) where
  abbrev pub connected_session : Link → ClientSession
  connected_session l =
      let g = inc_uint32 l.session.generation in
      record l.session {
        is_connected = true;
        generation = g;
        recv_generation = g;
        last_activity_time = w.tick_count l.session.index g (length l.requests);
        last_ping_time = 0;
      }

  pub accept_completion_lem :
      (l : Link)
      → ClientSession.accept_completion w l ≡ (
        true,
        record l {
          session = connected_session l;
          requests = l.requests ++ recv_request l.session.index ∷ [];
        },
      )
  unfolding ClientSession.accept_completion ClientSession.on_connect ClientSession.update_activity
      ClientSession.bind_io_completion_port ClientSession.bind_recv
  accept_completion_lem l =
      let g = inc_uint32 l.session.generation in
      ground (
        arith,
        good.accept_context l.session.index l.session.generation (length l.requests),
        good.bind_port l.session.index g (length l.requests),
        good.recv l.session.index g (length l.requests),
      )

  pub bind_recv_lem :
      (l : Link)
      → ClientSession.bind_recv w l ≡ (
        true,
        record l {
          session = record l.session { recv_generation = l.session.generation };
          requests = l.requests ++ recv_request l.session.index ∷ [];
        },
      )
  unfolding ClientSession.bind_recv
  bind_recv_lem l =
      ground (arith, good.recv l.session.index l.session.generation (length l.requests))

  pub post_immediate_accept_lem :
      (l : Link)
      → (socket : ℕ) × (ClientSession.post_immediate_accept w l ≡ (
        true,
        record l {
          session = record l.session {
            latest_closed_time_sec = uint32_max;
            socket_client = some socket;
            accept_index = l.session.index;
          };
          requests = l.requests ++ accept_request l.session.index ∷ [];
        },
      ))
  unfolding ClientSession.post_immediate_accept
  post_immediate_accept_lem l =
      let (socket, e) = good.socket l.session.index l.session.generation (length l.requests) in
      (
        socket,
        ground (arith, e, good.accept_ex l.session.index l.session.generation (length l.requests)),
      )

module _ (w : Windows) (srv : IoCompletionPort) (v : IsExact srv) where
  unfoldable pub closed_server : ℕ → ClientSession → IoCompletionPort
  closed_server i s = record srv {
    client_infos = set srv.client_infos i (record s {
      is_connected = false;
      latest_closed_time_sec = w.steady_seconds s.index s.generation (length srv.requests);
      socket_client = none;
    });
    free_session_list = s.index ∷ srv.free_session_list;
    client_cnt = dec32 srv.client_cnt;
    requests = srv.requests ++ shutdown_request s.index ∷ [];
    events = srv.events ++ on_close s.index ∷ [];
  }

  pub close_socket_lem :
      (i : ℕ) (s : ClientSession)
      → get_elem? srv.client_infos i ≡ some s
      → s.is_connected ≡ true
      → close_socket w srv i ≡ some (closed_server i s)
  unfolding close_socket get_client_info put_link push_free_session_index ClientSession.closed
      closed_server
  close_socket_lem i s at conn = ground (arith, at, conn)

  close_socket_idle :
      (i : ℕ) (s : ClientSession)
      → get_elem? srv.client_infos i ≡ some s
      → s.is_connected ≡ false
      → close_socket w srv i ≡ some srv
  unfolding close_socket get_client_info
  close_socket_idle i s at off = ground (arith, at, off)

  pub closed_server-IsExact :
      (i : ℕ) (s : ClientSession)
      → get_elem? srv.client_infos i ≡ some s
      → s.is_connected ≡ true
      → IsExact (closed_server i s)
  unfolding closed_server
  closed_server-IsExact i s at conn =
      let o = v.slot i s at in
      IsAccounted-set i
        (record s {
          is_connected = false;
          latest_closed_time_sec = w.steady_seconds s.index s.generation (length srv.requests);
          socket_client = none;
        })
        v at
        (record {
          here = record {
            index = o.index;
            once = ground (arith, o.index, o.once, o.open_socket conn);
            open_socket = λ e. cc;
            accepting = λ e. absurd (omega (arith, e));
            tagged = λ e. cc;
          };
          elsewhere = λ j ne. ground (arith, o.index);
          counted = λ n e. ground (arith, v.counted, conn);
          queued = v.queued i s at;
        })

  -- `CloseSocket` on any session.
  pub close_socket-IsExact :
      (i : ℕ)
      → i < length srv.client_infos
      → (srv' : IoCompletionPort) × (close_socket w srv i ≡ some srv') × IsExact srv'
  close_socket-IsExact i lt =
      let (s, at) = get_elem?_of_lt srv.client_infos i lt in
      elim (Bool-cases s.is_connected) [
        | inl conn ↦
            (closed_server i s, close_socket_lem i s at conn, closed_server-IsExact i s at conn)
        | inr off ↦ (srv, close_socket_idle i s at off, v)
      ]

  unfoldable pub posted_server : ℕ → List ℕ → ClientSession → ℕ → IoCompletionPort
  posted_server i rest s socket = record srv {
    client_infos = set srv.client_infos i (record s {
      latest_closed_time_sec = uint32_max;
      socket_client = some socket;
      accept_index = s.index;
    });
    free_session_list = rest;
    requests = srv.requests ++ accept_request s.index ∷ [];
  }

  pub posted_server-IsExact :
      (i : ℕ) (rest : List ℕ) (s : ClientSession) (socket : ℕ)
      → srv.free_session_list ≡ i ∷ rest
      → get_elem? srv.client_infos i ≡ some s
      → IsExact (posted_server i rest s socket)
  unfolding posted_server
  posted_server-IsExact i rest s socket front at =
      let o = v.slot i s at in
      let once : suc (count i rest) ≡ idle_at s.socket_client =
        ground (arith, sym (ap (count i) front) ∙ o.once) in
      IsAccounted-set i
        (record s {
          latest_closed_time_sec = uint32_max;
          socket_client = some socket;
          accept_index = s.index;
        })
        v at
        (record {
          here = record {
            index = o.index;
            once = ground (arith, once);
            open_socket = λ e. refl;
            accepting = λ e. o.index;
            tagged = o.tagged;
          };
          elsewhere = λ j ne. ground (arith, ap (count j) front);
          counted = λ n e. ground (arith, v.counted);
          queued = v.queued i s at;
        })
