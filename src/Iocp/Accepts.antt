-- ===== src/Iocp/Accepts.antt =====
-- The completion of an accept, in `WorkerThread` of IOCPChatServer/IOCP.h, keeps the accounts.
use iocp.Common.{
  ℕ, ◌<◌, ◌≡◌, refl, ap, ◌∙◌, false, some, List, [], ◌∷◌, ◌++◌, arith, length, get_elem?,
  get_elem?_of_lt, set, length-set,
}
use iocp.Common.Int.{inc32}
use iocp.Net.{Windows, recv_request}
use iocp.ClientSession.{ClientSession}
use iocp.Iocp.{
  IoCompletionPort, on_connect, get_client_info, put_link, pop_free_session_index, post_next_accept,
  handle_accept,
}
use iocp.Iocp.Accounts.{IsExact, IsAccounted-set, connected-le, connected-set, idle_at}
use iocp.Iocp.Workers.{
  Works, connected_session, accept_completion_lem, post_immediate_accept_lem, posted_server,
  posted_server-IsExact,
}
use iocp.Membership.Lists.{count}

module _ (w : Windows) (good : Works w) where
  -- `PopFreeSessionIndex`, and `PostImmediateAccept` for what it gives.
  pub post_next_accept-IsExact :
      (srv : IoCompletionPort)
      → IsExact srv
      → (srv' : IoCompletionPort) × (post_next_accept w srv ≡ some srv') × IsExact srv'
  unfolding post_next_accept pop_free_session_index get_client_info put_link posted_server
  post_next_accept-IsExact srv v = by_list srv.free_session_list refl
    where
      by_list :
          (free : List ℕ)
          → srv.free_session_list ≡ free
          → (srv' : IoCompletionPort) × (post_next_accept w srv ≡ some srv') × IsExact srv'
      by_list [] e = (srv, ground (arith, e), v)
      by_list (i ∷ rest) e =
          let lt : i < length srv.client_infos = v.free_in i (ground (arith, ap (count i) e)) in
          let (s, at) = get_elem?_of_lt srv.client_infos i lt in
          let (socket, posted) =
            post_immediate_accept_lem w good
              (record { session = s; send_pool = srv.send_buffer_pool; requests = srv.requests }) in
          (
            posted_server w srv v i rest s socket,
            ground (arith, e, at, posted),
            posted_server-IsExact w srv v i rest s socket e at,
          )

  accepted_server : IoCompletionPort → ℕ → ClientSession → IoCompletionPort
  accepted_server srv i s = record srv {
    client_infos = set srv.client_infos i (
        connected_session w good
          (record { session = s; send_pool = srv.send_buffer_pool; requests = srv.requests }));
    client_cnt = inc32 srv.client_cnt;
    requests = srv.requests ++ recv_request s.index ∷ [];
    events = srv.events ++ on_connect s.index ∷ [];
  }

  handle_accept_lem :
      (srv : IoCompletionPort) (k : ℕ) (s : ClientSession)
      → get_elem? srv.client_infos k ≡ some s
      → s.accept_index ≡ k
      → handle_accept w srv k ≡ post_next_accept w (accepted_server srv k s)
  unfolding handle_accept get_client_info put_link accepted_server
  handle_accept_lem srv k s at named = ground (
    arith,
    at,
    named,
    accept_completion_lem w good
        (record { session = s; send_pool = srv.send_buffer_pool; requests = srv.requests }),
  )

  accepted_server-IsExact :
      (srv : IoCompletionPort) (k : ℕ) (s : ClientSession)
      → IsExact srv
      → get_elem? srv.client_infos k ≡ some s
      → idle_at s.socket_client ≡ 0
      → s.is_connected ≡ false
      → IsExact (accepted_server srv k s)
  unfolding accepted_server
  accepted_server-IsExact srv k s v at open_socket off =
      let o = v.slot k s at in
      IsAccounted-set k
        (connected_session w good
          (record { session = s; send_pool = srv.send_buffer_pool; requests = srv.requests }))
        v at
        (record {
          here = record {
            index = o.index;
            once = o.once;
            open_socket = λ e. open_socket;
            accepting = o.accepting;
            tagged = λ e. refl;
          };
          elsewhere = λ j ne. refl;
          counted = λ n e. ground (
            arith,
            v.counted,
            off,
            v.few,
            connected-le (
                set srv.client_infos k (
                  connected_session w good (record {
                    session = s;
                    send_pool = srv.send_buffer_pool;
                    requests = srv.requests;
                  }))),
            connected-set srv.client_infos k
                (connected_session w good (record {
                  session = s;
                  send_pool = srv.send_buffer_pool;
                  requests = srv.requests;
                }))
                at,
            length-set srv.client_infos k (
                connected_session w good (record {
                  session = s;
                  send_pool = srv.send_buffer_pool;
                  requests = srv.requests;
                })),
          );
          queued = v.queued k s at;
        })

  pub handle_accept-IsExact :
      (srv : IoCompletionPort) (k : ℕ) (s : ClientSession)
      → IsExact srv
      → get_elem? srv.client_infos k ≡ some s
      → idle_at s.socket_client ≡ 0
      → s.is_connected ≡ false
      → (srv' : IoCompletionPort) × (handle_accept w srv k ≡ some srv') × IsExact srv'
  handle_accept-IsExact srv k s v at open_socket off =
      let (srv', e, v') =
        post_next_accept-IsExact (accepted_server srv k s)
          (accepted_server-IsExact srv k s v at open_socket off) in
      (srv', handle_accept_lem srv k s at ((v.slot k s at).accepting open_socket) ∙ e, v')
