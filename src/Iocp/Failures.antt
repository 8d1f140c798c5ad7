-- ===== src/Iocp/Failures.antt =====
-- What IOCPChatServer/IOCP.h does when a receive cannot be posted, when a completion comes from an
-- earlier connection, and when a connection ends with sends still queued.
use iocp.Common.Int.{dec32}
use iocp.Common.{
  ℕ, ◌≤◌, ◌<◌, ◌≡◌, ◌≢◌, refl, ap, ◌∙◌, Bool, true, false, not, none, some, List, [], ◌∷◌, ◌++◌,
  arith, ◌==◌, length, get_elem?, get_elem?-lt, get_elem?-set_self, set, set-set, append-nil,
  length-append, get_elem?_of_lt, take, drop,
}
use iocp.Membership.Lists.{count}
use iocp.ObjectPool
use iocp.Net
use iocp.Net.{
  Windows, SendOverlapped, Request, recv_request, accept_request, shutdown_request, max_sockbuf,
  uint32_max,
}
use iocp.ClientSession
use iocp.ClientSession.{ClientSession, Link, send_msg, fill, enqueue}
use iocp.ClientSession.Contents.{sends_of, sends_of-append}
use iocp.Iocp.{
  IoCompletionPort, CompletionEntry, send_overlapped, on_close, on_receive, get_client_info,
  put_link, push_free_session_index, close_socket, handle_recv, handle_send, handle_entry,
}
use iocp.Iocp.Workers.{Works, connected_session, accept_completion_lem, post_immediate_accept_lem}

-- When `WSARecv` fails after a receive of a connected session, the session is disconnected and has no
-- socket, but nobody is told: the only call is `OnReceive`, the session does not return to the
-- list of free ones, and the counter of clients still counts it.
pub handle_recv_failed :
    (w : Windows) (srv : IoCompletionPort) (i : ℕ) (s : ClientSession) (io_size : ℕ)
    (bytes : List ℕ)
    → ((j g n : ℕ) → w.recv j g n ≡ false)
    → get_elem? srv.client_infos i ≡ some s
    → s.recv_generation ≡ s.generation
    → (srv' : IoCompletionPort) × (s' : ClientSession) × (handle_recv w srv i i io_size bytes
        ≡ some srv')
      × (get_elem? srv'.client_infos i ≡ some s')
      × (s'.is_connected ≡ false)
      × (s'.socket_client ≡ none)
      × (srv'.events ≡ srv.events ++ on_receive s.index io_size bytes ∷ [])
      × (srv'.free_session_list ≡ srv.free_session_list)
      × (srv'.client_cnt ≡ srv.client_cnt)
unfolding handle_recv get_client_info put_link ClientSession.update_activity ClientSession.bind_recv
    ClientSession.closed
handle_recv_failed w srv i s io_size bytes fails at same =
    let lt = get_elem?-lt srv.client_infos i at in
    let active : ClientSession = record s {
      last_activity_time = w.tick_count s.index s.generation (length srv.requests);
      last_ping_time = 0;
    } in
    let gone : ClientSession = record active {
      recv_generation = s.generation;
      is_connected = false;
      latest_closed_time_sec = w.steady_seconds s.index s.generation (length srv.requests);
      socket_client = none;
    } in
    (
      record srv {
        client_infos = set srv.client_infos i gone;
        requests = srv.requests ++ shutdown_request s.index ∷ [];
        events = srv.events ++ on_receive s.index io_size bytes ∷ [];
      },
      gone,
      ground (
        arith,
        at,
        same,
        fails s.index s.generation (length srv.requests),
        get_elem?-set_self srv.client_infos i active lt,
        set-set srv.client_infos i active gone,
      ),
      get_elem?-set_self srv.client_infos i gone lt,
      refl,
      refl,
      refl,
      refl,
      refl,
    )

-- The completion of a send of an earlier connection, by its generation, of a session that is connected
-- again: with bytes it only returns its block to the pool; with none it ends the connection of now,
-- which `OnClose` reports.
pub handle_entry_stale :
    (w : Windows) (srv : IoCompletionPort) (e : CompletionEntry) (b : ℕ) (s : ClientSession)
    (o : SendOverlapped)
    → e.overlapped ≡ some (send_overlapped b)
    → get_elem? srv.client_infos e.key ≡ some s
    → get_elem? srv.send_buffer_pool.all_blocks b ≡ some o
    → o.generation ≢ s.generation
    → s.is_connected ≡ true
    → (e.io_size ≢ 0
        → handle_entry w srv e
          ≡ some (record srv { send_buffer_pool = ObjectPool.free srv.send_buffer_pool (some b) }))
      × (e.io_size ≡ 0
          → (srv' : IoCompletionPort) × (s' : ClientSession) × (handle_entry w srv e ≡ some srv')
            × (get_elem? srv'.client_infos e.key ≡ some s')
            × (s'.is_connected ≡ false)
            × (srv'.events ≡ srv.events ++ on_close s.index ∷ [])
            × (srv'.send_buffer_pool ≡ srv.send_buffer_pool))
unfolding handle_entry handle_send close_socket get_client_info put_link push_free_session_index
    ClientSession.closed
handle_entry_stale w srv e b s o of at block differ conn =
    let gone : ClientSession = record s {
      is_connected = false;
      latest_closed_time_sec = w.steady_seconds s.index s.generation (length srv.requests);
      socket_client = none;
    } in
    (
      (λ some_size. ground (arith, of, at, block)),
      (λ zero_size. (
        record srv {
          client_infos = set srv.client_infos e.key gone;
          free_session_list = s.index ∷ srv.free_session_list;
          client_cnt = dec32 srv.client_cnt;
          requests = srv.requests ++ shutdown_request s.index ∷ [];
          events = srv.events ++ on_close s.index ∷ [];
        },
        gone,
        ground (arith, of, at, conn),
        get_elem?-set_self srv.client_infos e.key gone (get_elem?-lt srv.client_infos e.key at),
        refl,
        refl,
        refl,
      )),
    )

-- Behind a message that is queued, the next one is not sent.
queue_only :
    (w : Windows) (l : Link) (b : ℕ) (rest msg : List ℕ)
    → l.session.send_data_queue ≡ b ∷ rest
    → ((c : ℕ) → 0 < count c l.send_pool.free_list → c < length l.send_pool.all_blocks)
    → length msg ≤ max_sockbuf
    → (r : Bool × Link) × (send_msg w l (length msg) msg ≡ some r)
      × (r.0 ≡ not (length l.send_pool.free_list == 0))
      × (r.1.requests ≡ l.requests)
unfolding send_msg ObjectPool.alloc fill ObjectPool.put_block enqueue
queue_only w l b rest msg queue inside fits = by_free l.send_pool.free_list refl
  where
    by_free :
        (free : List ℕ)
        → l.send_pool.free_list ≡ free
        → (r : Bool × Link) × (send_msg w l (length msg) msg ≡ some r)
          × (r.0 ≡ not (length l.send_pool.free_list == 0))
          × (r.1.requests ≡ l.requests)
    by_free [] e = ((false, l), ground (arith, e), ground (arith, e), refl)
    by_free (c ∷ free) e =
        let (o, there) =
          get_elem?_of_lt l.send_pool.all_blocks c (inside c (ground (arith, ap (count c) e))) in
        let o' : SendOverlapped = record {
          len = length msg;
          operation = Net.send;
          generation = l.session.generation;
          buffer = take (length msg) msg ++ drop (length msg) o.buffer;
        } in
        (
          (
            true,
            record l {
              send_pool = record l.send_pool {
                free_list = free;
                all_blocks = set l.send_pool.all_blocks c o';
              };
              session = record l.session { send_data_queue = l.session.send_data_queue ++ c ∷ [] };
            },
          ),
          ground (
            arith,
            e,
            there,
            fits,
            ap (λ k. length (k ++ c ∷ [])) queue,
            length-append rest (c ∷ []),
          ),
          ground (arith, e),
          refl,
        )

-- When a connection of a session ends while sends of it are queued, the queue stays: with Windows doing
-- what accepts and receives ask, a message for the next connection of the session is refused if no
-- block is free, and else answered by `true` and only queued, so that nothing is sent.
pub send_msg_blocked :
    (w : Windows) (l : Link) (b : ℕ) (rest msg : List ℕ)
    → Works w
    → l.session.send_data_queue ≡ b ∷ rest
    → ((c : ℕ) → 0 < count c l.send_pool.free_list → c < length l.send_pool.all_blocks)
    → length msg ≤ max_sockbuf
    → (next : Link) × (r : Bool × Link) × (ClientSession.accept_completion w
          (ClientSession.post_immediate_accept w (ClientSession.closed w l)).1
        ≡ (true, next))
      × (next.session.is_connected ≡ true)
      × (send_msg w next (length msg) msg ≡ some r)
      × (r.0 ≡ not (length l.send_pool.free_list == 0))
      × (sends_of r.1.requests ≡ sends_of l.requests)
unfolding ClientSession.closed
send_msg_blocked w l b rest msg good queue inside fits =
    let (socket, posted) = post_immediate_accept_lem w good (ClientSession.closed w l) in
    let waiting : Link = record l {
      session = record l.session {
        is_connected = false;
        latest_closed_time_sec = uint32_max;
        socket_client = some socket;
        accept_index = l.session.index;
      };
      requests =
          (l.requests ++ shutdown_request l.session.index ∷ [])
          ++ accept_request l.session.index ∷ [];
    } in
    let next : Link = record waiting {
      session = connected_session w good waiting;
      requests = waiting.requests ++ recv_request l.session.index ∷ [];
    } in
    let (r, sent, answer, same) = queue_only w next b rest msg queue inside fits in
    (
      next,
      r,
      ground (arith, posted, accept_completion_lem w good waiting),
      refl,
      sent,
      answer,
      ap sends_of same
          ∙ sends_of-append waiting.requests (recv_request l.session.index ∷ [])
          ∙ append-nil (sends_of waiting.requests)
          ∙ sends_of-append (l.requests ++ shutdown_request l.session.index ∷ [])
              (accept_request l.session.index ∷ [])
          ∙ append-nil (sends_of (l.requests ++ shutdown_request l.session.index ∷ []))
          ∙ sends_of-append l.requests (shutdown_request l.session.index ∷ [])
          ∙ append-nil (sends_of l.requests),
    )
