-- ===== src/Program/Stopping.antt =====
-- `End` of IOCPChatServer/ChatServer.h, as `main` and the console's handler of
-- IOCPChatServer/main.cpp call it.
use iocp.Common.{
  ℕ, zero, suc, ◌+◌, ◌≡◌, refl, true, false, none, some, List, [], ◌∷◌, ◌++◌, ◌>>=◌, arith, length,
  replicate, get_elem?, get_elem?-lt, get_elem?_of_lt, ◌≢◌,
}
use iocp.Net.{Windows}
use iocp.ClientSession.{ClientSession}
use iocp.RedisManager
use iocp.PacketManager.{PacketManager}
use iocp.PacketManager.Loop.{ended, process_packet}
use iocp.Iocp.{IoCompletionPort, get_client_info, close_all}
use iocp.Iocp.Ending.{close_all-closes}
use iocp.Endpoint.{
  cancels, destroy_thread, closesocket, post_queued_completion_status, close_handle, wsa_cleanup,
}
use iocp.Program.{
  Program, ConsoleEvent, ctrl_c, ctrl_close, ctrl_shutdown, other_event, end_redis, end_my_sql,
  end_managers, end_server, end_main, console_ctrl_handler,
}

-- What `End` leaves of the program `p`.
pub record IsEnded (w : Windows) (p p' : Program) : Type 0 where
  disconnected :
      (i : ℕ) (s : ClientSession) → get_elem? p'.io.client_infos i ≡ some s → s.is_connected ≡ false
  untold : p'.io.events ≡ p.io.events
  kept : p'.io.free_session_list ≡ p.io.free_session_list
  workers : p'.io.is_worker_run ≡ false
  timeouts : p'.endpoint.is_timeout_run ≡ false
  listener : p'.endpoint.listen_socket ≡ none
  handle : p'.endpoint.iocp_handle ≡ none
  calls :
      p'.endpoint.calls
      ≡ p.endpoint.calls
        ++ closesocket p.endpoint.listen_socket
          ∷ (cancels p.io.client_infos
              ++ (replicate p.endpoint.io_worker_threads
                    (post_queued_completion_status p.endpoint.iocp_handle)
                  ++ close_handle p.endpoint.iocp_handle ∷ []))
  thread :
      (time : PacketManager → ℕ) (fuel : ℕ)
      → process_packet time fuel p'.managers.packet_manager ≡ ended
  reports :
      p'.managers.packet_manager.system_write_buffer ≡ p.managers.packet_manager.system_write_buffer
  redis : p'.managers.packet_manager.redis_manager.is_task_run ≡ false
  my_sql : p'.managers.my_sql.is_task_run ≡ false

-- The program once the sessions are closed, in `io`.
abbrev stopped : Program → IoCompletionPort → Program
stopped p io = record {
  io = record io { is_worker_run = false };
  endpoint = record p.endpoint {
    is_timeout_run = false;
    listen_socket = none;
    iocp_handle = none;
    calls =
        p.endpoint.calls
        ++ closesocket p.endpoint.listen_socket
          ∷ (cancels p.io.client_infos
              ++ (replicate p.endpoint.io_worker_threads
                    (post_queued_completion_status p.endpoint.iocp_handle)
                  ++ close_handle p.endpoint.iocp_handle ∷ []));
  };
  managers = end_managers p.managers;
}

abbrev Disconnected : IoCompletionPort → Type 0
Disconnected io =
    (i : ℕ) (s : ClientSession) → get_elem? io.client_infos i ≡ some s → s.is_connected ≡ false

module _ (w : Windows) where
  cancels-none :
      (ss : List ClientSession)
      → ((i : ℕ) (s : ClientSession) → get_elem? ss i ≡ some s → s.is_connected ≡ false)
      → cancels ss ≡ []
  unfolding cancels
  cancels-none [] h = refl
  cancels-none (s ∷ ss) h = ground (arith, h 0 s refl, cancels-none ss (λ i q at. h (suc i) q at))

  close_all-none :
      (i left : ℕ) (io : IoCompletionPort)
      → i + left ≡ length io.client_infos
      → ((j : ℕ) (s : ClientSession)
          → get_elem? io.client_infos j ≡ some s
          → s.is_connected ≡ false)
      → close_all w i left io ≡ some io
  unfolding close_all get_client_info
  close_all-none i zero io e h = refl
  close_all-none i (suc left) io e h =
      let (s, at) = get_elem?_of_lt io.client_infos i (omega arith) in
      ground (arith, at, h i s at, close_all-none (i + 1) left io (omega arith) h)

  end_server_lem :
      (p : Program)
      → (io : IoCompletionPort) × (end_server w p ≡ some (stopped p io))
        × Disconnected io
        × (io.events ≡ p.io.events)
        × (io.free_session_list ≡ p.io.free_session_list)
  unfolding end_server destroy_thread
  end_server_lem p =
      let (io, closed, none_left, free, events, same) =
        close_all-closes w 0 (length p.io.client_infos) p.io (λ j s lt at. absurd (omega arith))
          (omega arith) in
      (
        io,
        ground (arith, closed),
        (λ i s at. none_left i s (omega (arith, same, get_elem?-lt io.client_infos i at)) at),
        events,
        free,
      )

  stopped-IsEnded :
      (p : Program) (io : IoCompletionPort)
      → Disconnected io
      → io.events ≡ p.io.events
      → io.free_session_list ≡ p.io.free_session_list
      → IsEnded w p (stopped p io)
  unfolding end_managers end_redis end_my_sql process_packet RedisManager.stop
  stopped-IsEnded p io off events free = record {
    disconnected = off;
    untold = events;
    kept = free;
    workers = refl;
    timeouts = refl;
    listener = refl;
    handle = refl;
    calls = refl;
    thread = λ time fuel. refl;
    reports = refl;
    redis = refl;
    my_sql = refl;
  }

  -- A second `End`.
  end_again :
      (p : Program) (io : IoCompletionPort)
      → Disconnected io
      → end_main w (stopped p io)
        ≡ some (record (stopped p io) {
          endpoint = record (stopped p io).endpoint {
            calls =
                ((stopped p io).endpoint.calls
                  ++ closesocket none
                    ∷ (replicate p.endpoint.io_worker_threads (post_queued_completion_status none)
                        ++ close_handle none ∷ []))
                ++ wsa_cleanup ∷ [];
          };
        })
  unfolding end_main end_server destroy_thread end_managers end_redis end_my_sql RedisManager.stop
  end_again p io off = ground (
    arith,
    close_all-none 0 (length io.client_infos) (record io { is_worker_run = false }) (omega arith)
        off,
    cancels-none io.client_infos off,
  )

  handler_ends :
      (p : Program) (event : ConsoleEvent)
      → console_ctrl_handler w event (some p) ≡ (end_server w p >>= λ p'. some (true, some p'))
      → (p' : Program) × (console_ctrl_handler w event (some p) ≡ some (true, some p'))
        × IsEnded w p p'
        × (end_main w p'
            ≡ some (record p' {
              endpoint = record p'.endpoint {
                calls =
                    (p'.endpoint.calls
                      ++ closesocket none
                        ∷ (replicate p.endpoint.io_worker_threads
                              (post_queued_completion_status none)
                            ++ close_handle none ∷ []))
                    ++ wsa_cleanup ∷ [];
              };
            }))
  handler_ends p event how =
      let (io, e, off, events, free) = end_server_lem p in
      (
        stopped p io,
        ground (arith, e, how),
        stopped-IsEnded p io off events free,
        end_again p io off,
      )

  -- The console's handler, on each of its three events, ends the server, without a fault: no session is
  -- connected afterwards; all threads are told to stop, with a null completion for each worker
  -- thread behind the cancelled requests; the packet thread's next turn is its last. But `OnClose` is
  -- not called, no index returns to the free ones, and the reports that wait stay. The end of `main`
  -- after it finds nothing to do: it changes nothing but the calls of Windows, which it makes on
  -- handles that are no longer valid, for the socket, for each worker thread, and for the port.
  pub console_ctrl_handler-end_main :
      (p : Program) (event : ConsoleEvent)
      → event ≢ other_event
      → (p' : Program) × (console_ctrl_handler w event (some p) ≡ some (true, some p'))
        × IsEnded w p p'
        × (end_main w p'
            ≡ some (record p' {
              endpoint = record p'.endpoint {
                calls =
                    (p'.endpoint.calls
                      ++ closesocket none
                        ∷ (replicate p.endpoint.io_worker_threads
                              (post_queued_completion_status none)
                            ++ close_handle none ∷ []))
                    ++ wsa_cleanup ∷ [];
              };
            }))
  unfolding console_ctrl_handler
  console_ctrl_handler-end_main p other_event one = absurd (one refl)
  console_ctrl_handler-end_main p ctrl_c one = handler_ends p ctrl_c refl
  console_ctrl_handler-end_main p ctrl_close one = handler_ends p ctrl_close refl
  console_ctrl_handler-end_main p ctrl_shutdown one = handler_ends p ctrl_shutdown refl
