-- ===== src/Examples/Programs.antt =====
-- Applications of the theorems on the beginning and the end of the program, and on a whole run of the
-- server.
use iocp.Common.{
  get_elem?, ◌≤◌, length, Option, ◌+◌, ◌<◌, ℕ, ◌≡◌, refl, true, false, none, some, [], ◌∷◌, ◌++◌,
  arith, drop, replicate, ◌^◌,
}
use iocp.Common.Int.{pos}
use iocp.Room.{Sent}
use iocp.Net
use iocp.Net.{SendOverlapped}
use iocp.PacketManager.Consistent.{IsConsistent}
use iocp.PacketManager.Handled.{IsHandled}
use iocp.User.{User}
use iocp.PacketManager.Reach.{enters}
use iocp.Iocp
use iocp.Iocp.{IoCompletionPort, CompletionEntry, free_indices, start_server, check_sessions}
use iocp.Iocp.Accounts.{IsExact}
use iocp.Iocp.Completions.{IsPossible, no_structure}
use iocp.Iocp.Start.{start_server-IsExact}
use iocp.ChatServer
use iocp.ChatServer.{ChatServer, call_backs}
use iocp.ChatServer.Runs.{Running, started, completed, worked, Running-IsSound, Running-total}
use iocp.Endpoint
use iocp.Endpoint.{
  Setup, Endpoint, wsa_startup, wsa_socket, bind_call, listen_call, create_io_completion_port,
  bind_listen_call, closesocket, post_queued_completion_status, close_handle, wsa_cleanup,
}
use iocp.Endpoint.Listening.{init-bind_and_listen}
use iocp.Program.{Program, ctrl_c, console_ctrl_handler, end_main}
use iocp.Program.Stopping.{IsEnded, console_ctrl_handler-end_main}
use iocp.PacketManager.Sends.Steps.{IsServing}
use iocp.MySqlManager
use iocp.ObjectMemoryPool.{ObjectMemoryPool, new_pool, allocate, deallocate, write_word}
use iocp.ObjectMemoryPool.Reusing.{from, allocate-deallocate}
use iocp.Examples.Data.{memory, sized, server, first_user, enter_packet}
use iocp.Examples.Logins.{first_here}
use iocp.Examples.Rooms.{refused_entry}
use iocp.Examples.Closings.{refused}
use iocp.Examples.Servers.{all_well, all_well-Works, two_sessions}

-- The port is taken by another program.
abbrev port_taken : Setup
port_taken = record {
  startup = true;
  listen_socket = some 5;
  bind = λ port. false;
  listen = λ backlog. true;
  create_port = λ threads. some 9;
  bind_listen = true;
}

-- The port is free.
abbrev port_free : Setup
port_free = record port_taken { bind = λ port. true }

abbrev opened : Endpoint
opened = record {
  listen_socket = some 5;
  iocp_handle = none;
  max_io_worker_thread_count = 8;
  io_worker_threads = 0;
  is_timeout_run = false;
  calls = [];
}

init-bind_and_listen_example :
    ((Endpoint.init port_taken 8 opened).1.calls ≡ wsa_startup ∷ wsa_socket ∷ [])
    × ((Endpoint.init port_taken 8 opened).0 ≡ true)
    × ((Endpoint.bind_and_listen port_taken 11021 opened).1.calls ≡ bind_call (some 5) 11021 ∷ [])
    × ((Endpoint.bind_and_listen port_taken 11021 opened).0 ≡ false)
    × ((Endpoint.init port_taken 8 opened).0 ≡ true
        → ((Endpoint.init port_taken 8 opened).1.listen_socket ≡ some 5)
          × ((Endpoint.init port_taken 8 opened).1.max_io_worker_thread_count ≡ 8))
    × ((Endpoint.bind_and_listen port_taken 11021 opened).0 ≡ true
        → (Endpoint.bind_and_listen port_taken 11021 opened).1.iocp_handle ≡ some 9)
init-bind_and_listen_example = init-bind_and_listen port_taken 8 11021 opened

abbrev new_block : ℕ → SendOverlapped
new_block i = record { len = 0; operation = Net.send; generation = 0; buffer = [] }

-- A server with one connected client, and all threads running.
abbrev serving : Program
serving = record {
  io = two_sessions;
  endpoint = record opened { iocp_handle = some 9; io_worker_threads = 4; is_timeout_run = true };
  managers = record {
    packet_manager = record server { is_run_process_thread = true };
    redis_ip = [];
    redis_port = 6379;
    redis_threads = 1;
    my_sql = MySqlManager.new_manager;
    my_sql_threads = 1;
  };
}

console_ctrl_handler-end_main_example :
    (p' : Program) × (console_ctrl_handler all_well ctrl_c (some serving) ≡ some (true, some p'))
    × IsEnded all_well serving p'
    × (end_main all_well p'
        ≡ some (record p' {
          endpoint = record p'.endpoint {
            calls =
                (p'.endpoint.calls
                  ++ closesocket none
                    ∷ (replicate 4 (post_queued_completion_status none) ++ close_handle none ∷ []))
                ++ wsa_cleanup ∷ [];
          };
        }))
console_ctrl_handler-end_main_example =
    console_ctrl_handler-end_main all_well serving ctrl_c (λ e. cc)

-- A server for four clients, as it is started.
abbrev four :
    (io : IoCompletionPort) × (start_server all_well new_block 4 ≡ some io)
    × IsExact io
    × (io.free_session_list ≡ drop 100 (free_indices 0 4))
    × (io.client_cnt ≡ pos 0)
four = start_server-IsExact all_well new_block 4 all_well-Works (omega arith)

abbrev four_clients : ChatServer
four_clients = record { io = four.0; packet_manager = server }

four_start : ChatServer.run all_well new_block memory 4 ≡ some four_clients
unfolding ChatServer.run
four_start = ground (arith, four.1)

-- A completion that is posted without a structure.
abbrev posted : CompletionEntry
posted = record { key = 0; io_size = 1; overlapped = none; recv_buf = 0 ∷ [] }

abbrev after_posted : ChatServer
after_posted = record four_clients { io = record four.0 { events = [] } }

posted_handled : ChatServer.handle_entry all_well four_clients posted ≡ some after_posted
unfolding ChatServer.handle_entry Iocp.handle_entry call_backs
posted_handled = refl

abbrev reached :
    Running all_well new_block memory 4 (record after_posted { packet_manager = refused })
reached =
    worked 0 first_user
      (completed posted (started four_start) (no_structure refl) (omega arith) (omega arith)
        posted_handled)
      first_here (enters 7 enter_packet refused_entry)

Running-IsSound_example :
    IsExact four.0 × IsConsistent 8 refused × IsServing 4 refused × (length four.0.client_infos ≡ 4)
Running-IsSound_example =
    Running-IsSound (record after_posted { packet_manager = refused }) all_well-Works sized reached

Running-total_example :
    ((e : CompletionEntry)
      → IsPossible after_posted.io e
      → e.io_size ≤ length e.recv_buf
      → e.io_size < 2 ^ 32
      → (srv' : ChatServer) × (ChatServer.handle_entry all_well
            (record after_posted { packet_manager = refused })
            e
          ≡ some srv'))
    × ((t k : ℕ) (s : Sent)
        → get_elem? refused.sent k ≡ some s
        → (io : IoCompletionPort) × (ChatServer.send_packet_func all_well after_posted.io t s
            ≡ some io))
    × ((now : ℕ)
        → (io : IoCompletionPort) × (check_sessions all_well now 0
              (length four.0.client_infos)
              after_posted.io
            ≡ some io))
    × ((i : ℕ) (u : User)
        → get_elem? refused.user_manager.user_obj_pool i ≡ some u
        → IsHandled refused i u)
Running-total_example =
    Running-total (record after_posted { packet_manager = refused }) all_well-Works sized reached

allocate-deallocate_example :
    (new_pool 3 16 ≡ some (from 2 16 (some 0)))
    × ((k : ℕ) → k < 2 → allocate (from 2 16 (some k)) ≡ some (some k, from 2 16 (some (k + 1))))
    × (allocate (from 2 16 (some 2)) ≡ some (some 2, from 2 16 none))
    × (allocate (from 2 16 none) ≡ some (none, from 2 16 none))
    × ((k : ℕ) (head word : Option ℕ)
        → k < 3
        → (p : ObjectMemoryPool) × (allocate
              (deallocate (write_word (from 2 16 head) k word) (some k))
            ≡ some (some k, p))
          × (p.free_list_head ≡ word)
          × (word ≡ none → allocate p ≡ some (none, p)))
    × ((k : ℕ) (head : Option ℕ)
        → k < 2
        → allocate (deallocate (from 2 16 head) (some k)) ≡ some (some k, from 2 16 (some (k + 1))))
allocate-deallocate_example = allocate-deallocate 2 16 (omega arith)
