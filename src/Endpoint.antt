-- ===== src/Endpoint.antt =====
-- IOCPChatServer/IOCP.h, the part that is not about sessions: the listening socket, the completion
-- port and the threads, from `Init` to `DestroyThread`; and the socket options of
-- IOCPChatServer/ClientSession.h. Each call of Windows is recorded, in order; the results are
-- parameters. Starting a thread is counted; joining it and waiting leave no trace.
pub mod Listening
use iocp.Common.{
  ℕ, ◌+◌, ◌%◌, ◌^◌, Bool, true, false, not, Option, none, some, List, [], ◌∷◌, ◌++◌, ◌>>=◌,
  if◌then◌else◌, length, replicate,
}
use iocp.Net.{Windows, SendOverlapped}
use iocp.ClientSession.{ClientSession}
use iocp.Iocp
use iocp.Iocp.{IoCompletionPort, close_all}

-- `startup`: `WSAStartup` gives 0. `listen_socket`: what `WSASocket` gives, if it is not
-- `INVALID_SOCKET`. `bind` and `listen`, of the port and of the backlog: the call gives 0.
-- `create_port`: the new completion port for a number of threads, if it is not `NULL`.
-- `bind_listen`: the listening socket could be bound to it.
pub record Setup : Type 0 where
  pub startup : Bool
  pub listen_socket : Option ℕ
  pub bind : ℕ → Bool
  pub listen : ℕ → Bool
  pub create_port : ℕ → Option ℕ
  pub bind_listen : Bool

-- A call of Windows. A socket or a handle is `none` where it is not valid.
pub data SystemCall : Type 0 where
  wsa_startup wsa_socket wsa_cleanup : SystemCall
  bind_call : (socket : Option ℕ) (port : ℕ) → SystemCall
  listen_call : (socket : Option ℕ) (backlog : ℕ) → SystemCall
  create_io_completion_port : (threads : ℕ) → SystemCall
  bind_listen_call : (socket handle : Option ℕ) → SystemCall
  closesocket : (socket : Option ℕ) → SystemCall
  cancel_io_ex : (index : ℕ) → SystemCall
  post_queued_completion_status : (handle : Option ℕ) → SystemCall
  close_handle : (handle : Option ℕ) → SystemCall

pub record Endpoint : Type 0 where
  pub listen_socket : Option ℕ
  pub iocp_handle : Option ℕ
  pub max_io_worker_thread_count : ℕ
  pub io_worker_threads : ℕ
  pub is_timeout_run : Bool
  pub calls : List SystemCall

-- The members' initialisers.
unfoldable pub new_endpoint : Endpoint
new_endpoint = record {
  listen_socket = none;
  iocp_handle = none;
  max_io_worker_thread_count = 0;
  io_worker_threads = 0;
  is_timeout_run = false;
  calls = [];
}

-- `MAX_WORKERTHREAD`
abbrev pub max_workerthread : ℕ
max_workerthread = 4

abbrev pub record_call : Endpoint → SystemCall → Endpoint
record_call e c = record e { calls = e.calls ++ c ∷ [] }

module _ (s : Setup) where
  unfoldable pub init : ℕ → Endpoint → Bool × Endpoint
  init max_io_worker_threads_count e =
      let started = record_call e wsa_startup in
      let opened = record (record_call started wsa_socket) { listen_socket = s.listen_socket } in
      if not s.startup then (false, started) else elim s.listen_socket [
        | none ↦ (false, opened)
        | some socket ↦
            (true, record opened { max_io_worker_thread_count = max_io_worker_threads_count })
      ]

  -- The end of `BindandListen`, from the completion port on.
  unfoldable pub bind_port : Endpoint → Bool × Endpoint
  bind_port e =
      let created =
        record (record_call e (create_io_completion_port e.max_io_worker_thread_count)) {
          iocp_handle = s.create_port e.max_io_worker_thread_count;
        } in
      elim (s.create_port e.max_io_worker_thread_count) [
        | none ↦ (false, created)
        | some handle ↦
            (s.bind_listen, record_call created (bind_listen_call e.listen_socket (some handle)))
      ]

  -- `htons` takes 16 bits of the port.
  unfoldable pub bind_and_listen : ℕ → Endpoint → Bool × Endpoint
  bind_and_listen n_bind_port e =
      let port = n_bind_port % 2 ^ 16 in
      let bound = record_call e (bind_call e.listen_socket port) in
      let heard = record_call bound (listen_call e.listen_socket 5) in
      if not (s.bind port)
      then (false, bound)
      else if not (s.listen 5)
      then (false, heard)
      else bind_port heard

-- `CreateWorkerThread` and the thread of timeouts, which `StartServer` starts.
unfoldable pub start_threads : Endpoint → Endpoint
start_threads e = record e {
  io_worker_threads = e.io_worker_threads + max_workerthread;
  is_timeout_run = true;
}

-- The calls of `CancelIoEx`, of the sessions that are connected.
unfoldable pub cancels : List ClientSession → List SystemCall
cancels [] = []
cancels (s ∷ ss) = if s.is_connected then cancel_io_ex s.index ∷ cancels ss else cancels ss

unfoldable pub destroy_thread :
    Windows → IoCompletionPort → Endpoint → Option (IoCompletionPort × Endpoint)
destroy_thread w io e = close_all w 0 (length io.client_infos) io >>= λ closed. some (
  record closed { is_worker_run = false },
  record e {
    is_timeout_run = false;
    listen_socket = none;
    iocp_handle = none;
    calls =
        e.calls
        ++ closesocket e.listen_socket
          ∷ (cancels io.client_infos
              ++ (replicate e.io_worker_threads (post_queued_completion_status e.iocp_handle)
                  ++ close_handle e.iocp_handle ∷ []));
  },
)

-- A call of `setsockopt` for a client's socket, with the value given.
pub data SocketOption : Type 0 where
  tcp_nodelay so_rcvbuf : (value : ℕ) → SocketOption

-- `SetSockOption`: its calls, and its result, where `set` says of each call whether it succeeds.
unfoldable pub set_sock_option : (SocketOption → Bool) → List SocketOption × Bool
set_sock_option set =
    if not (set (tcp_nodelay 1))
    then (tcp_nodelay 1 ∷ [], false)
    else (tcp_nodelay 1 ∷ so_rcvbuf 0 ∷ [], set (so_rcvbuf 0))
