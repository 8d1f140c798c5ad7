-- ===== src/Iocp/Completions.antt =====
-- `WorkerThread` of IOCPChatServer/IOCP.h keeps the accounts of the sessions.
use iocp.Common.{
  ℕ, ◌<◌, ◌≡◌, inl, inr, false, none, some, List, ◌∷◌, arith, ◌==◌, length, get_elem?, get_elem?-lt,
  Bool-cases,
}
use iocp.Net.{Windows, SendOverlapped}
use iocp.ClientSession.{ClientSession}
use iocp.Iocp.{
  IoCompletionPort, CompletionEntry, accept_overlapped, recv_overlapped, send_overlapped,
  handle_entry,
}
use iocp.Iocp.Accounts.{IsExact, idle_at}
use iocp.Iocp.Workers.{Works, close_socket-IsExact}
use iocp.Iocp.Accepts.{handle_accept-IsExact}
use iocp.Iocp.Receives.{handle_recv-IsExact}
use iocp.Iocp.Sends.{handle_send-IsExact}

-- A completion that Windows may report: for a session of the server; of an accept only if the session
-- waits for one; of a send of the session's connection only if it is the one at the front of the
-- queue, the only one that has been handed to Windows.
pub data IsPossible (srv : IoCompletionPort) (e : CompletionEntry) : Type 0 where
  no_structure : e.overlapped ≡ none → IsPossible srv e
  of_accept :
      (k : ℕ) (s : ClientSession)
      → e.overlapped ≡ some (accept_overlapped k)
      → get_elem? srv.client_infos k ≡ some s
      → idle_at s.socket_client ≡ 0
      → s.is_connected ≡ false
      → IsPossible srv e
  of_recv :
      (k : ℕ)
      → e.overlapped ≡ some (recv_overlapped k)
      → e.key < length srv.client_infos
      → k < length srv.client_infos
      → IsPossible srv e
  of_send :
      (b : ℕ) (s : ClientSession) (o : SendOverlapped) (rest : List ℕ)
      → e.overlapped ≡ some (send_overlapped b)
      → get_elem? srv.client_infos e.key ≡ some s
      → get_elem? srv.send_buffer_pool.all_blocks b ≡ some o
      → (o.generation ≡ s.generation → s.send_data_queue ≡ b ∷ rest)
      → IsPossible srv e

-- When Windows does what accepts and receives ask, each completion that it may report is handled
-- without a fault, whatever becomes of sends, and keeps the accounts: each session is in exactly
-- one of three places, once in the list of free ones, waiting for an accept, or connected; the
-- counter of clients is the number of connected sessions; and every connected session's receive
-- carries its generation.
pub handle_entry-IsExact :
    (w : Windows) (srv : IoCompletionPort) (e : CompletionEntry)
    → Works w
    → IsExact srv
    → IsPossible srv e
    → (srv' : IoCompletionPort) × (handle_entry w srv e ≡ some srv') × IsExact srv'
unfolding handle_entry
handle_entry-IsExact w srv e good v (no_structure none_there) = elim (Bool-cases (e.io_size == 0)) [
  | inl stop ↦ (record srv { is_worker_run = false }, ground (arith, none_there, stop), v)
  | inr go ↦ (srv, ground (arith, none_there, go), v)
]
handle_entry-IsExact w srv e good v (of_accept k s of at open_socket off) =
    let (srv', done, v') = handle_accept-IsExact w good srv k s v at open_socket off in
    (srv', ground (arith, of, done), v')
handle_entry-IsExact w srv e good v (of_recv k of lt lt') = elim (Bool-cases (e.io_size == 0)) [
  | inl zero_size ↦
      let (srv', done, v') = close_socket-IsExact w srv v e.key lt in
      (srv', ground (arith, of, done, zero_size), v')
  | inr some_size ↦
      let (srv', done, v') = handle_recv-IsExact w good srv e.key k e.io_size e.recv_buf v lt lt' in
      (srv', ground (arith, of, done, some_size), v')
]
handle_entry-IsExact w srv e good v (of_send b s o rest of at block current) =
    elim (Bool-cases (e.io_size == 0)) [
      | inl zero_size ↦
          let (srv', done, v') =
            close_socket-IsExact w srv v e.key (get_elem?-lt srv.client_infos e.key at) in
          (srv', ground (arith, of, done, zero_size), v')
      | inr some_size ↦
          let (srv', done, v') =
            handle_send-IsExact w srv v e.key s at b e.io_size o rest block current in
          (srv', ground (arith, of, done, some_size), v')
    ]
