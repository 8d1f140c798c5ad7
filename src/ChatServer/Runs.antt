-- ===== src/ChatServer/Runs.antt =====
-- The network layer and the packet thread over time, joined by the callbacks and the sends of
-- IOCPChatServer/ChatServer.h.
use iocp.Common.{ℕ, ◌^◌, ◌≤◌, ◌<◌, ◌≡◌, subst, some, >>=-eq-some, List, arith, length, get_elem?}
use iocp.Net.{Windows, SendOverlapped}
use iocp.User.{User, max_packet_data_buffer_size}
use iocp.Room.{Sent}
use iocp.PacketManager
use iocp.PacketManager.{PacketManager, push_system_packet, receive_packet_data, get_user}
use iocp.PacketManager.Consistent.{IsConsistent}
use iocp.PacketManager.Handled.{IsHandled, handlers-IsHandled}
use iocp.PacketManager.Reach.{Step, Step-IsConsistent}
use iocp.PacketManager.Start.{init-IsConsistent}
use iocp.Iocp.{IoCompletionPort, CompletionEntry, check_sessions, start_server}
use iocp.Iocp.Accounts.{IsExact}
use iocp.Iocp.Workers.{Works}
use iocp.Iocp.Completions.{IsPossible}
use iocp.Iocp.Start.{start_server-few, start_server-IsExact}
use iocp.ChatServer.{ChatServer, run, handle_entry, send_packet_func}
use iocp.PacketManager.Sends.Steps.{IsServing, Step-IsServing}
use iocp.Iocp.Lengths.{start_server-sessions}
use iocp.ChatServer.Keeping.{
  IsSound, init-IsServing, handle_entry-IsSound, sent-IsSound, looked-IsSound,
}

-- The states that a chat server comes to, from `Run` on: a completion that Windows may report, of no more
-- bytes than there are, with the callbacks it makes; a round of the timeout thread; a step of the packet
-- thread, of Redis or of MySQL, for a user of the pool; and the send of a packet that the packet thread has sent.
pub data Running (w : Windows) (fresh : ℕ → SendOverlapped) (memory : ℕ → List ℕ × List ℕ)
    (clients : ℕ) : ChatServer → Type 0 where
  started :
      {srv : ChatServer}
      → run w fresh memory clients ≡ some srv
      → Running w fresh memory clients srv
  completed :
      {srv srv' : ChatServer} (e : CompletionEntry)
      → Running w fresh memory clients srv
      → IsPossible srv.io e
      → e.io_size ≤ length e.recv_buf
      → e.io_size < 2 ^ 32
      → handle_entry w srv e ≡ some srv'
      → Running w fresh memory clients srv'
  looked :
      {srv : ChatServer} {io : IoCompletionPort} (now : ℕ)
      → Running w fresh memory clients srv
      → check_sessions w now 0 (length srv.io.client_infos) srv.io ≡ some io
      → Running w fresh memory clients (record srv { io = io })
  worked :
      {srv : ChatServer} {m : PacketManager} (i : ℕ) (u : User)
      → Running w fresh memory clients srv
      → get_elem? srv.packet_manager.user_manager.user_obj_pool i ≡ some u
      → Step i u srv.packet_manager m
      → Running w fresh memory clients (record srv { packet_manager = m })
  sent :
      {srv : ChatServer} {io : IoCompletionPort} (t k : ℕ) (s : Sent)
      → Running w fresh memory clients srv
      → get_elem? srv.packet_manager.sent k ≡ some s
      → send_packet_func w srv.io t s ≡ some io
      → Running w fresh memory clients (record srv { io = io })

module _ (w : Windows) (good : Works w) (clients : ℕ) where
  run-IsSound :
      {fresh : ℕ → SendOverlapped} {memory : ℕ → List ℕ × List ℕ} (srv : ChatServer)
      → ((j : ℕ) → length (memory j).0 ≡ max_packet_data_buffer_size)
      → Running w fresh memory clients srv
      → IsSound clients srv
  unfolding run
  run-IsSound {fresh} {memory} srv sized (started h) =
      let (io₀, h₀, _) = >>=-eq-some (start_server w fresh clients) _ h in
      let (few, begun) = start_server-few w fresh clients io₀ h₀ in
      let (io, e, v, list, cnt) = start_server-IsExact w fresh clients good few in
      let q : record { io = io; packet_manager = PacketManager.init memory clients } ≡ srv =
        ground (arith, e, h) in
      let c = init-IsConsistent memory clients sized in
      subst (IsSound clients) q
        (v, c, init-IsServing memory clients c, start_server-sessions w fresh clients io e)
  run-IsSound srv' sized (completed {srv} e before possible enough small h) =
      let (srv'', e', sound) =
        handle_entry-IsSound w good clients srv e possible enough small
          (run-IsSound srv sized before) in
      let q : srv'' ≡ srv' = ground (arith, e', h) in subst (IsSound clients) q sound
  run-IsSound _ sized (looked {srv} {io} now before h) =
      let (io', e, sound) = looked-IsSound w good clients srv now (run-IsSound srv sized before) in
      let q : io' ≡ io = ground (arith, e, h) in
      subst (λ x. IsSound clients (record srv { io = x })) q sound
  run-IsSound _ sized (worked {srv} i u before here step) =
      let (v, c, serving, many) = run-IsSound srv sized before in
      (v, Step-IsConsistent here step c, Step-IsServing here step serving, many)
  run-IsSound _ sized (sent {srv} {io} t k s before there h) =
      let (io', e, sound) =
        sent-IsSound w good clients srv t k s there (run-IsSound srv sized before) in
      let q : io' ≡ io = ground (arith, e, h) in
      subst (λ x. IsSound clients (record srv { io = x })) q sound

-- When Windows does what accepts and receives ask, whatever becomes of sends: in every state that a
-- chat server for any number of clients comes to, over arrays of 8096 bytes with any contents, by any
-- number, in any order, of completions that Windows may report, of fewer than 2 ^ 32 bytes and no
-- more than there are, with their callbacks; of rounds of the timeout thread; of steps of the packet
-- thread for the users of the pool, `GetPacket` and the clearing of the queues included, and of Redis
-- and MySQL on their queues; and of sends of what the packet thread has sent: the accounts of the
-- sessions are exact; the users and the rooms agree, and every user's ring is valid; there are as
-- many sessions as users, each user at its place; and whatever the packet thread has sent is for
-- one of these sessions, with texts that fit their arrays. The steps leave out a request to leave
-- by a user in no room, a response to a login for a user in a room, and a login under a load
-- test's name.
pub Running-IsSound :
    {w : Windows} {fresh : ℕ → SendOverlapped} {memory : ℕ → List ℕ × List ℕ} {clients : ℕ}
    (srv : ChatServer)
    → Works w
    → ((j : ℕ) → length (memory j).0 ≡ max_packet_data_buffer_size)
    → Running w fresh memory clients srv
    → IsExact srv.io
      × IsConsistent 8 srv.packet_manager
      × IsServing clients srv.packet_manager
      × (length srv.io.client_infos ≡ clients)
Running-IsSound {w} {clients = clients} srv good sized reached =
    run-IsSound w good clients srv sized reached

-- When Windows does what accepts and receives ask: from every state that such a run comes to, over
-- arrays of 8096 bytes, the following end without a fault. Each completion that Windows may
-- report, of fewer than 2 ^ 32 bytes and no more than there are, with all its callbacks; the send of
-- whatever the packet thread has sent; each round of the timeout thread; and for each user of the
-- pool the handlers of a connection, of its end and of any request to enter, and, when the user
-- is in a room, those of a request to leave and of a message of at most 256 bytes. Nothing is said of
-- the two handlers of a login.
pub Running-total :
    {w : Windows} {fresh : ℕ → SendOverlapped} {memory : ℕ → List ℕ × List ℕ} {clients : ℕ}
    (srv : ChatServer)
    → Works w
    → ((j : ℕ) → length (memory j).0 ≡ max_packet_data_buffer_size)
    → Running w fresh memory clients srv
    → ((e : CompletionEntry)
        → IsPossible srv.io e
        → e.io_size ≤ length e.recv_buf
        → e.io_size < 2 ^ 32
        → (srv' : ChatServer) × (handle_entry w srv e ≡ some srv'))
      × ((t k : ℕ) (s : Sent)
          → get_elem? srv.packet_manager.sent k ≡ some s
          → (io : IoCompletionPort) × (send_packet_func w srv.io t s ≡ some io))
      × ((now : ℕ)
          → (io : IoCompletionPort) × (check_sessions w now 0 (length srv.io.client_infos) srv.io
              ≡ some io))
      × ((i : ℕ) (u : User)
          → get_elem? srv.packet_manager.user_manager.user_obj_pool i ≡ some u
          → IsHandled srv.packet_manager i u)
Running-total {w} {clients = clients} srv good sized reached =
    let sound = run-IsSound w good clients srv sized reached in
    (
      (λ e possible enough small.
          let (srv', h, s') =
            handle_entry-IsSound w good clients srv e possible enough small sound in
          (srv', h)),
      (λ t k s there.
          let (io, h, s') = sent-IsSound w good clients srv t k s there sound in (io, h)),
      (λ now. let (io, h, s') = looked-IsSound w good clients srv now sound in (io, h)),
      (λ i u here. handlers-IsHandled srv.packet_manager i u sound.1 here),
    )
