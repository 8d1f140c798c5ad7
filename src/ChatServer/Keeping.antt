-- ===== src/ChatServer/Keeping.antt =====
-- What each step of the network layer and the packet thread together keeps: IOCPChatServer/IOCP.h,
-- IOCPChatServer/ChatServer.h and IOCPChatServer/PacketManager.cpp.
use iocp.Common.{
  get_elem?-lt, zero, suc, sym, ℕ, ◌^◌, ◌≤◌, ◌<◌, ◌≡◌, ◌∙◌, subst, some, List, [], ◌∷◌, arith,
  length, get_elem?,
}
use iocp.ClientSession.{ClientSession}
use iocp.Net.{Windows}
use iocp.UserManager
use iocp.Packet.Wire.{packet_length, encode}
use iocp.Packet.Wire.Framed.{length-encode, length-body}
use iocp.Room.{Sent}
use iocp.PacketManager
use iocp.PacketManager.{PacketManager, push_system_packet, receive_packet_data, get_user}
use iocp.PacketManager.Consistent.{IsConsistent}
use iocp.Iocp.{IoCompletionPort, CompletionEntry, check_sessions}
use iocp.Iocp.Accounts.{IsExact}
use iocp.Iocp.Workers.{Works}
use iocp.Iocp.Completions.{
  IsPossible, no_structure, of_accept, of_recv, of_send, handle_entry-IsExact,
}
use iocp.Iocp.Rounds.{send_msg-IsExact, check_sessions-IsExact}
use iocp.Iocp.Told.{handle_entry-Tells}
use iocp.ChatServer.{ChatServer, handle_entry, send_packet_func}
use iocp.ChatServer.Sending.{packet_length-le}
use iocp.ChatServer.Callbacks.{call_backs-IsKept}
use iocp.PacketManager.Sends.{IsServed, AllServed}
use iocp.PacketManager.Sends.Steps.{IsServing}
use iocp.Iocp.Lengths.{handle_entry-SameCount, send_msg-SameCount, check_sessions-SameCount}
use iocp.UserManager.{make_users}
use iocp.PacketManager.Start.{length-make_users}

-- The events do not matter.
IsPossible-cleared :
    (io : IoCompletionPort) (e : CompletionEntry)
    → IsPossible io e
    → IsPossible (record io { events = [] }) e
IsPossible-cleared io e (no_structure h) = no_structure h
IsPossible-cleared io e (of_accept k s h at idle off) = of_accept k s h at idle off
IsPossible-cleared io e (of_recv k h key owner) = of_recv k h key owner
IsPossible-cleared io e (of_send b s o rest h at there front) = of_send b s o rest h at there front

-- What a run keeps, of a server for so many clients.
abbrev pub IsSound : ℕ → ChatServer → Type 0
IsSound clients srv =
    IsExact srv.io
    × IsConsistent 8 srv.packet_manager
    × IsServing clients srv.packet_manager
    × (length srv.io.client_infos ≡ clients)

AllServed-get :
    (n k : ℕ) (ss : List Sent) {s : Sent} → AllServed n ss → get_elem? ss k ≡ some s → IsServed n s
AllServed-get n k [] all h = cc
AllServed-get n zero (x ∷ ss) (one, all) h =
    let q : x ≡ _ = ground (arith, h) in subst (IsServed n) q one
AllServed-get n (suc k) (x ∷ ss) (one, all) h = AllServed-get n k ss all h

-- The state that `Init` makes.
pub init-IsServing :
    (memory : ℕ → List ℕ × List ℕ) (clients : ℕ)
    → IsConsistent 8 (PacketManager.init memory clients)
    → IsServing clients (PacketManager.init memory clients)
unfolding PacketManager.init UserManager.init
init-IsServing memory clients c = ((length-make_users memory 0 clients, c.seated.indexed), tt)

module _ (w : Windows) (good : Works w) (clients : ℕ) where
  pub handle_entry-IsSound :
      (srv : ChatServer) (e : CompletionEntry)
      → IsPossible srv.io e
      → e.io_size ≤ length e.recv_buf
      → e.io_size < 2 ^ 32
      → IsSound clients srv
      → (srv' : ChatServer) × (handle_entry w srv e ≡ some srv') × IsSound clients srv'
  unfolding handle_entry
  handle_entry-IsSound srv e possible enough small (v, c, serving, many) =
      let io₀ : IoCompletionPort = record srv.io { events = [] } in
      let v₀ : IsExact io₀ = v in
      let possible₀ : IsPossible io₀ e = IsPossible-cleared srv.io e possible in
      let (io, handled, v') = handle_entry-IsExact w io₀ e good v₀ possible₀ in
      let known : (j : ℕ) (s : ClientSession)
          → get_elem? srv.io.client_infos j ≡ some s
          → s.index < clients =
        λ j s at.
          omega (arith, (v.slot j s at).index, get_elem?-lt srv.io.client_infos j at, many) in
      let sized = handle_entry-Tells w clients io₀ e enough small known io handled tt in
      let (m, told, (c', serving')) =
        call_backs-IsKept 8 clients io.events srv.packet_manager sized (c, serving) in
      (
        record { io = io; packet_manager = m },
        ground (arith, handled, told),
        (v', c', serving', handle_entry-SameCount w io₀ e io handled ∙ many),
      )

  send_packet_func-IsExact :
      (io : IoCompletionPort) (t : ℕ) (s : Sent)
      → IsServed (length io.client_infos) s
      → IsExact io
      → (io' : IoCompletionPort) × (send_packet_func w io t s ≡ some io')
        × IsExact io'
        × (length io'.client_infos ≡ length io.client_infos)
  unfolding send_packet_func
  send_packet_func-IsExact io t s (short, lt) v =
      let size : length (encode t s.packet) ≡ packet_length s.packet =
        length-encode t s.packet ∙ length-body s.packet short in
      let (r, e, v') =
        send_msg-IsExact w io s.client_index (packet_length s.packet) (encode t s.packet) v lt
          (omega arith) (packet_length-le s.packet) in
      (
        r.1,
        ground (arith, e),
        v',
        send_msg-SameCount w io r.1 s.client_index (packet_length s.packet) (encode t s.packet) r.0
            e,
      )

  -- One of the packets that the packet thread has sent.
  pub sent-IsSound :
      (srv : ChatServer) (t k : ℕ) (s : Sent)
      → get_elem? srv.packet_manager.sent k ≡ some s
      → IsSound clients srv
      → (io : IoCompletionPort) × (send_packet_func w srv.io t s ≡ some io)
        × IsSound clients (record srv { io = io })
  sent-IsSound srv t k s there (v, c, serving, many) =
      let served =
        subst (λ n. IsServed n s) (sym many)
          (AllServed-get clients k srv.packet_manager.sent serving.1 there) in
      let (io, e, v', same) = send_packet_func-IsExact srv.io t s served v in
      (io, e, (v', c, serving, same ∙ many))

  pub looked-IsSound :
      (srv : ChatServer) (now : ℕ)
      → IsSound clients srv
      → (io : IoCompletionPort) × (check_sessions w now 0 (length srv.io.client_infos) srv.io
          ≡ some io)
        × IsSound clients (record srv { io = io })
  looked-IsSound srv now (v, c, serving, many) =
      let (io, e, v') =
        check_sessions-IsExact w now 0 (length srv.io.client_infos) srv.io v (omega arith) in
      (
        io,
        e,
        (
          v',
          c,
          serving,
          check_sessions-SameCount w now 0 (length srv.io.client_infos) srv.io io e ∙ many,
        ),
      )
