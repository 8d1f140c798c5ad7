-- ===== src/ChatServer/Events.antt =====
-- From a completion to the packet thread: IOCPChatServer/IOCP.h, IOCPChatServer/ChatServer.h and
-- IOCPChatServer/PacketManager.cpp together.
use iocp.Common.{
  ℕ, ◌-◌, ◌^◌, ◌≤◌, ◌<◌, ◌≡◌, ◌≢◌, inl, inr, refl, true, false, none, some, [], ◌∷◌, ◌++◌, arith,
  length, length-take, get_elem?, take, inc_uint32, get_elem?-set_self, get_elem?-lt,
}
use iocp.Common.Int.{dec32}
use iocp.Net.{Windows, recv_request}
use iocp.ClientSession.{ClientSession}
use iocp.RingBuffer
use iocp.RingBuffer.Contents.{contents}
use iocp.User.{User, no_domain, max_packet_data_buffer_size}
use iocp.User.Framing.{pending}
use iocp.Packet.PacketId
use iocp.PacketManager.{PacketManager, push_system_packet, process_user_disconnect}
use iocp.PacketManager.Consistent.{IsConsistent, SamePlaces-IsConsistent}
use iocp.PacketManager.Receiving.{receive_packet_data_lem}
use iocp.PacketManager.Closing.{process_user_disconnect-IsConsistent}
use iocp.PacketManager.Closing.Forgotten.{IsClosed, wiped}
use iocp.UserManager.Dictionary.{find}
use iocp.Membership.{members}
use iocp.Membership.Lists.{count}
use iocp.PacketManager.Loop.{
  swap_buffers, process_packet_info, process_recv_packet, process_system, finished,
}
use iocp.Iocp.{IoCompletionPort, CompletionEntry, recv_overlapped}
use iocp.Iocp
use iocp.Iocp.Accounts.{IsExact}
use iocp.Iocp.Workers.{Works, close_socket_lem, closed_server, closed_server-IsExact}
use iocp.Iocp.Receives.{handle_recv_lem, received_server, received_server-IsExact}
use iocp.ChatServer.{ChatServer, on_close, on_receive, call_back, call_backs, handle_entry}

-- Bytes that a connected client sends, at most as many as its receive asked for, reach the packet thread:
-- they are put behind the client's pending bytes, as far as its ring has room, one task is queued for
-- the client's login of now, the next receive is posted, and both the accounts of the sessions and the
-- consistency of the users and rooms are kept.
pub handle_entry_receives :
    {limit : ℕ} (w : Windows) (srv : ChatServer) (e : CompletionEntry) (i : ℕ) (s : ClientSession)
    (u : User)
    → Works w
    → IsExact srv.io
    → IsConsistent limit srv.packet_manager
    → e.key ≡ i
    → e.overlapped ≡ some (recv_overlapped i)
    → 0 < e.io_size
    → e.io_size ≤ length e.recv_buf
    → e.io_size < 2 ^ 32
    → get_elem? srv.io.client_infos i ≡ some s
    → s.is_connected ≡ true
    → get_elem? srv.packet_manager.user_manager.user_obj_pool i ≡ some u
    → (srv' : ChatServer) × (u' : User) × (handle_entry w srv e ≡ some srv')
      × (get_elem? srv'.packet_manager.user_manager.user_obj_pool i ≡ some u')
      × (pending u'
          ≡ pending u
            ++ take (max_packet_data_buffer_size - length (pending u)) (take e.io_size e.recv_buf))
      × (srv'.packet_manager.write_buffer
          ≡ srv.packet_manager.write_buffer
            ++ record { client_index = i; generation = u.generation } ∷ [])
      × (srv'.io.requests ≡ srv.io.requests ++ recv_request i ∷ [])
      × IsExact srv'.io
      × IsConsistent limit srv'.packet_manager
unfolding handle_entry call_backs call_back on_receive Iocp.handle_entry received_server
handle_entry_receives w srv e i s u good v c key of some_size enough small at conn here =
    let io : IoCompletionPort = record srv.io { events = [] } in
    let v0 : IsExact io = v in
    let o = v.slot i s at in
    let bytes = take e.io_size e.recv_buf in
    let long : length bytes ≡ e.io_size = omega (arith, length-take {0} e.io_size e.recv_buf) in
    let (m', u', received, there, pend, task, c') =
      receive_packet_data_lem srv.packet_manager i u bytes c here (omega arith) in
    (
      record { io = received_server w good io i s e.io_size e.recv_buf; packet_manager = m' },
      u',
      ground (
        arith,
        key,
        of,
        handle_recv_lem w good io i i s s e.io_size e.recv_buf at at (o.tagged conn),
        o.index,
        received,
        long,
      ),
      there,
      pend,
      task,
      ground (arith, o.index),
      received_server-IsExact w good io i s e.io_size e.recv_buf v0 at,
      c',
    )

process_packet_info-disconnect :
    (time : PacketManager → ℕ) (m : PacketManager) (i : ℕ)
    → process_packet_info time m (record {
      client_index = i;
      packet_id = PacketId.sys_user_disconnect;
      data_size = 0;
      data_ptr = [];
    })
      ≡ process_user_disconnect m i
unfolding process_packet_info process_recv_packet
process_packet_info-disconnect time m i = refl

pending-clear : (u : User) → pending (wiped u) ≡ []
unfolding RingBuffer.clear RingBuffer.size contents
pending-clear u = refl

-- When a connected client ends its connection, whose user has logged in, and no other report waits,
-- then this is what the completion, and the reports of the next batch of the packet thread, leave:
-- its session is not connected, has no socket, is else as it was, its queue of sends included, and
-- is free again and no longer counted; its user is in no state, without a name or pending bytes, of
-- the next generation, and in no room's list; the name can be used; and both the accounts of the
-- sessions and the consistency of users and rooms are kept.
pub handle_entry_closes :
    {limit : ℕ} (w : Windows) (time : PacketManager → ℕ) (srv : ChatServer) (e : CompletionEntry)
    (i : ℕ) (s : ClientSession) (u : User)
    → IsExact srv.io
    → IsConsistent limit srv.packet_manager
    → srv.packet_manager.system_write_buffer ≡ []
    → e.key ≡ i
    → e.overlapped ≡ some (recv_overlapped i)
    → e.io_size ≡ 0
    → get_elem? srv.io.client_infos i ≡ some s
    → s.is_connected ≡ true
    → get_elem? srv.packet_manager.user_manager.user_obj_pool i ≡ some u
    → u.cur_domain_state ≢ no_domain
    → (srv' : ChatServer) × (m' : PacketManager) × (handle_entry w srv e ≡ some srv')
      × (process_system time
            (swap_buffers srv'.packet_manager).system_read_buffer
            (swap_buffers srv'.packet_manager)
          ≡ finished m')
      × (t : ℕ) × (get_elem? srv'.io.client_infos i
          ≡ some
              (record s { is_connected = false; latest_closed_time_sec = t; socket_client = none }))
      × (srv'.io.free_session_list ≡ i ∷ srv.io.free_session_list)
      × (srv'.io.client_cnt ≡ dec32 srv.io.client_cnt)
      × (u' : User) × (get_elem? m'.user_manager.user_obj_pool i ≡ some u')
      × (u'.cur_domain_state ≡ no_domain)
      × (u'.user_id ≡ [])
      × (pending u' ≡ [])
      × (u'.generation ≡ inc_uint32 u.generation)
      × ((k : ℕ) → count i (members m'.room_manager.room_list k) ≡ 0)
      × (find m'.user_manager.user_id_dictionary u.user_id ≡ none)
      × IsExact srv'.io
      × IsConsistent limit m'
unfolding handle_entry call_backs call_back on_close push_system_packet Iocp.handle_entry
    closed_server swap_buffers process_system
handle_entry_closes {limit} w time srv e i s u v c quiet key of zero_size at conn here logged_in =
    let io : IoCompletionPort = record srv.io { events = [] } in
    let v0 : IsExact io = v in
    let o = v.slot i s at in
    let told : PacketManager = on_close srv.packet_manager i in
    let swapped : PacketManager = swap_buffers told in
    let c' : IsConsistent limit swapped =
      SamePlaces-IsConsistent srv.packet_manager swapped (refl, refl) c in
    let (m', closes, kept, how) = process_user_disconnect-IsConsistent swapped i u c' here in
    let gone : IsClosed i u swapped m' = elim how [
      | inl (out, same, tasks) ↦ absurd (logged_in out)
      | inr g ↦ g
    ] in
    (
      record { io = closed_server w io v0 i s; packet_manager = told },
      m',
      ground (arith, key, of, zero_size, close_socket_lem w io v0 i s at conn, o.index),
      ground (arith, quiet, closes, process_packet_info-disconnect time swapped i),
      w.steady_seconds s.index s.generation (length srv.io.requests),
      get_elem?-set_self srv.io.client_infos i _ (get_elem?-lt srv.io.client_infos i at),
      ground (arith, o.index),
      refl,
      wiped u,
      gone.user,
      refl,
      refl,
      pending-clear u,
      refl,
      (λ k. (gone.rooms k).1),
      gone.name,
      closed_server-IsExact w io v0 i s at conn,
      kept,
    )
