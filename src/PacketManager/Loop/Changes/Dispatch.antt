-- ===== src/PacketManager/Loop/Changes/Dispatch.antt =====
-- The rooms, the chat and the dispatch by number of IOCPChatServer/PacketManager.cpp: what becomes of
-- the rings.
use iocp.Common.{ℕ, ◌≡◌, Option, none, some, List, ◌==◌, if◌then◌else◌}
use iocp.Common.Int.{ℤ, signed32}
use iocp.Packet.{packet_header_length, uint32_at}
use iocp.Packet.ErrorCode
use iocp.Packet.Wire.{room_enter_response, room_leave_response, room_chat_response}
use iocp.User.{User}
use iocp.RoomManager
use iocp.PacketManager.{PacketManager, send_packet, get_user, put_user}
use iocp.PacketManager.Rooms.{
  process_enter_room, enter_as, announce_entry, process_leave_room, announce_departure,
  process_room_chat_message, chat_in,
}
use iocp.PacketManager.Loop.{process_recv_packet}
use iocp.PacketManager.Loop.Pools.{
  announce_entry-SamePool, announce_departure-SamePool, chat_in-SamePool, connect-SamePool,
  enter_user-Becomes, leave_user-Becomes,
}
use iocp.PacketManager.Loop.Changes.{
  GoesOn, Keeps, SamePool-Keeps, put_user-Changed, some-Keeps, then-Keeps, sent-Keeps,
}
use iocp.PacketManager.Loop.Changes.Accounts.{disconnect-Keeps, login-Keeps, db_result-Keeps}
use iocp.PacketManager.Loop.Leading.{choice-Leads, bind-Leads, by_state-Leads}

module _ (xs : List User) where
  enter_as-Keeps :
      (m : PacketManager) (i now : ℕ) (number : ℤ) (u : User)
      → get_user m i ≡ some u
      → Keeps xs m (enter_as m i now number u)
  unfolding enter_as
  enter_as-Keeps m i now number u here =
      bind-Leads (GoesOn xs) m (RoomManager.enter_user m.room_manager number i u) _
        λ (code, rooms, u') e.
          let placed = put_user (record m { room_manager = rooms }) i u' in
          then-Keeps xs m placed _
            (put_user-Changed xs m rooms i u u' here
              (enter_user-Becomes m.room_manager number i u e))
            (bind-Leads (GoesOn xs) placed
              (if code == ErrorCode.ok then announce_entry placed i now number else some placed) _
              λ w e'.
                then-Keeps xs placed w _
                  (choice-Leads (GoesOn xs) placed (code == ErrorCode.ok) _ (some placed)
                    (SamePool-Keeps xs placed _ (announce_entry-SamePool placed i now number))
                    (some-Keeps xs placed) w e')
                  (sent-Keeps xs w i (room_enter_response code)))

  pub leave-Keeps : (m : PacketManager) (i now : ℕ) → Keeps xs m (process_leave_room m i now)
  unfolding process_leave_room
  leave-Keeps m i now = bind-Leads (GoesOn xs) m (get_user m i) _ λ u here.
      bind-Leads (GoesOn xs) m (RoomManager.leave_user m.room_manager u.room_index i u) _
        λ (code, rooms, u') e.
          let found = RoomManager.get_room_by_number m.room_manager u.room_index in
          let placed = put_user (record m { room_manager = rooms }) i u' in
          then-Keeps xs m placed _
            (put_user-Changed xs m rooms i u u' here
              (leave_user-Becomes m.room_manager u.room_index i u e))
            (bind-Leads (GoesOn xs) placed
              (if code == ErrorCode.ok
                then announce_departure placed i now u.room_index found
                else some placed)
              _
              λ w e'.
                then-Keeps xs placed w _
                  (choice-Leads (GoesOn xs) placed (code == ErrorCode.ok) _ (some placed)
                    (SamePool-Keeps xs placed _
                      (announce_departure-SamePool placed i now u.room_index found))
                    (some-Keeps xs placed) w e')
                  (sent-Keeps xs w i (room_leave_response code)))

  pub enter-Keeps :
      (m : PacketManager) (i now : ℕ) (p : List ℕ) → Keeps xs m (process_enter_room m i now p)
  unfolding process_enter_room
  enter-Keeps m i now p = bind-Leads (GoesOn xs) m (get_user m i) _ λ u here.
      by_state-Leads (GoesOn xs) m u.cur_domain_state _
        (some (send_packet m i (room_enter_response ErrorCode.enter_room_invalid_user_status))) _
        (enter_as-Keeps m i now (signed32 (uint32_at p packet_header_length)) u here)
        (sent-Keeps xs m i _) (sent-Keeps xs m i _)

  in_room-Keeps :
      (m : PacketManager) (i now : ℕ) (p : List ℕ) (u : User) (found : Option ℕ)
      → Keeps xs m (elim found [
        | none ↦ some (send_packet m i (room_chat_response ErrorCode.chat_room_invalid_room_number))
        | some k ↦ chat_in m i now p u k
      ])
  in_room-Keeps m i now p u none = sent-Keeps xs m i _
  in_room-Keeps m i now p u (some k) = SamePool-Keeps xs m _ (chat_in-SamePool m i now p u k)

  pub chat-Keeps :
      (m : PacketManager) (i now : ℕ) (p : List ℕ)
      → Keeps xs m (process_room_chat_message m i now p)
  unfolding process_room_chat_message
  chat-Keeps m i now p = bind-Leads (GoesOn xs) m (get_user m i) _ λ u here.
      by_state-Leads (GoesOn xs) m u.cur_domain_state _ _ _ (sent-Keeps xs m i _)
        (in_room-Keeps m i now p u (RoomManager.get_room_by_number m.room_manager u.room_index))
        (sent-Keeps xs m i _)

  pub process_recv_packet-Changed :
      (time : PacketManager → ℕ) (m : PacketManager) (i id n : ℕ) (p : List ℕ)
      → Keeps xs m (process_recv_packet time m i id n p)
  unfolding process_recv_packet
  process_recv_packet-Changed time m i id n p =
      choice-Leads (GoesOn xs) m _ _ _ (SamePool-Keeps xs m _ (connect-SamePool m i)) (
        choice-Leads (GoesOn xs) m _ _ _ (disconnect-Keeps xs m i) (
          choice-Leads (GoesOn xs) m _ _ _ (login-Keeps xs m i n p) (
            choice-Leads (GoesOn xs) m _ _ _ (db_result-Keeps xs m i (time m) p) (
              choice-Leads (GoesOn xs) m _ _ _ (enter-Keeps m i (time m) p) (
                choice-Leads (GoesOn xs) m _ _ _ (leave-Keeps m i (time m)) (
                  choice-Leads (GoesOn xs) m _ _ _ (chat-Keeps m i (time m) p)
                    (some-Keeps xs m)))))))
