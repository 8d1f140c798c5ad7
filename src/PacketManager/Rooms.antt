-- ===== src/PacketManager/Rooms.antt =====
-- `ProcessEnterRoom`, `ProcessLeaveRoom` and `ProcessRoomChatMessage` of
-- IOCPChatServer/PacketManager.cpp. `none` is a read out of a buffer, an access out of the pool or
-- the rooms, or an abort of `strcpy_s`.
use iocp.Common.{
  ℕ, ◌+◌, Option, none, some, List, [], ◌∷◌, ◌++◌, ◌>>=◌, ◌==◌, if◌then◌else◌, drop, get_elem?,
}
use iocp.Common.Int.{ℤ, signed32}
use iocp.Packet.{packet_header_length, max_user_id_length, max_chat_msg, uint32_at, bytes16}
use iocp.Packet.ErrorCode
use iocp.Packet.PacketId
use iocp.Packet.Strings.{c_str, strcpy_s, codes}
use iocp.Packet.Wire.{room_enter_response, room_leave_response, room_chat_response}
use iocp.User.{User, login, room}
use iocp.Room
use iocp.RoomManager
use iocp.MySqlTask.{insert_room_event, insert_chat_message, entered, left}
use iocp.PacketManager.{PacketManager, send_packet, send_all, push_my_sql, get_user, put_user}

-- `tempChatPacket`: a whole `ROOM_CHAT_REQUEST_PACKET`, as far as the end of its text.
unfoldable pub temp_chat_packet : List ℕ → List ℕ
temp_chat_packet text =
    bytes16 (packet_header_length + (max_chat_msg + 1))
    ++ (bytes16 PacketId.room_chat_request ++ 0 ∷ (text ++ 0 ∷ []))

abbrev pub entered_text : List ℕ
entered_text = codes "entered the room."

abbrev pub left_text : List ℕ
left_text = codes "has left the room."

-- `pRoom->NotifyChat` for the room at a place, about the user at a place.
unfoldable pub notify_room : PacketManager → ℕ → ℕ → List ℕ → Option PacketManager
notify_room m k i msg = get_user m i >>= λ u. get_elem? m.room_manager.room_list k >>= λ r.
    Room.notify_chat m.user_manager.user_obj_pool r i u.user_id msg >>= λ sent.
    some (send_all m sent)

-- `NotifyChat` where `GetRoomByNumber` has found a room.
unfoldable pub notify_if_room : PacketManager → Option ℕ → ℕ → List ℕ → Option PacketManager
notify_if_room m none i msg = some m
notify_if_room m (some k) i msg = notify_room m k i msg

-- What follows an entry with the result `NONE`.
unfoldable pub announce_entry : PacketManager → ℕ → ℕ → ℤ → Option PacketManager
announce_entry m i now number = get_user m i >>= λ u.
    strcpy_s (max_user_id_length + 1) u.user_id >>= λ user_id.
    notify_if_room (push_my_sql m i (insert_room_event user_id number entered now))
      (RoomManager.get_room_by_number m.room_manager number) i (temp_chat_packet entered_text)

unfoldable pub enter_as : PacketManager → ℕ → ℕ → ℤ → User → Option PacketManager
enter_as m i now number u =
    RoomManager.enter_user m.room_manager number i u >>= λ (code, rooms, u').
    let m' = put_user (record m { room_manager = rooms }) i u' in
    (if code == ErrorCode.ok then announce_entry m' i now number else some m') >>= λ m''.
    some (send_packet m'' i (room_enter_response code))

unfoldable pub process_enter_room : PacketManager → ℕ → ℕ → List ℕ → Option PacketManager
process_enter_room m i now p = get_user m i >>= λ u. elim u.cur_domain_state [
  | login ↦ enter_as m i now (signed32 (uint32_at p packet_header_length)) u
  | _ ↦ some (send_packet m i (room_enter_response ErrorCode.enter_room_invalid_user_status))
]

-- What follows a departure with the result `NONE`; the room was looked up before it.
unfoldable pub announce_departure : PacketManager → ℕ → ℕ → ℤ → Option ℕ → Option PacketManager
announce_departure m i now number found = get_user m i >>= λ u.
    strcpy_s (max_user_id_length + 1) u.user_id >>= λ user_id.
    notify_if_room (push_my_sql m i (insert_room_event user_id number left now)) found i
      (temp_chat_packet left_text)

-- The state of the user is not looked at.
unfoldable pub process_leave_room : PacketManager → ℕ → ℕ → Option PacketManager
process_leave_room m i now = get_user m i >>= λ u.
    let found = RoomManager.get_room_by_number m.room_manager u.room_index in
    RoomManager.leave_user m.room_manager u.room_index i u >>= λ (code, rooms, u').
    let m' = put_user (record m { room_manager = rooms }) i u' in
    (if code == ErrorCode.ok then announce_departure m' i now u.room_index found else some m')
    >>= λ m''. some (send_packet m'' i (room_leave_response code))

-- A chat message of a user in the room at a place.
unfoldable pub chat_in : PacketManager → ℕ → ℕ → List ℕ → User → ℕ → Option PacketManager
chat_in m i now p u k =
    let answered = send_packet m i (room_chat_response ErrorCode.ok) in
    strcpy_s (max_user_id_length + 1) u.user_id >>= λ user_id.
    c_str (drop packet_header_length p) >>= λ text. strcpy_s (max_chat_msg + 1) text >>= λ message.
    notify_room (push_my_sql answered i (insert_chat_message user_id u.room_index message now)) k i
      p

unfoldable pub process_room_chat_message : PacketManager → ℕ → ℕ → List ℕ → Option PacketManager
process_room_chat_message m i now p = get_user m i >>= λ u. elim u.cur_domain_state [
  | room ↦ elim (RoomManager.get_room_by_number m.room_manager u.room_index) [
    | none ↦ some (send_packet m i (room_chat_response ErrorCode.chat_room_invalid_room_number))
    | some k ↦ chat_in m i now p u k
  ]
  | _ ↦ some (send_packet m i (room_chat_response ErrorCode.enter_room_invalid_user_status))
]
