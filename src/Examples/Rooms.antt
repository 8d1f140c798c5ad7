-- ===== src/Examples/Rooms.antt =====
-- Applications of the theorems on entering and leaving rooms, on messages, on the end of connections,
-- and on the states that a run reaches.
use iocp.Common.{
  ℕ, ◌<◌, ◌≡◌, refl, none, some, List, [], ◌∷◌, ◌++◌, arith, length, get_elem?, drop, replicate,
}
use iocp.Common.Int.{pos}
use iocp.Packet.{packet_header_length}
use iocp.Packet.ErrorCode
use iocp.Packet.Strings.{c_str}
use iocp.Packet.Wire.{room_enter_response}
use iocp.User
use iocp.User.{User, no_domain, login, room, max_packet_data_buffer_size}
use iocp.UserManager
use iocp.Room
use iocp.Room.{Room}
use iocp.RoomManager
use iocp.PacketManager.{PacketManager, init, send_packet}
use iocp.PacketManager.Rooms.{process_enter_room, process_leave_room, process_room_chat_message}
use iocp.PacketManager.Consistent.{IsConsistent}
use iocp.PacketManager.Entering.{process_enter_room_admits}
use iocp.PacketManager.Entering.Outcomes.{
  Refused, not_logged_in, process_enter_room_refuses, process_enter_room-IsConsistent,
}
use iocp.PacketManager.Leaving.{after_departure}
use iocp.PacketManager.Leaving.Outcomes.{process_leave_room_departs}
use iocp.PacketManager.Chatting.{
  after_message, process_room_chat_message_tells, process_room_chat_message_aborts,
}
use iocp.Examples.Data.{
  server, server-IsConsistent, first_user, known, known_user, first_room, enter_packet, inside,
  inside_user,
}
use iocp.Examples.Logins.{first_here, accepted}

known_here : get_elem? known.user_manager.user_obj_pool 0 ≡ some known_user
unfolding init UserManager.init UserManager.make_users UserManager.increase_user_cnt
known_here = refl

room_there : get_elem? known.room_manager.room_list 0 ≡ some first_room
unfolding init RoomManager.init RoomManager.make_rooms
room_there = refl

room_empty : length first_room.user_list < 8
unfolding Room.init
room_empty = omega arith

process_enter_room_admits_example :
    (process_enter_room known 0 7 enter_packet ≡ some inside) × IsConsistent 8 inside
process_enter_room_admits_example =
    process_enter_room_admits known 0 7 enter_packet known_user 0 first_room accepted.1 known_here
      room_there refl refl room_empty

pub inside-IsConsistent : IsConsistent 8 inside
inside-IsConsistent =
    (process_enter_room_admits known 0 7 enter_packet known_user 0 first_room accepted.1 known_here
      room_there refl refl room_empty).1

pub inside_here : get_elem? inside.user_manager.user_obj_pool 0 ≡ some inside_user
unfolding init UserManager.init UserManager.make_users UserManager.increase_user_cnt Room.init
inside_here = refl

stranger : Refused 8 server first_user enter_packet ErrorCode.enter_room_invalid_user_status
unfolding User.init User.new_user
stranger = not_logged_in (λ e. cc) refl

pub refused_entry :
    process_enter_room server 0 7 enter_packet
    ≡ some (send_packet server 0 (room_enter_response ErrorCode.enter_room_invalid_user_status))
refused_entry =
    process_enter_room_refuses server 0 7 enter_packet first_user server-IsConsistent first_here
      ErrorCode.enter_room_invalid_user_status stranger

process_enter_room_refuses_example :
    process_enter_room server 0 7 enter_packet
    ≡ some (send_packet server 0 (room_enter_response ErrorCode.enter_room_invalid_user_status))
process_enter_room_refuses_example =
    process_enter_room_refuses server 0 7 enter_packet first_user server-IsConsistent first_here
      ErrorCode.enter_room_invalid_user_status stranger

in_pool : 0 < length known.user_manager.user_obj_pool
unfolding init UserManager.init UserManager.make_users UserManager.increase_user_cnt
in_pool = omega arith

process_enter_room-IsConsistent_example :
    (m' : PacketManager) × (process_enter_room known 0 7 enter_packet ≡ some m') × IsConsistent 8 m'
process_enter_room-IsConsistent_example =
    process_enter_room-IsConsistent known 0 7 enter_packet accepted.1 in_pool

process_leave_room_departs_example :
    (k : ℕ) × (r : Room) × (inside_user.room_index ≡ pos k)
    × (get_elem? inside.room_manager.room_list k ≡ some r)
    × (process_leave_room inside 0 7 ≡ some (after_departure inside 0 7 inside_user k r))
    × IsConsistent 8 (after_departure inside 0 7 inside_user k r)
process_leave_room_departs_example =
    process_leave_room_departs inside 0 7 inside_user inside-IsConsistent inside_here refl

-- A message of the text "hi".
abbrev hello : List ℕ
hello = 6 ∷ 1 ∷ 221 ∷ 0 ∷ 0 ∷ b'h' ∷ b'i' ∷ 0 ∷ []

hello_text : c_str (drop packet_header_length hello) ≡ some (b'h' ∷ b'i' ∷ [])
unfolding c_str
hello_text = refl

process_room_chat_message_tells_example :
    (k : ℕ) × (r : Room) × (inside_user.room_index ≡ pos k)
    × (get_elem? inside.room_manager.room_list k ≡ some r)
    × (process_room_chat_message inside 0 7 hello
        ≡ some (after_message inside 0 7 inside_user r (b'h' ∷ b'i' ∷ [])))
process_room_chat_message_tells_example =
    process_room_chat_message_tells inside 0 7 hello inside_user inside-IsConsistent inside_here
      (b'h' ∷ b'i' ∷ []) refl hello_text (omega arith)

abbrev long_text : List ℕ
long_text = replicate 257 b'a'

abbrev long_message : List ℕ
long_message = 6 ∷ 1 ∷ 221 ∷ 0 ∷ 0 ∷ (long_text ++ 0 ∷ [])

long_message_text : c_str (drop packet_header_length long_message) ≡ some long_text
unfolding c_str
long_message_text = refl

long_text-length : length long_text ≡ 257
long_text-length = refl

process_room_chat_message_aborts_example : process_room_chat_message inside 0 7 long_message ≡ none
process_room_chat_message_aborts_example =
    process_room_chat_message_aborts inside 0 7 long_message inside_user inside-IsConsistent
      inside_here long_text refl long_message_text (omega (arith, long_text-length))
