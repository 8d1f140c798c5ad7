-- ===== src/Packet/Wire.antt =====
-- The packets that the server sends, as the packed structures of IOCPChatServer/Packet.h lay them
-- out. `PacketType` is never assigned in a response, so its byte is a parameter.
pub mod Framed
use iocp.Common.{ℕ, ◌+◌, ◌-◌, ◌%◌, ◌/◌, List, [], ◌∷◌, ◌++◌, length, replicate}
use iocp.Packet.{packet_header_length, max_user_id_length, max_chat_msg, bytes16}
use iocp.Packet.PacketId

-- With the `Result` field, or with the texts in `UserID` and `Message`.
pub data ServerPacket : Type 0 where
  login_response : ℕ → ServerPacket
  room_enter_response : ℕ → ServerPacket
  room_leave_response : ℕ → ServerPacket
  room_chat_response : ℕ → ServerPacket
  room_chat_notify : List ℕ → List ℕ → ServerPacket
  ping : ServerPacket

unfoldable pub packet_id : ServerPacket → ℕ
packet_id (login_response _) = PacketId.login_response
packet_id (room_enter_response _) = PacketId.room_enter_response
packet_id (room_leave_response _) = PacketId.room_leave_response
packet_id (room_chat_response _) = PacketId.room_chat_response
packet_id (room_chat_notify _ _) = PacketId.room_chat_notify
packet_id ping = PacketId.sys_ping

-- `sizeof` of the structure, which is also the `PacketLength` that the code writes.
unfoldable pub packet_length : ServerPacket → ℕ
packet_length (login_response _) = packet_header_length + 2
packet_length (room_enter_response _) = packet_header_length + 2
packet_length (room_leave_response _) = packet_header_length + 2
packet_length (room_chat_response _) = packet_header_length + 2
packet_length (room_chat_notify _ _) =
    packet_header_length + (max_user_id_length + 1) + (max_chat_msg + 1)
packet_length ping = packet_header_length

-- A zeroed `char` array of `n` bytes that a text was copied into.
unfoldable pub char_array : ℕ → List ℕ → List ℕ
char_array n s = s ++ replicate (n - length s) 0

unfoldable pub body : ServerPacket → List ℕ
body (login_response result) = bytes16 result
body (room_enter_response result) = bytes16 result
body (room_leave_response result) = bytes16 result
body (room_chat_response result) = bytes16 result
body (room_chat_notify user_id message) =
    char_array (max_user_id_length + 1) user_id ++ char_array (max_chat_msg + 1) message
body ping = []

unfoldable pub encode : ℕ → ServerPacket → List ℕ
encode packet_type p = bytes16 (packet_length p) ++ (bytes16 (packet_id p) ++ packet_type ∷ body p)
