-- ===== src/Packet/Wire/Framed.antt =====
-- The lengths and the texts of the packets that the server sends, as the packed structures of
-- IOCPChatServer/Packet.h lay them out.
use iocp.Common.{
  ℕ, ◌+◌, ◌-◌, ◌≤◌, ◌≡◌, refl, List, arith, length, length-append, length-replicate, replicate,
}
use iocp.Packet.{packet_header_length, max_user_id_length, max_chat_msg}
use iocp.Packet.Wire.{
  ServerPacket, login_response, room_enter_response, room_leave_response, room_chat_response,
  room_chat_notify, ping, packet_length, char_array, body, encode,
}

-- The texts leave room for their terminators.
abbrev pub HasShortTexts : ServerPacket → Type 0
HasShortTexts (room_chat_notify user_id message) =
    (length user_id ≤ max_user_id_length) × (length message ≤ max_chat_msg)
HasShortTexts _ = Unit {0}

pub length-char_array : (n : ℕ) (s : List ℕ) → length s ≤ n → length (char_array n s) ≡ n
unfolding char_array
length-char_array n s h =
    omega (
      arith,
      length-append s (replicate (n - length s) 0),
      length-replicate {A = ℕ} (n - length s) 0,
    )

pub length-body :
    (p : ServerPacket) → HasShortTexts p → length (body p) + packet_header_length ≡ packet_length p
unfolding body packet_length
length-body (login_response result) h = refl
length-body (room_enter_response result) h = refl
length-body (room_leave_response result) h = refl
length-body (room_chat_response result) h = refl
length-body (room_chat_notify user_id message) (id_fits, message_fits) = omega (
  arith,
  length-append (char_array 33 user_id) (char_array 257 message),
  length-char_array 33 user_id (omega arith),
  length-char_array 257 message (omega arith),
)
length-body ping h = refl

pub length-encode :
    (t : ℕ) (p : ServerPacket) → length (encode t p) ≡ length (body p) + packet_header_length
unfolding encode
length-encode t p = omega arith
