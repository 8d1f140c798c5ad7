-- ===== src/ChatServer/Sending.antt =====
-- From the packet thread to the socket: the packets of IOCPChatServer/Packet.h in the send buffers of
-- IOCPChatServer/ClientSession.h, and their texts on the other side.
use iocp.Common.{
  ℕ, suc, ◌-◌, ◌≤◌, ◌<◌, ◌≡◌, ◌≢◌, refl, sym, ap, ◌∙◌, some, List, [], ◌∷◌, ◌++◌, arith, length,
  drop, drop-append, replicate, append_assoc, append-nil,
}
use iocp.Net.{Windows, max_sockbuf}
use iocp.ClientSession.{Link}
use iocp.ClientSession.Contents.{IsOwned}
use iocp.Packet.Strings.{c_str}
use iocp.Packet.Wire.{
  ServerPacket, login_response, room_enter_response, room_leave_response, room_chat_response,
  room_chat_notify, ping, packet_length, char_array, body, encode,
}
use iocp.Packet.Wire.Framed.{HasShortTexts, length-body, length-encode, length-char_array}
use iocp.Room.{Sent}
use iocp.Iocp.{IoCompletionPort, get_client_info, put_link}
use iocp.Iocp
use iocp.Iocp.Queueing.{send_msg-keeps}
use iocp.ChatServer.{send_packet_func}

-- No character of the text is 0.
abbrev pub IsText : List ℕ → Type 0
IsText [] = Unit {0}
IsText (b ∷ bs) = (b ≢ 0) × IsText bs

c_str-zeros : (s rest : List ℕ) → IsText s → c_str (s ++ 0 ∷ rest) ≡ some s
unfolding c_str
c_str-zeros [] rest h = refl
c_str-zeros (b ∷ s) rest (here, more) = ground (arith, here, c_str-zeros s rest more)

c_str-char_array :
    (n : ℕ) (s rest : List ℕ) → length s < n → IsText s → c_str (char_array n s ++ rest) ≡ some s
unfolding char_array
c_str-char_array n s rest short text =
    let e : n - length s ≡ suc (n - length s - 1) = omega arith in
    ap (λ k. c_str ((s ++ replicate k 0) ++ rest)) e
    ∙ ap c_str (append_assoc s (0 ∷ replicate (n - length s - 1) 0) rest)
    ∙ c_str-zeros s (replicate (n - length s - 1) 0 ++ rest) text

-- A message that the server passes on can be read back from its packet: of a name of at most 32
-- characters and a message of at most 256, none of them 0, the C strings at the places of `UserID` and
-- `Message` are just these.
pub encode-c_str :
    (t : ℕ) (user_id message : List ℕ)
    → length user_id ≤ 32
    → length message ≤ 256
    → IsText user_id
    → IsText message
    → (c_str (drop 5 (encode t (room_chat_notify user_id message))) ≡ some user_id)
      × (c_str (drop 38 (encode t (room_chat_notify user_id message))) ≡ some message)
unfolding encode body
encode-c_str t user_id message short_id short id_text text = (
  c_str-char_array 33 user_id (char_array 257 message) (omega arith) id_text,
  ap c_str (
        drop-append (char_array 33 user_id) (char_array 257 message) 33
          (sym (length-char_array 33 user_id (omega arith))))
      ∙ ap c_str (sym (append-nil (char_array 257 message)))
      ∙ c_str-char_array 257 message [] (omega arith) text,
)

pub packet_length-le : (p : ServerPacket) → packet_length p ≤ max_sockbuf
unfolding packet_length
packet_length-le (login_response result) = omega arith
packet_length-le (room_enter_response result) = omega arith
packet_length-le (room_leave_response result) = omega arith
packet_length-le (room_chat_response result) = omega arith
packet_length-le (room_chat_notify user_id message) = omega arith
packet_length-le ping = omega arith

-- Whatever packet the packet thread sends to a session of the server, if the packet's texts leave room for
-- their terminators and the send buffers are each in one place, it fits its buffer: the send
-- ends without a fault, also when no buffer is free or `WSASend` fails, and of the sessions nothing
-- changes but the queue of that one.
pub send_packet_func-total :
    (w : Windows) (io : IoCompletionPort) (t : ℕ) (sent : Sent) (l : Link)
    → HasShortTexts sent.packet
    → get_client_info io sent.client_index ≡ some l
    → IsOwned l
    → (io' : IoCompletionPort) × (l' : Link) × (q : List ℕ) × (packet_length sent.packet
        ≤ max_sockbuf)
      × (send_packet_func w io t sent ≡ some io')
      × (io' ≡ put_link io sent.client_index l')
      × (l'.session ≡ record l.session { send_data_queue = q })
unfolding send_packet_func Iocp.send_msg
send_packet_func-total w io t sent l short at owned =
    let size : length (encode t sent.packet) ≡ packet_length sent.packet =
      length-encode t sent.packet ∙ length-body sent.packet short in
    let (r, done, q, session) =
      send_msg-keeps w l (packet_length sent.packet) (encode t sent.packet) owned (omega arith)
        (packet_length-le sent.packet) in
    (
      put_link io sent.client_index r.1,
      r.1,
      q,
      packet_length-le sent.packet,
      ground (arith, at, done),
      refl,
      session,
    )
