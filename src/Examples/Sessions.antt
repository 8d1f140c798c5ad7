-- ===== src/Examples/Sessions.antt =====
-- Applications of the theorems on the sends of one connection, and on the packets in them.
use iocp.Common.{ℕ, ◌≤◌, ◌≡◌, refl, some, List, [], ◌∷◌, arith, take, drop}
use iocp.Net.{SendOverlapped, max_sockbuf}
use iocp.ClientSession.{Link}
use iocp.ClientSession.Contents.{IsOwned, sends_of, waiting}
use iocp.ClientSession.Sending.{send_msg_lem, after_send}
use iocp.ClientSession.Traffic.{Traffic, opened, takes}
use iocp.ClientSession.Order.{send_order}
use iocp.Iocp.{IoCompletionPort, put_link, get_client_info}
use iocp.Packet.Strings.{c_str}
use iocp.Packet.Wire.{room_chat_notify, login_response, encode, packet_length}
use iocp.Room.{Sent}
use iocp.ChatServer.{send_packet_func}
use iocp.ChatServer.Sending.{encode-c_str, send_packet_func-total}
use iocp.Examples.Data.{kim}
use iocp.Examples.Servers.{all_well, link, link-IsOwned, two_sessions}

-- Two sends, of which none is complete.
abbrev first_msg : List ℕ
first_msg = 4 ∷ 5 ∷ []

-- The block that it fills, the second.
abbrev first_block : SendOverlapped
first_block =
    (send_msg_lem all_well (λ i g n. refl) link 1 [] first_msg refl (omega arith) (omega arith)).0

abbrev after_one : Link
after_one = after_send all_well (λ i g n. refl) link 1 [] first_block first_msg

one_taken : Traffic all_well link after_one (first_msg ∷ []) 0
one_taken =
    takes first_msg opened (omega arith)
      (send_msg_lem all_well (λ i g n. refl) link 1 [] first_msg refl (omega arith) (omega arith)).2
      (first_msg ∷ []) refl

send_order_example :
    (sends_of after_one.requests ≡ take 1 (first_msg ∷ []))
    × (waiting after_one ≡ first_msg ∷ [])
    × IsOwned after_one
send_order_example = send_order all_well link (λ i g n. refl) link-IsOwned refl one_taken

encode-c_str_example :
    (c_str (drop 5 (encode 0 (room_chat_notify kim (b'h' ∷ b'i' ∷ [])))) ≡ some kim)
    × (c_str (drop 38 (encode 0 (room_chat_notify kim (b'h' ∷ b'i' ∷ []))))
        ≡ some (b'h' ∷ b'i' ∷ []))
encode-c_str_example =
    encode-c_str 0 kim (b'h' ∷ b'i' ∷ []) (omega arith) (omega arith) (omega arith) (omega arith)

abbrev answer : Sent
answer = record { client_index = 0; packet = login_response 0 }

link_there : get_client_info two_sessions 0 ≡ some link
unfolding get_client_info
link_there = refl

send_packet_func-total_example :
    (io' : IoCompletionPort) × (l' : Link) × (q : List ℕ) × (packet_length (login_response 0)
      ≤ max_sockbuf)
    × (send_packet_func all_well two_sessions 0 answer ≡ some io')
    × (io' ≡ put_link two_sessions 0 l')
    × (l'.session ≡ record link.session { send_data_queue = q })
send_packet_func-total_example =
    send_packet_func-total all_well two_sessions 0 answer link tt link_there link-IsOwned
