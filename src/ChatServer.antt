-- ===== src/ChatServer.antt =====
-- IOCPChatServer/ChatServer.h: the callbacks of the network layer, which queue for the packet thread, and
-- the sends of the packet thread, which the network layer makes.
pub mod Events
pub mod Sending
pub mod Callbacks
pub mod Keeping
pub mod Runs
use iocp.Common.{ℕ, Bool, Option, none, some, List, [], ◌∷◌, ◌>>=◌, take}
use iocp.Net.{Windows, SendOverlapped}
use iocp.Packet.{PacketInfo}
use iocp.Packet.PacketId
use iocp.Packet.Wire.{encode, packet_length}
use iocp.Room.{Sent}
use iocp.PacketManager
use iocp.PacketManager.{PacketManager, push_system_packet, receive_packet_data}
use iocp.Iocp
use iocp.Iocp.{IoCompletionPort, CompletionEntry, Event}

-- The base class's part, and `m_pPacketManager`.
pub record ChatServer : Type 0 where
  pub io : IoCompletionPort
  pub packet_manager : PacketManager

unfoldable pub on_connect : PacketManager → ℕ → PacketManager
on_connect m client_index_ = push_system_packet m (record {
  client_index = client_index_;
  packet_id = PacketId.sys_user_connect;
  data_size = 0;
  data_ptr = [];
})

unfoldable pub on_close : PacketManager → ℕ → PacketManager
on_close m client_index_ = push_system_packet m (record {
  client_index = client_index_;
  packet_id = PacketId.sys_user_disconnect;
  data_size = 0;
  data_ptr = [];
})

-- Of the buffer, `size_` bytes are read.
unfoldable pub on_receive : PacketManager → ℕ → ℕ → List ℕ → Option PacketManager
on_receive m client_index_ size_ data_ =
    receive_packet_data m client_index_ size_ (some (take size_ data_))

-- A call of a virtual function.
unfoldable pub call_back : PacketManager → Event → Option PacketManager
call_back m (Event.on_connect i) = some (on_connect m i)
call_back m (Event.on_close i) = some (on_close m i)
call_back m (Event.on_receive i size bytes) = on_receive m i size bytes

unfoldable pub call_backs : List Event → PacketManager → Option PacketManager
call_backs [] m = some m
call_backs (e ∷ es) m = call_back m e >>= call_backs es

-- `Run`: the packet manager is made first. Its thread, and those of MySQL and Redis, are not started
-- here.
unfoldable pub run : Windows → (ℕ → SendOverlapped) → (ℕ → List ℕ × List ℕ) → ℕ → Option ChatServer
run w fresh memory max_client =
    let m = PacketManager.init memory max_client in
    Iocp.start_server w fresh max_client >>= λ io. some (record { io = io; packet_manager = m })

-- One completion, with the calls it makes. They stand between the steps of the network layer, which
-- share no state with them.
unfoldable pub handle_entry : Windows → ChatServer → CompletionEntry → Option ChatServer
handle_entry w srv e = Iocp.handle_entry w (record srv.io { events = [] }) e >>= λ io.
    call_backs io.events srv.packet_manager >>= λ m. some (record { io = io; packet_manager = m })

-- `sendPacketFunc`, for a packet with `t` in its `PacketType`.
unfoldable pub send_packet_func : Windows → IoCompletionPort → ℕ → Sent → Option IoCompletionPort
send_packet_func w io t sent =
    Iocp.send_msg w io sent.client_index (packet_length sent.packet) (encode t sent.packet)
    >>= λ (done, io'). some io'

-- All the sends of the packet thread, in their order.
unfoldable pub send_packets : Windows → ℕ → List Sent → IoCompletionPort → Option IoCompletionPort
send_packets w t [] io = some io
send_packets w t (sent ∷ rest) io = send_packet_func w io t sent >>= send_packets w t rest
