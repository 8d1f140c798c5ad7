-- ===== src/PacketManager/Handled.antt =====
-- Which handlers of IOCPChatServer/PacketManager.cpp end without a fault, in the states of the invariant.
use iocp.Common.{ℕ, ◌≡◌, ◌≤◌, some, List, arith, length, get_elem?, get_elem?-lt, drop}
use iocp.Packet.{packet_header_length, max_chat_msg}
use iocp.Packet.Strings.{c_str}
use iocp.User.{User, room}
use iocp.UserManager
use iocp.PacketManager.{PacketManager, get_user, process_user_connect, process_user_disconnect}
use iocp.PacketManager.Rooms.{process_enter_room, process_leave_room, process_room_chat_message}
use iocp.PacketManager.Consistent.{IsConsistent}
use iocp.PacketManager.Closing.{process_user_disconnect-IsConsistent}
use iocp.PacketManager.Entering.Outcomes.{process_enter_room-IsConsistent}
use iocp.PacketManager.Leaving.Outcomes.{process_leave_room_departs}
use iocp.PacketManager.Chatting.{process_room_chat_message_tells}

-- The handlers that end without a fault for the user `u` at `i`: of a connection, of its end, of an
-- entry, and, for a user in a room, of a departure and of a message of at most 256 bytes.
pub record IsHandled (m : PacketManager) (i : ℕ) (u : User) : Type 0 where
  pub connect : (m' : PacketManager) × (process_user_connect m i ≡ some m')
  pub disconnect : (m' : PacketManager) × (process_user_disconnect m i ≡ some m')
  pub enter :
      (now : ℕ) (p : List ℕ) → (m' : PacketManager) × (process_enter_room m i now p ≡ some m')
  pub leave :
      (now : ℕ)
      → u.cur_domain_state ≡ room
      → (m' : PacketManager) × (process_leave_room m i now ≡ some m')
  pub chat :
      (now : ℕ) (p text : List ℕ)
      → u.cur_domain_state ≡ room
      → c_str (drop packet_header_length p) ≡ some text
      → length text ≤ max_chat_msg
      → (m' : PacketManager) × (process_room_chat_message m i now p ≡ some m')

pub handlers-IsHandled :
    {limit : ℕ} (m : PacketManager) (i : ℕ) (u : User)
    → IsConsistent limit m
    → get_elem? m.user_manager.user_obj_pool i ≡ some u
    → IsHandled m i u
unfolding process_user_connect get_user UserManager.get_user_by_conn_idx
handlers-IsHandled m i u v here = record {
  connect = (m, ground (arith, here));
  disconnect = let (m', e, v', how) = process_user_disconnect-IsConsistent m i u v here in (m', e);
  enter = λ now p.
      let (m', e, v') =
        process_enter_room-IsConsistent m i now p v
          (get_elem?-lt m.user_manager.user_obj_pool i here) in
      (m', e);
  leave = λ now state.
      let (k, r, number, there, e, v') = process_leave_room_departs m i now u v here state in
      (_, e);
  chat = λ now p text state said fits.
      let (k, r, number, there, e) =
        process_room_chat_message_tells m i now p u v here text state said fits in
      (_, e);
}
