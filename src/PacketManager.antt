-- ===== src/PacketManager.antt =====
-- IOCPChatServer/PacketManager.h and the plain operations of PacketManager.cpp: the state of the
-- packet thread, its queues, and the packets sent. Each queue operation is one step: the lock that
-- it takes is not modelled. A call of `SendPacketFunc` is an entry at the end of `sent`.
pub mod Login
pub mod Rooms
pub mod Loop
pub mod Consistent
pub mod Entering
pub mod Leaving
pub mod Chatting
pub mod Closing
pub mod LoggingIn
pub mod Cutting
pub mod Receiving
pub mod Answering
pub mod Reused
pub mod Start
pub mod Handled
pub mod Reach
pub mod Sends
use iocp.Common.{
  ℕ, ◌+◌, Bool, true, false, Option, none, some, List, [], ◌∷◌, ◌++◌, ◌>>=◌, ◌==◌, if◌then◌else◌,
  ◌^◌, ◌%◌,
}
use iocp.Common.Int.{ℤ, pos}
use iocp.Packet.{PacketInfo}
use iocp.Packet.Wire.{ServerPacket}
use iocp.User
use iocp.User.{User, no_domain, login, room}
use iocp.UserManager
use iocp.UserManager.{UserManager}
use iocp.Room.{Sent}
use iocp.RoomManager
use iocp.RoomManager.{RoomManager}
use iocp.RedisManager.{RedisManager}
use iocp.MySqlTask.{MySqlTask, MySqlRequest}

pub record PacketTask : Type 0 where
  pub client_index : ℕ
  pub generation : ℕ

pub record PacketManager : Type 0 where
  pub user_manager : UserManager
  pub room_manager : RoomManager
  pub redis_manager : RedisManager
  pub my_sql_tasks : List MySqlTask
  pub is_run_process_thread : Bool
  pub system_write_buffer : List PacketInfo
  pub system_read_buffer : List PacketInfo
  pub write_buffer : List PacketTask
  pub read_buffer : List PacketTask
  pub sent : List Sent

-- `CreateComponent` and the rest of `Init`, which makes the managers.
unfoldable pub init : (ℕ → List ℕ × List ℕ) → ℕ → PacketManager
init memory max_client_ = record {
  user_manager = UserManager.init memory max_client_;
  room_manager = RoomManager.init (pos 0) (pos 250) (pos 8);
  redis_manager = record { is_task_run = false; request_task = []; response_task = [] };
  my_sql_tasks = [];
  is_run_process_thread = false;
  system_write_buffer = [];
  system_read_buffer = [];
  write_buffer = [];
  read_buffer = [];
  sent = [];
}

unfoldable pub send_packet : PacketManager → ℕ → ServerPacket → PacketManager
send_packet m client_index packet = record m {
  sent = m.sent ++ record { client_index = client_index; packet = packet } ∷ [];
}

-- The calls of `SendPacketFunc` that a room has made.
unfoldable pub send_all : PacketManager → List Sent → PacketManager
send_all m sent = record m { sent = m.sent ++ sent }

-- `PushTask` of the MySQL manager.
unfoldable pub push_my_sql : PacketManager → ℕ → MySqlRequest → PacketManager
push_my_sql m client_index request = record m {
  my_sql_tasks = m.my_sql_tasks ++ record { user_index = client_index; request = request } ∷ [];
}

unfoldable pub get_user : PacketManager → ℕ → Option User
get_user m client_index = UserManager.get_user_by_conn_idx m.user_manager client_index

unfoldable pub put_user : PacketManager → ℕ → User → PacketManager
put_user m client_index u = record m {
  user_manager = UserManager.put_user m.user_manager client_index u;
}

unfoldable pub enqueue_packet_data : PacketManager → ℕ → Option PacketManager
enqueue_packet_data m client_index_ = get_user m client_index_ >>= λ u. some (record m {
  write_buffer =
      m.write_buffer ++ record { client_index = client_index_; generation = u.generation } ∷ [];
})

unfoldable pub receive_packet_data : PacketManager → ℕ → ℕ → Option (List ℕ) → Option PacketManager
receive_packet_data m client_index_ data_size_ bytes = get_user m client_index_ >>= λ u.
    enqueue_packet_data (put_user m client_index_ (User.set_packet_data u data_size_ bytes))
      client_index_

unfoldable pub push_system_packet : PacketManager → PacketInfo → PacketManager
push_system_packet m packet_ = record m {
  system_write_buffer = m.system_write_buffer ++ packet_ ∷ [];
}

-- The loop of `ClearConnectionInfo` over the waiting tasks.
unfoldable pub without_client : ℕ → List PacketTask → List PacketTask
without_client i [] = []
without_client i (t ∷ ts) =
    if t.client_index == i then without_client i ts else t ∷ without_client i ts

-- The first test of `ClearConnectionInfo`: a user in a room leaves it.
unfoldable pub leave_on_close : PacketManager → ℕ → User → Option PacketManager
leave_on_close m i u = elim u.cur_domain_state [
  | room ↦ RoomManager.leave_user m.room_manager u.room_index i u >>= λ (code, rooms, u').
      some (put_user (record m { room_manager = rooms }) i u')
  | _ ↦ some m
]

-- The second test, on the state that the first has left.
unfoldable pub forget_user : PacketManager → ℕ → User → Option PacketManager
forget_user m i u = elim u.cur_domain_state [
  | no_domain ↦ some m
  | _ ↦ UserManager.delete_user_info m.user_manager i >>= λ users.
      some (record m { user_manager = users })
]

unfoldable pub clear_connection_info : PacketManager → ℕ → Option PacketManager
clear_connection_info m i =
    let quiet = record m { write_buffer = without_client i m.write_buffer } in
    get_user quiet i >>= λ u.
    leave_on_close quiet i u >>= λ outside. get_user outside i >>= λ u'. forget_user outside i u'

unfoldable pub process_user_connect : PacketManager → ℕ → Option PacketManager
process_user_connect m client_index_ = get_user m client_index_ >>= λ u. some m

unfoldable pub process_user_disconnect : PacketManager → ℕ → Option PacketManager
process_user_disconnect m client_index_ = clear_connection_info m client_index_
