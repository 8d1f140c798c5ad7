-- ===== src/MySqlTask.antt =====
-- IOCPChatServer/MySQLTaskDefine.h: the records of activity that are queued for MySQL.
use iocp.Common.{ℕ, List}
use iocp.Common.Int.{ℤ}

pub data RoomEventType : Type 0 where
  entered left : RoomEventType

-- The `TaskID` with the request that `pData` then points to; the texts are the C strings in the
-- zeroed arrays.
pub data MySqlRequest : Type 0 where
  insert_login_event : (user_id : List ℕ) (timestamp_sec : ℕ) → MySqlRequest
  insert_room_event :
      (user_id : List ℕ) (room_number : ℤ) (event_type : RoomEventType) (time_stamp_sec : ℕ)
      → MySqlRequest
  insert_chat_message :
      (user_id : List ℕ) (room_number : ℤ) (message : List ℕ) (time_stamp_sec : ℕ) → MySqlRequest

pub record MySqlTask : Type 0 where
  pub user_index : ℕ
  pub request : MySqlRequest
