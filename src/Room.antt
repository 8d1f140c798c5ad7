-- ===== src/Room.antt =====
-- IOCPChatServer/Room.h: a room and its list of users. A `User*` is the user's place in the pool;
-- the pointers in the list are never null. What goes to `SendPacketFunc` is returned, in order.
use iocp.Common.{
  ℕ, ◌+◌, Bool, false, Option, some, List, [], ◌∷◌, ◌++◌, ◌&&◌, ◌>>=◌, ◌==◌, if◌then◌else◌,
  get_elem?, drop,
}
use iocp.Common.Int.{ℤ, pos, leb_ℤ, inc32, dec32}
use iocp.Packet.{packet_header_length, max_user_id_length, max_chat_msg}
use iocp.Packet.ErrorCode
use iocp.Packet.Strings.{c_str, strcpy_s}
use iocp.Packet.Wire.{ServerPacket, room_chat_notify}
use iocp.User
use iocp.User.{User}

pub record Room : Type 0 where
  pub user_list : List ℕ
  pub max_user_count : ℤ
  pub current_user_count : ℤ
  pub room_number : ℤ

-- A call of `SendPacketFunc`.
pub record Sent : Type 0 where
  pub client_index : ℕ
  pub packet : ServerPacket

-- `new Room` and `Init`.
unfoldable pub init : ℤ → ℤ → Room
init room_number_ max_user_count_ = record {
  user_list = [];
  max_user_count = max_user_count_;
  current_user_count = pos 0;
  room_number = room_number_;
}

-- The user is the one at the place that is put in the list.
unfoldable pub enter_user : Room → ℕ → User → ℕ × Room × User
enter_user r i u =
    if leb_ℤ r.max_user_count r.current_user_count
    then (ErrorCode.enter_room_full_user, r, u)
    else (
      ErrorCode.ok,
      record r {
        user_list = r.user_list ++ i ∷ [];
        current_user_count = inc32 r.current_user_count;
      },
      User.enter_room u r.room_number,
    )

-- `std::list::remove`: every entry that is equal goes.
unfoldable pub remove : ℕ → List ℕ → List ℕ
remove i [] = []
remove i (j ∷ js) = if j == i then remove i js else j ∷ remove i js

unfoldable pub leave_user : Room → ℕ → Room
leave_user r i = record r {
  user_list = remove i r.user_list;
  current_user_count = dec32 r.current_user_count;
}

-- The loop of `SendToAllUser` over the list.
unfoldable pub send_to_all_user : List User → List ℕ → ServerPacket → ℕ → Bool → Option (List Sent)
send_to_all_user pool [] packet skip_index skip = some []
send_to_all_user pool (i ∷ is) packet skip_index skip = get_elem? pool i >>= λ u.
    send_to_all_user pool is packet skip_index skip >>= λ rest.
    if skip && (u.index == skip_index)
    then some rest
    else some (record { client_index = u.index; packet = packet } ∷ rest)

-- `msg_` points to a packed `ROOM_CHAT_REQUEST_PACKET`.
unfoldable pub notify_chat : List User → Room → ℕ → List ℕ → List ℕ → Option (List Sent)
notify_chat pool r client_index_ user_id_ msg_ =
    strcpy_s (max_user_id_length + 1) user_id_ >>= λ user_id.
    c_str (drop packet_header_length msg_) >>= λ text.
    strcpy_s (max_chat_msg + 1) text >>= λ message.
    send_to_all_user pool r.user_list (room_chat_notify user_id message) client_index_ false
