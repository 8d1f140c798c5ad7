-- ===== src/RoomManager.antt =====
-- IOCPChatServer/RoomManager.h: the rooms, found by their numbers. A `Room*` is the room's place in
-- the list. `none` is an access out of the list.
use iocp.Common.{
  ℕ, zero, suc, ◌+◌, Option, none, some, List, [], ◌∷◌, ◌||◌, ◌>>=◌, if◌then◌else◌, get_elem?, set,
}
use iocp.Common.Int.{ℤ, pos, pos_part, ltb_ℤ, leb_ℤ, ◌+ℤ◌, ◌-ℤ◌}
use iocp.Packet.ErrorCode
use iocp.User
use iocp.User.{User, login}
use iocp.Room
use iocp.Room.{Room}

pub record RoomManager : Type 0 where
  pub room_list : List Room
  pub begin_room_number : ℤ
  pub max_room_count : ℤ
  pub end_room_number : ℤ

-- The loop of `Init`.
unfoldable pub make_rooms : ℕ → ℕ → ℤ → ℤ → List Room
make_rooms i zero begin max_room_user_count_ = []
make_rooms i (suc left) begin max_room_user_count_ =
    Room.init (pos i +ℤ begin) max_room_user_count_
    ∷ make_rooms (i + 1) left begin max_room_user_count_

-- A negative number of rooms makes none.
unfoldable pub init : ℤ → ℤ → ℤ → RoomManager
init begin_room_number_ max_room_count_ max_room_user_count_ = record {
  room_list = make_rooms 0 (pos_part max_room_count_) begin_room_number_ max_room_user_count_;
  begin_room_number = begin_room_number_;
  max_room_count = max_room_count_;
  end_room_number = begin_room_number_ +ℤ max_room_count_;
}

-- `none` is the null pointer.
unfoldable pub get_room_by_number : RoomManager → ℤ → Option ℕ
get_room_by_number m number_ =
    if ltb_ℤ number_ m.begin_room_number || leb_ℤ m.end_room_number number_
    then none
    else some (pos_part (number_ -ℤ m.begin_room_number))

unfoldable pub put_room : RoomManager → ℕ → Room → RoomManager
put_room m i r = record m { room_list = set m.room_list i r }

-- The code, the rooms, and the user as the call leaves it.
unfoldable pub enter_user : RoomManager → ℤ → ℕ → User → Option (ℕ × RoomManager × User)
enter_user m room_number_ i u = elim (get_room_by_number m room_number_) [
  | none ↦ some (ErrorCode.room_invalid_index, m, u)
  | some k ↦ get_elem? m.room_list k >>= λ r.
      let (code, r', u') = Room.enter_user r i u in some (code, put_room m k r', u')
]

unfoldable pub leave_user : RoomManager → ℤ → ℕ → User → Option (ℕ × RoomManager × User)
leave_user m room_number_ i u = elim (get_room_by_number m room_number_) [
  | none ↦ some (ErrorCode.room_invalid_index, m, u)
  | some k ↦ get_elem? m.room_list k >>= λ r.
      some (ErrorCode.ok, put_room m k (Room.leave_user r i), User.set_domain_state u login)
]
