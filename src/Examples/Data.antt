-- ===== src/Examples/Data.antt =====
-- The data of the tests: a server of four clients, one of whom logs in and enters a room.
use iocp.Common.{ℕ, ◌≡◌, Option, some, List, [], ◌∷◌, ◌++◌, length, length-replicate, replicate}
use iocp.Common.Int.{pos}
use iocp.User
use iocp.User.{User, login, room, max_packet_data_buffer_size}
use iocp.Room
use iocp.Room.{Room}
use iocp.PacketManager.{PacketManager, init}
use iocp.PacketManager.Consistent.{IsConsistent}
use iocp.PacketManager.Start.{init-IsConsistent}
use iocp.PacketManager.LoggingIn.Steps.{logged_in}
use iocp.PacketManager.Entering.{after_entry}

abbrev pub memory : ℕ → List ℕ × List ℕ
memory j = (replicate 8096 0, [])

pub sized : (j : ℕ) → length (memory j).0 ≡ max_packet_data_buffer_size
sized j = length-replicate {A = ℕ} 8096 0

abbrev pub server : PacketManager
server = init memory 4

pub server-IsConsistent : IsConsistent 8 server
server-IsConsistent = init-IsConsistent memory 4 sized

abbrev pub first_user : User
first_user = User.init (User.new_user (replicate 8096 0) []) 0

-- "kim", "pw"
abbrev pub kim : List ℕ
kim = b'k' ∷ b'i' ∷ b'm' ∷ []

abbrev pub pw : List ℕ
pw = b'p' ∷ b'w' ∷ []

abbrev pub stored : List ℕ → Option (List ℕ)
stored key = some pw

abbrev pub clock : PacketManager → ℕ
clock m = 7

-- A `LOGIN_REQUEST_PACKET`.
abbrev pub login_packet : List ℕ
login_packet = 71 ∷ 0 ∷ 201 ∷ 0 ∷ 0 ∷ ((kim ++ replicate 30 0) ++ (pw ++ replicate 31 0))

-- The state after the login.
abbrev pub known : PacketManager
known = logged_in server 0 7 first_user kim

abbrev pub known_user : User
known_user = record first_user { cur_domain_state = login; user_id = kim }

abbrev pub first_room : Room
first_room = Room.init (pos 0) (pos 8)

-- A `ROOM_ENTER_REQUEST_PACKET` for the room 0.
abbrev pub enter_packet : List ℕ
enter_packet = 9 ∷ 0 ∷ 206 ∷ 0 ∷ 0 ∷ 0 ∷ 0 ∷ 0 ∷ 0 ∷ []

-- The state after the entry.
abbrev pub inside : PacketManager
inside = after_entry known 0 7 known_user 0 first_room

abbrev pub inside_user : User
inside_user = record known_user { room_index = pos 0; cur_domain_state = room }
