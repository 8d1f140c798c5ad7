-- ===== src/PacketManager/Consistent.antt =====
-- The invariant of the packet thread's state, the rooms found by number, and the broadcast to the
-- users of a room (`Room::NotifyChat`).
use native.Mathlib.Decide.{ℕ_discrete}
use iocp.Common.{
  set, subst, inl, inr, ℕ, ◌+◌, ◌^◌, ◌≤◌, ◌<◌, ◌≡◌, refl, sym, false, some, List, [], ◌∷◌, arith,
  length, get_elem?, drop, get_elem?-lt, get_elem?_of_lt, Option-cases,
}
use iocp.Common.Int.{ℤ, pos, negsuc}
use iocp.Packet.{packet_header_length, max_user_id_length, max_chat_msg}
use iocp.Packet.Strings.{c_str, strcpy_s_fits}
use iocp.Packet.Wire.{ServerPacket, room_chat_notify}
use iocp.User.{User}
use iocp.User.Framing.{IsReceiving}
use iocp.Room.{Room, Sent, send_to_all_user, notify_chat}
use iocp.RoomManager.{RoomManager, get_room_by_number}
use iocp.Membership.{members, Seated}
use iocp.Membership.Lists.{count, get_elem?-set}
use iocp.PacketManager.{PacketManager}

-- A user whose ring is valid and whose name fits the arrays that it is copied to.
pub record IsFit (u : User) : Type 0 where
  pub receiving : IsReceiving u
  pub short : length u.user_id ≤ max_user_id_length

-- The users and the rooms agree, and the rooms are numbered from 0.
pub record IsPlaced (limit : ℕ) (pool : List User) (rooms : RoomManager) : Type 0 where
  pub small : limit < 2 ^ 31
  pub seated : Seated limit pool rooms.room_list
  pub fit : (j : ℕ) (u : User) → get_elem? pool j ≡ some u → IsFit u
  pub first : rooms.begin_room_number ≡ pos 0
  pub last : rooms.end_room_number ≡ pos (length rooms.room_list)

abbrev pub IsConsistent : ℕ → PacketManager → Type 0
IsConsistent limit m = IsPlaced limit m.user_manager.user_obj_pool m.room_manager

-- Users and rooms stay.
abbrev pub SamePlaces : PacketManager → PacketManager → Type 0
SamePlaces m m' = (m'.user_manager ≡ m.user_manager) × (m'.room_manager ≡ m.room_manager)

pub SamePlaces-IsConsistent :
    {limit : ℕ} (m m' : PacketManager)
    → SamePlaces m m'
    → IsConsistent limit m
    → IsConsistent limit m'
SamePlaces-IsConsistent {limit} m m' (users, rooms) v =
    subst (λ r. IsPlaced limit m'.user_manager.user_obj_pool r) (sym rooms)
      (subst (λ um. IsPlaced limit um.user_obj_pool m.room_manager) (sym users) v)

-- `GetRoomByNumber` finds exactly the numbers of the rooms.
pub get_room-found :
    {limit : ℕ} {pool : List User} {rooms : RoomManager} (number : ℤ) (k : ℕ)
    → IsPlaced limit pool rooms
    → get_room_by_number rooms number ≡ some k
    → (number ≡ pos k) × (k < length rooms.room_list)
unfolding get_room_by_number
get_room-found (pos n) k v h = ground (arith, v.first, v.last)
get_room-found (negsuc n) k v h = ground (arith, v.first, v.last)

pub get_room_of_lt :
    {limit : ℕ} {pool : List User} {rooms : RoomManager} (k : ℕ)
    → IsPlaced limit pool rooms
    → k < length rooms.room_list
    → get_room_by_number rooms (pos k) ≡ some k
unfolding get_room_by_number
get_room_of_lt k v h = ground (arith, v.first, v.last)

-- A packet sent to each of a list of clients, in order.
abbrev pub to_each : ServerPacket → List ℕ → List Sent
to_each packet [] = []
to_each packet (i ∷ is) = record { client_index = i; packet = packet } ∷ to_each packet is

pub send_to_all_user-to_each :
    (pool : List User) (is : List ℕ) (packet : ServerPacket) (skip_index : ℕ)
    → ((j : ℕ) (u : User) → get_elem? pool j ≡ some u → u.index ≡ j)
    → ((j : ℕ) → 0 < count j is → j < length pool)
    → send_to_all_user pool is packet skip_index false ≡ some (to_each packet is)
unfolding send_to_all_user
send_to_all_user-to_each pool [] packet s indexed present = refl
send_to_all_user-to_each pool (i ∷ is) packet s indexed present =
    let (u, here) = get_elem?_of_lt pool i (present i (ground arith)) in
    ground (
      arith,
      indexed i u here,
      send_to_all_user-to_each pool is packet s indexed (λ j h. present j (omega arith)),
    )

pub present-members :
    {limit : ℕ} {pool : List User} {rooms : List Room} (k j : ℕ)
    → Seated limit pool rooms
    → 0 < count j (members rooms k)
    → j < length pool
present-members {pool = pool} k j v h = elim (Option-cases (get_elem? pool j)) [
  | inl absent ↦ absurd (ground (arith, v.seated j k))
  | inr (u, here) ↦ get_elem?-lt pool j here
]

-- `NotifyChat` in a state of the invariant: one packet with the name and the text for each user of
-- the room, in the order of its list.
pub notify_chat_lem :
    {limit : ℕ} {pool : List User} {rooms : RoomManager} (k i : ℕ) (r : Room)
    (user_id msg text : List ℕ)
    → IsPlaced limit pool rooms
    → get_elem? rooms.room_list k ≡ some r
    → length user_id ≤ max_user_id_length
    → c_str (drop packet_header_length msg) ≡ some text
    → length text ≤ max_chat_msg
    → notify_chat pool r i user_id msg ≡ some (to_each (room_chat_notify user_id text) r.user_list)
unfolding notify_chat
notify_chat_lem {pool = pool} k i r user_id msg text v there short e fits =
    rw
      (
        strcpy_s_fits (max_user_id_length + 1) user_id (omega arith),
        e,
        strcpy_s_fits (max_chat_msg + 1) text (omega arith),
      )
      (send_to_all_user-to_each pool r.user_list (room_chat_notify user_id text) i v.seated.indexed
        λ j h. present-members k j v.seated (ground arith))

-- A fit user in place of another.
pub IsFit-set :
    (pool : List User) (i : ℕ) {u : User} (u' : User)
    → get_elem? pool i ≡ some u
    → IsFit u'
    → ((j : ℕ) (w : User) → get_elem? pool j ≡ some w → IsFit w)
    → (j : ℕ) (w : User) → get_elem? (set pool i u') j ≡ some w
    → IsFit w
IsFit-set pool i u' here f others j w h = elim (ℕ_discrete i j) [
  | yes e ↦ subst IsFit (ground (arith, get_elem?-set pool i j u' here)) f
  | no ne ↦ others j w (ground (arith, get_elem?-set pool i j u' here))
]
