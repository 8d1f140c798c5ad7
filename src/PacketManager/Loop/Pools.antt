-- ===== src/PacketManager/Loop/Pools.antt =====
-- The parts of the handlers of IOCPChatServer/PacketManager.cpp that leave the pool of users alone,
-- and what entering and leaving a room leaves of a user.
use iocp.Common.{ℕ, ◌+◌, ◌≡◌, ◌⊎◌, inl, Option, none, some, List, arith, >>=-eq-some, drop}
use iocp.Common.Int.{ℤ}
use iocp.Packet.{packet_header_length, max_user_id_length, max_chat_msg}
use iocp.Packet.Strings.{c_str, strcpy_s}
use iocp.Packet.Wire.{ServerPacket}
use iocp.RingBuffer
use iocp.User
use iocp.User.{User, DomainState, no_domain, login, room}
use iocp.UserManager
use iocp.UserManager.{UserManager}
use iocp.RoomManager
use iocp.Room
use iocp.PacketManager.{
  PacketManager, send_packet, send_all, push_my_sql, get_user, process_user_connect,
}
use iocp.PacketManager.Login.{login_by_redis, push_login_request, record_login}
use iocp.PacketManager.Rooms.{
  announce_entry, notify_if_room, notify_room, announce_departure, chat_in, temp_chat_packet,
  entered_text, left_text,
}

abbrev pub pool : PacketManager → List User
pool m = m.user_manager.user_obj_pool

-- What a handler makes of a user: the place stays, and the ring is as it was, or cleared.
abbrev pub Becomes : User → User → Type 0
Becomes u u' =
    (u'.index ≡ u.index)
    × ((u'.packet_data_buffer ≡ u.packet_data_buffer)
        ⊎ (u'.packet_data_buffer ≡ RingBuffer.clear u.packet_data_buffer))

-- The handlers that leave the pool alone.
abbrev pub SamePool : PacketManager → Option PacketManager → Type 0
SamePool m o = (m' : PacketManager) → o ≡ some m' → pool m' ≡ pool m

notify_room-SamePool :
    (m : PacketManager) (k i : ℕ) (msg : List ℕ) → SamePool m (notify_room m k i msg)
unfolding notify_room send_all
notify_room-SamePool m k i msg m' h = ground (arith, h)

notify_if_room-SamePool :
    (m : PacketManager) (k : Option ℕ) (i : ℕ) (msg : List ℕ)
    → SamePool m (notify_if_room m k i msg)
unfolding notify_if_room
notify_if_room-SamePool m none i msg m' h = ground (arith, h)
notify_if_room-SamePool m (some k) i msg m' h = notify_room-SamePool m k i msg m' h

pub announce_entry-SamePool :
    (m : PacketManager) (i now : ℕ) (number : ℤ) → SamePool m (announce_entry m i now number)
unfolding announce_entry push_my_sql
announce_entry-SamePool m i now number m' h =
    let (u, here, h₁) = >>=-eq-some (get_user m i) _ h in
    let (user_id, fits, h₂) = >>=-eq-some (strcpy_s (max_user_id_length + 1) u.user_id) _ h₁ in
    notify_if_room-SamePool _ _ i (temp_chat_packet entered_text) m' h₂

pub announce_departure-SamePool :
    (m : PacketManager) (i now : ℕ) (number : ℤ) (k : Option ℕ)
    → SamePool m (announce_departure m i now number k)
unfolding announce_departure push_my_sql
announce_departure-SamePool m i now number k m' h =
    let (u, here, h₁) = >>=-eq-some (get_user m i) _ h in
    let (user_id, fits, h₂) = >>=-eq-some (strcpy_s (max_user_id_length + 1) u.user_id) _ h₁ in
    notify_if_room-SamePool _ _ i (temp_chat_packet left_text) m' h₂

pub record_login-SamePool : (m : PacketManager) (i now : ℕ) → SamePool m (record_login m i now)
unfolding record_login push_my_sql UserManager.increase_user_cnt
record_login-SamePool m i now m' h = ground (arith, h)

pub chat_in-SamePool :
    (m : PacketManager) (i now : ℕ) (p : List ℕ) (u : User) (k : ℕ)
    → SamePool m (chat_in m i now p u k)
unfolding chat_in send_packet push_my_sql
chat_in-SamePool m i now p u k m' h =
    let (user_id, named, h₁) = >>=-eq-some (strcpy_s (max_user_id_length + 1) u.user_id) _ h in
    let (text, said, h₂) = >>=-eq-some (c_str (drop packet_header_length p)) _ h₁ in
    let (message, fits, h₃) = >>=-eq-some (strcpy_s (max_chat_msg + 1) text) _ h₂ in
    notify_room-SamePool _ k i p m' h₃

pub connect-SamePool : (m : PacketManager) (i : ℕ) → SamePool m (process_user_connect m i)
unfolding process_user_connect
connect-SamePool m i m' h = ground (arith, h)

pub sent-SamePool :
    (m : PacketManager) (i : ℕ) (packet : ServerPacket) → SamePool m (some (send_packet m i packet))
unfolding send_packet
sent-SamePool m i packet m' h = ground (arith, h)

pub by_redis-SamePool :
    (m : PacketManager) (i : ℕ) (p user_id : List ℕ)
    → SamePool m (some (login_by_redis m i p user_id))
unfolding login_by_redis push_login_request send_packet
by_redis-SamePool m i p user_id m' h = ground (arith, h)

-- A user who enters or leaves a room.
pub enter_user-Becomes :
    (rooms : RoomManager.RoomManager) (number : ℤ) (i : ℕ) (u : User) {code : ℕ}
    {rooms' : RoomManager.RoomManager} {u' : User}
    → RoomManager.enter_user rooms number i u ≡ some (code, rooms', u')
    → Becomes u u'
unfolding RoomManager.enter_user Room.enter_user User.enter_room
enter_user-Becomes rooms number i u h = (ground (arith, h), inl (ground (arith, h)))

pub leave_user-Becomes :
    (rooms : RoomManager.RoomManager) (number : ℤ) (i : ℕ) (u : User) {code : ℕ}
    {rooms' : RoomManager.RoomManager} {u' : User}
    → RoomManager.leave_user rooms number i u ≡ some (code, rooms', u')
    → Becomes u u'
unfolding RoomManager.leave_user User.set_domain_state
leave_user-Becomes rooms number i u h = (ground (arith, h), inl (ground (arith, h)))
