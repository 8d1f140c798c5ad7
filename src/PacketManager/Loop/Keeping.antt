-- ===== src/PacketManager/Loop/Keeping.antt =====
-- No handler of IOCPChatServer/PacketManager.cpp adds a response of Redis to the queue.
use iocp.Common.{
  ℕ, ◌+◌, ◌≡◌, refl, ◌∙◌, Bool, true, false, Option, none, some, List, arith, ◌==◌, if◌then◌else◌,
  >>=-eq-some, drop,
}
use iocp.Common.Int.{ℤ}
use iocp.Packet.{packet_header_length, max_user_id_length, max_chat_msg}
use iocp.Packet.ErrorCode
use iocp.Packet.Strings.{c_str, strcpy_s}
use iocp.Packet.Wire.{ServerPacket, room_chat_response}
use iocp.User.{User}
use iocp.RoomManager
use iocp.RedisManager.{RedisTask, push_task}
use iocp.PacketManager.{
  PacketManager, send_packet, send_all, push_my_sql, get_user, put_user, leave_on_close,
  forget_user, clear_connection_info, process_user_connect, process_user_disconnect,
}
use iocp.PacketManager.Login.{
  process_login, login_load_test, login_by_redis, push_login_request, process_login_db_result,
  login_with_result, record_login,
}
use iocp.PacketManager.Rooms.{
  process_enter_room, enter_as, announce_entry, notify_if_room, notify_room, process_leave_room,
  announce_departure, process_room_chat_message, chat_in, temp_chat_packet, entered_text, left_text,
}
use iocp.PacketManager.Loop.{process_recv_packet}
use iocp.PacketManager.Loop.Leading.{Leads, choice-Leads, by_state-Leads}

abbrev pub responses : PacketManager → List RedisTask
responses m = m.redis_manager.response_task

-- A handler that succeeds leaves the queue of responses as it was.
abbrev pub SameResponses : PacketManager → PacketManager → Type 0
SameResponses m m' = responses m' ≡ responses m

abbrev pub Keeps : PacketManager → Option PacketManager → Type 0
Keeps = Leads SameResponses

disconnect-Keeps : (m : PacketManager) (i : ℕ) → Keeps m (process_user_disconnect m i)
unfolding process_user_disconnect clear_connection_info leave_on_close forget_user put_user
disconnect-Keeps m i m' h = ground (arith, h)

connect-Keeps : (m : PacketManager) (i : ℕ) → Keeps m (process_user_connect m i)
unfolding process_user_connect
connect-Keeps m i m' h = ground (arith, h)

login-Keeps : (m : PacketManager) (i n : ℕ) (p : List ℕ) → Keeps m (process_login m i n p)
unfolding process_login login_load_test login_by_redis push_login_request push_task send_packet
    put_user
login-Keeps m i n p m' h = ground (arith, h)

record_login-Keeps : (m : PacketManager) (i now : ℕ) → Keeps m (record_login m i now)
unfolding record_login push_my_sql
record_login-Keeps m i now m' h = ground (arith, h)

db_result-Keeps :
    (m : PacketManager) (i now : ℕ) (p : List ℕ) → Keeps m (process_login_db_result m i now p)
unfolding process_login_db_result login_with_result send_packet record_login push_my_sql
db_result-Keeps m i now p m' h = ground (arith, h)

notify_room-Keeps : (m : PacketManager) (k i : ℕ) (msg : List ℕ) → Keeps m (notify_room m k i msg)
unfolding notify_room send_all
notify_room-Keeps m k i msg m' h = ground (arith, h)

notify_if_room-Keeps :
    (m : PacketManager) (k : Option ℕ) (i : ℕ) (msg : List ℕ) → Keeps m (notify_if_room m k i msg)
unfolding notify_if_room
notify_if_room-Keeps m none i msg m' h = ground (arith, h)
notify_if_room-Keeps m (some k) i msg m' h = notify_room-Keeps m k i msg m' h

announce_entry-Keeps :
    (m : PacketManager) (i now : ℕ) (number : ℤ) → Keeps m (announce_entry m i now number)
unfolding announce_entry push_my_sql
announce_entry-Keeps m i now number m' h =
    let (u, here, h₁) = >>=-eq-some (get_user m i) _ h in
    let (user_id, fits, h₂) = >>=-eq-some (strcpy_s (max_user_id_length + 1) u.user_id) _ h₁ in
    notify_if_room-Keeps _ _ i (temp_chat_packet entered_text) m' h₂

announce_departure-Keeps :
    (m : PacketManager) (i now : ℕ) (number : ℤ) (k : Option ℕ)
    → Keeps m (announce_departure m i now number k)
unfolding announce_departure push_my_sql
announce_departure-Keeps m i now number k m' h =
    let (u, here, h₁) = >>=-eq-some (get_user m i) _ h in
    let (user_id, fits, h₂) = >>=-eq-some (strcpy_s (max_user_id_length + 1) u.user_id) _ h₁ in
    notify_if_room-Keeps _ _ i (temp_chat_packet left_text) m' h₂

if-Keeps :
    (m m' : PacketManager) (b : Bool) (o : Option PacketManager)
    → responses m' ≡ responses m
    → Keeps m' o
    → Keeps m (if b then o else some m')
if-Keeps m m' true o same k w h = k w h ∙ same
if-Keeps m m' false o same k w h = ground (arith, h)

enter_as-Keeps :
    (m : PacketManager) (i now : ℕ) (number : ℤ) (u : User) → Keeps m (enter_as m i now number u)
unfolding enter_as put_user send_packet
enter_as-Keeps m i now number u m' h =
    let ((code, rooms, u'), e, h₁) =
      >>=-eq-some (RoomManager.enter_user m.room_manager number i u) _ h in
    let (w, e', h₂) =
      >>=-eq-some
        (if code == ErrorCode.ok
          then announce_entry (put_user (record m { room_manager = rooms }) i u') i now number
          else some (put_user (record m { room_manager = rooms }) i u'))
        _ h₁ in
    let k =
      if-Keeps m (put_user (record m { room_manager = rooms }) i u') (code == ErrorCode.ok) _ refl
        (announce_entry-Keeps _ i now number) w e' in
    ground (arith, h₂, k)

leave-Keeps : (m : PacketManager) (i now : ℕ) → Keeps m (process_leave_room m i now)
unfolding process_leave_room put_user send_packet
leave-Keeps m i now m' h =
    let (u, here, h₀) = >>=-eq-some (get_user m i) _ h in
    let found = RoomManager.get_room_by_number m.room_manager u.room_index in
    let ((code, rooms, u'), e, h₁) =
      >>=-eq-some (RoomManager.leave_user m.room_manager u.room_index i u) _ h₀ in
    let (w, e', h₂) =
      >>=-eq-some
        (if code == ErrorCode.ok
          then announce_departure (put_user (record m { room_manager = rooms }) i u') i now
              u.room_index found
          else some (put_user (record m { room_manager = rooms }) i u'))
        _ h₁ in
    let k =
      if-Keeps m (put_user (record m { room_manager = rooms }) i u') (code == ErrorCode.ok) _ refl
        (announce_departure-Keeps _ i now u.room_index found) w e' in
    ground (arith, h₂, k)

chat_in-Keeps :
    (m : PacketManager) (i now : ℕ) (p : List ℕ) (u : User) (k : ℕ)
    → Keeps m (chat_in m i now p u k)
unfolding chat_in send_packet push_my_sql
chat_in-Keeps m i now p u k m' h =
    let (user_id, named, h₁) = >>=-eq-some (strcpy_s (max_user_id_length + 1) u.user_id) _ h in
    let (text, said, h₂) = >>=-eq-some (c_str (drop packet_header_length p)) _ h₁ in
    let (message, fits, h₃) = >>=-eq-some (strcpy_s (max_chat_msg + 1) text) _ h₂ in
    notify_room-Keeps _ k i p m' h₃

sent-Keeps :
    (m : PacketManager) (i : ℕ) (packet : ServerPacket) → Keeps m (some (send_packet m i packet))
unfolding send_packet
sent-Keeps m i packet m' h = ground (arith, h)

enter-Keeps : (m : PacketManager) (i now : ℕ) (p : List ℕ) → Keeps m (process_enter_room m i now p)
unfolding process_enter_room
enter-Keeps m i now p m' h =
    let (u, here, h₁) = >>=-eq-some (get_user m i) _ h in
    by_state-Leads SameResponses m u.cur_domain_state _ _ _ (enter_as-Keeps m i now _ u)
      (sent-Keeps m i _) (sent-Keeps m i _) m' h₁

in_room-Keeps :
    (m : PacketManager) (i now : ℕ) (p : List ℕ) (u : User) (found : Option ℕ)
    → Keeps m (elim found [
      | none ↦ some (send_packet m i (room_chat_response ErrorCode.chat_room_invalid_room_number))
      | some k ↦ chat_in m i now p u k
    ])
in_room-Keeps m i now p u none = sent-Keeps m i _
in_room-Keeps m i now p u (some k) = chat_in-Keeps m i now p u k

chat-Keeps :
    (m : PacketManager) (i now : ℕ) (p : List ℕ) → Keeps m (process_room_chat_message m i now p)
unfolding process_room_chat_message
chat-Keeps m i now p m' h =
    let (u, here, h₁) = >>=-eq-some (get_user m i) _ h in
    by_state-Leads SameResponses m u.cur_domain_state _ _ _ (sent-Keeps m i _)
      (in_room-Keeps m i now p u (RoomManager.get_room_by_number m.room_manager u.room_index))
      (sent-Keeps m i _) m' h₁

unknown-Keeps : (m : PacketManager) → Keeps m (some m)
unknown-Keeps m m' h = ground (arith, h)

pub process_recv_packet-Keeps :
    (time : PacketManager → ℕ) (m : PacketManager) (i id n : ℕ) (p : List ℕ)
    → Keeps m (process_recv_packet time m i id n p)
unfolding process_recv_packet
process_recv_packet-Keeps time m i id n p = choice-Leads SameResponses m _ _ _ (connect-Keeps m i) (
    choice-Leads SameResponses m _ _ _ (disconnect-Keeps m i) (
      choice-Leads SameResponses m _ _ _ (login-Keeps m i n p) (
        choice-Leads SameResponses m _ _ _ (db_result-Keeps m i (time m) p) (
          choice-Leads SameResponses m _ _ _ (enter-Keeps m i (time m) p) (
            choice-Leads SameResponses m _ _ _ (leave-Keeps m i (time m)) (
              choice-Leads SameResponses m _ _ _ (chat-Keeps m i (time m) p) (unknown-Keeps m)))))))
