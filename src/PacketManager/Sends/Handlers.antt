-- ===== src/PacketManager/Sends/Handlers.antt =====
-- Each handler of IOCPChatServer/PacketManager.cpp sends only what the network layer can serve.
use iocp.Common.{
  ℕ, ◌+◌, ◌<◌, ◌≡◌, refl, sym, subst, not, Bool, true, false, Option, none, some, List, ◌>>=◌, ◌==◌,
  if◌then◌else◌, arith, drop, >>=-eq-some,
}
use iocp.Common.Int.{negsuc, eq_ℤ, leb_ℤ, signed32}
use iocp.Packet.{
  packet_header_length, max_user_id_length, max_chat_msg, login_request_packet_size, uint16_at,
  uint32_at,
}
use iocp.Packet.ErrorCode
use iocp.Packet.Strings.{c_str, strcpy_s, starts_with}
use iocp.Packet.Wire.{login_response, room_enter_response, room_leave_response, room_chat_response}
use iocp.User
use iocp.User.{User}
use iocp.UserManager
use iocp.RoomManager
use iocp.PacketManager.{
  PacketManager, send_packet, push_my_sql, get_user, put_user, leave_on_close, forget_user,
  clear_connection_info, process_user_connect, process_user_disconnect,
}
use iocp.PacketManager.Login.{
  process_login, login_load_test, login_by_redis, push_login_request, process_login_db_result,
  login_with_result, record_login, load_test_prefix,
}
use iocp.PacketManager.Rooms.{
  process_enter_room, enter_as, announce_entry, process_leave_room, announce_departure,
  process_room_chat_message, chat_in,
}
use iocp.PacketManager.Loop.Leading.{Leads, choice-Leads, bind-Leads, by_state-Leads}
use iocp.PacketManager.Loop.Pools.{enter_user-Becomes, leave_user-Becomes}
use iocp.PacketManager.Sends.{AllServed, AllServed-append}
use iocp.PacketManager.Sends.Parts.{
  Serves, quiet-Serves, send_packet-AllServed, notify_room-Serves, announce_entry-Serves,
  announce_departure-Serves, answer-Serves, sent-Serves,
}

module _ (n : ℕ) where
  pub connect-Serves : (m : PacketManager) (i : ℕ) → Leads (Serves n) m (process_user_connect m i)
  unfolding process_user_connect
  connect-Serves m i = quiet-Serves n m _ λ m' h. ground (arith, h)

  pub disconnect-Serves :
      (m : PacketManager) (i : ℕ) → Leads (Serves n) m (process_user_disconnect m i)
  unfolding process_user_disconnect clear_connection_info leave_on_close forget_user put_user
  disconnect-Serves m i = quiet-Serves n m _ λ m' h. ground (arith, h)

  by_redis-Serves :
      (m : PacketManager) (i : ℕ) (p user_id : List ℕ)
      → i < n
      → Leads (Serves n) m (some (login_by_redis m i p user_id))
  unfolding login_by_redis push_login_request
  by_redis-Serves m i p user_id lt m' h placed all =
      let absent = eq_ℤ (UserManager.find_user_index_by_id m.user_manager user_id) (negsuc 0) in
      let full = leb_ℤ m.user_manager.max_user_cnt m.user_manager.current_user_cnt in
      by_tests absent full h
    where
      by_tests :
          (absent full : Bool)
          → some (
              if not absent
              then send_packet m i (login_response ErrorCode.login_user_already)
              else if full
              then send_packet m i (login_response ErrorCode.login_user_used_all_obj)
              else if absent
              then push_login_request m i p
              else send_packet m i (login_response ErrorCode.login_user_already))
            ≡ some m'
          → AllServed n m'.sent
      by_tests false full e = send_packet-AllServed n m m' i _ lt tt e all
      by_tests true true e = send_packet-AllServed n m m' i _ lt tt e all
      by_tests true false e =
          let q : m.sent ≡ m'.sent = ground (arith, e) in subst (AllServed n) q all

  load_test-Serves :
      (m : PacketManager) (i : ℕ) (user_id : List ℕ)
      → i < n
      → Leads (Serves n) m (login_load_test m i user_id)
  unfolding login_load_test put_user
  load_test-Serves m i user_id lt m' h placed all =
      let (u, here, h₁) = >>=-eq-some (get_user m i) _ h in
      let named = put_user m i (User.set_login u user_id) in
      let ((code, users), added, h₂) =
        >>=-eq-some (UserManager.adduser named.user_manager user_id i) _ h₁ in
      send_packet-AllServed n (record named { user_manager = users }) m' i _ lt tt h₂ all

  pub login-Serves :
      (m : PacketManager) (i size : ℕ) (p : List ℕ)
      → i < n
      → Leads (Serves n) m (process_login m i size p)
  unfolding process_login
  login-Serves m i size p lt =
      choice-Leads (Serves n) m (not (login_request_packet_size == size)) (some m) _
        (quiet-Serves n m _ λ m' h. ground (arith, h))
        (bind-Leads (Serves n) m (c_str (drop packet_header_length p)) _ λ user_id read.
          choice-Leads (Serves n) m (starts_with user_id load_test_prefix) _ _
            (load_test-Serves m i user_id lt) (by_redis-Serves m i p user_id lt))

  record_login-sent :
      (m m' : PacketManager) (i now : ℕ) → record_login m i now ≡ some m' → m'.sent ≡ m.sent
  unfolding record_login push_my_sql
  record_login-sent m m' i now h = ground (arith, h)

  with_result-sent :
      (m m' : PacketManager) (i now : ℕ) (p : List ℕ) (code : ℕ)
      → login_with_result m i now p ≡ some (code, m')
      → m'.sent ≡ m.sent
  unfolding login_with_result
  with_result-sent m m' i now p code h =
      let (user_id, read, h₁) = >>=-eq-some (c_str (drop 2 p)) _ h in
      let ((added, users), e, h₂) =
        >>=-eq-some (UserManager.adduser m.user_manager user_id i) _ h₁ in
      recorded (record m { user_manager = users }) refl (added == ErrorCode.ok) h₂
    where
      recorded :
          (w : PacketManager)
          → w.sent ≡ m.sent
          → (b : Bool)
          → if◌then◌else◌ {A = Option (ℕ × PacketManager)}
              (not b)
              (some (ErrorCode.login_user_used_all_obj, w))
              (record_login w i now >>= λ v. some (ErrorCode.ok, v))
            ≡ some (code, m')
          → m'.sent ≡ m.sent
      recorded w same false e = ground (arith, e, same)
      recorded w same true e =
          let (v, e', h') = >>=-eq-some (record_login w i now) _ e in
          ground (arith, h', record_login-sent w v i now e', same)

  pub db_result-Serves :
      (m : PacketManager) (i now : ℕ) (p : List ℕ)
      → i < n
      → Leads (Serves n) m (process_login_db_result m i now p)
  unfolding process_login_db_result
  db_result-Serves m i now p lt =
      choice-Leads (Serves n) m (uint16_at p 0 == ErrorCode.ok) _ _ with_result
        (sent-Serves n m i (login_response (uint16_at p 0)) lt tt)
    where
      with_result : Leads (Serves n) m (
          login_with_result m i now p >>= λ (code, m').
          some (send_packet m' i (login_response code)))
      with_result m' h placed all =
          let ((code, w), e, h') = >>=-eq-some (login_with_result m i now p) _ h in
          send_packet-AllServed n w m' i (login_response code) lt tt h'
            (subst (AllServed n) (sym (with_result-sent m w i now p code e)) all)

  pub enter-Serves :
      (m : PacketManager) (i now : ℕ) (p : List ℕ)
      → i < n
      → Leads (Serves n) m (process_enter_room m i now p)
  unfolding process_enter_room enter_as
  enter-Serves m i now p lt = bind-Leads (Serves n) m (get_user m i) _ λ u here.
      let number = signed32 (uint32_at p packet_header_length) in
      by_state-Leads (Serves n) m u.cur_domain_state _ _ _
        (bind-Leads (Serves n) m (RoomManager.enter_user m.room_manager number i u) _
          λ (code, rooms, u') e.
            answer-Serves n m rooms i code u u' (λ w. announce_entry w i now number)
              (room_enter_response code) lt tt here (enter_user-Becomes m.room_manager number i u e)
              λ w. announce_entry-Serves n w i now number)
        (sent-Serves n m i _ lt tt) (sent-Serves n m i _ lt tt)

  pub leave-Serves :
      (m : PacketManager) (i now : ℕ) → i < n → Leads (Serves n) m (process_leave_room m i now)
  unfolding process_leave_room
  leave-Serves m i now lt = bind-Leads (Serves n) m (get_user m i) _ λ u here.
      bind-Leads (Serves n) m (RoomManager.leave_user m.room_manager u.room_index i u) _
        λ (code, rooms, u') e.
          let found = RoomManager.get_room_by_number m.room_manager u.room_index in
          answer-Serves n m rooms i code u u' (λ w. announce_departure w i now u.room_index found)
            (room_leave_response code) lt tt here
            (leave_user-Becomes m.room_manager u.room_index i u e)
            λ w. announce_departure-Serves n w i now u.room_index found

  chat_in-Serves :
      (m : PacketManager) (i now : ℕ) (p : List ℕ) (u : User) (k : ℕ)
      → i < n
      → Leads (Serves n) m (chat_in m i now p u k)
  unfolding chat_in push_my_sql send_packet
  chat_in-Serves m i now p u k lt m' h placed all =
      let (user_id, named, h₁) = >>=-eq-some (strcpy_s (max_user_id_length + 1) u.user_id) _ h in
      let (text, said, h₂) = >>=-eq-some (c_str (drop packet_header_length p)) _ h₁ in
      let (message, fits, h₃) = >>=-eq-some (strcpy_s (max_chat_msg + 1) text) _ h₂ in
      notify_room-Serves n _ k i p m' h₃ placed (AllServed-append n m.sent _ all ((tt, lt), tt))

  in_room-Serves :
      (m : PacketManager) (i now : ℕ) (p : List ℕ) (u : User) (found : Option ℕ)
      → i < n
      → Leads (Serves n) m (elim found [
        | none ↦ some (send_packet m i (room_chat_response ErrorCode.chat_room_invalid_room_number))
        | some k ↦ chat_in m i now p u k
      ])
  in_room-Serves m i now p u none lt = sent-Serves n m i _ lt tt
  in_room-Serves m i now p u (some k) lt = chat_in-Serves m i now p u k lt

  pub chat-Serves :
      (m : PacketManager) (i now : ℕ) (p : List ℕ)
      → i < n
      → Leads (Serves n) m (process_room_chat_message m i now p)
  unfolding process_room_chat_message
  chat-Serves m i now p lt = bind-Leads (Serves n) m (get_user m i) _ λ u here.
      by_state-Leads (Serves n) m u.cur_domain_state _ _ _ (sent-Serves n m i _ lt tt)
        (in_room-Serves m i now p u (RoomManager.get_room_by_number m.room_manager u.room_index) lt)
        (sent-Serves n m i _ lt tt)
