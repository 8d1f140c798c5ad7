-- ===== src/PacketManager/Loop/Changes/Accounts.antt =====
-- Connections, departures and logins of IOCPChatServer/PacketManager.cpp: what becomes of the rings.
use iocp.Common.{
  ℕ, not, ◌≡◌, refl, ◌⊎◌, inl, inr, Bool, true, false, Option, some, List, arith, ◌==◌, ◌>>=◌,
  if◌then◌else◌, >>=-eq-some, drop, get_elem?, set,
}
use iocp.Packet.{packet_header_length, login_request_packet_size, uint16_at}
use iocp.Packet.ErrorCode
use iocp.Packet.Strings.{c_str, starts_with}
use iocp.Packet.Wire.{login_response}
use iocp.User
use iocp.User.{User, DomainState, no_domain, login, room}
use iocp.UserManager
use iocp.UserManager.{UserManager}
use iocp.RoomManager
use iocp.PacketManager.{
  PacketManager, send_packet, get_user, put_user, leave_on_close, forget_user,
  clear_connection_info, without_client, process_user_disconnect,
}
use iocp.PacketManager.Login.{
  process_login, login_load_test, process_login_db_result, login_with_result, record_login,
  load_test_prefix,
}
use iocp.PacketManager.Loop.Pools.{
  Becomes, pool, record_login-SamePool, by_redis-SamePool, leave_user-Becomes,
}
use iocp.PacketManager.Loop.Leading.{choice-Leads, bind-Leads}
use iocp.PacketManager.Loop.Changes.{
  GoesOn, Changed, changes, Keeps, same-Changed, SamePool-Keeps, put_user-Changed, some-Keeps,
  then-Keeps, sent-Keeps,
}

-- What `DeleteUserInfo` leaves of the pool, and `Adduser`.
delete_user_info-pool :
    (users users' : UserManager) (i : ℕ)
    → UserManager.delete_user_info users i ≡ some users'
    → (u u' : User) × (get_elem? users.user_obj_pool i ≡ some u)
      × Becomes u u'
      × (users'.user_obj_pool ≡ set users.user_obj_pool i u')
unfolding UserManager.delete_user_info UserManager.get_user_by_conn_idx UserManager.put_user
    UserManager.decrease_user_cnt User.clear User.increment_generation
delete_user_info-pool users users' i h =
    let (u, here, h₁) = >>=-eq-some (get_elem? users.user_obj_pool i) _ h in
    (u, User.increment_generation (User.clear u), here, (refl, inr refl), ground (arith, h₁))

adduser-pool :
    (users users' : UserManager) (user_id : List ℕ) (i code : ℕ)
    → UserManager.adduser users user_id i ≡ some (code, users')
    → (users'.user_obj_pool ≡ users.user_obj_pool)
      ⊎ ((u u' : User) × (get_elem? users.user_obj_pool i ≡ some u)
          × Becomes u u'
          × (users'.user_obj_pool ≡ set users.user_obj_pool i u'))
unfolding UserManager.adduser UserManager.get_user_by_conn_idx UserManager.put_user User.set_login
adduser-pool users users' user_id i code h =
    by_known (UserManager.Dictionary.contains users.user_id_dictionary user_id) refl
  where
    by_known :
        (b : Bool)
        → UserManager.Dictionary.contains users.user_id_dictionary user_id ≡ b
        → (users'.user_obj_pool ≡ users.user_obj_pool)
          ⊎ ((u u' : User) × (get_elem? users.user_obj_pool i ≡ some u)
              × Becomes u u'
              × (users'.user_obj_pool ≡ set users.user_obj_pool i u'))
    by_known true e = inl (ground (arith, h, e))
    by_known false e =
        let (u, here, h₁) = >>=-eq-some (get_elem? users.user_obj_pool i) _ (rw e at h) in
        inr (u, User.set_login u user_id, here, (refl, inl refl), ground (arith, h₁))

module _ (xs : List User) where
  forget_user-Keeps : (m : PacketManager) (i : ℕ) (u : User) → Keeps xs m (forget_user m i u)
  unfolding forget_user
  forget_user-Keeps m i u m' h k = by_state u.cur_domain_state h
    where
      deleted :
          (UserManager.delete_user_info m.user_manager i >>= λ users.
          some (record m { user_manager = users }))
            ≡ some m'
          → Changed xs (pool m')
      deleted e =
          let (users, gone, e') = >>=-eq-some (UserManager.delete_user_info m.user_manager i) _ e in
          let (v, v', here, cleared, set_to) = delete_user_info-pool m.user_manager users i gone in
          let q : pool m' ≡ set (pool m) i v' = ground (arith, e', set_to) in
          same-Changed xs q (changes (pool m) i v v' k here cleared)

      by_state :
          (s : DomainState)
          → elim s [
            | no_domain ↦ some m
            | _ ↦ UserManager.delete_user_info m.user_manager i >>= λ users.
                some (record m { user_manager = users })
          ]
            ≡ some m'
          → Changed xs (pool m')
      by_state no_domain e = let q : pool m' ≡ pool m = ground (arith, e) in same-Changed xs q k
      by_state login e = deleted e
      by_state room e = deleted e

  leave_on_close-Keeps :
      (m : PacketManager) (i : ℕ) (u : User)
      → get_user m i ≡ some u
      → Keeps xs m (leave_on_close m i u)
  unfolding leave_on_close
  leave_on_close-Keeps m i u here m' h k = by_state u.cur_domain_state h
    where
      by_state :
          (s : DomainState)
          → elim s [
            | room ↦ RoomManager.leave_user m.room_manager u.room_index i u >>= λ (code, rooms, u').
                some (put_user (record m { room_manager = rooms }) i u')
            | _ ↦ some m
          ]
            ≡ some m'
          → Changed xs (pool m')
      by_state no_domain e = let q : pool m' ≡ pool m = ground (arith, e) in same-Changed xs q k
      by_state login e = let q : pool m' ≡ pool m = ground (arith, e) in same-Changed xs q k
      by_state room e =
          let ((code, rooms, u'), out, e') =
            >>=-eq-some (RoomManager.leave_user m.room_manager u.room_index i u) _ e in
          let q : pool m' ≡ pool (put_user (record m { room_manager = rooms }) i u') =
            ground (arith, e') in
          same-Changed xs q (
            put_user-Changed xs m rooms i u u' here
              (leave_user-Becomes m.room_manager u.room_index i u out) k)

  pub disconnect-Keeps : (m : PacketManager) (i : ℕ) → Keeps xs m (process_user_disconnect m i)
  unfolding process_user_disconnect clear_connection_info
  disconnect-Keeps m i m' h k =
      let quiet = record m { write_buffer = without_client i m.write_buffer } in
      let (u, here, h₁) = >>=-eq-some (get_user quiet i) _ h in
      let (outside, out, h₂) = >>=-eq-some (leave_on_close quiet i u) _ h₁ in
      let (u', there, h₃) = >>=-eq-some (get_user outside i) _ h₂ in
      forget_user-Keeps outside i u' m' h₃ (leave_on_close-Keeps quiet i u here outside out k)

  adduser-Changed :
      (m : PacketManager) (users : UserManager) (user_id : List ℕ) (i code : ℕ)
      → UserManager.adduser m.user_manager user_id i ≡ some (code, users)
      → Changed xs (pool m)
      → Changed xs users.user_obj_pool
  adduser-Changed m users user_id i code h k =
      elim (adduser-pool m.user_manager users user_id i code h) [
        | inl same ↦ same-Changed xs same k
        | inr (u, u', here, e, same) ↦ same-Changed xs same (changes (pool m) i u u' k here e)
      ]

  load_test-Keeps :
      (m : PacketManager) (i : ℕ) (user_id : List ℕ) → Keeps xs m (login_load_test m i user_id)
  unfolding login_load_test send_packet User.set_login
  load_test-Keeps m i user_id m' h k =
      let (u, here, h₁) = >>=-eq-some (get_user m i) _ h in
      let named = put_user m i (User.set_login u user_id) in
      let ((code, users), added, h₂) =
        >>=-eq-some (UserManager.adduser named.user_manager user_id i) _ h₁ in
      let q : pool m' ≡ users.user_obj_pool = ground (arith, h₂) in
      same-Changed xs q (
        adduser-Changed named users user_id i code added (
          put_user-Changed xs m m.room_manager i u (User.set_login u user_id) here (refl, inl refl)
            k))

  pub login-Keeps : (m : PacketManager) (i n : ℕ) (p : List ℕ) → Keeps xs m (process_login m i n p)
  unfolding process_login
  login-Keeps m i n p =
      choice-Leads (GoesOn xs) m (not (login_request_packet_size == n)) (some m) _ (some-Keeps xs m)
        (bind-Leads (GoesOn xs) m (c_str (drop packet_header_length p)) _ λ user_id read.
          choice-Leads (GoesOn xs) m (starts_with user_id load_test_prefix) _ _
            (load_test-Keeps m i user_id) (SamePool-Keeps xs m _ (by_redis-SamePool m i p user_id)))

  with_result-Changed :
      (m : PacketManager) (i now : ℕ) (p : List ℕ) (code : ℕ) (m' : PacketManager)
      → login_with_result m i now p ≡ some (code, m')
      → Changed xs (pool m)
      → Changed xs (pool m')
  unfolding login_with_result
  with_result-Changed m i now p code m' h k =
      let (user_id, read, h₁) = >>=-eq-some (c_str (drop 2 p)) _ h in
      let ((added, users), e, h₂) =
        >>=-eq-some (UserManager.adduser m.user_manager user_id i) _ h₁ in
      recorded users (adduser-Changed m users user_id i added e k) (added == ErrorCode.ok) h₂
    where
      recorded :
          (users : UserManager)
          → Changed xs users.user_obj_pool
          → (b : Bool)
          → if◌then◌else◌ {A = Option (ℕ × PacketManager)}
              (not b)
              (some (ErrorCode.login_user_used_all_obj, record m { user_manager = users }))
              (record_login (record m { user_manager = users }) i now >>= λ w.
                some (ErrorCode.ok, w))
            ≡ some (code, m')
          → Changed xs (pool m')
      recorded users k' false e =
          let q : pool m' ≡ users.user_obj_pool = ground (arith, e) in same-Changed xs q k'
      recorded users k' true e =
          let (w, e', h') =
            >>=-eq-some (record_login (record m { user_manager = users }) i now) _ e in
          let q : pool m' ≡ users.user_obj_pool =
            ground
              (arith, h', record_login-SamePool (record m { user_manager = users }) i now w e') in
          same-Changed xs q k'

  pub db_result-Keeps :
      (m : PacketManager) (i now : ℕ) (p : List ℕ) → Keeps xs m (process_login_db_result m i now p)
  unfolding process_login_db_result
  db_result-Keeps m i now p =
      choice-Leads (GoesOn xs) m (uint16_at p 0 == ErrorCode.ok) _
        (some (send_packet m i (login_response (uint16_at p 0))))
        (bind-Leads (GoesOn xs) m (login_with_result m i now p) _ λ (code, m') e.
          then-Keeps xs m m' _ (with_result-Changed m i now p code m' e)
            (sent-Keeps xs m' i (login_response code)))
        (sent-Keeps xs m i (login_response (uint16_at p 0)))
