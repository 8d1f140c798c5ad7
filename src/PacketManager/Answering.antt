-- ===== src/PacketManager/Answering.antt =====
-- `ProcessLogin` without the load test, and `ProcessLoginDBResult`, of
-- IOCPChatServer/PacketManager.cpp: what they leave of the invariant.
use iocp.Common.{
  ℕ, ◌≤◌, ◌≡◌, ◌≢◌, refl, sym, ap, ◌∙◌, ◌⊎◌, inl, inr, false, not, some, List, arith, ◌==◌,
  if◌then◌else◌, ◌>>=◌, >>=-eq-some, length, get_elem?, set, drop, get_elem?-set_self, get_elem?-lt,
  Bool-cases, subst,
}
use iocp.Packet.{packet_header_length, max_user_id_length, uint16_at}
use iocp.Packet.ErrorCode
use iocp.Packet.Strings.{c_str, strcpy_s, starts_with}
use iocp.Packet.Wire.{login_response}
use iocp.User
use iocp.User.{User, login, room}
use iocp.UserManager
use iocp.UserManager.{UserManager}
use iocp.Membership.Updates.{Seated-outside}
use iocp.PacketManager.{PacketManager, send_packet, push_my_sql, get_user}
use iocp.PacketManager.Login.{
  process_login, login_by_redis, push_login_request, load_test_prefix, process_login_db_result,
  login_with_result, record_login,
}
use iocp.PacketManager.Consistent.{
  IsPlaced, IsConsistent, SamePlaces, SamePlaces-IsConsistent, IsFit-set,
}

login_by_redis-SamePlaces :
    (m : PacketManager) (i : ℕ) (p user_id : List ℕ) → SamePlaces m (login_by_redis m i p user_id)
unfolding login_by_redis send_packet push_login_request
login_by_redis-SamePlaces m i p user_id = ground arith

-- A request to log in that is not a load test's changes no user and no room: it is answered or
-- queued for Redis.
pub process_login-SamePlaces :
    (m : PacketManager) (i n : ℕ) (p user_id : List ℕ) {m' : PacketManager}
    → c_str (drop packet_header_length p) ≡ some user_id
    → starts_with user_id load_test_prefix ≡ false
    → process_login m i n p ≡ some m'
    → SamePlaces m m'
unfolding process_login
process_login-SamePlaces m i n p user_id read ordinary h =
    ground (arith, read, ordinary, h, login_by_redis-SamePlaces m i p user_id)

adduser_cases :
    (m : UserManager) (user_id : List ℕ) (i : ℕ) (u : User) {code : ℕ} {m' : UserManager}
    → get_elem? m.user_obj_pool i ≡ some u
    → UserManager.adduser m user_id i ≡ some (code, m')
    → ((code ≡ ErrorCode.login_user_already) × (m' ≡ m))
      ⊎ ((code ≡ ErrorCode.ok)
          × (m'.user_obj_pool
              ≡ set m.user_obj_pool i (record u { cur_domain_state = login; user_id = user_id })))
unfolding UserManager.adduser UserManager.get_user_by_conn_idx UserManager.put_user User.set_login
adduser_cases m user_id i u here h = ground (arith, here, h)

record_login_fits :
    (m : PacketManager) (i now : ℕ) (u : User) {m' : PacketManager}
    → get_elem? m.user_manager.user_obj_pool i ≡ some u
    → record_login m i now ≡ some m'
    → (length u.user_id ≤ max_user_id_length)
      × (m'.user_manager.user_obj_pool ≡ m.user_manager.user_obj_pool)
      × (m'.room_manager ≡ m.room_manager)
unfolding record_login get_user UserManager.get_user_by_conn_idx push_my_sql
    UserManager.increase_user_cnt strcpy_s
record_login_fits m i now u here h = ground (arith, here, h)

module _ {limit : ℕ} (m : PacketManager) (i now : ℕ) (p : List ℕ) (u : User)
    (v : IsConsistent limit m) (here : get_elem? m.user_manager.user_obj_pool i ≡ some u)
    (out : u.cur_domain_state ≢ room) where
  named-IsConsistent :
      (user_id : List ℕ) (pool : List User) (m' : PacketManager)
      → length user_id ≤ max_user_id_length
      → pool
        ≡ set m.user_manager.user_obj_pool i
            (record u { cur_domain_state = login; user_id = user_id })
      → m'.user_manager.user_obj_pool ≡ pool
      → m'.room_manager ≡ m.room_manager
      → IsConsistent limit m'
  named-IsConsistent user_id pool m' short e same rooms =
      subst (λ r. IsPlaced limit m'.user_manager.user_obj_pool r) (sym rooms)
        (subst (λ q. IsPlaced limit q m.room_manager) (sym (same ∙ e))
          (record {
            small = v.small;
            seated =
                Seated-outside i (record u { cur_domain_state = login; user_id = user_id }) v.seated
                  here refl out (λ q. cc);
            fit =
                IsFit-set m.user_manager.user_obj_pool i _ here
                  (record { receiving = (v.fit i u here).receiving; short = short }) v.fit;
            first = v.first;
            last = v.last;
          }))

  added-IsConsistent :
      (user_id : List ℕ) (users : UserManager) (code : ℕ) {q : ℕ × PacketManager}
      → UserManager.adduser m.user_manager user_id i ≡ some (code, users)
      → (if not (code == ErrorCode.ok)
          then some (ErrorCode.login_user_used_all_obj, record m { user_manager = users })
          else (record_login (record m { user_manager = users }) i now >>= λ m'.
              some (ErrorCode.ok, m')))
        ≡ some q
      → IsConsistent limit q.1
  added-IsConsistent user_id users code {q} added h =
      elim (adduser_cases m.user_manager user_id i u here added) [
        | inl (taken, same) ↦
            let e : (ErrorCode.login_user_used_all_obj, record m { user_manager = users }) ≡ q =
              ground arith in
            subst (λ x. IsConsistent limit x.1) e
              (SamePlaces-IsConsistent m (record m { user_manager = users }) (same, refl) v)
        | inr (fresh, pool) ↦
            let (m', e, h') =
              >>=-eq-some {B = ℕ × PacketManager}
                (record_login (record m { user_manager = users }) i now)
                (λ x. some (ErrorCode.ok, x)) {b = q} (ground (arith, h, fresh)) in
            let (short, same, rooms) =
              record_login_fits (record m { user_manager = users }) i now
                (record u { cur_domain_state = login; user_id = user_id })
                (ap (λ l. get_elem? l i) pool
                  ∙ get_elem?-set_self m.user_manager.user_obj_pool i _
                      (get_elem?-lt m.user_manager.user_obj_pool i here))
                e in
            let back : (ErrorCode.ok, m') ≡ q = ground (arith, h') in
            subst (λ x. IsConsistent limit x.1) back
              (named-IsConsistent user_id users.user_obj_pool m' short pool same rooms)
      ]

  -- When the response to a login is dealt with without a fault, for a user who is in no room, in a
  -- state of the invariant, the invariant holds after it, whatever the response holds.
  pub process_login_db_result-IsConsistent :
      {m' : PacketManager} → process_login_db_result m i now p ≡ some m' → IsConsistent limit m'
  unfolding process_login_db_result login_with_result send_packet
  process_login_db_result-IsConsistent {m'} h = elim (Bool-cases (uint16_at p 0 == ErrorCode.ok)) [
    | inl good ↦
        let ((code, m''), e, h') =
          >>=-eq-some (login_with_result m i now p)
            (λ x. some (send_packet x.1 i (login_response x.0))) (rw good at h) in
        let (user_id, read, e') = >>=-eq-some (c_str (drop 2 p)) _ e in
        let ((code', users), added, e'') =
          >>=-eq-some (UserManager.adduser m.user_manager user_id i) _ e' in
        let w = added-IsConsistent user_id users code' added e'' in
        SamePlaces-IsConsistent m'' m' (ground (arith, h')) w
    | inr bad ↦ SamePlaces-IsConsistent m m' (ground (arith, h, bad)) v
  ]
