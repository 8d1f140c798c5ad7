-- ===== src/PacketManager/LoggingIn/Steps.antt =====
-- The single steps of a login: `ProcessLogin` with a new name, and `ProcessLoginDBResult`, of
-- IOCPChatServer/PacketManager.cpp.
use iocp.Common.{
  ℕ, ◌+◌, ◌≤◌, ◌≡◌, ◌≢◌, refl, ap, inl, inr, Bool, false, Option, none, some, List, [], ◌∷◌, ◌++◌,
  arith, ◌>>=◌, Bool-cases, length, get_elem?, set, drop, get_elem?-set_self, get_elem?-lt,
}
use iocp.Common.Int.{leb_ℤ, signed32}
use iocp.Packet.{packet_header_length, max_user_id_length, login_request_packet_size, bytes16}
use iocp.Packet.ErrorCode
use iocp.Packet.Strings.{c_str, starts_with, str_eq, eq_of_str_eq, c_str-written, strcpy_s_fits}
use iocp.Packet.Wire.{login_response}
use iocp.User
use iocp.User.{User, DomainState, login, room}
use iocp.UserManager
use iocp.UserManager.{UserManager, increase_user_cnt}
use iocp.UserManager.Dictionary.{find, insert, contains}
use iocp.RedisManager
use iocp.RedisManager.Answering.{answer}
use iocp.MySqlTask.{insert_login_event}
use iocp.PacketManager.{PacketManager, send_packet, push_my_sql, get_user}
use iocp.PacketManager.Login.{
  process_login, login_by_redis, push_login_request, load_test_prefix, record_login,
  login_with_result, process_login_db_result,
}
use iocp.PacketManager.Loop.{Outcome, finished, process_responses}

-- A state of the packet thread in which the queues of the Redis manager are empty.
abbrev pub idle : Bool → PacketManager → PacketManager
idle run m = record m {
  redis_manager = record { is_task_run = run; request_task = []; response_task = [] };
}

-- The whole of a login: the request is handled, the Redis thread takes one turn, and the packet
-- thread handles the responses.
abbrev pub exchange :
    (List ℕ → Option (List ℕ))
    → (PacketManager → ℕ)
    → List ℕ
    → PacketManager
    → ℕ
    → List ℕ
    → Option Outcome
exchange get time stale m i p = process_login m i login_request_packet_size p >>= λ asked.
    RedisManager.thread_turn get stale asked.redis_manager >>= λ turn. elim turn [
      | RedisManager.served redis ↦
          some (process_responses time 2 (record asked { redis_manager = redis }))
      | _ ↦ some (finished asked)
    ]

-- The state after the user `u` at `i` has logged in.
abbrev pub logged_in : PacketManager → ℕ → ℕ → User → List ℕ → PacketManager
logged_in m i now u user_id = record m {
  user_manager = increase_user_cnt (record m.user_manager {
    user_obj_pool =
        set m.user_manager.user_obj_pool i
          (record u { cur_domain_state = login; user_id = user_id });
    user_id_dictionary = insert m.user_manager.user_id_dictionary user_id (signed32 i);
  });
  my_sql_tasks =
      m.my_sql_tasks ++ record { user_index = i; request = insert_login_event user_id now } ∷ [];
  sent = m.sent ++ record { client_index = i; packet = login_response ErrorCode.ok } ∷ [];
}

adduser_new :
    (m : UserManager) (i : ℕ) (u : User) (user_id : List ℕ)
    → get_elem? m.user_obj_pool i ≡ some u
    → find m.user_id_dictionary user_id ≡ none
    → UserManager.adduser m user_id i
      ≡ some (
        ErrorCode.ok,
        record m {
          user_obj_pool =
              set m.user_obj_pool i (record u { cur_domain_state = login; user_id = user_id });
          user_id_dictionary = insert m.user_id_dictionary user_id (signed32 i);
        },
      )
unfolding UserManager.adduser contains UserManager.get_user_by_conn_idx UserManager.put_user
    User.set_login
adduser_new m i u user_id here free = ground (arith, here, free)

-- The response for a name that is not taken.
pub process_login_db_result-ok :
    (m : PacketManager) (i now : ℕ) (u : User) (user_id rest at_id : List ℕ)
    → get_elem? m.user_manager.user_obj_pool i ≡ some u
    → find m.user_manager.user_id_dictionary user_id ≡ none
    → c_str at_id ≡ some user_id
    → length user_id ≤ max_user_id_length
    → process_login_db_result m i now (bytes16 ErrorCode.ok ++ (user_id ++ 0 ∷ rest))
      ≡ some (logged_in m i now u user_id)
unfolding process_login_db_result login_with_result record_login UserManager.adduser get_user
    UserManager.get_user_by_conn_idx contains UserManager.put_user User.set_login send_packet
    push_my_sql increase_user_cnt
process_login_db_result-ok m i now u user_id rest at_id here free read fits = rw (
  c_str-written at_id rest read,
  adduser_new m.user_manager i u user_id here free,
  get_elem?-set_self m.user_manager.user_obj_pool i
      (record u { cur_domain_state = login; user_id = user_id })
      (get_elem?-lt m.user_manager.user_obj_pool i here),
  strcpy_s_fits (max_user_id_length + 1) user_id (omega arith),
)

pub process_login_db_result_no :
    (m : PacketManager) (i now : ℕ) (rest : List ℕ)
    → process_login_db_result m i now (bytes16 ErrorCode.login_user_invalid_pw ++ rest)
      ≡ some (send_packet m i (login_response ErrorCode.login_user_invalid_pw))
unfolding process_login_db_result
process_login_db_result_no m i now rest = refl

login_by_redis_lem :
    (m : PacketManager) (i : ℕ) (p user_id : List ℕ)
    → find m.user_manager.user_id_dictionary user_id ≡ none
    → leb_ℤ m.user_manager.max_user_cnt m.user_manager.current_user_cnt ≡ false
    → login_by_redis m i p user_id ≡ push_login_request m i p
unfolding login_by_redis UserManager.find_user_index_by_id
login_by_redis_lem m i p user_id free space = ground (arith, free, space)

-- A name that is new, while there is a place.
pub process_login_asks :
    (m : PacketManager) (i : ℕ) (p user_id : List ℕ)
    → c_str (drop packet_header_length p) ≡ some user_id
    → starts_with user_id load_test_prefix ≡ false
    → find m.user_manager.user_id_dictionary user_id ≡ none
    → leb_ℤ m.user_manager.max_user_cnt m.user_manager.current_user_cnt ≡ false
    → process_login m i login_request_packet_size p ≡ some (push_login_request m i p)
unfolding process_login
process_login_asks m i p user_id read ordinary free space =
    rw (read, ordinary, login_by_redis_lem m i p user_id free space)

pub answer_wrong :
    (stored : Option (List ℕ)) (user_pw : List ℕ)
    → stored ≢ some user_pw
    → answer stored user_pw ≡ ErrorCode.login_user_invalid_pw
answer_wrong none user_pw wrong = refl
answer_wrong (some value) user_pw wrong = elim (Bool-cases (str_eq value user_pw)) [
  | inl same ↦ absurd (wrong (ap some (eq_of_str_eq value user_pw same)))
  | inr differ ↦ rw differ
]
