-- ===== src/PacketManager/LoggingIn.antt =====
-- The login of a user, through `ProcessLogin`, the Redis thread of IOCPChatServer/RedisManager.h and
-- `ProcessLoginDBResult` (IOCPChatServer/PacketManager.cpp).
pub mod Steps
pub mod LoadTest
use iocp.Common.{
  ℕ, zero, suc, ◌+◌, ◌-◌, ◌^◌, ◌≤◌, ◌<◌, ◌≡◌, ◌≢◌, refl, sym, ap, ◌∙◌, ◌⊎◌, inl, inr, Bool, true,
  false, not, Option, none, some, List, [], ◌∷◌, ◌++◌, arith, ◌==◌, if◌then◌else◌, ◌>>=◌,
  Bool-cases, length, get_elem?, set, take, drop, get_elem?_of_lt, length-drop, get_elem?-set_self,
  get_elem?-lt, subst,
}
use iocp.Common.Int.{ℤ, pos, negsuc, eq_ℤ, leb_ℤ, signed32}
use iocp.Packet.{
  packet_header_length, max_user_id_length, max_user_pw_length, login_request_packet_size,
  uint16_at, bytes16,
}
use iocp.Packet.ErrorCode
use iocp.Packet.PacketId
use iocp.Packet.Strings.{
  c_str, starts_with, str_eq, str_eq_refl, eq_of_str_eq, c_str-written, c_str-length, strcpy_s_fits,
}
use iocp.Packet.Wire.{login_response}
use iocp.User
use iocp.User.{User, DomainState, login, room}
use iocp.UserManager
use iocp.UserManager.{UserManager, increase_user_cnt}
use iocp.UserManager.Dictionary.{find, insert, contains, find-insert}
use iocp.RedisManager
use iocp.RedisManager.Answering.{answer, login_data, login_response_lem}
use iocp.MySqlTask.{insert_login_event}
use iocp.Membership.{Seated}
use iocp.Membership.Updates.{Seated-outside}
use iocp.PacketManager.{PacketManager, send_packet, push_my_sql, get_user, put_user}
use iocp.PacketManager.Login.{
  process_login, login_by_redis, push_login_request, load_test_prefix, login_load_test,
  record_login, login_with_result, process_login_db_result,
}
use iocp.PacketManager.Loop.{
  Outcome, finished, process_responses, process_recv_packet, and_then, of_handler,
}
use iocp.PacketManager.Consistent.{IsFit, IsPlaced, IsConsistent, IsFit-set}
use Steps.{
  idle, exchange, logged_in, process_login_db_result-ok, process_login_db_result_no,
  process_login_asks, answer_wrong,
}

module _ (get : List ℕ → Option (List ℕ)) (time : PacketManager → ℕ) (stale : List ℕ) (run : Bool)
    (m : PacketManager) (i : ℕ) (p user_id user_pw : List ℕ)
    (read_id : c_str (drop packet_header_length p) ≡ some user_id)
    (read_pw : c_str (drop (packet_header_length + (max_user_id_length + 1)) p) ≡ some user_pw)
    (id_fits : length user_id ≤ max_user_id_length) (pw_fits : length user_pw ≤ max_user_pw_length)
    (ordinary : starts_with user_id load_test_prefix ≡ false)
    (free : find m.user_manager.user_id_dictionary user_id ≡ none)
    (space : leb_ℤ m.user_manager.max_user_cnt m.user_manager.current_user_cnt ≡ false) where
  -- The data of the response.
  abbrev response_data : List ℕ
  response_data =
      bytes16 (answer (get user_id) user_pw) ++ (user_id ++ 0 ∷ drop (length user_id + 1) stale)

  whole : max_user_id_length + 1 ≤ length (drop packet_header_length p)
  whole = omega (arith, c_str-length _ read_pw, length-drop 38 p, length-drop 5 p)

  turn_lem :
      RedisManager.thread_turn get stale (push_login_request (idle run m) i p).redis_manager
      ≡ some (
          RedisManager.served (record {
            is_task_run = run;
            request_task = [];
            response_task =
                record {
                  user_index = i;
                  task_id = PacketId.redis_response_login;
                  data_size = RedisManager.redis_login_res_size;
                  task_data = response_data;
                }
                ∷ [];
          }))
  unfolding RedisManager.thread_turn RedisManager.process_task RedisManager.push_response
      push_login_request RedisManager.push_task
  turn_lem = rw (
      login_response_lem (drop 5 p) (drop 38 p) user_id user_pw read_id read_pw id_fits pw_fits
        whole get stale i)

  responses_lem :
      (m' : PacketManager)
      → process_login_db_result (idle run m) i (time (idle run m)) response_data
        ≡ some (idle run m')
      → process_responses time 2 (record m {
        redis_manager = record {
          is_task_run = run;
          request_task = [];
          response_task =
              record {
                user_index = i;
                task_id = PacketId.redis_response_login;
                data_size = RedisManager.redis_login_res_size;
                task_data = response_data;
              }
              ∷ [];
        };
      })
        ≡ finished (idle run m')
  unfolding process_responses process_recv_packet RedisManager.take_response_task
  responses_lem m' e = rw e

  exchange_lem :
      (m' : PacketManager)
      → process_login_db_result (idle run m) i (time (idle run m)) response_data
        ≡ some (idle run m')
      → exchange get time stale (idle run m) i p ≡ some (finished (idle run m'))
  unfolding push_login_request
  exchange_lem m' e =
      rw (process_login_asks (idle run m) i p user_id read_id ordinary free space, turn_lem)
        (ap some (responses_lem m' e))

  -- A login with the password that Redis holds under the name, in a state of the invariant with
  -- both Redis queues empty, by a user who is in no room, when the name is new and not a load
  -- test's, a place is free, and the name and the password end within their arrays: at the end of
  -- the exchange the user is logged in under the name, the name leads to it, the login is queued
  -- for MySQL, the client is told that all is well, both Redis queues are empty, and the invariant
  -- holds.
  pub exchange_accepts :
      {limit : ℕ} (u : User)
      → IsConsistent limit m
      → get_elem? m.user_manager.user_obj_pool i ≡ some u
      → u.cur_domain_state ≢ room
      → get user_id ≡ some user_pw
      → let m' = logged_in m i (time (idle run m)) u user_id in
        (exchange get time stale (idle run m) i p ≡ some (finished (idle run m')))
        × IsConsistent limit m'
        × (find m'.user_manager.user_id_dictionary user_id ≡ some (signed32 i))
  unfolding increase_user_cnt
  exchange_accepts {limit} u v here out stored = (
    exchange_lem (logged_in m i (time (idle run m)) u user_id) (
        rw (stored, str_eq_refl user_pw)
          (process_login_db_result-ok (idle run m) i (time (idle run m)) u user_id
            (drop (length user_id + 1) stale) (drop packet_header_length p) here free read_id
            id_fits)),
    record {
      small = v.small;
      seated =
          Seated-outside i (record u { cur_domain_state = login; user_id = user_id }) v.seated here
            refl out (λ e. cc);
      fit =
          IsFit-set m.user_manager.user_obj_pool i _ here
            (record { receiving = (v.fit i u here).receiving; short = id_fits }) v.fit;
      first = v.first;
      last = v.last;
    },
    find-insert m.user_manager.user_id_dictionary user_id user_id (signed32 i)
        ∙ ap (λ b. if b then some (signed32 i) else find m.user_manager.user_id_dictionary user_id)
            (str_eq_refl user_id),
  )

  -- A login with anything but the password that Redis holds under the name, or under a name that
  -- Redis does not hold, with both Redis queues empty, when the name is new and not a load test's,
  -- a place is free, and the name and the password end within their arrays: at the end of the
  -- exchange the client has been told that the password is wrong, and all else is as it was before.
  pub exchange_rejects :
      get user_id ≢ some user_pw
      → exchange get time stale (idle run m) i p
        ≡ some
            (finished (idle run (send_packet m i (login_response ErrorCode.login_user_invalid_pw))))
  unfolding send_packet
  exchange_rejects wrong =
      exchange_lem (send_packet m i (login_response ErrorCode.login_user_invalid_pw)) (
        rw (answer_wrong (get user_id) user_pw wrong)
          (process_login_db_result_no (idle run m) i (time (idle run m)) _))
