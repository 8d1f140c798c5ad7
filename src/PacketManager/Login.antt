-- ===== src/PacketManager/Login.antt =====
-- `ProcessLogin` and `ProcessLoginDBResult` of IOCPChatServer/PacketManager.cpp. `none` is a read
-- out of a buffer, an access out of the pool, or an abort of `strcpy_s`.
use iocp.Common.{
  ℕ, ◌+◌, not, Option, some, List, [], ◌∷◌, ◌++◌, ◌>>=◌, ◌==◌, if◌then◌else◌, take, drop,
}
use iocp.Common.Int.{negsuc, eq_ℤ, leb_ℤ}
use iocp.Packet.{
  packet_header_length, max_user_id_length, max_user_pw_length, login_request_packet_size,
  uint16_at,
}
use iocp.Packet.ErrorCode
use iocp.Packet.PacketId
use iocp.Packet.Strings.{c_str, strcpy_s, starts_with}
use iocp.Packet.Wire.{login_response}
use iocp.User
use iocp.UserManager
use iocp.RedisManager
use iocp.RedisManager.{redis_login_req_size}
use iocp.MySqlTask.{insert_login_event}
use iocp.PacketManager.{PacketManager, send_packet, push_my_sql, get_user, put_user}

-- "test_user"
abbrev pub load_test_prefix : List ℕ
load_test_prefix = b't' ∷ b'e' ∷ b's' ∷ b't' ∷ b'_' ∷ b'u' ∷ b's' ∷ b'e' ∷ b'r' ∷ []

-- The branch for load tests: no password, and the result of `Adduser` is not looked at.
unfoldable pub login_load_test : PacketManager → ℕ → List ℕ → Option PacketManager
login_load_test m i user_id = get_user m i >>= λ u.
    let named = put_user m i (User.set_login u user_id) in
    UserManager.adduser named.user_manager user_id i >>= λ (code, users).
    some (send_packet (record named { user_manager = users }) i (login_response ErrorCode.ok))

-- The `REQUEST_LOGIN` for Redis: the two arrays of the packet, copied.
unfoldable pub push_login_request : PacketManager → ℕ → List ℕ → PacketManager
push_login_request m i p = record m {
  redis_manager = RedisManager.push_task m.redis_manager (record {
    user_index = i;
    task_id = PacketId.redis_request_login;
    data_size = redis_login_req_size;
    task_data =
        take (max_user_id_length + 1) (drop packet_header_length p)
        ++ take (max_user_pw_length + 1) (drop (packet_header_length + (max_user_id_length + 1)) p);
  });
}

unfoldable pub login_by_redis : PacketManager → ℕ → List ℕ → List ℕ → PacketManager
login_by_redis m i p user_id =
    let absent = eq_ℤ (UserManager.find_user_index_by_id m.user_manager user_id) (negsuc 0) in
    if not absent
    then send_packet m i (login_response ErrorCode.login_user_already)
    else if leb_ℤ m.user_manager.max_user_cnt m.user_manager.current_user_cnt
    then send_packet m i (login_response ErrorCode.login_user_used_all_obj)
    else if absent
    then push_login_request m i p
    else send_packet m i (login_response ErrorCode.login_user_already)

unfoldable pub process_login : PacketManager → ℕ → ℕ → List ℕ → Option PacketManager
process_login m i packet_size p =
    if not (login_request_packet_size == packet_size)
    then some m
    else (c_str (drop packet_header_length p) >>= λ user_id.
        if starts_with user_id load_test_prefix
        then login_load_test m i user_id
        else some (login_by_redis m i p user_id))

-- What follows a successful `Adduser`.
unfoldable pub record_login : PacketManager → ℕ → ℕ → Option PacketManager
record_login m i now = get_user m i >>= λ u.
    strcpy_s (max_user_id_length + 1) u.user_id >>= λ user_id. some (
      push_my_sql (record m { user_manager = UserManager.increase_user_cnt m.user_manager }) i
        (insert_login_event user_id now))

-- The code left in `pBody->Result`, and the state.
unfoldable pub login_with_result : PacketManager → ℕ → ℕ → List ℕ → Option (ℕ × PacketManager)
login_with_result m i now p = c_str (drop 2 p) >>= λ user_id.
    UserManager.adduser m.user_manager user_id i >>= λ (code, users).
    let added = record m { user_manager = users } in
    if not (code == ErrorCode.ok)
    then some (ErrorCode.login_user_used_all_obj, added)
    else (record_login added i now >>= λ m'. some (ErrorCode.ok, m'))

unfoldable pub process_login_db_result : PacketManager → ℕ → ℕ → List ℕ → Option PacketManager
process_login_db_result m i now p =
    let result = uint16_at p 0 in
    if result == ErrorCode.ok
    then (login_with_result m i now p >>= λ (code, m').
        some (send_packet m' i (login_response code)))
    else some (send_packet m i (login_response result))
