-- ===== src/RedisManager/Answering.antt =====
-- `TaskProcessThread` of IOCPChatServer/RedisManager.h on the request that `ProcessLogin` of
-- IOCPChatServer/PacketManager.cpp makes.
use iocp.Common.{
  ℕ, ◌+◌, ◌≤◌, ◌≡◌, refl, sym, ap, ◌∙◌, Option, none, some, List, [], ◌∷◌, ◌++◌, append-nil, arith,
  if◌then◌else◌, length, length-take, take, drop, drop-append,
}
use iocp.Packet.{bytes16, max_user_id_length, max_user_pw_length}
use iocp.Packet.ErrorCode
use iocp.Packet.PacketId
use iocp.Packet.Strings.{c_str, str_eq, c_str-take, strcpy_s_fits}
use iocp.RedisManager.{redis_login_req_size, redis_login_res_size, check_password, login_response}

-- The packed `RedisLoginReq` of two strings that start in two buffers.
abbrev pub login_data : List ℕ → List ℕ → List ℕ
login_data at_id at_pw = take (max_user_id_length + 1) at_id ++ take (max_user_pw_length + 1) at_pw

-- The result for what Redis holds and a password.
abbrev pub answer : Option (List ℕ) → List ℕ → ℕ
answer none user_pw = ErrorCode.login_user_invalid_pw
answer (some value) user_pw =
    if str_eq value user_pw then ErrorCode.ok else ErrorCode.login_user_invalid_pw

module _ (at_id at_pw user_id user_pw : List ℕ) (id_at : c_str at_id ≡ some user_id)
    (pw_at : c_str at_pw ≡ some user_pw) (id_fits : length user_id ≤ max_user_id_length)
    (pw_fits : length user_pw ≤ max_user_pw_length)
    (whole : max_user_id_length + 1 ≤ length at_id) where
  id_read : c_str (login_data at_id at_pw) ≡ some user_id
  id_read = c_str-take 33 at_id (take 33 at_pw) id_at (omega arith)

  pw_read : c_str (drop (max_user_id_length + 1) (login_data at_id at_pw)) ≡ some user_pw
  pw_read =
      ap c_str (
        drop-append (take 33 at_id) (take 33 at_pw) 33 (omega (arith, length-take 33 at_id))
        ∙ sym (append-nil (take 33 at_pw)))
      ∙ c_str-take 33 at_pw [] pw_at (omega arith)

  pub check_password_lem :
      (stored : Option (List ℕ))
      → check_password stored (login_data at_id at_pw) ≡ some (answer stored user_pw)
  unfolding check_password
  check_password_lem none = refl
  check_password_lem (some value) = rw (pw_read) (ground arith)

  -- The response to a request for strings that fit their arrays: the result for what Redis holds
  -- under the name, then the name.
  pub login_response_lem :
      (get : List ℕ → Option (List ℕ)) (stale : List ℕ) (i : ℕ)
      → login_response get stale (record {
        user_index = i;
        task_id = PacketId.redis_request_login;
        data_size = redis_login_req_size;
        task_data = login_data at_id at_pw;
      })
        ≡ some (record {
          user_index = i;
          task_id = PacketId.redis_response_login;
          data_size = redis_login_res_size;
          task_data =
              bytes16 (answer (get user_id) user_pw)
              ++ (user_id ++ 0 ∷ drop (length user_id + 1) stale);
        })
  unfolding login_response
  login_response_lem get stale i = rw (
    id_read,
    strcpy_s_fits (max_user_id_length + 1) user_id (omega arith),
    check_password_lem (get user_id),
  )
