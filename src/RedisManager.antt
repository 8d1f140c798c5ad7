-- ===== src/RedisManager.antt =====
-- IOCPChatServer/RedisManager.h and RedisTaskDefine.h: the queue of requests, the thread that
-- answers them, and the queue of responses. The Redis client is the parameter `get` of the thread's
-- step: the value stored for a key. `none` is a read out of a task's data or an abort of
-- `strcpy_s`.
pub mod Answering
use iocp.Common.{
  ℕ, ◌+◌, ◌-◌, Bool, true, false, not, ◌&&◌, Option, none, some, List, [], ◌∷◌, ◌++◌, ◌>>=◌, ◌==◌,
  if◌then◌else◌, drop, length,
}
use iocp.Packet.{max_user_id_length, bytes16}
use iocp.Packet.ErrorCode
use iocp.Packet.PacketId
use iocp.Packet.Strings.{c_str, strcpy_s, str_eq}

-- `TaskID` is the number of a `RedisTaskID`; `pData` is given by the bytes there.
pub record RedisTask : Type 0 where
  pub user_index : ℕ
  pub task_id : ℕ
  pub data_size : ℕ
  pub task_data : List ℕ

-- `RedisTask()`
abbrev pub no_task : RedisTask
no_task = record { user_index = 0; task_id = PacketId.redis_invalid; data_size = 0; task_data = [] }

-- `sizeof(RedisLoginReq)` and `sizeof(RedisLoginRes)`
abbrev pub redis_login_req_size : ℕ
redis_login_req_size = 66

abbrev pub redis_login_res_size : ℕ
redis_login_res_size = 35

pub record RedisManager : Type 0 where
  pub is_task_run : Bool
  pub request_task : List RedisTask
  pub response_task : List RedisTask

-- The member initialisers, and `Run`: the connection's address is not modelled.
unfoldable pub run : RedisManager → RedisManager
run m = record m { is_task_run = true }

unfoldable pub push_task : RedisManager → RedisTask → RedisManager
push_task m task_ = record m { request_task = m.request_task ++ task_ ∷ [] }

unfoldable pub push_response : RedisManager → RedisTask → RedisManager
push_response m task_ = record m { response_task = m.response_task ++ task_ ∷ [] }

unfoldable pub take_response_task : RedisManager → RedisTask × RedisManager
take_response_task m = elim m.response_task [
  | [] ↦ (no_task, m)
  | task ∷ rest ↦ (task, record m { response_task = rest })
]

unfoldable pub has_response_task : RedisManager → Bool
has_response_task m = elim m.response_task [ [] ↦ false | task ∷ rest ↦ true ]

unfoldable pub take_request_task : RedisManager → RedisTask × RedisManager
take_request_task m = elim m.request_task [
  | [] ↦ (no_task, m)
  | task ∷ rest ↦ (task, record m { request_task = rest })
]

-- The first part of `End`.
unfoldable pub stop : RedisManager → RedisManager
stop m = record m { is_task_run = false }

-- `bodyData.Result`, from the value that Redis holds and the packed request.
unfoldable pub check_password : Option (List ℕ) → List ℕ → Option ℕ
check_password none request = some ErrorCode.login_user_invalid_pw
check_password (some value) request = c_str (drop (max_user_id_length + 1) request) >>= λ user_pw.
    if str_eq value user_pw then some ErrorCode.ok else some ErrorCode.login_user_invalid_pw

-- What the thread does next: it waits for a request, ends, or has dealt with one.
pub data Turn : Type 0 where
  waiting : Turn
  ended : Turn
  served : RedisManager → Turn

module _ (get : List ℕ → Option (List ℕ)) where
  -- The response to a `REQUEST_LOGIN`. `stale` is what `bodyData.UserID` held before the copy.
  unfoldable pub login_response : List ℕ → RedisTask → Option RedisTask
  login_response stale task = c_str task.task_data >>= λ text.
      strcpy_s (max_user_id_length + 1) text >>= λ user_id.
      check_password (get user_id) task.task_data >>= λ result. some (record {
        user_index = task.user_index;
        task_id = PacketId.redis_response_login;
        data_size = redis_login_res_size;
        task_data = bytes16 result ++ (user_id ++ 0 ∷ drop (length user_id + 1) stale);
      })

  -- One task, taken from the queue, by the body of the thread's loop.
  unfoldable pub process_task : List ℕ → RedisManager → RedisTask → Option RedisManager
  process_task stale m task =
      if task.task_id == PacketId.redis_request_login
      then (login_response stale task >>= λ res_task. some (push_response m res_task))
      else some m

  -- One round of `TaskProcessThread`: the condition of the wait, the test for the end, one task.
  unfoldable pub thread_turn : List ℕ → RedisManager → Option Turn
  thread_turn stale m = elim m.request_task [
    | [] ↦ if m.is_task_run then some waiting else some ended
    | task ∷ rest ↦
        process_task stale (record m { request_task = rest }) task >>= λ m'. some (served m')
  ]
