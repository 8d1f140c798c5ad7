-- ===== src/MySqlManager.antt =====
-- IOCPChatServer/MysqlManager.h: the queue of tasks for MySQL, and what one of its threads does with
-- its own connection. Every call of the MySQL client is recorded, in order. `none` is a fault: the
-- client is given a null connection or statement.
pub mod Client
pub mod Inserting
pub mod Connecting
pub mod Failures
use iocp.Common.{
  ℕ, ◌+◌, Bool, true, false, not, ◌&&◌, ◌||◌, Option, none, some, List, [], ◌∷◌, ◌++◌, ◌>>=◌, ◌==◌,
  if◌then◌else◌, length, take,
}
use iocp.Common.Int.{ℤ}
use iocp.Packet.{max_user_id_length, max_chat_msg}
use iocp.Packet.Strings.{codes}
use iocp.MySqlManager.Client.{
  Sql, create_login, create_room, create_chat, insert_login, insert_room, insert_chat, Bind,
  bind_string, bind_int, bind_uint, bind_longlong, Call, mysql_init, mysql_options,
  mysql_real_connect, mysql_close, mysql_ping, mysql_query, mysql_stmt_init, mysql_stmt_prepare,
  mysql_stmt_bind_param, mysql_stmt_execute, mysql_stmt_reset, mysql_stmt_close, mysql_thread_end,
  MySqlClient,
}
use iocp.MySqlTask.{
  MySqlTask, MySqlRequest, insert_login_event, insert_room_event, insert_chat_message,
  RoomEventType, entered, left,
}

pub record MySqlConnection : Type 0 where
  pub connection : Option ℕ
  pub stmt_login : Option ℕ
  pub stmt_room : Option ℕ
  pub stmt_chat : Option ℕ

pub record MySqlManager : Type 0 where
  pub request_task : List MySqlTask
  pub is_task_run : Bool
  pub host : List ℕ
  pub user : List ℕ
  pub pass : List ℕ
  pub db : List ℕ
  pub port : ℕ

-- A thread: the members that it shares, its `myConn`, and the calls so far.
pub record Worker : Type 0 where
  pub manager : MySqlManager
  pub conn : MySqlConnection
  pub calls : List Call

unfoldable pub new_manager : MySqlManager
new_manager = record {
  request_task = [];
  is_task_run = false;
  host = [];
  user = [];
  pass = [];
  db = [];
  port = 0;
}

unfoldable pub new_connection : MySqlConnection
new_connection = record { connection = none; stmt_login = none; stmt_room = none; stmt_chat = none }

abbrev pub default_host : List ℕ
default_host = codes "chatserver-database.cts4w8y0e8qh.ap-northeast-2.rds.amazonaws.com"

abbrev pub default_user : List ℕ
default_user = codes "admin"

abbrev pub default_pass : List ℕ
default_pass = codes "12345678"

abbrev pub default_db : List ℕ
default_db = codes "chatserver-database"

abbrev or_else {ℓ} : {A : Type ℓ} → Option A → A → A
or_else none a = a
or_else (some x) a = x

-- `port_` is 0 where it is not given.
unfoldable pub configure :
    MySqlManager
    → Option (List ℕ)
    → Option (List ℕ)
    → Option (List ℕ)
    → Option (List ℕ)
    → ℕ
    → MySqlManager
configure m host_ user_ pass_ db_ port_ = record m {
  host = or_else host_ default_host;
  user = or_else user_ default_user;
  pass = or_else pass_ default_pass;
  db = or_else db_ default_db;
  port = if port_ == 0 then 3306 else port_;
}

unfoldable pub push_task : MySqlManager → MySqlTask → MySqlManager
push_task m task_ = record m { request_task = m.request_task ++ task_ ∷ [] }

-- `none`: the task of `TaskID` `INVALID`, for want of one.
unfoldable pub take_request_task : MySqlManager → Option MySqlTask × MySqlManager
take_request_task m = elim m.request_task [
  | [] ↦ (none, m)
  | task ∷ rest ↦ (some task, record m { request_task = rest })
]

abbrev is_there : Option ℕ → Bool
is_there none = false
is_there (some x) = true

-- The value of a `RoomEventType`.
abbrev pub event_number : RoomEventType → ℕ
event_number entered = 1
event_number left = 2

abbrev pub call : Worker → Call → Worker
call k c = record k { calls = k.calls ++ c ∷ [] }

abbrev put_conn : Worker → MySqlConnection → Worker
put_conn k conn = record k { conn = conn }

-- The part of a function after an early `return false`.
unfoldable pub and_then :
    Option (Bool × Worker) → (Worker → Option (Bool × Worker)) → Option (Bool × Worker)
and_then r f = r >>= λ (ok, k). if ok then f k else some (false, k)

unfoldable pub close_connection : Worker → Worker
close_connection k = elim k.conn.connection [
  | none ↦ k
  | some c ↦ put_conn (call k (mysql_close c)) (record k.conn { connection = none })
]

unfoldable pub close_statement : Worker → Option ℕ → Worker
close_statement k none = k
close_statement k (some s) = call k (mysql_stmt_close s)

unfoldable pub cleanup_statements : Worker → Worker
cleanup_statements k =
    put_conn
      (close_statement (close_statement (close_statement k k.conn.stmt_login) k.conn.stmt_room)
        k.conn.stmt_chat)
      (record k.conn { stmt_login = none; stmt_room = none; stmt_chat = none })

-- The values taken where no host is set.
unfoldable pub with_host : MySqlManager → MySqlManager
with_host m = elim m.host [
  | [] ↦ record m {
    host = default_host;
    user = default_user;
    pass = default_pass;
    db = default_db;
    port = 3306;
  }
  | x ∷ xs ↦ m
]

module _ (client : MySqlClient) where
  unfoldable pub init_and_connect : Worker → Bool × Worker
  init_and_connect k0 =
      let m = with_host k0.manager in
      let k = record k0 { manager = m } in
      let k' = put_conn (call k mysql_init) (record k.conn { connection = client.init k.calls }) in
      elim (client.init k.calls) [
        | none ↦ (false, k')
        | some c ↦
            let set_up = call (call k' (mysql_options c)) (mysql_options c) in
            (
              client.real_connect set_up.calls,
              call set_up (mysql_real_connect c m.host m.user m.pass m.db m.port),
            )
      ]

  unfoldable pub run_query : Sql → Worker → Option (Bool × Worker)
  run_query q k = elim k.conn.connection [
    | none ↦ none
    | some c ↦ some (client.query k.calls, call k (mysql_query c q))
  ]

  -- The three calls of `mysql_stmt_init`, of which none may have failed.
  unfoldable pub init_statements : Worker → Option (Bool × Worker)
  init_statements k = elim k.conn.connection [
    | none ↦ none
    | some c ↦
        let k1 = call k (mysql_stmt_init c) in
        let k2 = call k1 (mysql_stmt_init c) in
        let login = client.stmt_init k.calls in
        let room = client.stmt_init k1.calls in
        let chat = client.stmt_init k2.calls in
        some (
          is_there login && is_there room && is_there chat,
          put_conn (call k2 (mysql_stmt_init c))
              (record k.conn { stmt_login = login; stmt_room = room; stmt_chat = chat }),
        )
  ]

  unfoldable pub prepare : Sql → Option ℕ → Worker → Option (Bool × Worker)
  prepare q none k = none
  prepare q (some s) k = some (client.stmt_prepare k.calls, call k (mysql_stmt_prepare s q))

  unfoldable pub prepare_statements : Worker → Option (Bool × Worker)
  prepare_statements k = and_then (run_query create_login k) λ k1.
      and_then (run_query create_room k1) λ k2. and_then (run_query create_chat k2) λ k3.
        and_then (init_statements k3) λ k4.
          and_then (prepare insert_login k4.conn.stmt_login k4) λ k5.
            and_then (prepare insert_room k5.conn.stmt_room k5)
              λ k6. prepare insert_chat k6.conn.stmt_chat k6

  -- Once the connection is found dead.
  unfoldable pub reconnect : Worker → Option (Bool × Worker)
  reconnect k =
      and_then (some (init_and_connect (close_connection (cleanup_statements k))))
        prepare_statements

  unfoldable pub ensure_connection : Worker → Option (Bool × Worker)
  ensure_connection k = elim k.conn.connection [
    | none ↦ reconnect k
    | some c ↦
        let pinged = call k (mysql_ping c) in
        if client.ping k.calls then some (true, pinged) else reconnect pinged
  ]

  -- What the three handlers do once the parameters are set up.
  unfoldable pub insert_row : Option ℕ → List Bind → Worker → Option Worker
  insert_row none binds k = none
  insert_row (some s) binds k =
      let bound = call k (mysql_stmt_bind_param s binds) in
      let ran =
        if client.stmt_bind_param k.calls then call bound (mysql_stmt_execute s) else bound in
      some (call ran (mysql_stmt_reset s))

  unfoldable pub handle_insert_login : List ℕ → ℕ → Worker → Option Worker
  handle_insert_login user_id timestamp_sec k =
      insert_row k.conn.stmt_login
        (bind_string (take (max_user_id_length + 1) user_id) ∷ bind_longlong timestamp_sec ∷ []) k

  unfoldable pub handle_insert_room : List ℕ → ℤ → RoomEventType → ℕ → Worker → Option Worker
  handle_insert_room user_id room_number event_type time_stamp_sec k =
      insert_row k.conn.stmt_room
        (bind_string (take (max_user_id_length + 1) user_id)
          ∷ bind_int room_number
          ∷ bind_uint (event_number event_type)
          ∷ bind_longlong time_stamp_sec
          ∷ [])
        k

  unfoldable pub handle_insert_chat : List ℕ → ℤ → List ℕ → ℕ → Worker → Option Worker
  handle_insert_chat user_id room_number message time_stamp_sec k =
      insert_row k.conn.stmt_chat
        (bind_string (take (max_user_id_length + 1) user_id)
          ∷ bind_int room_number
          ∷ bind_string (take (max_chat_msg + 1) message)
          ∷ bind_longlong time_stamp_sec
          ∷ [])
        k

  -- The switch on `TaskID`.
  unfoldable pub handle_request : MySqlRequest → Worker → Option Worker
  handle_request (insert_login_event user_id t) = handle_insert_login user_id t
  handle_request (insert_room_event user_id room event t) = handle_insert_room user_id room event t
  handle_request (insert_chat_message user_id room message t) =
      handle_insert_chat user_id room message t

  -- The rest of the loop's body, for a task that has been taken.
  unfoldable pub process_task : Option MySqlTask → Worker → Option Worker
  process_task none k = some k
  process_task (some task) k =
      ensure_connection k >>= λ (ok, k'). if ok then handle_request task.request k' else some k'

  -- What the thread does before its loop, and after it.
  unfoldable pub start_thread : MySqlManager → Option Worker
  start_thread m =
      let connected =
        init_and_connect (record { manager = m; conn = new_connection; calls = [] }) in
      prepare_statements connected.1 >>= λ (ok, k). some k

  unfoldable pub end_thread : Worker → Worker
  end_thread k = call (close_connection (cleanup_statements k)) mysql_thread_end

  -- A round of the loop, and whether there is another. With an empty queue and `mIsTaskRun` set the
  -- thread waits, which is a round that changes nothing.
  unfoldable pub thread_turn : Worker → Option (Bool × Worker)
  thread_turn k = elim k.manager.request_task [
    | [] ↦ some (k.manager.is_task_run, k)
    | task ∷ rest ↦
        process_task (some task) (record k { manager = record k.manager { request_task = rest } })
        >>= λ k'. some (true, k')
  ]
