-- ===== src/MySqlManager/Inserting.antt =====
-- The rows that a thread of IOCPChatServer/MysqlManager.h inserts, and when it inserts none.
use iocp.Common.{
  ℕ, zero, suc, ◌≤◌, ◌≡◌, sym, ap, ap₂, ◌∙◌, true, Option, some, List, [], ◌∷◌, ◌++◌, ◌>>=◌, arith,
  length, take_all, append_assoc, append-nil,
}
use iocp.MySqlTask.{
  MySqlTask, MySqlRequest, insert_login_event, insert_room_event, insert_chat_message,
}
use iocp.MySqlManager.Client.{
  Bind, bind_string, bind_int, bind_uint, bind_longlong, Call, mysql_ping, mysql_stmt_bind_param,
  mysql_stmt_execute, mysql_stmt_reset, MySqlClient,
}
use iocp.MySqlManager.{
  MySqlConnection, MySqlManager, Worker, event_number, ensure_connection, insert_row,
  handle_insert_login, handle_insert_room, handle_insert_chat, handle_request, process_task,
  thread_turn,
}

-- All calls succeed; those that open something give it.
pub record Succeeds (client : MySqlClient) : Type 0 where
  pub init : (cs : List Call) → (c : ℕ) × (client.init cs ≡ some c)
  pub real_connect : (cs : List Call) → client.real_connect cs ≡ true
  pub query : (cs : List Call) → client.query cs ≡ true
  pub stmt_init : (cs : List Call) → (s : ℕ) × (client.stmt_init cs ≡ some s)
  pub stmt_prepare : (cs : List Call) → client.stmt_prepare cs ≡ true
  pub stmt_bind_param : (cs : List Call) → client.stmt_bind_param cs ≡ true
  pub stmt_execute : (cs : List Call) → client.stmt_execute cs ≡ true

-- A connection with its three statements.
abbrev pub open_connection : ℕ → ℕ → ℕ → ℕ → MySqlConnection
open_connection c login room chat = record {
  connection = some c;
  stmt_login = some login;
  stmt_room = some room;
  stmt_chat = some chat;
}

-- The row of a request, whole, and the statement that inserts such rows.
abbrev pub row_of : MySqlRequest → List Bind
row_of (insert_login_event user t) = bind_string user ∷ bind_longlong t ∷ []
row_of (insert_room_event user room event t) =
    bind_string user ∷ bind_int room ∷ bind_uint (event_number event) ∷ bind_longlong t ∷ []
row_of (insert_chat_message user room message t) =
    bind_string user ∷ bind_int room ∷ bind_string message ∷ bind_longlong t ∷ []

abbrev pub statement_for : MySqlRequest → ℕ → ℕ → ℕ → ℕ
statement_for (insert_login_event user t) login room chat = login
statement_for (insert_room_event user number event t) login room chat = room
statement_for (insert_chat_message user number message t) login room chat = chat

-- The texts are no longer than the arrays that they stand in.
abbrev pub IsFitting : MySqlRequest → Type 0
IsFitting (insert_login_event user t) = length user ≤ 33
IsFitting (insert_room_event user room event t) = length user ≤ 33
IsFitting (insert_chat_message user room message t) = (length user ≤ 33) × (length message ≤ 257)

abbrev pub AllFitting : List MySqlTask → Type 0
AllFitting [] = Unit {0}
AllFitting (t ∷ ts) = IsFitting t.request × AllFitting ts

-- A thread whose connection stands.
abbrev pub connected : MySqlManager → ℕ → ℕ → ℕ → ℕ → List Call → Worker
connected m c login room chat calls = record {
  manager = m;
  conn = open_connection c login room chat;
  calls = calls;
}

-- The calls that insert one row.
abbrev pub insertion : ℕ → List Bind → List Call
insertion s row = mysql_stmt_bind_param s row ∷ mysql_stmt_execute s ∷ mysql_stmt_reset s ∷ []

-- The calls for a queue of tasks, on a connection that stays alive.
abbrev pub insertions : ℕ → ℕ → ℕ → ℕ → List MySqlTask → List Call
insertions c login room chat [] = []
insertions c login room chat (t ∷ ts) =
    mysql_ping c
    ∷ (insertion (statement_for t.request login room chat) (row_of t.request)
        ++ insertions c login room chat ts)

-- Rounds of the thread.
abbrev pub turns : MySqlClient → ℕ → Worker → Option Worker
turns client zero k = some k
turns client (suc n) k = thread_turn client k >>= λ (more, k'). turns client n k'

module _ (client : MySqlClient) (good : Succeeds client) where
  insert_row_lem :
      (s : ℕ) (row : List Bind) (k : Worker)
      → insert_row client (some s) row k ≡ some (record k { calls = k.calls ++ insertion s row })
  unfolding insert_row
  insert_row_lem s row k = ground (
    arith,
    good.stmt_bind_param k.calls,
    append_assoc k.calls (mysql_stmt_bind_param s row ∷ []) (mysql_stmt_execute s ∷ []),
    append_assoc k.calls (mysql_stmt_bind_param s row ∷ mysql_stmt_execute s ∷ [])
        (mysql_stmt_reset s ∷ []),
  )

  module _ (m : MySqlManager) (c login room chat : ℕ) where
    pub handle_request_lem :
        (request : MySqlRequest) (calls : List Call)
        → IsFitting request
        → handle_request client request (connected m c login room chat calls)
          ≡ some (
              connected m c login room chat
                (calls ++ insertion (statement_for request login room chat) (row_of request)))
    unfolding handle_request handle_insert_login handle_insert_room handle_insert_chat
    handle_request_lem (insert_login_event user t) calls fits =
        ap
          (λ u.
            insert_row client (some login) (bind_string u ∷ bind_longlong t ∷ [])
              (connected m c login room chat calls))
          (take_all user 33 fits)
        ∙ insert_row_lem login (bind_string user ∷ bind_longlong t ∷ [])
            (connected m c login room chat calls)
    handle_request_lem (insert_room_event user number event t) calls fits =
        ap
          (λ u.
            insert_row client (some room)
              (bind_string u
                ∷ bind_int number
                ∷ bind_uint (event_number event)
                ∷ bind_longlong t
                ∷ [])
              (connected m c login room chat calls))
          (take_all user 33 fits)
        ∙ insert_row_lem room
            (bind_string user
              ∷ bind_int number
              ∷ bind_uint (event_number event)
              ∷ bind_longlong t
              ∷ [])
            (connected m c login room chat calls)
    handle_request_lem (insert_chat_message user number message t) calls (fits, short) =
        ap₂
          (λ u v.
            insert_row client (some chat)
              (bind_string u ∷ bind_int number ∷ bind_string v ∷ bind_longlong t ∷ [])
              (connected m c login room chat calls))
          (take_all user 33 fits) (take_all message 257 short)
        ∙ insert_row_lem chat
            (bind_string user ∷ bind_int number ∷ bind_string message ∷ bind_longlong t ∷ [])
            (connected m c login room chat calls)

    process_task_lem :
        (task : MySqlTask) (calls : List Call)
        → IsFitting task.request
        → client.ping calls ≡ true
        → process_task client (some task) (connected m c login room chat calls)
          ≡ some (
              connected m c login room chat (
                calls
                ++ mysql_ping c
                  ∷ insertion (statement_for task.request login room chat) (row_of task.request)))
    unfolding process_task ensure_connection
    process_task_lem task calls fits alive = ground (
      arith,
      alive,
      handle_request_lem task.request (calls ++ mysql_ping c ∷ []) fits,
      append_assoc calls (mysql_ping c ∷ [])
          (insertion (statement_for task.request login room chat) (row_of task.request)),
    )

  -- While the connection stays alive and every call succeeds, the thread inserts, for each of the
  -- tasks in the queue, whose texts fit their arrays, in their order and once, a row with the
  -- values of its request, by the statement of its kind, and makes no other call than a ping before
  -- each; the queue is then empty.
  pub turns_insert :
      (m : MySqlManager) (c login room chat : ℕ) (tasks : List MySqlTask) (calls : List Call)
      → ((cs : List Call) → client.ping cs ≡ true)
      → AllFitting tasks
      → turns client
          (length tasks)
          (connected (record m { request_task = tasks }) c login room chat calls)
        ≡ some (
            connected
              (record m { request_task = [] })
              c
              login
              room
              chat
              (calls ++ insertions c login room chat tasks))
  unfolding thread_turn
  turns_insert m c login room chat [] calls alive fit =
      ap (λ l. some (connected (record m { request_task = [] }) c login room chat l))
        (sym (append-nil calls))
  turns_insert m c login room chat (t ∷ tasks) calls alive (fits, fit) =
      let one =
        mysql_ping c ∷ insertion (statement_for t.request login room chat) (row_of t.request) in
      ground (
        arith,
        process_task_lem (record m { request_task = tasks }) c login room chat t calls fits
            (alive calls),
        turns_insert m c login room chat tasks (calls ++ one) alive fit,
        append_assoc calls one (insertions c login room chat tasks),
      )
