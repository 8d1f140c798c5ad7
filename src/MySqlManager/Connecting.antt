-- ===== src/MySqlManager/Connecting.antt =====
-- How a thread of IOCPChatServer/MysqlManager.h opens its connection, and opens it again.
use iocp.Common.{
  ℕ, ◌≡◌, sym, ◌∙◌, true, false, none, some, List, [], ◌∷◌, ◌++◌, arith, append_assoc, append-nil,
}
use iocp.MySqlTask.{MySqlTask}
use iocp.MySqlManager.Client.{
  create_login, create_room, create_chat, insert_login, insert_room, insert_chat, Call, mysql_init,
  mysql_options, mysql_real_connect, mysql_close, mysql_ping, mysql_query, mysql_stmt_init,
  mysql_stmt_prepare, mysql_stmt_close, MySqlClient,
}
use iocp.MySqlManager.{
  MySqlManager, Worker, new_connection, and_then, close_connection, close_statement,
  cleanup_statements, with_host, init_and_connect, run_query, init_statements, prepare,
  prepare_statements, reconnect, ensure_connection, process_task, start_thread,
}
use iocp.MySqlManager.Inserting.{
  Succeeds, connected, insertion, row_of, statement_for, IsFitting, handle_request_lem,
}

-- One call after another.
abbrev pub snoc_all : List Call → List Call → List Call
snoc_all cs [] = cs
snoc_all cs (x ∷ xs) = snoc_all (cs ++ x ∷ []) xs

pub snoc_all_lem : (cs xs : List Call) → snoc_all cs xs ≡ cs ++ xs
snoc_all_lem cs [] = sym (append-nil cs)
snoc_all_lem cs (x ∷ xs) = snoc_all_lem (cs ++ x ∷ []) xs ∙ append_assoc cs (x ∷ []) xs

-- A thread with a connection, before its statements.
abbrev pub bare : MySqlManager → ℕ → List Call → Worker
bare m c calls = record {
  manager = m;
  conn = record { connection = some c; stmt_login = none; stmt_room = none; stmt_chat = none };
  calls = calls;
}

abbrev pub opening : MySqlManager → ℕ → List Call
opening m c =
    mysql_init
    ∷ mysql_options c
    ∷ mysql_options c
    ∷ mysql_real_connect c m.host m.user m.pass m.db m.port
    ∷ []

abbrev pub preparation : ℕ → ℕ → ℕ → ℕ → List Call
preparation c login room chat =
    mysql_query c create_login
    ∷ mysql_query c create_room
    ∷ mysql_query c create_chat
    ∷ mysql_stmt_init c
    ∷ mysql_stmt_init c
    ∷ mysql_stmt_init c
    ∷ mysql_stmt_prepare login insert_login
    ∷ mysql_stmt_prepare room insert_room
    ∷ mysql_stmt_prepare chat insert_chat
    ∷ []

module _ (client : MySqlClient) (good : Succeeds client) where
  prepare_statements_lem :
      (m : MySqlManager) (c : ℕ) (calls : List Call)
      → (login : ℕ) × (room : ℕ) × (chat : ℕ) × (prepare_statements client (bare m c calls)
          ≡ some (true, connected m c login room chat (calls ++ preparation c login room chat)))
  unfolding prepare_statements and_then run_query init_statements prepare
  prepare_statements_lem m c calls =
      let l3 =
        snoc_all calls (
          mysql_query c create_login
          ∷ mysql_query c create_room
          ∷ mysql_query c create_chat
          ∷ []) in
      let l4 = l3 ++ mysql_stmt_init c ∷ [] in
      let l5 = l4 ++ mysql_stmt_init c ∷ [] in
      let l6 = l5 ++ mysql_stmt_init c ∷ [] in
      let (login, e) = good.stmt_init l3 in
      let (room, e') = good.stmt_init l4 in
      let (chat, e'') = good.stmt_init l5 in
      (
        login,
        room,
        chat,
        ground (
          arith,
          good.query calls,
          good.query (calls ++ mysql_query c create_login ∷ []),
          good.query (snoc_all calls (mysql_query c create_login ∷ mysql_query c create_room ∷ [])),
          e,
          e',
          e'',
          good.stmt_prepare l6,
          good.stmt_prepare (l6 ++ mysql_stmt_prepare login insert_login ∷ []),
          good.stmt_prepare (
              snoc_all l6
                (mysql_stmt_prepare login insert_login ∷ mysql_stmt_prepare room insert_room ∷ [])),
          snoc_all_lem calls (preparation c login room chat),
        ),
      )

  init_and_connect_lem :
      (k : Worker)
      → (c : ℕ) × (init_and_connect client k ≡ (
        true,
        record k {
          manager = with_host k.manager;
          conn = record k.conn { connection = some c };
          calls = k.calls ++ opening (with_host k.manager) c;
        },
      ))
  unfolding init_and_connect
  init_and_connect_lem k =
      let (c, e) = good.init k.calls in
      let m = with_host k.manager in
      (
        c,
        ground (
          arith,
          e,
          good.real_connect
              (snoc_all k.calls (mysql_init ∷ mysql_options c ∷ mysql_options c ∷ [])),
          snoc_all_lem k.calls (opening m c),
        ),
      )

  -- When every call succeeds, a thread starts with a connection, to the host that is set or else the
  -- default one, the tables made and its three statements prepared.
  pub start_thread_lem :
      (m : MySqlManager)
      → (c : ℕ) × (login : ℕ) × (room : ℕ) × (chat : ℕ) × (start_thread client m
          ≡ some (
              connected
                (with_host m)
                c
                login
                room
                chat
                (opening (with_host m) c ++ preparation c login room chat)))
  unfolding start_thread new_connection
  start_thread_lem m =
      let (c, e) =
        init_and_connect_lem (record { manager = m; conn = new_connection; calls = [] }) in
      let (login, room, chat, e') =
        prepare_statements_lem (with_host m) c (opening (with_host m) c) in
      (c, login, room, chat, ground (arith, e, e'))

  -- A task whose texts fit their arrays and that comes when the connection is dead is not lost if
  -- every call for the next one succeeds: the old statements and the old connection are closed, a
  -- new connection is opened and prepared, and the row of the task is inserted on it.
  pub process_task_reconnects :
      (m : MySqlManager) (c login room chat : ℕ) (task : MySqlTask) (calls : List Call)
      → client.ping calls ≡ false
      → IsFitting task.request
      → (c' : ℕ) × (login' : ℕ) × (room' : ℕ) × (chat' : ℕ) × (process_task client
            (some task)
            (connected m c login room chat calls)
          ≡ some (
              connected (with_host m) c' login' room' chat' (
                ((snoc_all calls (
                      mysql_ping c
                      ∷ mysql_stmt_close login
                      ∷ mysql_stmt_close room
                      ∷ mysql_stmt_close chat
                      ∷ mysql_close c
                      ∷ [])
                    ++ opening (with_host m) c')
                  ++ preparation c' login' room' chat')
                ++ insertion
                    (statement_for task.request login' room' chat')
                    (row_of task.request))))
  unfolding process_task ensure_connection reconnect cleanup_statements close_statement
      close_connection and_then
  process_task_reconnects m c login room chat task calls dead fits =
      let closed = snoc_all calls (
        mysql_ping c
        ∷ mysql_stmt_close login
        ∷ mysql_stmt_close room
        ∷ mysql_stmt_close chat
        ∷ mysql_close c
        ∷ []) in
      let (c', e) = init_and_connect_lem (record {
        manager = m;
        conn = record { connection = none; stmt_login = none; stmt_room = none; stmt_chat = none };
        calls = closed;
      }) in
      let (login', room', chat', e') =
        prepare_statements_lem (with_host m) c' (closed ++ opening (with_host m) c') in
      (
        c',
        login',
        room',
        chat',
        ground (
          arith,
          dead,
          e,
          e',
          handle_request_lem client good (with_host m) c' login' room' chat' task.request
              ((closed ++ opening (with_host m) c') ++ preparation c' login' room' chat') fits,
        ),
      )
