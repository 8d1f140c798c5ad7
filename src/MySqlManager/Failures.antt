-- ===== src/MySqlManager/Failures.antt =====
-- What becomes of a task when a thread of IOCPChatServer/MysqlManager.h cannot open or prepare its
-- connection.
use iocp.Common.{
  ℕ, ◌≡◌, refl, true, false, none, some, List, [], ◌∷◌, ◌++◌, arith, Bool-cases, inl, inr,
}
use iocp.MySqlTask.{
  MySqlTask, MySqlRequest, insert_login_event, insert_room_event, insert_chat_message,
}
use iocp.MySqlManager.Client.{
  create_login, Call, mysql_init, mysql_options, mysql_close, mysql_ping, mysql_query,
  mysql_stmt_close, MySqlClient,
}
use iocp.MySqlManager.{
  MySqlManager, Worker, new_connection, and_then, close_connection, close_statement,
  cleanup_statements, with_host, init_and_connect, run_query, prepare_statements, reconnect,
  ensure_connection, insert_row, handle_insert_login, handle_insert_room, handle_insert_chat,
  handle_request, process_task, start_thread, thread_turn,
}
use iocp.MySqlManager.Inserting.{connected}
use iocp.MySqlManager.Connecting.{snoc_all, snoc_all_lem, bare, opening}

-- When the first query on a new connection fails but the connection answers every ping, the thread
-- goes on all the same, and its first task, whatever it is, gives the client a null statement.
pub start_thread_unprepared :
    (client : MySqlClient) (m : MySqlManager) (c : ℕ)
    → client.init [] ≡ some c
    → client.query (opening (with_host m) c) ≡ false
    → ((cs : List Call) → client.ping cs ≡ true)
    → (k : Worker) × (start_thread client m ≡ some k)
      × ((task : MySqlTask) → process_task client (some task) k ≡ none)
unfolding start_thread new_connection init_and_connect prepare_statements and_then run_query
    process_task ensure_connection handle_request handle_insert_login handle_insert_room
    handle_insert_chat insert_row
start_thread_unprepared client m c opened refused alive =
    let made = opening (with_host m) c in
    (
      bare (with_host m) c (made ++ mysql_query c create_login ∷ []),
      elim (Bool-cases
          (client.real_connect (mysql_init ∷ mysql_options c ∷ mysql_options c ∷ []))) [
            | inl yes_ ↦ ground (arith, opened, refused, yes_)
            | inr no_ ↦ ground (arith, opened, refused, no_)
          ],
      (λ task. by_request task.request (made ++ mysql_query c create_login ∷ [])),
    )
  where
    by_request :
        (request : MySqlRequest) (calls : List Call)
        → process_task client
            (some (record { user_index = 0; request = request }))
            (bare (with_host m) c calls)
          ≡ none
    by_request (insert_login_event user t) calls = ground (arith, alive calls)
    by_request (insert_room_event user number event t) calls = ground (arith, alive calls)
    by_request (insert_chat_message user number message t) calls = ground (arith, alive calls)

with_host_queue : (m : MySqlManager) → (with_host m).request_task ≡ m.request_task
unfolding with_host
with_host_queue m = by_host m.host refl
  where
    by_host : (h : List ℕ) → m.host ≡ h → (with_host m).request_task ≡ m.request_task
    by_host [] e = ground (arith, e)
    by_host (x ∷ xs) e = ground (arith, e)

-- When the connection is dead and the next one is refused, the task at the front is lost: it has left
-- the queue, the calls are those that close the old connection and open the new one, and none of
-- them binds or runs a statement.
pub thread_turn_loses :
    (client : MySqlClient) (m : MySqlManager) (c login room chat c' : ℕ) (task : MySqlTask)
    (rest : List MySqlTask) (calls : List Call)
    → m.request_task ≡ task ∷ rest
    → client.ping calls ≡ false
    → ((cs : List Call) → client.init cs ≡ some c')
    → ((cs : List Call) → client.real_connect cs ≡ false)
    → (k : Worker) × (thread_turn client (connected m c login room chat calls) ≡ some (true, k))
      × (k.manager.request_task ≡ rest)
      × (k.calls
          ≡ calls
            ++ (mysql_ping c
                ∷ mysql_stmt_close login
                ∷ mysql_stmt_close room
                ∷ mysql_stmt_close chat
                ∷ mysql_close c
                ∷ opening (with_host (record m { request_task = rest })) c'))
unfolding thread_turn process_task ensure_connection reconnect cleanup_statements close_statement
    close_connection and_then init_and_connect
thread_turn_loses client m c login room chat c' task rest calls front dead opened refused =
    let m' = with_host (record m { request_task = rest }) in
    let log =
      mysql_ping c
      ∷ mysql_stmt_close login
      ∷ mysql_stmt_close room
      ∷ mysql_stmt_close chat
      ∷ mysql_close c
      ∷ opening m' c' in
    let closed = snoc_all calls (
      mysql_ping c
      ∷ mysql_stmt_close login
      ∷ mysql_stmt_close room
      ∷ mysql_stmt_close chat
      ∷ mysql_close c
      ∷ []) in
    (
      bare m' c' (snoc_all calls log),
      ground (
        arith,
        front,
        dead,
        opened closed,
        refused (snoc_all closed (mysql_init ∷ mysql_options c' ∷ mysql_options c' ∷ [])),
      ),
      with_host_queue (record m { request_task = rest }),
      snoc_all_lem calls log,
    )
