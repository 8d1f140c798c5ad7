-- ===== src/Examples/Rows.antt =====
-- Applications of the theorems on the threads of IOCPChatServer/MysqlManager.h.
use iocp.Common.{ℕ, ◌≡◌, refl, true, false, none, some, [], ◌∷◌, ◌++◌, arith}
use iocp.Common.Int.{pos}
use iocp.MySqlTask.{MySqlTask, insert_login_event, insert_room_event, entered}
use iocp.MySqlManager.Client.{MySqlClient, mysql_ping, mysql_close, mysql_stmt_close}
use iocp.MySqlManager.{Worker, new_manager, process_task, start_thread}
use iocp.MySqlManager.Inserting.{
  Succeeds, turns, connected, insertion, insertions, row_of, turns_insert,
}
use iocp.MySqlManager.Connecting.{opening, preparation, process_task_reconnects}
use iocp.MySqlManager.Failures.{start_thread_unprepared}
use iocp.MySqlManager.{with_host}
use iocp.Examples.Data.{kim}

abbrev all_rows : MySqlClient
all_rows = record {
  init = λ cs. some 1;
  real_connect = λ cs. true;
  ping = λ cs. true;
  query = λ cs. true;
  stmt_init = λ cs. some 2;
  stmt_prepare = λ cs. true;
  stmt_bind_param = λ cs. true;
  stmt_execute = λ cs. true;
}

all_rows-Succeeds : Succeeds all_rows
all_rows-Succeeds = record {
  init = λ cs. (1, refl);
  real_connect = λ cs. refl;
  query = λ cs. refl;
  stmt_init = λ cs. (2, refl);
  stmt_prepare = λ cs. refl;
  stmt_bind_param = λ cs. refl;
  stmt_execute = λ cs. refl;
}

abbrev login_task : MySqlTask
login_task = record { user_index = 0; request = insert_login_event kim 7 }

abbrev entry_task : MySqlTask
entry_task = record { user_index = 0; request = insert_room_event kim (pos 0) entered 8 }

turns_insert_example :
    turns all_rows 2
      (connected (record new_manager { request_task = login_task ∷ entry_task ∷ [] }) 1 2 3 4 [])
    ≡ some (
        connected
          (record new_manager { request_task = [] })
          1
          2
          3
          4
          (insertions 1 2 3 4 (login_task ∷ entry_task ∷ [])))
turns_insert_example =
    turns_insert all_rows all_rows-Succeeds new_manager 1 2 3 4 (login_task ∷ entry_task ∷ []) []
      (λ cs. refl) (omega arith)

-- A connection that is found dead once.
abbrev dead_once : MySqlClient
dead_once = record all_rows { ping = λ cs. false }

dead_once-Succeeds : Succeeds dead_once
dead_once-Succeeds = record {
  init = λ cs. (1, refl);
  real_connect = λ cs. refl;
  query = λ cs. refl;
  stmt_init = λ cs. (2, refl);
  stmt_prepare = λ cs. refl;
  stmt_bind_param = λ cs. refl;
  stmt_execute = λ cs. refl;
}

process_task_reconnects_example :
    (c' : ℕ) × (login' : ℕ) × (room' : ℕ) × (chat' : ℕ) × (process_task dead_once
        (some login_task)
        (connected new_manager 1 2 3 4 [])
      ≡ some (
          connected (with_host new_manager) c' login' room' chat' (
            ((mysql_ping 1
                  ∷ mysql_stmt_close 2
                  ∷ mysql_stmt_close 3
                  ∷ mysql_stmt_close 4
                  ∷ mysql_close 1
                  ∷ []
                ++ opening (with_host new_manager) c')
              ++ preparation c' login' room' chat')
            ++ insertion login' (row_of login_task.request))))
process_task_reconnects_example =
    process_task_reconnects dead_once dead_once-Succeeds new_manager 1 2 3 4 login_task [] refl
      (omega arith)

-- A database that refuses to make a table.
abbrev no_table : MySqlClient
no_table = record all_rows { query = λ cs. false }

start_thread_unprepared_example :
    (k : Worker) × (start_thread no_table new_manager ≡ some k)
    × ((task : MySqlTask) → process_task no_table (some task) k ≡ none)
start_thread_unprepared_example =
    start_thread_unprepared no_table new_manager 1 refl refl (λ cs. refl)
