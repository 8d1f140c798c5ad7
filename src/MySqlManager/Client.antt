-- ===== src/MySqlManager/Client.antt =====
-- The calls of the MySQL client that IOCPChatServer/MysqlManager.h makes, and their results.
use iocp.Common.{ℕ, Bool, Option, List}
use iocp.Common.Int.{ℤ}

-- The SQL texts, by what they are for.
pub data Sql : Type 0 where
  create_login create_room create_chat insert_login insert_room insert_chat : Sql

-- What a `MYSQL_BIND` points to, by its type: `STRING`, `LONG` signed or not, `LONGLONG`.
pub data Bind : Type 0 where
  bind_string : (text : List ℕ) → Bind
  bind_int : (value : ℤ) → Bind
  bind_uint : (value : ℕ) → Bind
  bind_longlong : (value : ℕ) → Bind

-- The calls of the client that are made.
pub data Call : Type 0 where
  mysql_init : Call
  mysql_options : (connection : ℕ) → Call
  mysql_real_connect : (connection : ℕ) (host user pass db : List ℕ) (port : ℕ) → Call
  mysql_close : (connection : ℕ) → Call
  mysql_ping : (connection : ℕ) → Call
  mysql_query : (connection : ℕ) (query : Sql) → Call
  mysql_stmt_init : (connection : ℕ) → Call
  mysql_stmt_prepare : (statement : ℕ) (query : Sql) → Call
  mysql_stmt_bind_param : (statement : ℕ) (binds : List Bind) → Call
  mysql_stmt_execute : (statement : ℕ) → Call
  mysql_stmt_reset : (statement : ℕ) → Call
  mysql_stmt_close : (statement : ℕ) → Call
  mysql_thread_end : Call

-- The results, of the calls that came before: what `mysql_init` and `mysql_stmt_init` give, and whether
-- the others succeed.
pub record MySqlClient : Type 0 where
  pub init : List Call → Option ℕ
  pub real_connect : List Call → Bool
  pub ping : List Call → Bool
  pub query : List Call → Bool
  pub stmt_init : List Call → Option ℕ
  pub stmt_prepare : List Call → Bool
  pub stmt_bind_param : List Call → Bool
  pub stmt_execute : List Call → Bool
