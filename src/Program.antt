-- ===== src/Program.antt =====
-- How the parts are started and stopped: `Run` and `End` of IOCPChatServer/PacketManager.cpp and
-- IOCPChatServer/ChatServer.h, with those of the Redis and MySQL managers, and
-- IOCPChatServer/main.cpp. Starting a thread is counted; waking and joining threads leave no trace,
-- and what other threads do during a call is not part of it. `none` is a fault.
pub mod Starting
pub mod Stopping
use iocp.Common.{
  ℕ, zero, suc, ◌+◌, Bool, true, false, Option, none, some, List, [], ◌∷◌, ◌++◌, ◌>>=◌,
  if◌then◌else◌,
}
use iocp.Packet.Strings.{codes, str_eq}
use iocp.Net.{Windows, SendOverlapped}
use iocp.RedisManager
use iocp.MySqlManager
use iocp.MySqlManager.{MySqlManager, configure}
use iocp.PacketManager
use iocp.PacketManager.{PacketManager}
use iocp.Iocp
use iocp.Iocp.{IoCompletionPort}
use iocp.ChatServer.{ChatServer}
use iocp.Endpoint
use iocp.Endpoint.{Setup, Endpoint, wsa_cleanup, record_call, start_threads, destroy_thread}

-- The packet manager, with what belongs to its two clients besides their queues: the address of
-- Redis, the settings of MySQL, and how many threads there are of each.
pub record Managers : Type 0 where
  pub packet_manager : PacketManager
  pub redis_ip : List ℕ
  pub redis_port : ℕ
  pub redis_threads : ℕ
  pub my_sql : MySqlManager
  pub my_sql_threads : ℕ

unfoldable pub run_redis : Managers → List ℕ → ℕ → ℕ → Managers
run_redis ms ip_ port_ thread_count_ = record ms {
  packet_manager = record ms.packet_manager {
    redis_manager = RedisManager.run ms.packet_manager.redis_manager;
  };
  redis_ip = ip_;
  redis_port = port_;
  redis_threads = ms.redis_threads + thread_count_;
}

unfoldable pub run_my_sql : Managers → ℕ → Managers
run_my_sql ms thread_count_ = record ms {
  my_sql = record ms.my_sql { is_task_run = true };
  my_sql_threads = ms.my_sql_threads + thread_count_;
}

-- The two branches of `#ifdef USE_AMAZON_AWS_DB`.
unfoldable pub configured : Bool → MySqlManager → MySqlManager
configured true m =
    configure m (some (codes "chatserver-database.cts4w8y0e8qh.ap-northeast-2.rds.amazonaws.com"))
      (some (codes "admin")) (some (codes "12345678")) (some (codes "chatserver-database")) 3306
configured false m =
    configure m (some (codes "127.0.0.1")) (some (codes "root")) (some (codes "1234"))
      (some (codes "chatserver_local")) 3306

-- Both managers' `Run` always return true.
unfoldable pub run_managers : Bool → Managers → Managers
run_managers use_amazon_aws_db ms =
    let redis = run_redis ms (codes "127.0.0.1") 6379 1 in
    let both = run_my_sql (record redis { my_sql = configured use_amazon_aws_db redis.my_sql }) 1 in
    record both { packet_manager = record both.packet_manager { is_run_process_thread = true } }

unfoldable pub end_redis : Managers → Managers
end_redis ms = record ms {
  packet_manager = record ms.packet_manager {
    redis_manager = RedisManager.stop ms.packet_manager.redis_manager;
  };
  redis_threads = 0;
}

unfoldable pub end_my_sql : Managers → Managers
end_my_sql ms = record ms { my_sql = record ms.my_sql { is_task_run = false }; my_sql_threads = 0 }

-- The packet thread is stopped first.
unfoldable pub end_managers : Managers → Managers
end_managers ms = end_my_sql (
    end_redis
      (record ms { packet_manager = record ms.packet_manager { is_run_process_thread = false } }))

pub record Program : Type 0 where
  pub io : IoCompletionPort
  pub endpoint : Endpoint
  pub managers : Managers

-- The network layer and the packet thread alone.
abbrev pub chat_server : Program → ChatServer
chat_server p = record { io = p.io; packet_manager = p.managers.packet_manager }

-- `MAX_CLIENT`, `SERVER_PORT`, `MAX_IO_WORKER_THREAD`
abbrev pub max_client : ℕ
max_client = 2000

abbrev pub server_port : ℕ
server_port = 11021

abbrev pub max_io_worker_thread : ℕ
max_io_worker_thread = 8

module _ (w : Windows) where
  -- `Run` of the chat server, on an endpoint that is set up; what its parts return is not looked at.
  unfoldable pub run_server :
      (ℕ → SendOverlapped) → (ℕ → List ℕ × List ℕ) → Bool → ℕ → Endpoint → Option Program
  run_server fresh memory use_amazon_aws_db clients e =
      let ms = run_managers use_amazon_aws_db (record {
        packet_manager = PacketManager.init memory clients;
        redis_ip = [];
        redis_port = 0;
        redis_threads = 0;
        my_sql = MySqlManager.new_manager;
        my_sql_threads = 0;
      }) in
      Iocp.start_server w fresh clients >>= λ io.
      some (record { io = io; endpoint = start_threads e; managers = ms })

  unfoldable pub end_server : Program → Option Program
  end_server p = destroy_thread w p.io p.endpoint >>= λ (io, e).
      some (record { io = io; endpoint = e; managers = end_managers p.managers })

  -- `main` before its loop: the results of `Init` and `BindandListen` are not looked at.
  unfoldable pub start_main :
      Setup → (ℕ → SendOverlapped) → (ℕ → List ℕ × List ℕ) → Bool → Option Program
  start_main s fresh memory use_amazon_aws_db =
      let opened = (Endpoint.init s max_io_worker_thread Endpoint.new_endpoint).1 in
      run_server fresh memory use_amazon_aws_db max_client
        (Endpoint.bind_and_listen s server_port opened).1

  -- What follows the loop, with the destructor of the server.
  unfoldable pub end_main : Program → Option Program
  end_main p =
      end_server p >>= λ p'. some (record p' { endpoint = record_call p'.endpoint wsa_cleanup })

-- The loop over the lines of the console: whether one of these says to stop. At the end of its input
-- the code reads empty lines for ever.
unfoldable pub reads_quit : List (List ℕ) → Bool
reads_quit [] = false
reads_quit (input ∷ rest) = if str_eq input (codes "quit") then true else reads_quit rest

pub data ConsoleEvent : Type 0 where
  ctrl_c ctrl_close ctrl_shutdown other_event : ConsoleEvent

-- `ConsoleCtrlHandler`: the first two cases fall through to the third. `none` in place of the program
-- is a null `g_pServer`.
unfoldable pub console_ctrl_handler :
    Windows → ConsoleEvent → Option Program → Option (Bool × Option Program)
console_ctrl_handler w other_event g_p_server = some (false, g_p_server)
console_ctrl_handler w event none = some (true, none)
console_ctrl_handler w event (some p) = end_server w p >>= λ p'. some (true, some p')
