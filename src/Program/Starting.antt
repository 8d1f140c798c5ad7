-- ===== src/Program/Starting.antt =====
-- The state in which `main` of IOCPChatServer/main.cpp leaves the program before its loop.
use iocp.Common.{ℕ, ◌≡◌, true, List, []}
use iocp.RedisManager
use iocp.MySqlManager
use iocp.PacketManager
use iocp.Endpoint
use iocp.Endpoint.{Endpoint}
use iocp.Program.{Program, Managers, max_client}

-- All threads are started, as many as the code says.
pub record IsRunning (p : Program) : Type 0 where
  workers : p.endpoint.io_worker_threads ≡ 4
  timeouts : p.endpoint.is_timeout_run ≡ true
  worker_flag : p.io.is_worker_run ≡ true
  packets : p.managers.packet_manager.is_run_process_thread ≡ true
  redis : p.managers.packet_manager.redis_manager.is_task_run ≡ true
  redis_thread : p.managers.redis_threads ≡ 1
  my_sql : p.managers.my_sql.is_task_run ≡ true
  my_sql_thread : p.managers.my_sql_threads ≡ 1

-- The managers before `Run`.
abbrev new_managers : (ℕ → List ℕ × List ℕ) → Managers
new_managers memory = record {
  packet_manager = PacketManager.init memory max_client;
  redis_ip = [];
  redis_port = 0;
  redis_threads = 0;
  my_sql = MySqlManager.new_manager;
  my_sql_threads = 0;
}
