-- ===== src/PacketManager/Reach.antt =====
-- What the packet thread of IOCPChatServer/PacketManager.cpp and the threads that feed it do, as
-- steps of one state, and the states that a run reaches.
use iocp.Common.{
  ℕ, ◌^◌, ◌<◌, ◌≡◌, ◌≢◌, false, Option, some, List, [], arith, length, get_elem?, drop, subst,
  get_elem?-lt,
}
use iocp.Packet.{PacketInfo, packet_header_length}
use iocp.Packet.Strings.{c_str, starts_with}
use iocp.User
use iocp.User.{User, room, max_packet_data_buffer_size}
use iocp.RedisManager.{RedisManager}
use iocp.PacketManager.{
  PacketManager, init, receive_packet_data, push_system_packet, process_user_connect,
  process_user_disconnect, get_user, put_user,
}
use iocp.UserManager
use iocp.PacketManager.Login.{process_login, process_login_db_result, load_test_prefix}
use iocp.PacketManager.Rooms.{process_enter_room, process_leave_room, process_room_chat_message}
use iocp.PacketManager.Loop.{swap_buffers}
use iocp.PacketManager.Consistent.{IsConsistent, SamePlaces-IsConsistent}
use iocp.PacketManager.Start.{init-IsConsistent}
use iocp.MySqlTask.{MySqlTask}
use iocp.PacketManager.Cutting.{cut-IsConsistent}
use iocp.PacketManager.Receiving.{receive_packet_data_lem}
use iocp.PacketManager.Answering.{process_login-SamePlaces, process_login_db_result-IsConsistent}
use iocp.PacketManager.Entering.Outcomes.{process_enter_room-IsConsistent}
use iocp.PacketManager.Leaving.Outcomes.{process_leave_room_departs}
use iocp.PacketManager.Chatting.{process_room_chat_message-SamePlaces}
use iocp.PacketManager.Closing.{process_user_disconnect-IsConsistent}

-- One step, for the user `u` at `i`: of the threads that feed the packet thread, of its loop, of a handler,
-- of Redis, or of the threads that take MySQL's tasks off their queue. The premises leave out what the code does not test and should: a
-- user who asks to leave is in a room, a login is answered for a user who is in none, and a name is
-- not one of a load test.
pub data Step (i : ℕ) (u : User) (m m' : PacketManager) : Type 0 where
  receives :
      (bytes : List ℕ)
      → length bytes < 2 ^ 32
      → receive_packet_data m i (length bytes) (some bytes) ≡ some m'
      → Step i u m m'
  reports : (info : PacketInfo) → push_system_packet m info ≡ m' → Step i u m m'
  takes_batch : swap_buffers m ≡ m' → Step i u m m'
  clears_reports : record m { system_read_buffer = [] } ≡ m' → Step i u m m'
  clears_tasks : record m { read_buffer = [] } ≡ m' → Step i u m m'
  cuts : put_user m i (User.get_packet u).1 ≡ m' → Step i u m m'
  connects : process_user_connect m i ≡ some m' → Step i u m m'
  closes : process_user_disconnect m i ≡ some m' → Step i u m m'
  asks :
      (n : ℕ) (p user_id : List ℕ)
      → c_str (drop packet_header_length p) ≡ some user_id
      → starts_with user_id load_test_prefix ≡ false
      → process_login m i n p ≡ some m'
      → Step i u m m'
  redis_runs : (r : RedisManager) → record m { redis_manager = r } ≡ m' → Step i u m m'
  rows_run : (tasks : List MySqlTask) → record m { my_sql_tasks = tasks } ≡ m' → Step i u m m'
  is_answered :
      (now : ℕ) (p : List ℕ)
      → u.cur_domain_state ≢ room
      → process_login_db_result m i now p ≡ some m'
      → Step i u m m'
  enters : (now : ℕ) (p : List ℕ) → process_enter_room m i now p ≡ some m' → Step i u m m'
  leaves :
      (now : ℕ) → u.cur_domain_state ≡ room → process_leave_room m i now ≡ some m' → Step i u m m'
  says : (now : ℕ) (p : List ℕ) → process_room_chat_message m i now p ≡ some m' → Step i u m m'

-- The states reached from the one that `Init` makes.
pub data Reached (memory : ℕ → List ℕ × List ℕ) (max_client : ℕ) : PacketManager → Type 0 where
  start : Reached memory max_client (init memory max_client)
  next :
      (i : ℕ) (u : User) (m m' : PacketManager)
      → Reached memory max_client m
      → get_elem? m.user_manager.user_obj_pool i ≡ some u
      → Step i u m m'
      → Reached memory max_client m'

same_end :
    {limit : ℕ} {o : Option PacketManager} {m' : PacketManager} (w : PacketManager)
    → o ≡ some w
    → o ≡ some m'
    → IsConsistent limit w
    → IsConsistent limit m'
same_end {limit} {m' = m'} w e h v =
    let q : w ≡ m' = ground (arith, e, h) in subst (IsConsistent limit) q v

pub Step-IsConsistent :
    {limit : ℕ} {i : ℕ} {u : User} {m m' : PacketManager}
    → get_elem? m.user_manager.user_obj_pool i ≡ some u
    → Step i u m m'
    → IsConsistent limit m
    → IsConsistent limit m'
unfolding push_system_packet swap_buffers process_user_connect get_user
    UserManager.get_user_by_conn_idx
Step-IsConsistent {i = i} {u} {m} here (receives bytes small h) v =
    let (w, u', e, there, bytes', task, v') = receive_packet_data_lem m i u bytes v here small in
    same_end w e h v'
Step-IsConsistent {m = m} {m'} here (reports info h) v =
    SamePlaces-IsConsistent m m' (ground (arith, h)) v
Step-IsConsistent {m = m} {m'} here (takes_batch h) v =
    SamePlaces-IsConsistent m m' (ground (arith, h)) v
Step-IsConsistent {m = m} {m'} here (clears_reports h) v =
    SamePlaces-IsConsistent m m' (ground (arith, h)) v
Step-IsConsistent {m = m} {m'} here (clears_tasks h) v =
    SamePlaces-IsConsistent m m' (ground (arith, h)) v
Step-IsConsistent {limit} {i} {u} {m} here (cuts h) v =
    subst (IsConsistent limit) h (cut-IsConsistent m i u here v)
Step-IsConsistent {m = m} {m'} here (rows_run tasks h) v =
    SamePlaces-IsConsistent m m' (ground (arith, h)) v
Step-IsConsistent {m = m} {m'} here (connects h) v =
    SamePlaces-IsConsistent m m' (ground (arith, h, here)) v
Step-IsConsistent {i = i} {u} {m} here (closes h) v =
    let (w, e, v', how) = process_user_disconnect-IsConsistent m i u v here in same_end w e h v'
Step-IsConsistent {i = i} {m = m} {m'} here (asks n p user_id read ordinary h) v =
    SamePlaces-IsConsistent m m' (process_login-SamePlaces m i n p user_id read ordinary h) v
Step-IsConsistent {m = m} {m'} here (redis_runs r h) v =
    SamePlaces-IsConsistent m m' (ground (arith, h)) v
Step-IsConsistent {i = i} {u} {m} here (is_answered now p out h) v =
    process_login_db_result-IsConsistent m i now p u v here out h
Step-IsConsistent {i = i} {m = m} here (enters now p h) v =
    let (w, e, v') =
      process_enter_room-IsConsistent m i now p v
        (get_elem?-lt m.user_manager.user_obj_pool i here) in
    same_end w e h v'
Step-IsConsistent {i = i} {u} {m} here (leaves now state h) v =
    let (k, r, number, there, e, v') = process_leave_room_departs m i now u v here state in
    same_end _ e h v'
Step-IsConsistent {i = i} {m = m} {m'} here (says now p h) v =
    SamePlaces-IsConsistent m m' (process_room_chat_message-SamePlaces m i now p h) v

-- In every state that is reached from the one that `Init` makes for fewer than 2 ^ 31 clients, over
-- arrays of 8096 bytes with any contents, by any number of the steps of any clients of the pool, in
-- any order, the users and the rooms agree, no room has more than 8 users, each room's counter is
-- the length of its list, and every user's ring is valid. The steps are the arrival of bytes, the
-- reports, the exchange and the clearing of the queues, `GetPacket`, each handler, and the work of
-- Redis and of MySQL on their queues. They leave out a request to leave by a user in no room, a
-- response to a login for a user in a room, a login under a load test's name, and 2 ^ 32 bytes or
-- more that arrive at once.
pub Reached-IsConsistent :
    {memory : ℕ → List ℕ × List ℕ} {max_client : ℕ} (m : PacketManager)
    → max_client < 2 ^ 31
    → ((j : ℕ) → length (memory j).0 ≡ max_packet_data_buffer_size)
    → Reached memory max_client m
    → IsConsistent 8 m
Reached-IsConsistent {memory} {max_client} m few sized start =
    init-IsConsistent memory max_client sized
Reached-IsConsistent _ few sized (next i u before after reached here step) =
    Step-IsConsistent here step (Reached-IsConsistent before few sized reached)
