-- ===== src/PacketManager/LoggingIn/LoadTest.antt =====
-- The branch of `ProcessLogin` (IOCPChatServer/PacketManager.cpp) for load tests, with a name that is
-- taken.
use iocp.Common.{ℕ, ◌≡◌, true, some, List, arith, get_elem?, drop}
use iocp.Common.Int.{ℤ}
use iocp.Packet.{packet_header_length, login_request_packet_size}
use iocp.Packet.ErrorCode
use iocp.Packet.Strings.{c_str, starts_with}
use iocp.Packet.Wire.{login_response}
use iocp.User
use iocp.User.{User, login}
use iocp.UserManager
use iocp.UserManager.{UserManager}
use iocp.UserManager.Dictionary.{find, contains}
use iocp.PacketManager.{PacketManager, send_packet, get_user, put_user}
use iocp.PacketManager.Login.{process_login, login_load_test, load_test_prefix}

adduser_taken :
    (m : UserManager) (user_id : List ℕ) (i : ℕ) (j : ℤ)
    → find m.user_id_dictionary user_id ≡ some j
    → UserManager.adduser m user_id i ≡ some (ErrorCode.login_user_already, m)
unfolding UserManager.adduser contains
adduser_taken m user_id i j taken = ground (arith, taken)

login_load_test_taken :
    (m : PacketManager) (i : ℕ) (u : User) (user_id : List ℕ) (j : ℤ)
    → get_elem? m.user_manager.user_obj_pool i ≡ some u
    → find m.user_manager.user_id_dictionary user_id ≡ some j
    → login_load_test m i user_id
      ≡ some (send_packet (put_user m i (User.set_login u user_id)) i (login_response ErrorCode.ok))
unfolding login_load_test get_user put_user UserManager.get_user_by_conn_idx UserManager.put_user
login_load_test_taken m i u user_id j here taken = rw (
  here,
  adduser_taken (UserManager.put_user m.user_manager i (User.set_login u user_id)) user_id i j
      taken,
)

-- A login of a load test, under a name that already leads to a user, is answered as a success: the
-- user is logged in under that name, and the dictionary of names stays as it was.
pub process_login_load_test_taken :
    (m : PacketManager) (i : ℕ) (p : List ℕ) (u : User) (user_id : List ℕ) (j : ℤ)
    → get_elem? m.user_manager.user_obj_pool i ≡ some u
    → c_str (drop packet_header_length p) ≡ some user_id
    → starts_with user_id load_test_prefix ≡ true
    → find m.user_manager.user_id_dictionary user_id ≡ some j
    → process_login m i login_request_packet_size p
      ≡ some (send_packet (put_user m i (User.set_login u user_id)) i (login_response ErrorCode.ok))
unfolding process_login
process_login_load_test_taken m i p u user_id j here read test taken =
    rw (read, test, login_load_test_taken m i u user_id j here taken)
