-- ===== src/Examples/Loops.antt =====
-- Applications of the theorems on the loops of the packet thread, and on a load test's login.
use iocp.Common.{
  ℕ, zero, suc, ◌≡◌, ◌≢◌, refl, inl, subst, get_elem?, true, some, List, [], ◌∷◌, ◌++◌, arith,
  length, take, drop, replicate,
}
use iocp.Common.Int.{pos}
use iocp.Packet.{PacketInfo, uint16_at, packet_header_length}
use iocp.Packet.ErrorCode
use iocp.Packet.Strings.{c_str, starts_with, str_eq}
use iocp.Packet.Wire.{login_response}
use iocp.User
use iocp.User.{User}
use iocp.User.Framing.{pending, IsReceiving}
use iocp.UserManager.Dictionary.{find}
use iocp.PacketManager.{PacketManager, send_packet, put_user}
use iocp.PacketManager.Login.{process_login}
use iocp.PacketManager.Loop.{
  running, and_then, of_handler, process_packet_info, process_user, process_batch,
}
use iocp.PacketManager.Loop.Rounds.{process_user_round}
use iocp.PacketManager.Loop.Sound.{IsSound, packet, incomplete}
use iocp.PacketManager.Loop.Batch.{process_batch_ends}
use iocp.PacketManager.LoggingIn.LoadTest.{process_login_load_test_taken}
use iocp.Examples.Data.{server, first_user, clock}
use iocp.Examples.Logins.{first_here}
use iocp.Examples.Users.{
  holding, holding-IsReceiving, one_packet, frame, frame-IsFrame, one_pending,
}

-- A server with one user.
abbrev with_bytes : List ℕ → PacketManager
with_bytes bytes = record server {
  user_manager = record server.user_manager { user_obj_pool = holding bytes ∷ [] };
}

process_user_round_example :
    (u' : User) × (info : PacketInfo) × (process_user clock 3 0 (with_bytes one_packet)
      ≡ and_then
          (of_handler (process_packet_info clock (put_user (with_bytes one_packet) 0 u') info))
          (process_user clock 2 0))
    × (info.client_index ≡ 0)
    × (info.packet_id ≡ uint16_at frame 2)
    × (info.data_size ≡ length frame)
    × (take (length frame) info.data_ptr ≡ frame)
    × (pending u' ≡ 9 ∷ [])
    × IsReceiving u'
process_user_round_example =
    process_user_round clock 2 (with_bytes one_packet) 0 (holding one_packet) refl
      (holding-IsReceiving one_packet refl) frame (9 ∷ []) frame-IsFrame one_pending
      (λ e. omega arith)

-- The packet and a byte have arrived, and a response of an unknown number waits.
abbrev busy : PacketManager
busy = record (with_bytes one_packet) {
  write_buffer = record { client_index = 0; generation = 0 } ∷ [];
  redis_manager = record {
    is_task_run = true;
    request_task = [];
    response_task = record { user_index = 0; task_id = 1005; data_size = 0; task_data = [] } ∷ [];
  };
}

one_packet-IsSound : IsSound (pending (holding one_packet))
one_packet-IsSound =
    rw one_pending
      (packet _ (omega arith) (omega arith) (omega arith) (incomplete _ (inl (omega arith))))

busy_users :
    (j : ℕ) (u : User)
    → get_elem? busy.user_manager.user_obj_pool j ≡ some u
    → IsReceiving u × IsSound (pending u)
busy_users zero u here =
    let same : holding one_packet ≡ u = ground (arith, here) in
    subst (λ x. IsReceiving x × IsSound (pending x)) same
      (holding-IsReceiving one_packet refl, one_packet-IsSound)
busy_users (suc j) u here = absurd (ground (arith, here))

process_batch_ends_example : process_batch clock 9000 busy ≢ running server
process_batch_ends_example =
    process_batch_ends clock 9000 busy server busy_users (omega arith) (omega arith)

abbrev tester : List ℕ
tester = b't' ∷ b'e' ∷ b's' ∷ b't' ∷ b'_' ∷ b'u' ∷ b's' ∷ b'e' ∷ b'r' ∷ b'1' ∷ []

abbrev tester_packet : List ℕ
tester_packet = 71 ∷ 0 ∷ 201 ∷ 0 ∷ 0 ∷ (tester ++ replicate 56 0)

-- The name leads to the user at 2.
abbrev tested : PacketManager
tested = record server {
  user_manager = record server.user_manager { user_id_dictionary = (tester, pos 2) ∷ [] };
}

tester_read : c_str (drop packet_header_length tester_packet) ≡ some tester
unfolding c_str
tester_read = refl

tester_name :
    starts_with tester (b't' ∷ b'e' ∷ b's' ∷ b't' ∷ b'_' ∷ b'u' ∷ b's' ∷ b'e' ∷ b'r' ∷ []) ≡ true
unfolding starts_with
tester_name = refl

tester_taken : find tested.user_manager.user_id_dictionary tester ≡ some (pos 2)
unfolding find str_eq
tester_taken = refl

process_login_load_test_taken_example :
    process_login tested 0 71 tester_packet
    ≡ some (
        send_packet
          (put_user tested 0 (User.set_login first_user tester))
          0
          (login_response ErrorCode.ok))
process_login_load_test_taken_example =
    process_login_load_test_taken tested 0 tester_packet first_user tester (pos 2) first_here
      tester_read tester_name tester_taken
