-- ===== src/PacketManager/Loop/Endless.antt =====
-- The loop of `ProcessPacket` (IOCPChatServer/PacketManager.cpp) over the packets of one user, on a
-- header that says a length of 0.
use iocp.Common.{
  ℕ, zero, suc, ◌%◌, ◌^◌, ◌≤◌, ◌≡◌, ◌≢◌, refl, sym, ◌∙◌, false, some, arith, ◌==◌, length,
  get_elem?, set_same,
}
use iocp.Packet.{PacketInfo, packet_header_length, uint16_at}
use iocp.Packet.PacketId
use iocp.User
use iocp.User.{User}
use iocp.User.Framing.{pending, IsReceiving, get_packet_zero_length}
use iocp.UserManager
use iocp.PacketManager.{PacketManager, get_user, put_user}
use iocp.PacketManager.Loop.{running, process_recv_packet, process_packet_info, process_user}

-- A number for which no handler is entered.
abbrev pub IsUnknown : ℕ → Type 0
IsUnknown n =
    (n ≢ PacketId.sys_user_connect)
    × (n ≢ PacketId.sys_user_disconnect)
    × (n ≢ PacketId.login_request)
    × (n ≢ PacketId.redis_response_login)
    × (n ≢ PacketId.room_enter_request)
    × (n ≢ PacketId.room_leave_request)
    × (n ≢ PacketId.room_chat_request)

module _ (time : PacketManager → ℕ) where
  process_packet_info_unknown :
      (m : PacketManager) (info : PacketInfo)
      → IsUnknown (info.packet_id % 2 ^ 16)
      → process_packet_info time m info ≡ some m
  unfolding process_packet_info process_recv_packet
  process_packet_info_unknown m info unknown = ground (arith, unknown)

  round_lem :
      (fuel : ℕ) (m : PacketManager) (i : ℕ) (u : User)
      → get_elem? m.user_manager.user_obj_pool i ≡ some u
      → (User.get_packet u).1 ≡ u
      → (User.get_packet u).0.packet_id ≢ 0
      → IsUnknown ((User.get_packet u).0.packet_id % 2 ^ 16)
      → process_user time (suc fuel) i m ≡ process_user time fuel i m
  unfolding process_user get_user put_user UserManager.get_user_by_conn_idx UserManager.put_user
  round_lem fuel m i u here same some_id unknown = ground (
    arith,
    here,
    same,
    set_same m.user_manager.user_obj_pool i here,
    differs,
    process_packet_info_unknown m (record (User.get_packet u).0 { client_index = i }) unknown,
  )
    where
      differs : ((User.get_packet u).0.packet_id == 0) ≡ false
      differs = ground arith

  no_fuel : (m : PacketManager) (i : ℕ) → process_user time 0 i m ≡ running m
  unfolding process_user
  no_fuel m i = refl

  -- When a whole header is pending in a user's valid ring, which says a length of 0 and a number
  -- other than 0 for which there is no handler, the loop over the user's packets is still running,
  -- in the state in which it began, after any number of rounds.
  pub process_user_endless :
      (fuel : ℕ) (m : PacketManager) (i : ℕ) (u : User)
      → get_elem? m.user_manager.user_obj_pool i ≡ some u
      → IsReceiving u
      → packet_header_length ≤ length (pending u)
      → uint16_at (pending u) 0 ≡ 0
      → uint16_at (pending u) 2 ≢ 0
      → IsUnknown (uint16_at (pending u) 2 % 2 ^ 16)
      → process_user time fuel i m ≡ running m
  process_user_endless fuel m i u here v whole zero_length some_id unknown = rounds fuel
    where
      read :
          ((User.get_packet u).0.packet_id ≡ uint16_at (pending u) 2) × ((User.get_packet u).1 ≡ u)
      read = get_packet_zero_length u v whole zero_length

      rounds : (n : ℕ) → process_user time n i m ≡ running m
      rounds zero = no_fuel m i
      rounds (suc n) =
          round_lem n m i u here read.1 (λ e. some_id (sym read.0 ∙ e)) (rw read.0 unknown)
          ∙ rounds n
