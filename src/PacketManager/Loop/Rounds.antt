-- ===== src/PacketManager/Loop/Rounds.antt =====
-- The loop of `ProcessPacket` (IOCPChatServer/PacketManager.cpp) over the packets of one user, while
-- the headers are sound.
use iocp.Common.{
  ℕ, suc, ◌<◌, ◌≡◌, ◌≢◌, ◌⊎◌, refl, false, some, List, ◌++◌, arith, ◌==◌, length, get_elem?, take,
  set_same,
}
use iocp.Packet.{PacketInfo, packet_header_length, uint16_at}
use iocp.User
use iocp.User.{User}
use iocp.User.Framing.{pending, IsReceiving, IsFrame, get_packet_frame, get_packet_incomplete}
use iocp.UserManager
use iocp.PacketManager.{PacketManager, get_user, put_user}
use iocp.PacketManager.Loop.{finished, and_then, of_handler, process_packet_info, process_user}

module _ (time : PacketManager → ℕ) (fuel : ℕ) (m : PacketManager) (i : ℕ) (u : User)
    (here : get_elem? m.user_manager.user_obj_pool i ≡ some u) (v : IsReceiving u) where
  round_lem :
      ((User.get_packet u).0.packet_id == 0) ≡ false
      → process_user time (suc fuel) i m
        ≡ and_then
            (of_handler (
              process_packet_info time
                (put_user m i (User.get_packet u).1)
                (record (User.get_packet u).0 { client_index = i })))
            (process_user time fuel i)
  unfolding process_user get_user UserManager.get_user_by_conn_idx
  round_lem differs = ground (arith, here, differs)

  -- When a whole packet with a number other than 0 is pending in a user's valid ring, whatever
  -- stands behind it, the loop over the user's packets hands that packet, its bytes and its length,
  -- to the dispatcher as one of this client, with the bytes behind it left pending in a valid ring,
  -- and goes on with the state that the handler returns.
  pub process_user_round :
      (f rest : List ℕ)
      → IsFrame f
      → pending u ≡ f ++ rest
      → uint16_at f 2 ≢ 0
      → (u' : User) × (info : PacketInfo) × (process_user time (suc fuel) i m
          ≡ and_then
              (of_handler (process_packet_info time (put_user m i u') info))
              (process_user time fuel i))
        × (info.client_index ≡ i)
        × (info.packet_id ≡ uint16_at f 2)
        × (info.data_size ≡ length f)
        × (take (length f) info.data_ptr ≡ f)
        × (pending u' ≡ rest)
        × IsReceiving u'
  process_user_round f rest fr e some_id =
      let (id, size, bytes, left, v') = get_packet_frame u f rest v fr e in
      (
        (User.get_packet u).1,
        record (User.get_packet u).0 { client_index = i },
        round_lem (ground (arith, id)),
        refl,
        id,
        size,
        bytes,
        left,
        v',
      )

  -- When no whole packet is pending in a user's valid ring, the loop over the user's packets ends
  -- in its first round, with the state as it was.
  pub process_user_ends :
      (length (pending u) < packet_header_length) ⊎ (length (pending u) < uint16_at (pending u) 0)
      → process_user time (suc fuel) i m ≡ finished m
  unfolding process_user get_user put_user UserManager.get_user_by_conn_idx UserManager.put_user
  process_user_ends short =
      ground
        (arith, here, get_packet_incomplete u v short, set_same m.user_manager.user_obj_pool i here)
