-- ===== src/PacketManager/Receiving.antt =====
-- `ReceivePacketData` of IOCPChatServer/PacketManager.cpp in the states of the invariant.
use iocp.Common.{
  ℕ, ◌-◌, ◌^◌, ◌<◌, ◌≡◌, ap, some, List, [], ◌∷◌, ◌++◌, arith, length, get_elem?, set, take,
  get_elem?-set_self, get_elem?-lt,
}
use iocp.User.{User, max_packet_data_buffer_size, set_packet_data}
use iocp.User.Framing.{pending, set_packet_data_lem}
use iocp.UserManager
use iocp.Membership.Updates.{Seated-keep}
use iocp.PacketManager.{PacketManager, receive_packet_data, enqueue_packet_data, get_user, put_user}
use iocp.PacketManager.Consistent.{IsConsistent, IsFit-set}

-- What `SetPacketData` leaves alone.
set_packet_data-keeps :
    (u : User) (n : ℕ) (bytes : List ℕ)
    → let u' = set_packet_data u n (some bytes) in
      (u'.cur_domain_state ≡ u.cur_domain_state)
      × (u'.room_index ≡ u.room_index)
      × (u'.index ≡ u.index)
      × (u'.user_id ≡ u.user_id)
      × (u'.generation ≡ u.generation)
unfolding set_packet_data
set_packet_data-keeps u n bytes = ground arith

-- The state after the user at `i` has become `u'` and a task for it has been queued.
abbrev queued : PacketManager → ℕ → User → PacketManager
queued m i u' = record m {
  user_manager = record m.user_manager { user_obj_pool = set m.user_manager.user_obj_pool i u' };
  write_buffer = m.write_buffer ++ record { client_index = i; generation = u'.generation } ∷ [];
}

-- In a state of the invariant, fewer than 2 ^ 32 bytes that arrive for a client of the pool go behind
-- its pending bytes, as many as its ring has room for; one task with its generation goes to the end
-- of the queue; and the invariant holds.
pub receive_packet_data_lem :
    {limit : ℕ} (m : PacketManager) (i : ℕ) (u : User) (bytes : List ℕ)
    → IsConsistent limit m
    → get_elem? m.user_manager.user_obj_pool i ≡ some u
    → length bytes < 2 ^ 32
    → (m' : PacketManager) × (u' : User) × (receive_packet_data m i (length bytes) (some bytes)
        ≡ some m')
      × (get_elem? m'.user_manager.user_obj_pool i ≡ some u')
      × (pending u' ≡ pending u ++ take (max_packet_data_buffer_size - length (pending u)) bytes)
      × (m'.write_buffer
          ≡ m.write_buffer ++ record { client_index = i; generation = u.generation } ∷ [])
      × IsConsistent limit m'
unfolding receive_packet_data enqueue_packet_data get_user put_user UserManager.get_user_by_conn_idx
    UserManager.put_user
receive_packet_data_lem {limit} m i u bytes v here small = (
  queued m i u',
  u',
  rw (here, there),
  there,
  (set_packet_data_lem u bytes (v.fit i u here).receiving small).0,
  ap (λ g. m.write_buffer ++ record { client_index = i; generation = g } ∷ []) kept.4,
  record {
    small = v.small;
    seated = Seated-keep i u' v.seated here kept.2 kept.0 kept.1;
    fit =
        IsFit-set m.user_manager.user_obj_pool i u' here
          (record {
            receiving = (set_packet_data_lem u bytes (v.fit i u here).receiving small).1;
            short = omega (arith, ap length kept.3, (v.fit i u here).short);
          })
          v.fit;
    first = v.first;
    last = v.last;
  },
)
  where
    u' : User
    u' = set_packet_data u (length bytes) (some bytes)

    there : get_elem? (set m.user_manager.user_obj_pool i u') i ≡ some u'
    there =
        get_elem?-set_self m.user_manager.user_obj_pool i u'
          (get_elem?-lt m.user_manager.user_obj_pool i here)

    kept :
        (u'.cur_domain_state ≡ u.cur_domain_state)
        × (u'.room_index ≡ u.room_index)
        × (u'.index ≡ u.index)
        × (u'.user_id ≡ u.user_id)
        × (u'.generation ≡ u.generation)
    kept = set_packet_data-keeps u (length bytes) bytes
