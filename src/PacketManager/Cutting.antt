-- ===== src/PacketManager/Cutting.antt =====
-- `GetPacket` of IOCPChatServer/User.h for a user of the pool, in the states of the invariant.
use native.Mathlib.Decide.{dec_lt}
use iocp.Common.{◌≡◌, ◌≤◌, refl, ap, inl, inr, ℕ, some, arith, length, get_elem?}
use iocp.Packet.{packet_header_length, uint16_at}
use iocp.User.{User, get_packet, take_packet}
use iocp.User.Framing.{
  IsReceiving, pending, get_packet_incomplete, get_packet-TookPacket, TookPacket,
}
use iocp.UserManager
use iocp.Membership.Updates.{Seated-keep}
use iocp.PacketManager.{PacketManager, put_user}
use iocp.PacketManager.Consistent.{IsConsistent, IsFit-set}

-- What `GetPacket` leaves alone.
abbrev SameUser : User → User → Type 0
SameUser u u' =
    (u'.cur_domain_state ≡ u.cur_domain_state)
    × (u'.room_index ≡ u.room_index)
    × (u'.index ≡ u.index)
    × (u'.user_id ≡ u.user_id)

whole_packet :
    (u : User)
    → IsReceiving u
    → packet_header_length ≤ length (pending u)
    → uint16_at (pending u) 0 ≤ length (pending u)
    → IsReceiving (get_packet u).1 × SameUser u (get_packet u).1
whole_packet u v h k =
    let took : TookPacket u (get_packet u) = get_packet-TookPacket u v h k in
    (
      took.still,
      (
        ap (λ (x : User). x.cur_domain_state) took.others,
        ap (λ (x : User). x.room_index) took.others,
        ap (λ (x : User). x.index) took.others,
        ap (λ (x : User). x.user_id) took.others,
      ),
    )

get_packet-IsReceiving :
    (u : User) → IsReceiving u → IsReceiving (get_packet u).1 × SameUser u (get_packet u).1
get_packet-IsReceiving u v = elim (dec_lt (length (pending u)) packet_header_length) [
  | yes short ↦ rw (get_packet_incomplete u v (inl short)) (v, (refl, refl, refl, refl))
  | no long ↦ elim (dec_lt (length (pending u)) (uint16_at (pending u) 0)) [
    | yes less ↦ rw (get_packet_incomplete u v (inr less)) (v, (refl, refl, refl, refl))
    | no all ↦ whole_packet u v (omega arith) (omega arith)
  ]
]

-- A packet, or none, cut out of the ring of the user at `i`.
pub cut-IsConsistent :
    {limit : ℕ} (m : PacketManager) (i : ℕ) (u : User)
    → get_elem? m.user_manager.user_obj_pool i ≡ some u
    → IsConsistent limit m
    → IsConsistent limit (put_user m i (get_packet u).1)
unfolding put_user UserManager.put_user
cut-IsConsistent m i u here v =
    let f = v.fit i u here in
    let (still, (state, number, index, name)) = get_packet-IsReceiving u f.receiving in
    record {
      small = v.small;
      seated = Seated-keep i (get_packet u).1 v.seated here index state number;
      fit =
          IsFit-set m.user_manager.user_obj_pool i (get_packet u).1 here
            (record { receiving = still; short = omega (arith, ap length name, f.short) }) v.fit;
      first = v.first;
      last = v.last;
    }

pub get_packet-index : (u : User) → (get_packet u).1.index ≡ u.index
unfolding get_packet take_packet
get_packet-index u = ground arith
