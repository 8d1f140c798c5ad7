-- ===== src/PacketManager/Leaving.antt =====
-- `ProcessLeaveRoom` of IOCPChatServer/PacketManager.cpp in the states of the invariant.
pub mod Outcomes
use native.Mathlib.Decide.{dec_lt}
use iocp.Common.{
  set_same, ℕ, zero, suc, ◌+◌, ◌-◌, ◌^◌, ◌≤◌, ◌<◌, ◌≡◌, ◌≢◌, refl, sym, ap, ◌∙◌, ◌⊎◌, inl, inr,
  Bool, true, false, not, Option, none, some, List, [], ◌∷◌, ◌++◌, append_assoc, arith, ◌==◌, ltb,
  if◌then◌else◌, ◌>>=◌, length, get_elem?, set, drop, get_elem?_of_lt, length-set,
  get_elem?-set_self, get_elem?-lt, Option-cases, Bool-cases,
}
use iocp.Common.Int.{ℤ, pos, negsuc, signed32, leb_ℤ, dec32}
use iocp.Packet.{packet_header_length, max_user_id_length, max_chat_msg, uint32_at}
use iocp.Packet.ErrorCode
use iocp.Packet.Strings.{c_str, strcpy_s, strcpy_s_fits}
use iocp.Packet.Wire.{room_leave_response, room_chat_notify}
use iocp.User
use iocp.User.{User, DomainState, no_domain, login, room}
use iocp.UserManager
use iocp.Room
use iocp.Room.{Room, remove, send_to_all_user, notify_chat}
use iocp.RoomManager
use iocp.RoomManager.{get_room_by_number}
use iocp.MySqlTask.{MySqlTask, insert_room_event, left}
use iocp.Membership.{Seated, IsCounted}
use iocp.Membership.Lists.{get_elem?-set}
use iocp.Membership.Moves.{Seated-leave}
use iocp.PacketManager.{PacketManager, send_packet, send_all, push_my_sql, get_user, put_user}
use iocp.PacketManager.Rooms.{
  process_leave_room, announce_departure, notify_if_room, notify_room, temp_chat_packet, left_text,
}
use iocp.PacketManager.Consistent.{
  IsFit, IsPlaced, IsConsistent, get_room-found, get_room_of_lt, IsFit-set, to_each,
  notify_chat_lem,
}

-- The state after the user `u` at `i` has left the room `r` at `k`: neither knows of the other, it is
-- logged, those who stay are told, and the request is answered.
abbrev pub after_departure : PacketManager → ℕ → ℕ → User → ℕ → Room → PacketManager
after_departure m i now u k r = record m {
  user_manager = record m.user_manager {
    user_obj_pool = set m.user_manager.user_obj_pool i (record u { cur_domain_state = login });
  };
  room_manager = record m.room_manager {
    room_list = set m.room_manager.room_list k (record r {
      user_list = remove i r.user_list;
      current_user_count = dec32 r.current_user_count;
    });
  };
  my_sql_tasks =
      m.my_sql_tasks
      ++ record { user_index = i; request = insert_room_event u.user_id u.room_index left now }
        ∷ [];
  sent =
      m.sent
      ++ to_each (room_chat_notify u.user_id left_text) (remove i r.user_list)
      ++ record { client_index = i; packet = room_leave_response ErrorCode.ok } ∷ [];
}

left_packet_text : c_str (drop packet_header_length (temp_chat_packet left_text)) ≡ some left_text
unfolding c_str temp_chat_packet
left_packet_text = refl

-- The room is left, found by its number.
pub leave_user_lem :
    (rooms : RoomManager.RoomManager) (number : ℤ) (i k : ℕ) (u : User) (r : Room)
    → get_room_by_number rooms number ≡ some k
    → get_elem? rooms.room_list k ≡ some r
    → RoomManager.leave_user rooms number i u
      ≡ some (
        ErrorCode.ok,
        RoomManager.put_room rooms k (Room.leave_user r i),
        User.set_domain_state u login,
      )
unfolding RoomManager.leave_user
leave_user_lem rooms number i k u r found there = rw (found, RoomManager.leave_user, there)

module _ {limit : ℕ} (m : PacketManager) (i now : ℕ) (u : User) (k : ℕ) (r : Room)
    (v : IsConsistent limit m) (here : get_elem? m.user_manager.user_obj_pool i ≡ some u)
    (there : get_elem? m.room_manager.room_list k ≡ some r) (number : u.room_index ≡ pos k) where
  -- The users and the rooms right after the departure.
  pub departed-IsPlaced :
      u.cur_domain_state ≡ room → IsConsistent limit (after_departure m i now u k r)
  unfolding Room.leave_user User.set_domain_state
  departed-IsPlaced state = record {
    small = v.small;
    seated = Seated-leave i k v.seated here there v.small state number;
    fit =
        IsFit-set m.user_manager.user_obj_pool i _ here
          (record { receiving = (v.fit i u here).receiving; short = (v.fit i u here).short }) v.fit;
    first = v.first;
    last = v.last ∙ ap pos (sym (length-set m.room_manager.room_list k _));
  }

  -- Whatever the user's state: the users to notify are looked up in a pool in which only the state
  -- of one has changed.
  pub process_leave_room_lem :
      send_to_all_user
          (set m.user_manager.user_obj_pool i (record u { cur_domain_state = login }))
          (remove i r.user_list)
          (room_chat_notify u.user_id left_text)
          i
          false
        ≡ some (to_each (room_chat_notify u.user_id left_text) (remove i r.user_list))
      → process_leave_room m i now ≡ some (after_departure m i now u k r)
  unfolding process_leave_room announce_departure notify_if_room notify_room get_user
      UserManager.get_user_by_conn_idx put_user UserManager.put_user RoomManager.put_room
      User.set_domain_state send_packet send_all push_my_sql Room.leave_user notify_chat
  process_leave_room_lem told = rw (
    here,
    leave_user_lem m.room_manager u.room_index i k u r found there,
    found,
    get_elem?-set_self m.user_manager.user_obj_pool i (record u { cur_domain_state = login })
        (get_elem?-lt m.user_manager.user_obj_pool i here),
    strcpy_s_fits (max_user_id_length + 1) u.user_id (omega (arith, (v.fit i u here).short)),
    get_elem?-set_self m.room_manager.room_list k
        (record r {
          user_list = remove i r.user_list;
          current_user_count = dec32 r.current_user_count;
        })
        (get_elem?-lt m.room_manager.room_list k there),
    left_packet_text,
    strcpy_s_fits (max_chat_msg + 1) left_text (omega arith),
    told,
  )
    where
      found : get_room_by_number m.room_manager u.room_index ≡ some k
      found =
          ap (get_room_by_number m.room_manager) number
          ∙ get_room_of_lt k v (get_elem?-lt m.room_manager.room_list k there)
