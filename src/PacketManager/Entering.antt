-- ===== src/PacketManager/Entering.antt =====
-- `ProcessEnterRoom` of IOCPChatServer/PacketManager.cpp in the states of the invariant.
pub mod Outcomes
use native.Mathlib.Decide.{dec_lt}
use iocp.Common.{
  set_same, ℕ, zero, suc, ◌+◌, ◌-◌, ◌^◌, ◌≤◌, ◌<◌, ◌≡◌, ◌≢◌, refl, sym, ap, ◌∙◌, ◌⊎◌, inl, inr,
  Bool, true, false, not, Option, none, some, List, [], ◌∷◌, ◌++◌, append_assoc, arith, ◌==◌, ltb,
  if◌then◌else◌, ◌>>=◌, length, get_elem?, set, drop, get_elem?_of_lt, length-set,
  get_elem?-set_self, get_elem?-lt, Option-cases, Bool-cases,
}
use iocp.Common.Int.{ℤ, pos, negsuc, signed32, leb_ℤ, inc32}
use iocp.Packet.{packet_header_length, max_user_id_length, max_chat_msg, uint32_at}
use iocp.Packet.ErrorCode
use iocp.Packet.Strings.{c_str, strcpy_s, strcpy_s_fits}
use iocp.Packet.Wire.{room_enter_response, room_chat_notify}
use iocp.User
use iocp.User.{User, DomainState, no_domain, login, room}
use iocp.UserManager
use iocp.Room
use iocp.Room.{Room}
use iocp.RoomManager
use iocp.RoomManager.{get_room_by_number}
use iocp.MySqlTask.{MySqlTask, insert_room_event, entered}
use iocp.Membership.{Seated, IsCounted}
use iocp.Membership.Lists.{get_elem?-set}
use iocp.Membership.Moves.{Seated-enter}
use iocp.PacketManager.{PacketManager, send_packet, send_all, push_my_sql, get_user, put_user}
use iocp.PacketManager.Rooms.{
  process_enter_room, enter_as, announce_entry, notify_if_room, notify_room, temp_chat_packet,
  entered_text,
}
use iocp.PacketManager.Consistent.{
  IsFit, IsPlaced, IsConsistent, get_room-found, get_room_of_lt, IsFit-set, to_each,
  notify_chat_lem,
}

-- The room that a packet asks for.
abbrev pub asked_room : List ℕ → ℤ
asked_room p = signed32 (uint32_at p packet_header_length)

-- The state after an entry of the user `u` at `i` into the room `r` at `k`: both know of it, it is
-- logged, all in the room are told, the one who entered among them, and then the request is
-- answered.
abbrev pub after_entry : PacketManager → ℕ → ℕ → User → ℕ → Room → PacketManager
after_entry m i now u k r = record m {
  user_manager = record m.user_manager {
    user_obj_pool =
        set m.user_manager.user_obj_pool i
          (record u { room_index = r.room_number; cur_domain_state = room });
  };
  room_manager = record m.room_manager {
    room_list = set m.room_manager.room_list k (record r {
      user_list = r.user_list ++ i ∷ [];
      current_user_count = inc32 r.current_user_count;
    });
  };
  my_sql_tasks =
      m.my_sql_tasks
      ++ record { user_index = i; request = insert_room_event u.user_id (pos k) entered now } ∷ [];
  sent =
      m.sent
      ++ to_each (room_chat_notify u.user_id entered_text) (r.user_list ++ i ∷ [])
      ++ record { client_index = i; packet = room_enter_response ErrorCode.ok } ∷ [];
}

entered_packet_text :
    c_str (drop packet_header_length (temp_chat_packet entered_text)) ≡ some entered_text
unfolding c_str temp_chat_packet
entered_packet_text = refl

-- What follows an entry, in a state of the invariant.
announce_entry_lem :
    {limit : ℕ} (m : PacketManager) (i now k : ℕ) (u : User) (r : Room)
    → IsConsistent limit m
    → get_elem? m.user_manager.user_obj_pool i ≡ some u
    → get_elem? m.room_manager.room_list k ≡ some r
    → announce_entry m i now (pos k)
      ≡ some (
          send_all
            (push_my_sql m i (insert_room_event u.user_id (pos k) entered now))
            (to_each (room_chat_notify u.user_id entered_text) r.user_list))
unfolding announce_entry notify_if_room notify_room get_user UserManager.get_user_by_conn_idx
    push_my_sql
announce_entry_lem m i now k u r v here there = rw (
  here,
  strcpy_s_fits (max_user_id_length + 1) u.user_id (omega (arith, (v.fit i u here).short)),
  get_room_of_lt k v (get_elem?-lt m.room_manager.room_list k there),
  here,
  there,
  notify_chat_lem k i r u.user_id (temp_chat_packet entered_text) entered_text v there
      (v.fit i u here).short entered_packet_text (omega arith),
)

-- The room's answer, found by its number.
enter_user_lem :
    {limit : ℕ} {pool : List User} (rooms : RoomManager.RoomManager) (i k : ℕ) (u : User) (r : Room)
    → IsPlaced limit pool rooms
    → get_elem? rooms.room_list k ≡ some r
    → RoomManager.enter_user rooms (pos k) i u
      ≡ some (
        (Room.enter_user r i u).0,
        RoomManager.put_room rooms k (Room.enter_user r i u).1,
        (Room.enter_user r i u).2,
      )
unfolding RoomManager.enter_user
enter_user_lem rooms i k u r v there =
    rw (get_room_of_lt k v (get_elem?-lt rooms.room_list k there), RoomManager.enter_user, there)

-- A room of the invariant has a free place, or is at its limit.
room_free :
    {limit k : ℕ} {r : Room}
    → IsCounted limit k r
    → leb_ℤ r.max_user_count r.current_user_count ≡ not (ltb (length r.user_list) limit)
room_free c = ground arith

module _ {limit : ℕ} (m : PacketManager) (i now : ℕ) (p : List ℕ) (u : User) (k : ℕ) (r : Room)
    (v : IsConsistent limit m) (here : get_elem? m.user_manager.user_obj_pool i ≡ some u)
    (there : get_elem? m.room_manager.room_list k ≡ some r) (state : u.cur_domain_state ≡ login)
    (asked : asked_room p ≡ pos k) where
  -- The state right after the entry.
  abbrev entered_state : PacketManager
  entered_state = record m {
    user_manager = record m.user_manager {
      user_obj_pool =
          set m.user_manager.user_obj_pool i
            (record u { room_index = r.room_number; cur_domain_state = room });
    };
    room_manager = record m.room_manager {
      room_list = set m.room_manager.room_list k (record r {
        user_list = r.user_list ++ i ∷ [];
        current_user_count = inc32 r.current_user_count;
      });
    };
  }

  admitted : length r.user_list < limit → leb_ℤ r.max_user_count r.current_user_count ≡ false
  admitted free = ground (arith, room_free (v.seated.counted k r there))

  entered-IsConsistent : length r.user_list < limit → IsConsistent limit entered_state
  unfolding Room.enter_user User.enter_room
  entered-IsConsistent free = record {
    small = v.small;
    seated =
        rw (admitted free) at
          (Seated-enter i k v.seated here there v.small (λ e. cc) (admitted free));
    fit =
        IsFit-set m.user_manager.user_obj_pool i _ here
          (record { receiving = (v.fit i u here).receiving; short = (v.fit i u here).short }) v.fit;
    first = v.first;
    last = v.last ∙ ap pos (sym (length-set m.room_manager.room_list k _));
  }

  -- In a state of the invariant, one who is logged in and in no room, and asks for a room with a
  -- free place, enters it: the user stands at the end of the room's list and knows the room's
  -- number, the counter is one more, the entry is queued for MySQL, all who are then in the room
  -- are told once, the request is answered after that, and the invariant holds.
  pub process_enter_room_admits :
      length r.user_list < limit
      → (process_enter_room m i now p ≡ some (after_entry m i now u k r))
        × IsConsistent limit (after_entry m i now u k r)
  unfolding process_enter_room enter_as get_user UserManager.get_user_by_conn_idx Room.enter_user
      put_user UserManager.put_user RoomManager.put_room User.enter_room send_packet send_all
      push_my_sql
  process_enter_room_admits free = (
    rw (here, state, asked, enter_user_lem m.room_manager i k u r v there, admitted free)
        (rw (
          announce_entry_lem entered_state i now k _ _ (entered-IsConsistent free)
            (get_elem?-set_self m.user_manager.user_obj_pool i _
              (get_elem?-lt m.user_manager.user_obj_pool i here))
            (get_elem?-set_self m.room_manager.room_list k _
              (get_elem?-lt m.room_manager.room_list k there)))),
    entered-IsConsistent free,
  )

  -- One who asks for a room at its limit is told so, and nothing else changes.
  pub process_enter_room_full :
      limit ≤ length r.user_list
      → process_enter_room m i now p
        ≡ some (send_packet m i (room_enter_response ErrorCode.enter_room_full_user))
  unfolding process_enter_room enter_as get_user UserManager.get_user_by_conn_idx Room.enter_user
      put_user UserManager.put_user RoomManager.put_room
  process_enter_room_full full = rw (
    here,
    state,
    asked,
    enter_user_lem m.room_manager i k u r v there,
    at_limit,
    set_same m.user_manager.user_obj_pool i here,
    set_same m.room_manager.room_list k there,
  )
    where
      at_limit : leb_ℤ r.max_user_count r.current_user_count ≡ true
      at_limit = ground (arith, room_free (v.seated.counted k r there))
