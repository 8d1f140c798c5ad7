-- ===== src/PacketManager/Closing.antt =====
-- `ProcessUserDisconnect` and `ClearConnectionInfo` of IOCPChatServer/PacketManager.cpp in the states
-- of the invariant.
pub mod Forgotten
use native.Mathlib.Decide.{ℕ_discrete}
use iocp.Common.{
  set-set, length, length-set, ℕ, zero, suc, ◌+◌, ◌≡◌, ◌≢◌, refl, sym, ap, ◌∙◌, ◌⊎◌, inl, inr,
  false, none, some, List, [], ◌∷◌, arith, ◌==◌, if◌then◌else◌, get_elem?, set, get_elem?_of_lt,
  get_elem?-set_self, get_elem?-set_ne, get_elem?-lt, inc_uint32, subst,
}
use iocp.Common.Int.{pos, eq_ℤ}
use iocp.RingBuffer
use iocp.RingBuffer.Valid.{clear-IsValid}
use iocp.Packet.Strings.{str_eq_refl}
use iocp.User
use iocp.User.{User, DomainState, no_domain, login, room}
use iocp.UserManager
use iocp.UserManager.{UserManager, decrease_user_cnt}
use iocp.UserManager.Dictionary.{find, erase, find-erase}
use iocp.Room
use iocp.Room.{Room, remove}
use iocp.RoomManager
use iocp.Membership.{members, Seated}
use iocp.Membership.Lists.{count, get_elem?-set}
use iocp.Membership.Updates.{Seated-outside, seat_outside}
use iocp.PacketManager.{
  PacketManager, PacketTask, get_user, put_user, without_client, leave_on_close, forget_user,
  clear_connection_info, process_user_disconnect,
}
use iocp.PacketManager.Consistent.{IsFit, IsConsistent, IsFit-set, get_room_of_lt}
use iocp.PacketManager.Leaving.{leave_user_lem, departed-IsPlaced}
use Forgotten.{
  tasks_of, wiped, forgotten, IsClosed, remove_absent, close_login, close_room, close_quiet,
  forgotten-IsConsistent, forgotten-IsClosed, quiet, tasks_of-without_client,
}

module _ {limit : ℕ} (m : PacketManager) (i : ℕ) (u : User) (k : ℕ) (r : Room)
    (v : IsConsistent limit m) (here : get_elem? m.user_manager.user_obj_pool i ≡ some u)
    (there : get_elem? m.room_manager.room_list k ≡ some r) (state : u.cur_domain_state ≡ room)
    (number : u.room_index ≡ pos k) where
  rooms_left : RoomManager.RoomManager
  rooms_left = RoomManager.put_room m.room_manager k (Room.leave_user r i)

  -- The user has left the room and is not forgotten yet.
  outside : PacketManager
  outside = record m {
    user_manager = record m.user_manager {
      user_obj_pool = set m.user_manager.user_obj_pool i (record u { cur_domain_state = login });
    };
    room_manager = rooms_left;
  }

  outside-IsConsistent : IsConsistent limit outside
  unfolding outside rooms_left RoomManager.put_room Room.leave_user
  outside-IsConsistent = departed-IsPlaced m i 0 u k r v here there number state

  same_forgotten :
      forgotten outside i (record u { cur_domain_state = login }) outside.room_manager
      ≡ forgotten m i u rooms_left
  unfolding outside
  same_forgotten =
      rw (set-set m.user_manager.user_obj_pool i (record u { cur_domain_state = login }) (wiped u))

  outside_here :
      get_elem? outside.user_manager.user_obj_pool i ≡ some (record u { cur_domain_state = login })
  unfolding outside
  outside_here =
      get_elem?-set_self m.user_manager.user_obj_pool i _
        (get_elem?-lt m.user_manager.user_obj_pool i here)

  forgotten_room-IsConsistent : IsConsistent limit (forgotten m i u rooms_left)
  forgotten_room-IsConsistent = subst (IsConsistent limit) same_forgotten (
      forgotten-IsConsistent outside i (record u { cur_domain_state = login }) outside-IsConsistent
        outside_here (λ e. cc))

  members-left :
      (j : ℕ) → members rooms_left.room_list j ≡ remove i (members m.room_manager.room_list j)
  unfolding rooms_left RoomManager.put_room Room.leave_user
  members-left j = elim (ℕ_discrete k j) [
    | yes e ↦ ground (arith, get_elem?-set m.room_manager.room_list k j (Room.leave_user r i) there)
    | no ne ↦ ground (
      arith,
      get_elem?-set m.room_manager.room_list k j (Room.leave_user r i) there,
      remove_absent i (members m.room_manager.room_list j),
      v.seated.seated i j,
      ap (λ n. eq_ℤ n (pos j)) number,
    )
  ]

  others_outside :
      (j : ℕ)
      → i ≢ j
      → get_elem? outside.user_manager.user_obj_pool j ≡ get_elem? m.user_manager.user_obj_pool j
  unfolding outside
  others_outside j ne = get_elem?-set_ne m.user_manager.user_obj_pool i j _ ne

  kept_outside : length outside.room_manager.room_list ≡ length m.room_manager.room_list
  unfolding outside rooms_left RoomManager.put_room
  kept_outside = length-set m.room_manager.room_list k (Room.leave_user r i)

  forgotten_room-IsClosed : IsClosed i u m (forgotten m i u rooms_left)
  unfolding outside
  forgotten_room-IsClosed =
      let c = subst (IsClosed i (record u { cur_domain_state = login }) outside) same_forgotten (
        forgotten-IsClosed outside i (record u { cur_domain_state = login }) outside-IsConsistent
          outside_here (λ e. cc)) in
      record {
        user = c.user;
        others = λ j ne. c.others j ne ∙ others_outside j ne;
        rooms = λ j. (members-left j, (c.rooms j).1);
        kept = c.kept ∙ kept_outside;
        tasks = c.tasks;
        name = c.name;
      }

-- In a state of the invariant the end of the connection of any client of the pool is dealt with
-- without a fault, and leaves a state of the invariant. Either the user had not logged in, and only
-- its waiting tasks go: what it is, its ring and its generation stay as they were. Or the user is
-- forgotten: it is in no room's list, the lists are else as they were, none of its tasks waits, its
-- name can be used again, its ring is empty, its generation is the next one, and no other user has
-- changed.
pub process_user_disconnect-IsConsistent :
    {limit : ℕ} (m : PacketManager) (i : ℕ) (u : User)
    → IsConsistent limit m
    → get_elem? m.user_manager.user_obj_pool i ≡ some u
    → (m' : PacketManager) × (process_user_disconnect m i ≡ some m')
      × IsConsistent limit m'
      × ((u.cur_domain_state ≡ no_domain)
            × (m'.user_manager ≡ m.user_manager)
            × (tasks_of i m'.write_buffer ≡ 0)
          ⊎ IsClosed i u m m')
unfolding quiet rooms_left
process_user_disconnect-IsConsistent {limit} m i u v here = by_state u.cur_domain_state refl
  where
    by_state :
        (s : DomainState)
        → u.cur_domain_state ≡ s
        → (m' : PacketManager) × (process_user_disconnect m i ≡ some m')
          × IsConsistent limit m'
          × ((u.cur_domain_state ≡ no_domain)
                × (m'.user_manager ≡ m.user_manager)
                × (tasks_of i m'.write_buffer ≡ 0)
              ⊎ IsClosed i u m m')
    by_state no_domain e = (
      quiet i m,
      close_quiet m i u v here e,
      v,
      inl (e, refl, ground (arith, tasks_of-without_client i i m.write_buffer)),
    )
    by_state login e = (
      forgotten m i u m.room_manager,
      close_login m i u v here e,
      forgotten-IsConsistent m i u v here (λ q. cc),
      inr (forgotten-IsClosed m i u v here (λ q. cc)),
    )
    by_state room e =
        let (k, number, lt) = v.seated.inside i u here e in
        let (r, there) = get_elem?_of_lt m.room_manager.room_list k lt in
        (
          forgotten m i u (rooms_left m i u k r v here there e number),
          close_room m i u v here k r e number there,
          forgotten_room-IsConsistent m i u k r v here there e number,
          inr (forgotten_room-IsClosed m i u k r v here there e number),
        )
