-- ===== src/PacketManager/Closing/Forgotten.antt =====
-- What `ClearConnectionInfo` of IOCPChatServer/PacketManager.cpp makes of the tasks, the pool and the
-- names, in each state of the user.
use iocp.Common.{
  set-set, length, ℕ, ◌+◌, ◌≡◌, ◌≢◌, refl, sym, ap, ◌∙◌, false, none, some, List, [], ◌∷◌, arith,
  ◌==◌, if◌then◌else◌, get_elem?, set, get_elem?-set_self, get_elem?-set_ne, get_elem?-lt,
  inc_uint32, subst,
}
use iocp.Common.Int.{pos}
use iocp.RingBuffer
use iocp.RingBuffer.Valid.{clear-IsValid}
use iocp.Packet.Strings.{str_eq_refl}
use iocp.User
use iocp.User.{User, DomainState, no_domain, login, room}
use iocp.UserManager
use iocp.UserManager.{UserManager, decrease_user_cnt}
use iocp.UserManager.Dictionary.{find, erase, find-erase}
use iocp.Room
use iocp.Room.{Room, remove}
use iocp.RoomManager
use iocp.Membership.{members, Seated}
use iocp.Membership.Lists.{count}
use iocp.Membership.Updates.{Seated-outside, seat_outside}
use iocp.PacketManager.{
  PacketManager, PacketTask, get_user, put_user, without_client, leave_on_close, forget_user,
  clear_connection_info, process_user_disconnect,
}
use iocp.PacketManager.Consistent.{IsFit, IsConsistent, IsFit-set, get_room_of_lt}
use iocp.PacketManager.Leaving.{leave_user_lem}

-- How many tasks of a client wait.
abbrev pub tasks_of : ℕ → List PacketTask → ℕ
tasks_of j [] = 0
tasks_of j (t ∷ ts) = (if t.client_index == j then 1 else 0) + tasks_of j ts

pub tasks_of-without_client :
    (i j : ℕ) (ts : List PacketTask)
    → tasks_of j (without_client i ts) ≡ (if i == j then 0 else tasks_of j ts)
unfolding without_client
tasks_of-without_client i j [] = ground arith
tasks_of-without_client i j (t ∷ ts) = ground (arith, tasks_of-without_client i j ts)

pub remove_absent : (i : ℕ) (xs : List ℕ) → count i xs ≡ 0 → remove i xs ≡ xs
unfolding remove
remove_absent i [] h = refl
remove_absent i (x ∷ xs) h = ground (arith, remove_absent i xs)

-- The user left by `Clear` and `IncrementGeneration`.
abbrev pub wiped : User → User
wiped u = record u {
  user_id = [];
  is_confirm = false;
  auth_token = [];
  cur_domain_state = no_domain;
  packet_data_buffer = RingBuffer.clear u.packet_data_buffer;
  generation = inc_uint32 u.generation;
}

-- The state in which the user `u` at `i` is forgotten, with the rooms `rooms`.
abbrev pub forgotten : PacketManager → ℕ → User → RoomManager.RoomManager → PacketManager
forgotten m i u rooms = record m {
  write_buffer = without_client i m.write_buffer;
  room_manager = rooms;
  user_manager = decrease_user_cnt (record m.user_manager {
    user_obj_pool = set m.user_manager.user_obj_pool i (wiped u);
    user_id_dictionary = erase m.user_manager.user_id_dictionary u.user_id;
  });
}

-- The user at `i`, who was `u`, is gone: it is in no room's list, the lists are else as they were,
-- nothing of it waits to be handled, its name can be used again, and no other user has changed.
pub record IsClosed (i : ℕ) (u : User) (m m' : PacketManager) : Type 0 where
  pub user : get_elem? m'.user_manager.user_obj_pool i ≡ some (wiped u)
  pub others :
      (j : ℕ)
      → i ≢ j
      → get_elem? m'.user_manager.user_obj_pool j ≡ get_elem? m.user_manager.user_obj_pool j
  pub rooms :
      (k : ℕ)
      → (members m'.room_manager.room_list k ≡ remove i (members m.room_manager.room_list k))
        × (count i (members m'.room_manager.room_list k) ≡ 0)
  pub kept : length m'.room_manager.room_list ≡ length m.room_manager.room_list
  pub tasks :
      (j : ℕ) → tasks_of j m'.write_buffer ≡ (if i == j then 0 else tasks_of j m.write_buffer)
  pub name : find m'.user_manager.user_id_dictionary u.user_id ≡ none

pool-decrease_user_cnt :
    (m : UserManager)
    → ((decrease_user_cnt m).user_obj_pool ≡ m.user_obj_pool)
      × ((decrease_user_cnt m).user_id_dictionary ≡ m.user_id_dictionary)
unfolding decrease_user_cnt
pool-decrease_user_cnt m = ground arith

erased :
    (m : PacketManager) (i : ℕ) (u : User) (rooms : RoomManager.RoomManager)
    → find (forgotten m i u rooms).user_manager.user_id_dictionary u.user_id ≡ none
erased m i u rooms =
    ap (λ d. find d u.user_id) (pool-decrease_user_cnt _).1
    ∙ find-erase m.user_manager.user_id_dictionary u.user_id u.user_id
    ∙ ap (λ b. if b then none else find m.user_manager.user_id_dictionary u.user_id)
        (str_eq_refl u.user_id)

unfoldable pub quiet : ℕ → PacketManager → PacketManager
quiet i m = record m { write_buffer = without_client i m.write_buffer }

module _ {limit : ℕ} (m : PacketManager) (i : ℕ) (u : User) (v : IsConsistent limit m)
    (here : get_elem? m.user_manager.user_obj_pool i ≡ some u) where
  pub close_login :
      u.cur_domain_state ≡ login
      → process_user_disconnect m i ≡ some (forgotten m i u m.room_manager)
  unfolding process_user_disconnect clear_connection_info leave_on_close forget_user get_user
      UserManager.get_user_by_conn_idx UserManager.delete_user_info UserManager.put_user User.clear
      User.increment_generation
  close_login state = rw (here, state, here, state, here)

  leave_on_close_lem :
      (tasks : List PacketTask) (k : ℕ) (r : Room)
      → u.cur_domain_state ≡ room
      → u.room_index ≡ pos k
      → get_elem? m.room_manager.room_list k ≡ some r
      → leave_on_close (record m { write_buffer = tasks }) i u
        ≡ some (
            put_user
              (record m {
                write_buffer = tasks;
                room_manager = RoomManager.put_room m.room_manager k (Room.leave_user r i);
              })
              i
              (User.set_domain_state u login))
  unfolding leave_on_close
  leave_on_close_lem tasks k r state number there =
      ground (arith, state, leave_user_lem m.room_manager u.room_index i k u r found there)
    where
      found : RoomManager.get_room_by_number m.room_manager u.room_index ≡ some k
      found =
          ap (RoomManager.get_room_by_number m.room_manager) number
          ∙ get_room_of_lt k v (get_elem?-lt m.room_manager.room_list k there)

  pub close_room :
      (k : ℕ) (r : Room)
      → u.cur_domain_state ≡ room
      → u.room_index ≡ pos k
      → get_elem? m.room_manager.room_list k ≡ some r
      → process_user_disconnect m i
        ≡ some (forgotten m i u (RoomManager.put_room m.room_manager k (Room.leave_user r i)))
  unfolding process_user_disconnect clear_connection_info forget_user get_user put_user
      UserManager.get_user_by_conn_idx UserManager.delete_user_info UserManager.put_user User.clear
      User.increment_generation User.set_domain_state
  close_room k r state number there = rw (
    here,
    leave_on_close_lem (without_client i m.write_buffer) k r state number there,
    get_elem?-set_self m.user_manager.user_obj_pool i (User.set_domain_state u login)
        (get_elem?-lt m.user_manager.user_obj_pool i here),
    forget_user,
    get_elem?-set_self m.user_manager.user_obj_pool i (User.set_domain_state u login)
        (get_elem?-lt m.user_manager.user_obj_pool i here),
    set-set m.user_manager.user_obj_pool i (User.set_domain_state u login) (wiped u),
  )

  wiped-IsFit : IsFit (wiped u)
  wiped-IsFit = record { receiving = clear-IsValid (v.fit i u here).receiving; short = omega arith }

  pub close_quiet : u.cur_domain_state ≡ no_domain → process_user_disconnect m i ≡ some (quiet i m)
  unfolding process_user_disconnect clear_connection_info leave_on_close forget_user get_user
      UserManager.get_user_by_conn_idx quiet
  close_quiet state = rw (here, state, here, state)

  -- One who is in no room, and is forgotten.
  pub forgotten-IsConsistent :
      u.cur_domain_state ≢ room → IsConsistent limit (forgotten m i u m.room_manager)
  forgotten-IsConsistent out = record {
    small = v.small;
    seated =
        subst (λ pool. Seated limit pool m.room_manager.room_list)
          (sym (pool-decrease_user_cnt _).0)
          (Seated-outside i (wiped u) v.seated here refl out (λ e. cc));
    fit =
        subst (λ pool. (j : ℕ) (w : User) → get_elem? pool j ≡ some w → IsFit w)
          (sym (pool-decrease_user_cnt _).0)
          (IsFit-set m.user_manager.user_obj_pool i (wiped u) here wiped-IsFit v.fit);
    first = v.first;
    last = v.last;
  }

  pub forgotten-IsClosed :
      u.cur_domain_state ≢ room → IsClosed i u m (forgotten m i u m.room_manager)
  forgotten-IsClosed out = record {
    user =
        ap (λ pool. get_elem? pool i) (pool-decrease_user_cnt _).0
        ∙ get_elem?-set_self m.user_manager.user_obj_pool i (wiped u)
            (get_elem?-lt m.user_manager.user_obj_pool i here);
    others = λ j ne.
        ap (λ pool. get_elem? pool j) (pool-decrease_user_cnt _).0
        ∙ get_elem?-set_ne m.user_manager.user_obj_pool i j (wiped u) ne;
    rooms = λ k.
        let none_before : count i (members m.room_manager.room_list k) ≡ 0 =
          ground (arith, v.seated.seated i k, seat_outside u k out) in
        (sym (remove_absent i (members m.room_manager.room_list k) none_before), none_before);
    kept = refl;
    tasks = λ j. tasks_of-without_client i j m.write_buffer;
    name = erased m i u m.room_manager;
  }
