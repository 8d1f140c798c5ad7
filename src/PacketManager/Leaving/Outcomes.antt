-- ===== src/PacketManager/Leaving/Outcomes.antt =====
-- The two ways in which `ProcessLeaveRoom` of IOCPChatServer/PacketManager.cpp can go.
use iocp.Common.{
  ℕ, ◌≤◌, ◌≡◌, ◌≢◌, refl, ap, some, List, arith, get_elem?, set, get_elem?_of_lt,
  get_elem?-set_self, get_elem?-lt,
}
use iocp.Common.Int.{pos, dec32}
use iocp.User.{User, login, room}
use iocp.Room.{Room, remove}
use iocp.Membership.{Seated, members}
use iocp.Membership.Lists.{count, count-remove, length-remove}
use iocp.Membership.Updates.{Seated-outside, seat_outside}
use iocp.PacketManager.{PacketManager}
use iocp.PacketManager.Rooms.{process_leave_room}
use iocp.PacketManager.Leaving.{after_departure, departed-IsPlaced, process_leave_room_lem}
use iocp.PacketManager.Consistent.{IsConsistent, send_to_all_user-to_each, present-members}

count-remove-le : (i j : ℕ) (xs : List ℕ) → count j (remove i xs) ≤ count j xs
count-remove-le i j xs = ground (arith, count-remove i j xs)

members_of :
    (rooms : List Room) (k : ℕ) (r : Room)
    → get_elem? rooms k ≡ some r
    → members rooms k ≡ r.user_list
members_of rooms k r there = ground arith

module _ {limit : ℕ} (m : PacketManager) (i now : ℕ) (u : User) (v : IsConsistent limit m)
    (here : get_elem? m.user_manager.user_obj_pool i ≡ some u) where
  -- When a user who is in a room asks to leave, in a state of the invariant, the user is taken out
  -- of the room's list, the counter is one less, and the user is logged in and in no room again;
  -- the departure is queued for MySQL, each of those who stay is told once, the request is answered
  -- after that, and the invariant holds.
  pub process_leave_room_departs :
      u.cur_domain_state ≡ room
      → (k : ℕ) × (r : Room) × (u.room_index ≡ pos k)
        × (get_elem? m.room_manager.room_list k ≡ some r)
        × (process_leave_room m i now ≡ some (after_departure m i now u k r))
        × IsConsistent limit (after_departure m i now u k r)
  process_leave_room_departs state =
      let (k, number, lt) = v.seated.inside i u here state in
      let (r, there) = get_elem?_of_lt m.room_manager.room_list k lt in
      let v' = departed-IsPlaced m i now u k r v here there number state in
      (
        k,
        r,
        number,
        there,
        process_leave_room_lem m i now u k r v here there number (
            send_to_all_user-to_each _ _ _ i v'.seated.indexed λ j h.
              present-members k j v'.seated (
                rw
                  (members_of _ k _ (
                    get_elem?-set_self m.room_manager.room_list k _
                      (get_elem?-lt m.room_manager.room_list k there)))
                  h)),
        v',
      )

  -- When a user who is in no room asks to leave, and still holds the number of a room from before,
  -- the request succeeds: the user is then logged in, whatever it was before, the departure is
  -- queued and told, and the room's counter is one less than the length of its list, so that the
  -- invariant is lost.
  pub process_leave_room_unseated :
      (k : ℕ) (r : Room)
      → u.cur_domain_state ≢ room
      → u.room_index ≡ pos k
      → get_elem? m.room_manager.room_list k ≡ some r
      → (process_leave_room m i now ≡ some (after_departure m i now u k r))
        × (get_elem? (after_departure m i now u k r).user_manager.user_obj_pool i
            ≡ some (record u { cur_domain_state = login }))
        × ¬ IsConsistent limit (after_departure m i now u k r)
  process_leave_room_unseated k r out number there = (
    process_leave_room_lem m i now u k r v here there number (
        send_to_all_user-to_each _ _ _ i v'.indexed λ j h. present-members k j v' (
          omega (
            arith,
            ap (count j) (members_of m.room_manager.room_list k r there),
            count-remove-le i j r.user_list,
          ))),
    get_elem?-set_self m.user_manager.user_obj_pool i _
        (get_elem?-lt m.user_manager.user_obj_pool i here),
    λ w. ground (
      arith,
      (w.seated.counted k left_room (
          get_elem?-set_self m.room_manager.room_list k left_room
            (get_elem?-lt m.room_manager.room_list k there))).counter,
      (v.seated.counted k r there).counter,
      length-remove i r.user_list,
      absent,
    ),
  )
    where
      v' :
          Seated limit
            (set m.user_manager.user_obj_pool i (record u { cur_domain_state = login }))
            m.room_manager.room_list
      v' = Seated-outside i (record u { cur_domain_state = login }) v.seated here refl out (λ e. cc)

      left_room : Room
      left_room = record r {
        user_list = remove i r.user_list;
        current_user_count = dec32 r.current_user_count;
      }

      absent : count i r.user_list ≡ 0
      absent = ground (arith, v.seated.seated i k, seat_outside u k out)
