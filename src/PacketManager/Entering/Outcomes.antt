-- ===== src/PacketManager/Entering/Outcomes.antt =====
-- `ProcessEnterRoom` of IOCPChatServer/PacketManager.cpp in the states of the invariant: every way it
-- can end.
use native.Mathlib.Decide.{dec_lt}
use iocp.Common.{
  set_same, ℕ, ◌≤◌, ◌<◌, ◌≡◌, ◌≢◌, refl, ◌⊎◌, inl, inr, none, some, List, arith, length, get_elem?,
  get_elem?_of_lt, Option-cases,
}
use iocp.Common.Int.{ℤ, pos}
use iocp.Packet.ErrorCode
use iocp.Packet.Wire.{room_enter_response}
use iocp.User.{User, DomainState, no_domain, login, room}
use iocp.UserManager
use iocp.Room.{Room}
use iocp.RoomManager
use iocp.RoomManager.{get_room_by_number}
use iocp.PacketManager.{PacketManager, send_packet, get_user, put_user}
use iocp.PacketManager.Rooms.{process_enter_room, enter_as}
use iocp.PacketManager.Entering.{
  asked_room, after_entry, process_enter_room_admits, process_enter_room_full,
}
use iocp.PacketManager.Consistent.{IsConsistent, get_room-found}

-- What an entry takes: the user is logged in and in no room, and asks for a room with a free place.
abbrev pub Admitted : ℕ → PacketManager → User → List ℕ → Type 0
Admitted limit m u p =
    (k : ℕ) × (r : Room) × (u.cur_domain_state ≡ login)
    × (asked_room p ≡ pos k)
    × (get_elem? m.room_manager.room_list k ≡ some r)
    × (length r.user_list < limit)

enter_user_nowhere :
    (rooms : RoomManager.RoomManager) (number : ℤ) (i : ℕ) (u : User)
    → get_room_by_number rooms number ≡ none
    → RoomManager.enter_user rooms number i u ≡ some (ErrorCode.room_invalid_index, rooms, u)
unfolding RoomManager.enter_user
enter_user_nowhere rooms number i u absent = rw (absent, RoomManager.enter_user)

-- Why an entry is refused, with the code that says so.
pub data Refused (limit : ℕ) (m : PacketManager) (u : User) (p : List ℕ) (result : ℕ) : Type 0 where
  not_logged_in :
      u.cur_domain_state ≢ login
      → result ≡ ErrorCode.enter_room_invalid_user_status
      → Refused limit m u p result
  no_such_room :
      u.cur_domain_state ≡ login
      → get_room_by_number m.room_manager (asked_room p) ≡ none
      → result ≡ ErrorCode.room_invalid_index
      → Refused limit m u p result
  room_full :
      (k : ℕ) (r : Room)
      → u.cur_domain_state ≡ login
      → asked_room p ≡ pos k
      → get_elem? m.room_manager.room_list k ≡ some r
      → limit ≤ length r.user_list
      → result ≡ ErrorCode.enter_room_full_user
      → Refused limit m u p result

module _ {limit : ℕ} (m : PacketManager) (i now : ℕ) (p : List ℕ) (u : User)
    (v : IsConsistent limit m) (here : get_elem? m.user_manager.user_obj_pool i ≡ some u) where
  refused_status :
      (s : DomainState)
      → u.cur_domain_state ≡ s
      → s ≢ login
      → process_enter_room m i now p
        ≡ some (send_packet m i (room_enter_response ErrorCode.enter_room_invalid_user_status))
  unfolding process_enter_room get_user UserManager.get_user_by_conn_idx
  refused_status no_domain e ne = rw (here, e)
  refused_status room e ne = rw (here, e)
  refused_status login e ne = absurd (ne refl)

  refused_number :
      u.cur_domain_state ≡ login
      → get_room_by_number m.room_manager (asked_room p) ≡ none
      → process_enter_room m i now p
        ≡ some (send_packet m i (room_enter_response ErrorCode.room_invalid_index))
  unfolding process_enter_room enter_as get_user UserManager.get_user_by_conn_idx put_user
      UserManager.put_user
  refused_number state absent = rw (
    here,
    state,
    enter_user_nowhere m.room_manager (asked_room p) i u absent,
    set_same m.user_manager.user_obj_pool i here,
  )

  -- In a state of the invariant, a request to enter by a user who is not logged in or is in a room,
  -- for a number that no room has, or for a room at its limit, is answered with the code of that
  -- reason, and changes nothing else.
  pub process_enter_room_refuses :
      (result : ℕ)
      → Refused limit m u p result
      → process_enter_room m i now p ≡ some (send_packet m i (room_enter_response result))
  process_enter_room_refuses result (not_logged_in ne e) = rw e (refused_status _ refl ne)
  process_enter_room_refuses result (no_such_room state absent e) =
      rw e (refused_number state absent)
  process_enter_room_refuses result (room_full k r state asked there full e) =
      rw e (process_enter_room_full m i now p u k r v here there state asked full)

  -- Every request to enter is admitted or refused.
  pub entry_cases : Admitted limit m u p ⊎ ((result : ℕ) × Refused limit m u p result)
  entry_cases = by_state u.cur_domain_state refl
    where
      by_room :
          u.cur_domain_state ≡ login
          → (k : ℕ) → get_room_by_number m.room_manager (asked_room p) ≡ some k
          → Admitted limit m u p ⊎ ((result : ℕ) × Refused limit m u p result)
      by_room state k found =
          let (asked, lt) = get_room-found (asked_room p) k v found in
          let (r, there) = get_elem?_of_lt m.room_manager.room_list k lt in
          elim (dec_lt (length r.user_list) limit) [
            | yes free ↦ inl (k, r, state, asked, there, free)
            | no full ↦
                inr (
                  ErrorCode.enter_room_full_user,
                  room_full k r state asked there (omega arith) refl,
                )
          ]

      by_state :
          (s : DomainState)
          → u.cur_domain_state ≡ s
          → Admitted limit m u p ⊎ ((result : ℕ) × Refused limit m u p result)
      by_state no_domain e = inr (_, not_logged_in (λ q. cc) refl)
      by_state room e = inr (_, not_logged_in (λ q. cc) refl)
      by_state login e = elim (Option-cases (get_room_by_number m.room_manager (asked_room p))) [
        | inl absent ↦ inr (_, no_such_room e absent refl)
        | inr (k, found) ↦ by_room e k found
      ]

-- In a state of the invariant a request to enter by any client of the pool is dealt with without a
-- fault, and leaves a state of the invariant: the lists of the rooms and what the users know of
-- themselves agree, and no room is over its limit.
pub process_enter_room-IsConsistent :
    {limit : ℕ} (m : PacketManager) (i now : ℕ) (p : List ℕ)
    → IsConsistent limit m
    → i < length m.user_manager.user_obj_pool
    → (m' : PacketManager) × (process_enter_room m i now p ≡ some m') × IsConsistent limit m'
unfolding send_packet
process_enter_room-IsConsistent m i now p v lt =
    let (u, here) = get_elem?_of_lt m.user_manager.user_obj_pool i lt in
    elim (entry_cases m i now p u v here) [
      | inl (k, r, state, asked, there, free) ↦
          let (e, v') = process_enter_room_admits m i now p u k r v here there state asked free in
          (after_entry m i now u k r, e, v')
      | inr (result, why) ↦ (
        send_packet m i (room_enter_response result),
        process_enter_room_refuses m i now p u v here result why,
        v,
      )
    ]
