-- ===== src/PacketManager/Reused.antt =====
-- A place in the pool after `ProcessUserDisconnect` of IOCPChatServer/PacketManager.cpp has emptied it:
-- what `mGeneration` guards against, and what `roomIndex`, which nothing resets, lets through.
use iocp.Common.{
  ℕ, ◌+◌, ◌%◌, ◌^◌, ◌<◌, ◌≡◌, ◌≢◌, sym, ◌∙◌, inl, inr, false, some, arith, ◌==◌, get_elem?,
  get_elem?_of_lt,
}
use iocp.User.{User, no_domain, login, room}
use iocp.UserManager
use iocp.PacketManager.{PacketManager, PacketTask, get_user, process_user_disconnect}
use iocp.PacketManager.Rooms.{process_leave_room}
use iocp.PacketManager.Loop.{finished, process_task}
use iocp.PacketManager.Consistent.{IsConsistent}
use iocp.PacketManager.Closing.{process_user_disconnect-IsConsistent}
use iocp.PacketManager.Closing.Forgotten.{wiped}
use iocp.PacketManager.Leaving.{after_departure}
use iocp.PacketManager.Leaving.Outcomes.{process_leave_room_unseated}

next_differs : (g : ℕ) → g < 2 ^ 32 → ((g + 1) % 2 ^ 32 == g) ≡ false
next_differs g small = ground arith

process_task_stale :
    (time : PacketManager → ℕ) (fuel : ℕ) (m : PacketManager) (task : PacketTask) (u : User)
    → get_elem? m.user_manager.user_obj_pool task.client_index ≡ some u
    → (u.generation == task.generation) ≡ false
    → process_task time fuel task m ≡ finished m
unfolding process_task get_user UserManager.get_user_by_conn_idx
process_task_stale time fuel m task u here differ = ground (arith, here, differ)

-- In a state of the invariant, right after the connection of a user who had logged in has ended, a
-- task with the user's generation of before, as one that is queued while it lasts has, is passed
-- over: nothing is read for it and no packet is handled.
pub process_user_disconnect-process_task :
    {limit : ℕ} (time : PacketManager → ℕ) (fuel : ℕ) (m : PacketManager) (i : ℕ) (u : User)
    → IsConsistent limit m
    → get_elem? m.user_manager.user_obj_pool i ≡ some u
    → u.cur_domain_state ≢ no_domain
    → u.generation < 2 ^ 32
    → (m' : PacketManager) × (process_user_disconnect m i ≡ some m')
      × (process_task time fuel (record { client_index = i; generation = u.generation }) m'
          ≡ finished m')
process_user_disconnect-process_task time fuel m i u v here known small =
    let (m', e, v', how) = process_user_disconnect-IsConsistent m i u v here in
    elim how [
      | inl (state, same, quiet) ↦ absurd (known state)
      | inr c ↦ (
        m',
        e,
        process_task_stale time fuel m' _ (wiped u) c.user (next_differs u.generation small),
      )
    ]

-- In a state of the invariant, let the connection of a user in a room end, and let a packet
-- `ROOM_LEAVE_REQUEST` be handled for the next connection that is given the same place. Both
-- succeed, and after them the user at the place is logged in, with no name and no password asked
-- for, and the invariant is lost.
pub process_user_disconnect-process_leave_room :
    {limit : ℕ} (m : PacketManager) (i now : ℕ) (u : User)
    → IsConsistent limit m
    → get_elem? m.user_manager.user_obj_pool i ≡ some u
    → u.cur_domain_state ≡ room
    → (m' : PacketManager) × (m'' : PacketManager) × (process_user_disconnect m i ≡ some m')
      × (process_leave_room m' i now ≡ some m'')
      × (get_elem? m''.user_manager.user_obj_pool i
          ≡ some (record (wiped u) { cur_domain_state = login }))
      × ¬ IsConsistent limit m''
process_user_disconnect-process_leave_room m i now u v here state =
    let (k, number, lt) = v.seated.inside i u here state in
    let (m', e, v', how) = process_user_disconnect-IsConsistent m i u v here in
    elim how [
      | inl (none_yet, same, quiet) ↦ absurd (let p : no_domain ≡ room = sym none_yet ∙ state in cc)
      | inr c ↦
          let (r, there) = get_elem?_of_lt m'.room_manager.room_list k (omega (arith, c.kept)) in
          let (gone, after, lost) =
            process_leave_room_unseated m' i now (wiped u) v' c.user k r (λ q. cc) number there in
          (m', after_departure m' i now (wiped u) k r, e, gone, after, lost)
    ]
