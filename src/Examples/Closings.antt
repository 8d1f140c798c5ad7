-- ===== src/Examples/Closings.antt =====
-- Applications of the theorems on arriving bytes, on the end of connections, on places used again,
-- and on the states that a run reaches.
use iocp.Common.{◌-◌, ◌^◌, ◌<◌, ◌≡◌, ◌⊎◌, refl, some, [], ◌∷◌, ◌++◌, arith, length, get_elem?, take}
use iocp.Packet.ErrorCode
use iocp.Packet.Wire.{room_enter_response}
use iocp.User
use iocp.User.{User, no_domain, login, room, max_packet_data_buffer_size}
use iocp.User.Framing.{pending}
use iocp.PacketManager.{
  PacketManager, send_packet, put_user, receive_packet_data, process_user_disconnect,
}
use iocp.PacketManager.Loop.{finished, process_task}
use iocp.PacketManager.Rooms.{process_leave_room}
use iocp.PacketManager.Consistent.{IsConsistent}
use iocp.PacketManager.Closing.{process_user_disconnect-IsConsistent}
use iocp.PacketManager.Closing.Forgotten.{wiped, IsClosed, tasks_of}
use iocp.PacketManager.Reused.{
  process_user_disconnect-process_task, process_user_disconnect-process_leave_room,
}
use iocp.PacketManager.Receiving.{receive_packet_data_lem}
use iocp.PacketManager.Reach.{Reached, start, next, enters, cuts, Reached-IsConsistent}
use iocp.Examples.Data.{
  memory, sized, server, server-IsConsistent, first_user, enter_packet, inside, inside_user,
}
use iocp.Examples.Logins.{first_here}
use iocp.Examples.Rooms.{inside-IsConsistent, inside_here, refused_entry}

process_user_disconnect-IsConsistent_example :
    (m' : PacketManager) × (process_user_disconnect inside 0 ≡ some m')
    × IsConsistent 8 m'
    × ((inside_user.cur_domain_state ≡ no_domain)
          × (m'.user_manager ≡ inside.user_manager)
          × (tasks_of 0 m'.write_buffer ≡ 0)
        ⊎ IsClosed 0 inside_user inside m')
process_user_disconnect-IsConsistent_example =
    process_user_disconnect-IsConsistent inside 0 inside_user inside-IsConsistent inside_here

young : inside_user.generation < 2 ^ 32
unfolding User.init User.new_user
young = omega arith

process_user_disconnect-process_task_example :
    (m' : PacketManager) × (process_user_disconnect inside 0 ≡ some m')
    × (process_task (λ m. 7) 3 (record { client_index = 0; generation = inside_user.generation }) m'
        ≡ finished m')
process_user_disconnect-process_task_example =
    process_user_disconnect-process_task (λ m. 7) 3 inside 0 inside_user inside-IsConsistent
      inside_here (λ e. cc) young

process_user_disconnect-process_leave_room_example :
    (m' : PacketManager) × (m'' : PacketManager) × (process_user_disconnect inside 0 ≡ some m')
    × (process_leave_room m' 0 7 ≡ some m'')
    × (get_elem? m''.user_manager.user_obj_pool 0
        ≡ some (record (wiped inside_user) { cur_domain_state = login }))
    × ¬ IsConsistent 8 m''
process_user_disconnect-process_leave_room_example =
    process_user_disconnect-process_leave_room inside 0 7 inside_user inside-IsConsistent
      inside_here refl

receive_packet_data_lem_example :
    (m' : PacketManager) × (u' : User) × (receive_packet_data server 0 2 (some (9 ∷ 0 ∷ []))
      ≡ some m')
    × (get_elem? m'.user_manager.user_obj_pool 0 ≡ some u')
    × (pending u'
        ≡ pending first_user
          ++ take (max_packet_data_buffer_size - length (pending first_user)) (9 ∷ 0 ∷ []))
    × (m'.write_buffer
        ≡ server.write_buffer
          ++ record { client_index = 0; generation = first_user.generation } ∷ [])
    × IsConsistent 8 m'
receive_packet_data_lem_example =
    receive_packet_data_lem server 0 first_user (9 ∷ 0 ∷ []) server-IsConsistent first_here
      (omega arith)

abbrev pub refused : PacketManager
refused = send_packet server 0 (room_enter_response ErrorCode.enter_room_invalid_user_status)

a_run : Reached memory 4 refused
a_run = next 0 first_user server refused start first_here (enters 7 enter_packet refused_entry)

-- Then `GetPacket` is called for the same user.
abbrev cut : PacketManager
cut = put_user refused 0 (User.get_packet first_user).1

refused_here : get_elem? refused.user_manager.user_obj_pool 0 ≡ some first_user
unfolding send_packet
refused_here = first_here

Reached-IsConsistent_example : IsConsistent 8 cut
Reached-IsConsistent_example =
    Reached-IsConsistent cut (omega arith) sized
      (next 0 first_user refused cut a_run refused_here (cuts refl))
