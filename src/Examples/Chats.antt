-- ===== src/Examples/Chats.antt =====
-- Applications of the theorems on the network layer and the packet thread together.
use iocp.Common.{
  ℕ, ◌-◌, ◌≡◌, refl, none, false, inc_uint32, some, [], ◌∷◌, ◌++◌, arith, length, get_elem?, take,
}
use iocp.Common.Int.{pos}
use iocp.User.{User, no_domain, max_packet_data_buffer_size}
use iocp.User.Framing.{pending}
use iocp.UserManager.Dictionary.{find}
use iocp.Membership.{members}
use iocp.Membership.Lists.{count}
use iocp.PacketManager.{PacketManager, init}
use iocp.PacketManager.Consistent.{IsConsistent}
use iocp.PacketManager.Loop.{swap_buffers, process_system, finished}
use iocp.Net.{recv_request}
use iocp.Iocp.{CompletionEntry, recv_overlapped}
use iocp.Iocp.Accounts.{IsExact}
use iocp.ChatServer.{ChatServer, handle_entry}
use iocp.ChatServer.Events.{handle_entry_receives, handle_entry_closes}
use iocp.Examples.Data.{server, server-IsConsistent, first_user, inside, inside_user, clock, kim}
use iocp.Examples.Logins.{first_here}
use iocp.Examples.Rooms.{inside-IsConsistent, inside_here}
use iocp.Examples.Servers.{
  all_well, all_well-Works, two_sessions, two_sessions-IsExact, client, two_bytes,
}

abbrev chat_server : ChatServer
chat_server = record { io = two_sessions; packet_manager = server }

handle_entry_receives_example :
    (srv' : ChatServer) × (u' : User) × (handle_entry all_well chat_server two_bytes ≡ some srv')
    × (get_elem? srv'.packet_manager.user_manager.user_obj_pool 0 ≡ some u')
    × (pending u'
        ≡ pending first_user
          ++ take (max_packet_data_buffer_size - length (pending first_user)) (9 ∷ 8 ∷ []))
    × (srv'.packet_manager.write_buffer
        ≡ server.write_buffer
          ++ record { client_index = 0; generation = first_user.generation } ∷ [])
    × (srv'.io.requests ≡ recv_request 0 ∷ [])
    × IsExact srv'.io
    × IsConsistent 8 srv'.packet_manager
handle_entry_receives_example =
    handle_entry_receives all_well chat_server two_bytes 0 client first_user all_well-Works
      two_sessions-IsExact server-IsConsistent refl refl (omega arith) (omega arith) (omega arith)
      refl refl first_here

-- The connection of a user in a room ends.
abbrev in_room : ChatServer
in_room = record { io = two_sessions; packet_manager = inside }

abbrev no_bytes : CompletionEntry
no_bytes = record { key = 0; io_size = 0; overlapped = some (recv_overlapped 0); recv_buf = [] }

quiet_inside : inside.system_write_buffer ≡ []
unfolding init
quiet_inside = refl

handle_entry_closes_example :
    (srv' : ChatServer) × (m' : PacketManager) × (handle_entry all_well in_room no_bytes
      ≡ some srv')
    × (process_system clock
          (swap_buffers srv'.packet_manager).system_read_buffer
          (swap_buffers srv'.packet_manager)
        ≡ finished m')
    × (t : ℕ) × (get_elem? srv'.io.client_infos 0
        ≡ some (record client {
          is_connected = false;
          latest_closed_time_sec = t;
          socket_client = none;
        }))
    × (srv'.io.free_session_list ≡ 0 ∷ 1 ∷ [])
    × (srv'.io.client_cnt ≡ pos 0)
    × (u' : User) × (get_elem? m'.user_manager.user_obj_pool 0 ≡ some u')
    × (u'.cur_domain_state ≡ no_domain)
    × (u'.user_id ≡ [])
    × (pending u' ≡ [])
    × (u'.generation ≡ inc_uint32 inside_user.generation)
    × ((k : ℕ) → count 0 (members m'.room_manager.room_list k) ≡ 0)
    × (find m'.user_manager.user_id_dictionary kim ≡ none)
    × IsExact srv'.io
    × IsConsistent 8 m'
handle_entry_closes_example =
    handle_entry_closes all_well clock in_room no_bytes 0 client inside_user two_sessions-IsExact
      inside-IsConsistent quiet_inside refl refl refl refl refl inside_here (λ e. cc)
