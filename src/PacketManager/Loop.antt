-- ===== src/PacketManager/Loop.antt =====
-- `ProcessRecvPacket` with the handlers that `RegisterHandlers` enters, and one round of the loop of
-- `ProcessPacket` (IOCPChatServer/PacketManager.cpp). What `time(nullptr)` returns is the parameter
-- `time`, of the state at the call.
pub mod Leading
pub mod Keeping
pub mod Draining
pub mod Endless
pub mod Rounds
pub mod Pools
pub mod Changes
pub mod Sound
pub mod Batch
use iocp.Common.{
  ℕ, zero, suc, ◌+◌, ◌%◌, ◌^◌, Bool, true, false, not, ◌&&◌, ◌||◌, Option, none, some, List, [],
  ◌∷◌, ◌++◌, ◌>>=◌, ◌==◌, if◌then◌else◌,
}
use iocp.Packet.{PacketInfo}
use iocp.Packet.PacketId
use iocp.User
use iocp.RedisManager
use iocp.RedisManager.{has_response_task, take_response_task}
use iocp.PacketManager.{
  PacketManager, PacketTask, get_user, put_user, process_user_connect, process_user_disconnect,
}
use iocp.PacketManager.Login.{process_login, process_login_db_result}
use iocp.PacketManager.Rooms.{process_enter_room, process_leave_room, process_room_chat_message}

-- What a piece of the loop comes to: it ends, faults, or is still running when the fuel is used up.
pub data Outcome : Type 0 where
  finished : PacketManager → Outcome
  fault : Outcome
  running : PacketManager → Outcome

abbrev pub and_then : Outcome → (PacketManager → Outcome) → Outcome
and_then (finished m) f = f m
and_then fault f = fault
and_then (running m) f = running m

abbrev pub of_handler : Option PacketManager → Outcome
of_handler none = fault
of_handler (some m) = finished m

-- What the thread does next.
pub data Turn : Type 0 where
  waiting : Turn
  ended : Turn
  ran : Outcome → Turn

abbrev is_nil {ℓ} : {A : Type ℓ} → List A → Bool
is_nil [] = true
is_nil (x ∷ xs) = false

-- The queues swapped under the lock.
unfoldable pub swap_buffers : PacketManager → PacketManager
swap_buffers m = record m {
  system_write_buffer = m.system_read_buffer;
  system_read_buffer = m.system_write_buffer;
  write_buffer = m.read_buffer;
  read_buffer = m.write_buffer;
}

module _ (time : PacketManager → ℕ) where
  -- The look-up in `mPacketHandlers`, and the call; an unknown number is only logged.
  unfoldable pub process_recv_packet : PacketManager → ℕ → ℕ → ℕ → List ℕ → Option PacketManager
  process_recv_packet m client_index_ packet_id_ packet_size_ p =
      if packet_id_ == PacketId.sys_user_connect
      then process_user_connect m client_index_
      else if packet_id_ == PacketId.sys_user_disconnect
      then process_user_disconnect m client_index_
      else if packet_id_ == PacketId.login_request
      then process_login m client_index_ packet_size_ p
      else if packet_id_ == PacketId.redis_response_login
      then process_login_db_result m client_index_ (time m) p
      else if packet_id_ == PacketId.room_enter_request
      then process_enter_room m client_index_ (time m) p
      else if packet_id_ == PacketId.room_leave_request
      then process_leave_room m client_index_ (time m)
      else if packet_id_ == PacketId.room_chat_request
      then process_room_chat_message m client_index_ (time m) p
      else some m

  -- `PacketId` and `DataSize` are narrowed to `UINT16` at the call.
  unfoldable pub process_packet_info : PacketManager → PacketInfo → Option PacketManager
  process_packet_info m info =
      process_recv_packet m info.client_index (info.packet_id % 2 ^ 16) (info.data_size % 2 ^ 16)
        info.data_ptr

  unfoldable pub process_system : List PacketInfo → PacketManager → Outcome
  process_system [] m = finished m
  process_system (info ∷ infos) m =
      and_then (of_handler (process_packet_info m info)) (process_system infos)

  -- `GetPacket` until there is no packet, each handled before the next is cut out. The code's call
  -- before its loop is the first round here.
  unfoldable pub process_user : ℕ → ℕ → PacketManager → Outcome
  process_user zero i m = running m
  process_user (suc fuel) i m = elim (get_user m i) [
    | none ↦ fault
    | some u ↦
        let info = (User.get_packet u).0 in
        let cut = put_user m i (User.get_packet u).1 in
        elim (info.packet_id == 0) [
          | true ↦ finished cut
          | false ↦
              and_then (of_handler (process_packet_info cut (record info { client_index = i })))
                (process_user fuel i)
        ]
  ]

  -- A task of an earlier connection is passed over.
  unfoldable pub process_task : ℕ → PacketTask → PacketManager → Outcome
  process_task fuel task m = elim (get_user m task.client_index) [
    | none ↦ fault
    | some u ↦
        if not (u.generation == task.generation)
        then finished m
        else process_user fuel task.client_index m
  ]

  unfoldable pub process_tasks : ℕ → List PacketTask → PacketManager → Outcome
  process_tasks fuel [] m = finished m
  process_tasks fuel (task ∷ tasks) m =
      and_then (process_task fuel task m) (process_tasks fuel tasks)

  -- `TakeResponseTask` until it gives `INVALID`.
  unfoldable pub process_responses : ℕ → PacketManager → Outcome
  process_responses zero m = running m
  process_responses (suc fuel) m =
      let task = (take_response_task m.redis_manager).0 in
      let taken = record m { redis_manager = (take_response_task m.redis_manager).1 } in
      elim (task.task_id == PacketId.redis_invalid) [
        | true ↦ finished taken
        | false ↦
            and_then
              (of_handler (
                process_recv_packet taken task.user_index task.task_id task.data_size
                  task.task_data))
              (process_responses fuel)
      ]

  unfoldable pub process_batch : ℕ → PacketManager → Outcome
  process_batch fuel m =
      let swapped = swap_buffers m in
      and_then (process_system swapped.system_read_buffer swapped) λ m₁.
        and_then (process_tasks fuel m₁.read_buffer (record m₁ { system_read_buffer = [] }))
          λ m₂. process_responses fuel (record m₂ { read_buffer = [] })

  -- The condition of the wait, the test for the end, one batch.
  unfoldable pub process_packet : ℕ → PacketManager → Turn
  process_packet fuel m =
      if not m.is_run_process_thread
      then ended
      else if is_nil m.system_write_buffer
          && is_nil m.write_buffer
          && not (has_response_task m.redis_manager)
      then waiting
      else ran (process_batch fuel m)
