-- ===== src/PacketManager/Loop/Batch.antt =====
-- One batch of `ProcessPacket` (IOCPChatServer/PacketManager.cpp) ends, while no user's bytes hold a
-- header that says a length of 0.
use iocp.Common.{
  ℕ, ◌<◌, ◌≡◌, ◌≢◌, refl, ap, Bool, true, false, Option, none, some, List, [], ◌∷◌, arith, ◌==◌,
  if◌then◌else◌, not, length, get_elem?,
}
use iocp.User.{User, max_packet_data_buffer_size}
use iocp.User.Framing.{pending, IsReceiving}
use iocp.RedisManager.{RedisTask}
use iocp.PacketManager.{PacketManager, PacketTask, get_user}
use iocp.PacketManager.Loop.{
  Outcome, finished, fault, running, process_user, process_task, process_tasks, process_batch,
  swap_buffers,
}
use iocp.PacketManager.Loop.Draining.{process_responses_ends}
use iocp.PacketManager.Loop.Sound.{
  IsSound, bound, After, and_then-After, AllSound, process_system-After, AllSound-AllWithin,
}
use iocp.PacketManager.Loop.Sound.Cutting.{process_user-After}

module _ (time : PacketManager → ℕ) (q : List RedisTask) where
  process_task-After :
      (fuel : ℕ) (task : PacketTask) (m : PacketManager)
      → bound < fuel
      → AllSound q m
      → After (AllSound q) (process_task time fuel task m)
  unfolding process_task
  process_task-After fuel task m h w = by_user (get_user m task.client_index)
    where
      worked : After (AllSound q) (process_user time fuel task.client_index m)
      worked =
          process_user-After time q fuel task.client_index bound m h
            (AllSound-AllWithin time q task.client_index m w)

      by_generation :
          (b : Bool)
          → After
              (AllSound q)
              (if b then finished m else process_user time fuel task.client_index m)
      by_generation true = w
      by_generation false = worked

      by_user :
          (o : Option User)
          → After (AllSound q) (elim o [
            | none ↦ fault
            | some u ↦
                if not (u.generation == task.generation)
                then finished m
                else process_user time fuel task.client_index m
          ])
      by_user none = tt
      by_user (some u) = by_generation (not (u.generation == task.generation))

  process_tasks-After :
      (fuel : ℕ) (tasks : List PacketTask) (m : PacketManager)
      → bound < fuel
      → AllSound q m
      → After (AllSound q) (process_tasks time fuel tasks m)
  unfolding process_tasks
  process_tasks-After fuel [] m h w = w
  process_tasks-After fuel (task ∷ tasks) m h w =
      and_then-After (AllSound q) (AllSound q) _ (process_tasks time fuel tasks)
        (process_task-After fuel task m h w) λ m' w'. process_tasks-After fuel tasks m' h w'

Ends-After : (o : Outcome) → ((w : PacketManager) → o ≢ running w) → After (λ m. Unit) o
Ends-After (finished m) h = tt
Ends-After fault h = tt
Ends-After (running m) h = h m refl

After-Ends : (o : Outcome) (w : PacketManager) → After (λ m. Unit) o → o ≢ running w
After-Ends (finished m) w a e = cc
After-Ends fault w a e = cc
After-Ends (running m) w a e = a

-- When every user's ring is valid and holds no header that says a length of 0, and the fuel is more
-- than the 8096 bytes of a ring and more than the responses of Redis that wait, one batch, with the
-- loop over each user's packets and the loop over the responses, does not run out of fuel, whatever
-- the queues hold: it ends, or a handler faults.
pub process_batch_ends :
    (time : PacketManager → ℕ) (fuel : ℕ) (m w : PacketManager)
    → ((j : ℕ) (u : User)
        → get_elem? m.user_manager.user_obj_pool j ≡ some u
        → IsReceiving u × IsSound (pending u))
    → max_packet_data_buffer_size < fuel
    → length m.redis_manager.response_task < fuel
    → process_batch time fuel m ≢ running w
unfolding process_batch swap_buffers
process_batch_ends time fuel m w sound enough few = After-Ends (process_batch time fuel m) w (
    and_then-After Sound (λ m'. Unit) _ _
      (process_system-After time waiting swapped.system_read_buffer swapped (sound, refl))
      λ m₁ w₁.
        and_then-After Sound (λ m'. Unit) _ _
          (process_tasks-After time waiting fuel m₁.read_buffer
            (record m₁ { system_read_buffer = [] }) enough w₁)
          λ m₂ w₂. Ends-After _ λ m'.
            process_responses_ends time fuel (record m₂ { read_buffer = [] }) m'
              (omega (arith, ap length w₂.1)))
  where
    waiting : List RedisTask
    waiting = m.redis_manager.response_task

    swapped : PacketManager
    swapped = swap_buffers m

    Sound : PacketManager → Type 0
    Sound = AllSound waiting
