-- ===== src/PacketManager/Loop/Draining.antt =====
-- The loop of `ProcessPacket` (IOCPChatServer/PacketManager.cpp) over the responses of Redis ends.
use iocp.Common.{
  ℕ, zero, suc, ◌<◌, ◌≡◌, ◌≢◌, inl, inr, refl, sym, ap, ◌∙◌, Option, none, some, List, [], ◌∷◌,
  arith, ◌==◌, if◌then◌else◌, length, Bool-cases,
}
use iocp.Packet.PacketId
use iocp.RedisManager.{RedisTask, take_response_task}
use iocp.PacketManager.{PacketManager}
use iocp.PacketManager.Loop.{
  Outcome, finished, running, and_then, of_handler, process_recv_packet, process_responses,
}
use iocp.PacketManager.Loop.Keeping.{responses, process_recv_packet-Keeps}

-- The state after the first response has been taken.
abbrev taken : PacketManager → List RedisTask → PacketManager
taken m rest = record m { redis_manager = record m.redis_manager { response_task = rest } }

abbrev Ends : Outcome → Type 0
Ends o = (w : PacketManager) → o ≢ running w

and_then-Ends :
    (m : PacketManager) (o : Option PacketManager) (f : PacketManager → Outcome)
    → ((m' : PacketManager) → o ≡ some m' → Ends (f m'))
    → Ends (and_then (of_handler o) f)
and_then-Ends m none f h w e = cc
and_then-Ends m (some m') f h w e = h m' refl w e

module _ (time : PacketManager → ℕ) where
  empty_lem :
      (fuel : ℕ) (m : PacketManager)
      → responses m ≡ []
      → process_responses time (suc fuel) m ≡ finished m
  unfolding process_responses take_response_task
  empty_lem fuel m e = ground (arith, e)

  round_lem :
      (fuel : ℕ) (m : PacketManager) (t : RedisTask) (rest : List RedisTask)
      → responses m ≡ t ∷ rest
      → process_responses time (suc fuel) m ≡ (
          if t.task_id == PacketId.redis_invalid
          then finished (taken m rest)
          else and_then
              (of_handler (
                process_recv_packet time
                  (taken m rest)
                  t.user_index
                  t.task_id
                  t.data_size
                  t.task_data))
              (process_responses time fuel))
  unfolding process_responses take_response_task
  round_lem fuel m t rest e = ground (arith, e)

  by_queue :
      (fuel : ℕ) (m : PacketManager) (q : List RedisTask)
      → responses m ≡ q
      → ((m' : PacketManager)
          → length (responses m') < fuel
          → Ends (process_responses time fuel m'))
      → length (responses m) < suc fuel
      → Ends (process_responses time (suc fuel) m)
  by_queue fuel m [] e again h w r = ground (arith, empty_lem fuel m e, r)
  by_queue fuel m (t ∷ rest) e again h w r =
      elim (Bool-cases (t.task_id == PacketId.redis_invalid)) [
        | inl bad ↦ ground (arith, round_lem fuel m t rest e, r, bad)
        | inr good ↦
            and_then-Ends m
              (process_recv_packet time (taken m rest) t.user_index t.task_id t.data_size
                t.task_data)
              (process_responses time fuel)
              (λ m' k. again m' (
                omega (
                  arith,
                  ap length (
                      process_recv_packet-Keeps time (taken m rest) t.user_index t.task_id
                        t.data_size t.task_data m' k),
                  ap length e,
                )))
              w ((rw good at (sym (round_lem fuel m t rest e))) ∙ r)
      ]

  -- With more fuel than there are responses in the queue, the loop over them does not run out of
  -- it: it ends, or a handler faults.
  pub process_responses_ends :
      (fuel : ℕ) (m : PacketManager) (w : PacketManager)
      → length m.redis_manager.response_task < fuel
      → process_responses time fuel m ≢ running w
  process_responses_ends zero m w h = absurd (omega arith)
  process_responses_ends (suc fuel) m w h =
      by_queue fuel m m.redis_manager.response_task refl
        (λ m' h' w'. process_responses_ends fuel m' w' h') h w
