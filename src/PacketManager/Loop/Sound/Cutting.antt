-- ===== src/PacketManager/Loop/Sound/Cutting.antt =====
-- The loop of `ProcessPacket` (IOCPChatServer/PacketManager.cpp) over the packets of one user ends, while
-- no user's bytes hold a header that says a length of 0.
use iocp.Common.{
  ℕ, zero, suc, ◌≤◌, ◌<◌, ◌≡◌, refl, sym, ap, inl, inr, subst, Bool, true, false, none, some, List,
  arith, ◌==◌, if◌then◌else◌, length, length-drop, drop, get_elem?, Option-cases,
}
use iocp.Packet.{PacketInfo, packet_header_length, uint16_at}
use iocp.User
use iocp.User.{User, max_packet_data_buffer_size}
use iocp.User.Framing.{pending, TookPacket, get_packet-TookPacket}
use iocp.UserManager
use iocp.RedisManager.{RedisTask}
use iocp.PacketManager.{PacketManager, get_user, put_user}
use iocp.PacketManager.Loop.{
  finished, fault, and_then, of_handler, process_packet_info, process_user,
}
use iocp.PacketManager.Loop.Rounds.{process_user_ends}
use iocp.PacketManager.Loop.Pools.{pool}
use iocp.PacketManager.Loop.Changes.{set_cases}
use iocp.PacketManager.Loop.Sound.{
  IsSound, incomplete, packet, Within, clear-Within, After, and_then-After, AllSound, AllWithin,
  handler-After, AllWithin-AllSound,
}

module _ (time : PacketManager → ℕ) (q : List RedisTask) where
  no_user :
      (fuel i : ℕ) (m : PacketManager)
      → get_elem? (pool m) i ≡ none
      → process_user time (suc fuel) i m ≡ fault
  unfolding process_user get_user UserManager.get_user_by_conn_idx
  no_user fuel i m e = ground (arith, e)

  round_lem :
      (fuel i : ℕ) (m : PacketManager) (u : User)
      → get_elem? (pool m) i ≡ some u
      → let (info, u') = User.get_packet u in
        process_user time (suc fuel) i m ≡ (
          if info.packet_id == 0
          then finished (put_user m i u')
          else and_then
              (of_handler
                (process_packet_info time (put_user m i u') (record info { client_index = i })))
              (process_user time fuel i))
  unfolding process_user get_user UserManager.get_user_by_conn_idx
  round_lem fuel i m u here = ground (arith, here)

  -- The packet at the front is cut out.
  cut-AllWithin :
      (i n : ℕ) (m : PacketManager) (u : User)
      → get_elem? (pool m) i ≡ some u
      → packet_header_length ≤ length (pending u)
      → 0 < uint16_at (pending u) 0
      → uint16_at (pending u) 0 ≤ length (pending u)
      → IsSound (drop (uint16_at (pending u) 0) (pending u))
      → AllWithin q i (suc n) m
      → AllWithin q i n (put_user m i (User.get_packet u).1)
  unfolding put_user UserManager.put_user
  cut-AllWithin i n m u here whole positive fits s (all, e) = (
    λ j w there. elim (set_cases (pool m) i j u' w there) [
      | inl (at, same) ↦
          subst (λ x. Within i n j x.packet_data_buffer) same
            (
              (took.still, subst IsSound (sym took.rest) s),
              λ back. omega (
                arith,
                ap length took.rest,
                length-drop (uint16_at (pending u) 0) (pending u),
                (all i u here).1 refl,
              ),
            )
      | inr (ne, kept) ↦ ((all j w kept).0, λ back. absurd (ne (sym back)))
    ],
    e,
  )
    where
      u' : User
      u' = (User.get_packet u).1

      took : TookPacket u (User.get_packet u)
      took = get_packet-TookPacket u (all i u here).0.0 whole fits

  by_stream :
      (fuel i n : ℕ) (m : PacketManager) (u : User)
      → get_elem? (pool m) i ≡ some u
      → ((k : ℕ) (m' : PacketManager)
          → k < n
          → AllWithin q i k m'
          → After (AllSound q) (process_user time fuel i m'))
      → AllWithin q i n m
      → IsSound (pending u)
      → After (AllSound q) (process_user time (suc fuel) i m)
  unfolding process_packet_info
  by_stream fuel i n m u here again w (incomplete _ short) =
      subst (After (AllSound q))
        (sym (process_user_ends time fuel m i u here (w.0 i u here).0.0 short))
        (AllWithin-AllSound time q i n m w)
  by_stream fuel i zero m u here again w (packet _ whole positive fits rest) =
      absurd (omega (arith, (w.0 i u here).1 refl, whole))
  by_stream fuel i (suc n) m u here again w (packet _ whole positive fits rest) =
      subst (After (AllSound q)) (sym (round_lem fuel i m u here)) (by_id (info.packet_id == 0))
    where
      info : PacketInfo
      info = (User.get_packet u).0

      cut : PacketManager
      cut = put_user m i (User.get_packet u).1

      cut_within : AllWithin q i n cut
      cut_within = cut-AllWithin i n m u here whole positive fits rest w

      by_id :
          (b : Bool)
          → After (AllSound q) (
              if b
              then finished cut
              else and_then
                  (of_handler (process_packet_info time cut (record info { client_index = i })))
                  (process_user time fuel i))
      by_id true = AllWithin-AllSound time q i n cut cut_within
      by_id false =
          and_then-After (AllWithin q i n) (AllSound q) _ (process_user time fuel i)
            (handler-After time q (Within i n) (clear-Within i n) cut i _ _ info.data_ptr
              cut_within)
            λ m' w'. again n m' (omega arith) w'

  pub process_user-After :
      (fuel i n : ℕ) (m : PacketManager)
      → n < fuel
      → AllWithin q i n m
      → After (AllSound q) (process_user time fuel i m)
  process_user-After zero i n m h w = absurd (omega arith)
  process_user-After (suc fuel) i n m h w = elim (Option-cases (get_elem? (pool m) i)) [
    | inl absent ↦ subst (After (AllSound q)) (sym (no_user fuel i m absent)) tt
    | inr (u, here) ↦
        by_stream fuel i n m u here
          (λ k m' less w'. process_user-After fuel i k m' (omega arith) w') w (w.0 i u here).0.1
  ]
