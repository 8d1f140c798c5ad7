-- ===== src/PacketManager/Loop/Sound.antt =====
-- `ProcessPacket` (IOCPChatServer/PacketManager.cpp) over the packets of one user, while no user's
-- bytes hold a header that says a length of 0: what holds of its state. Cutting: that the loop ends.
pub mod Cutting
use iocp.Common.{
  ℕ, zero, suc, ◌≤◌, ◌<◌, ◌≡◌, refl, sym, ap, ◌∙◌, ◌⊎◌, inl, inr, subst, Bool, true, false, Option,
  none, some, List, [], ◌∷◌, arith, ◌==◌, if◌then◌else◌, length, length-drop, drop, get_elem?,
  Option-cases,
}
use iocp.RingBuffer
use iocp.RingBuffer.{RingBuffer}
use iocp.RingBuffer.Valid.{IsValid, clear-IsValid, size-head}
use iocp.RingBuffer.Contents.{contents, length-contents}
use iocp.Packet.{PacketInfo, packet_header_length, uint16_at}
use iocp.User
use iocp.User.{User, max_packet_data_buffer_size}
use iocp.User.Framing.{pending, TookPacket, get_packet-TookPacket}
use iocp.UserManager
use iocp.RedisManager.{RedisTask}
use iocp.PacketManager.{PacketManager, get_user, put_user}
use iocp.PacketManager.Loop.{
  Outcome, finished, fault, running, and_then, of_handler, process_packet_info, process_recv_packet,
  process_system, process_user,
}
use iocp.PacketManager.Loop.Keeping.{responses, process_recv_packet-Keeps}
use iocp.PacketManager.Loop.Rounds.{process_user_ends}
use iocp.PacketManager.Loop.Pools.{pool, Becomes}
use iocp.PacketManager.Loop.Changes.{Changed-keeps, unchanged, set_cases}
use iocp.PacketManager.Loop.Changes.Dispatch.{process_recv_packet-Changed}

-- A stream of bytes in which no header says a length of 0, cut where the headers say.
pub data IsSound : List ℕ → Type 0 where
  incomplete :
      (s : List ℕ) → (length s < packet_header_length) ⊎ (length s < uint16_at s 0) → IsSound s
  packet :
      (s : List ℕ)
      → packet_header_length ≤ length s
      → 0 < uint16_at s 0
      → uint16_at s 0 ≤ length s
      → IsSound (drop (uint16_at s 0) s)
      → IsSound s

abbrev pub bound : ℕ
bound = max_packet_data_buffer_size

-- A valid ring with such a stream.
abbrev pub SoundRing : ℕ → RingBuffer → Type 0
SoundRing j r = IsValid bound r × IsSound (contents bound r)

-- The ring at `i` holds at most `n` bytes besides.
abbrev pub Within : ℕ → ℕ → ℕ → RingBuffer → Type 0
Within i n j r = SoundRing j r × (j ≡ i → length (contents bound r) ≤ n)

length-clear : (r : RingBuffer) → length (contents bound (RingBuffer.clear r)) ≡ 0
unfolding RingBuffer.clear RingBuffer.size
length-clear r = ground (arith, length-contents bound (RingBuffer.clear r))

pub clear-SoundRing : (j : ℕ) (r : RingBuffer) → SoundRing j r → SoundRing j (RingBuffer.clear r)
clear-SoundRing j r (v, s) = (clear-IsValid v, incomplete _ (inl (omega (arith, length-clear r))))

pub clear-Within : (i n j : ℕ) (r : RingBuffer) → Within i n j r → Within i n j (RingBuffer.clear r)
clear-Within i n j r (s, few) = (clear-SoundRing j r s, λ e. omega (arith, length-clear r))

-- What a piece of the loop leaves, where it does not run out of fuel.
abbrev pub After : (PacketManager → Type 0) → Outcome → Type 0
After Q (finished m) = Q m
After Q fault = Unit
After Q (running m) = ⊥

pub and_then-After :
    (Q R : PacketManager → Type 0) (o : Outcome) (f : PacketManager → Outcome)
    → After Q o
    → ((m : PacketManager) → Q m → After R (f m))
    → After R (and_then o f)
and_then-After Q R (finished m) f q next = next m q
and_then-After Q R fault f q next = tt
and_then-After Q R (running m) f q next = absurd q

-- The state while a batch is worked on: the rings, and the responses of Redis that wait.
abbrev pub Working : List RedisTask → (ℕ → RingBuffer → Type 0) → PacketManager → Type 0
Working q P m =
    ((j : ℕ) (u : User) → get_elem? (pool m) j ≡ some u → P j u.packet_data_buffer)
    × (responses m ≡ q)

abbrev pub AllSound : List RedisTask → PacketManager → Type 0
AllSound q = Working q SoundRing

abbrev pub AllWithin : List RedisTask → ℕ → ℕ → PacketManager → Type 0
AllWithin q i n = Working q (Within i n)

module _ (time : PacketManager → ℕ) (q : List RedisTask) where
  module _ (P : ℕ → RingBuffer → Type 0)
      (clears : (j : ℕ) (r : RingBuffer) → P j r → P j (RingBuffer.clear r)) where
    moves :
        (j : ℕ) (u u' : User) → Becomes u u' → P j u.packet_data_buffer → P j u'.packet_data_buffer
    moves j u u' (place, inl same) p = subst (P j) (sym same) p
    moves j u u' (place, inr cleared) p =
        subst (P j) (sym cleared) (clears j u.packet_data_buffer p)

    pub handler-After :
        (m : PacketManager) (i id n : ℕ) (p : List ℕ)
        → Working q P m
        → After (Working q P) (of_handler (process_recv_packet time m i id n p))
    handler-After m i id n p (s, e) = by_result (process_recv_packet time m i id n p) refl
      where
        by_result :
            (o : Option PacketManager)
            → process_recv_packet time m i id n p ≡ o
            → After (Working q P) (of_handler o)
        by_result none r = tt
        by_result (some m') r = (
          Changed-keeps (λ j u. P j u.packet_data_buffer) moves
              (process_recv_packet-Changed (pool m) time m i id n p m' r unchanged) s,
          process_recv_packet-Keeps time m i id n p m' r ∙ e,
        )

  pub process_system-After :
      (infos : List PacketInfo) (m : PacketManager)
      → AllSound q m
      → After (AllSound q) (process_system time infos m)
  unfolding process_system process_packet_info
  process_system-After [] m w = w
  process_system-After (info ∷ infos) m w =
      and_then-After (AllSound q) (AllSound q) _ (process_system time infos)
        (handler-After SoundRing clear-SoundRing m info.client_index _ _ info.data_ptr w)
        (process_system-After infos)

  pub AllWithin-AllSound : (i n : ℕ) (m : PacketManager) → AllWithin q i n m → AllSound q m
  AllWithin-AllSound i n m (s, e) = (λ j u here. (s j u here).0, e)

  pub AllSound-AllWithin : (i : ℕ) (m : PacketManager) → AllSound q m → AllWithin q i bound m
  AllSound-AllWithin i m (s, e) = (
    λ j u here. (
      s j u here,
      λ at. omega (arith, length-contents bound u.packet_data_buffer, size-head (s j u here).0),
    ),
    e,
  )
