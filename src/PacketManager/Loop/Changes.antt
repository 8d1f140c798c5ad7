-- ===== src/PacketManager/Loop/Changes.antt =====
-- How the handlers of IOCPChatServer/PacketManager.cpp change the pool of users: one user after
-- another, of whom the place stays, and the ring stays or is cleared.
pub mod Accounts
pub mod Dispatch
use iocp.Common.{
  ℕ, zero, suc, ◌+◌, not, ◌≡◌, ◌≢◌, refl, sym, ap, ◌∙◌, ◌⊎◌, inl, inr, subst, Bool, true, false,
  Option, none, some, List, [], ◌∷◌, arith, ◌==◌, ◌>>=◌, if◌then◌else◌, >>=-eq-some, drop,
  get_elem?, set, length, length-set,
}
use iocp.Common.Int.{ℤ, signed32}
use iocp.Packet.{packet_header_length, login_request_packet_size, uint16_at, uint32_at}
use iocp.Packet.ErrorCode
use iocp.Packet.Strings.{c_str, starts_with}
use iocp.Packet.Wire.{
  ServerPacket, login_response, room_enter_response, room_leave_response, room_chat_response,
}
use iocp.RingBuffer
use iocp.RingBuffer.{RingBuffer}
use iocp.User
use iocp.User.{User, DomainState, no_domain, login, room}
use iocp.UserManager
use iocp.UserManager.{UserManager}
use iocp.RoomManager
use iocp.PacketManager.{
  PacketManager, send_packet, push_my_sql, get_user, put_user, leave_on_close, forget_user,
  clear_connection_info, without_client, process_user_connect, process_user_disconnect,
}
use iocp.PacketManager.Login.{
  process_login, login_load_test, login_by_redis, process_login_db_result, login_with_result,
  record_login, load_test_prefix,
}
use iocp.PacketManager.Rooms.{
  process_enter_room, enter_as, announce_entry, process_leave_room, announce_departure,
  process_room_chat_message, chat_in,
}
use iocp.PacketManager.Loop.{process_recv_packet}
use iocp.PacketManager.Loop.Leading.{Leads}
use iocp.PacketManager.Loop.Pools.{
  pool, Becomes, SamePool, record_login-SamePool, announce_entry-SamePool,
  announce_departure-SamePool, chat_in-SamePool, connect-SamePool, sent-SamePool, by_redis-SamePool,
  enter_user-Becomes, leave_user-Becomes,
}

-- What stands where, after an update.
pub set_cases :
    (xs : List User) (i j : ℕ) (v w : User)
    → get_elem? (set xs i v) j ≡ some w
    → ((i ≡ j) × (v ≡ w)) ⊎ ((i ≢ j) × (get_elem? xs j ≡ some w))
set_cases [] i j v w h = absurd (ground (arith, h))
set_cases (x ∷ xs) zero zero v w h = inl (refl, ground (arith, h))
set_cases (x ∷ xs) zero (suc j) v w h = inr (λ e. ground (arith, e), h)
set_cases (x ∷ xs) (suc i) zero v w h = inr (λ e. ground (arith, e), h)
set_cases (x ∷ xs) (suc i) (suc j) v w h = elim (set_cases xs i j v w h) [
  | inl (at, e) ↦ inl (ap suc at, e)
  | inr (ne, there) ↦ inr (λ e. ne (omega arith), there)
]

-- What becomes of a pool.
pub data Changed (xs : List User) : List User → Type 0 where
  unchanged : Changed xs xs
  changes :
      (ys : List User) (i : ℕ) (u u' : User)
      → Changed xs ys
      → get_elem? ys i ≡ some u
      → Becomes u u'
      → Changed xs (set ys i u')

pub length-Changed : {xs ys : List User} → Changed xs ys → length ys ≡ length xs
length-Changed unchanged = refl
length-Changed (changes ys i u u' c here b) = length-set ys i u' ∙ length-Changed c

-- What holds of every user, and goes on to hold, holds of what a pool becomes.
pub Changed-keeps :
    (P : ℕ → User → Type 0)
    → ((j : ℕ) (u u' : User) → Becomes u u' → P j u → P j u')
    → {xs ys : List User} → Changed xs ys
    → ((j : ℕ) (u : User) → get_elem? xs j ≡ some u → P j u)
    → (j : ℕ) (u : User) → get_elem? ys j ≡ some u
    → P j u
Changed-keeps P moves unchanged all j w h = all j w h
Changed-keeps P moves (changes ys i u u' c here b) all j w h = elim (set_cases ys i j u' w h) [
  | inl (at, e) ↦
      subst (λ x. P j x) e
        (subst (λ n. P n u') at (moves i u u' b (Changed-keeps P moves c all i u here)))
  | inr (ne, there) ↦ Changed-keeps P moves c all j w there
]

module _ (xs : List User) where
  -- A handler that succeeds goes on with the changes.
  abbrev pub GoesOn : PacketManager → PacketManager → Type 0
  GoesOn m m' = Changed xs (pool m) → Changed xs (pool m')

  abbrev pub Keeps : PacketManager → Option PacketManager → Type 0
  Keeps = Leads GoesOn

  pub same-Changed : {ys zs : List User} → zs ≡ ys → Changed xs ys → Changed xs zs
  same-Changed e k = subst (Changed xs) (sym e) k

  pub SamePool-Keeps : (m : PacketManager) (o : Option PacketManager) → SamePool m o → Keeps m o
  SamePool-Keeps m o s m' h k = same-Changed (s m' h) k

  -- A user put back, whose ring is the same, beside whatever rooms.
  pub put_user-Changed :
      (m : PacketManager) (rooms : RoomManager.RoomManager) (i : ℕ) (u u' : User)
      → get_user m i ≡ some u
      → Becomes u u'
      → Changed xs (pool m)
      → Changed xs (pool (put_user (record m { room_manager = rooms }) i u'))
  unfolding get_user UserManager.get_user_by_conn_idx put_user UserManager.put_user
  put_user-Changed m rooms i u u' here e k = changes (pool m) i u u' k here e

  pub some-Keeps : (m : PacketManager) → Keeps m (some m)
  some-Keeps m m' h k = let q : pool m' ≡ pool m = ground (arith, h) in same-Changed q k

  -- A step after the last change of the pool.
  pub then-Keeps :
      (m m' : PacketManager) (o : Option PacketManager)
      → (Changed xs (pool m) → Changed xs (pool m'))
      → Keeps m' o
      → Keeps m o
  then-Keeps m m' o before after w h k = after w h (before k)

  pub sent-Keeps :
      (m : PacketManager) (i : ℕ) (packet : ServerPacket) → Keeps m (some (send_packet m i packet))
  sent-Keeps m i packet = SamePool-Keeps m _ (sent-SamePool m i packet)
