-- ===== src/PacketManager/Sends.antt =====
-- What the handlers of IOCPChatServer/PacketManager.cpp send: packets whose texts fit their arrays, to
-- clients of the pool.
pub mod Parts
pub mod Handlers
pub mod Steps
use iocp.Common.{
  ℕ, zero, suc, ◌+◌, ◌≤◌, ◌<◌, ◌≡◌, refl, sym, ap, ◌∙◌, subst, Bool, true, false, Option, none,
  some, List, [], ◌∷◌, ◌++◌, ◌>>=◌, ◌==◌, ◌&&◌, if◌then◌else◌, arith, length, get_elem?,
  get_elem?-lt, drop, >>=-eq-some, not,
}
use iocp.Packet.{packet_header_length, max_user_id_length, max_chat_msg}
use iocp.Packet.Strings.{c_str, strcpy_s, strcpy_s-eq-some}
use iocp.Packet.Wire.{ServerPacket, room_chat_notify}
use iocp.Packet.Wire.Framed.{HasShortTexts}
use iocp.User.{User}
use iocp.UserManager
use iocp.Room.{Room, Sent, send_to_all_user, notify_chat}
use iocp.PacketManager.{PacketManager, send_packet, send_all, get_user}
use iocp.PacketManager.Rooms.{notify_room, notify_if_room}
use iocp.PacketManager.Loop.Pools.{pool, Becomes}
use iocp.PacketManager.Loop.Changes.{Changed, Changed-keeps, length-Changed}

-- A call of `SendPacketFunc` that the network layer of `n` sessions can serve.
abbrev pub IsServed : ℕ → Sent → Type 0
IsServed n s = HasShortTexts s.packet × (s.client_index < n)

abbrev pub AllServed : ℕ → List Sent → Type 0
AllServed n [] = Unit {0}
AllServed n (s ∷ ss) = IsServed n s × AllServed n ss

pub AllServed-append :
    (n : ℕ) (xs ys : List Sent) → AllServed n xs → AllServed n ys → AllServed n (xs ++ ys)
AllServed-append n [] ys all more = more
AllServed-append n (x ∷ xs) ys (one, all) more = (one, AllServed-append n xs ys all more)

-- The pool has `n` users, each of which knows its place.
abbrev pub IsIndexed : ℕ → List User → Type 0
IsIndexed n users =
    (length users ≡ n) × ((j : ℕ) (u : User) → get_elem? users j ≡ some u → u.index ≡ j)

pub Changed-IsIndexed :
    {n : ℕ} {xs ys : List User} → Changed xs ys → IsIndexed n xs → IsIndexed n ys
Changed-IsIndexed c (size, at) = (
  length-Changed c ∙ size,
  Changed-keeps (λ j u. u.index ≡ j) (λ j u u' (place, ring) e. place ∙ e) c at,
)

strcpy_s-length : (n : ℕ) (s t : List ℕ) → strcpy_s n s ≡ some t → length t < n
strcpy_s-length n s t h = let (e, lt) = strcpy_s-eq-some n s h in omega (arith, ap length e)

module _ (n : ℕ) where
  send_to_all_user-AllServed :
      (users : List User) (is : List ℕ) (packet : ServerPacket) (skip_index : ℕ) (skip : Bool)
      (sent : List Sent)
      → IsIndexed n users
      → HasShortTexts packet
      → send_to_all_user users is packet skip_index skip ≡ some sent
      → AllServed n sent
  unfolding send_to_all_user
  send_to_all_user-AllServed users [] packet i skip sent placed short h =
      let q : [] ≡ sent = ground (arith, h) in subst (AllServed n) q tt
  send_to_all_user-AllServed users (k ∷ is) packet i skip sent (size, at) short h =
      let (u, here, h₁) = >>=-eq-some (get_elem? users k) _ h in
      let (rest, more, h₂) = >>=-eq-some (send_to_all_user users is packet i skip) _ h₁ in
      let all = send_to_all_user-AllServed users is packet i skip rest (size, at) short more in
      by_skip u rest here all (skip && (u.index == i)) h₂
    where
      by_skip :
          (u : User) (rest : List Sent)
          → get_elem? users k ≡ some u
          → AllServed n rest
          → (b : Bool)
          → if◌then◌else◌ {A = Option (List Sent)} b
              (some rest)
              (some (record { client_index = u.index; packet = packet } ∷ rest))
            ≡ some sent
          → AllServed n sent
      by_skip u rest here all true e =
          let q : rest ≡ sent = ground (arith, e) in subst (AllServed n) q all
      by_skip u rest here all false e =
          let q : record { client_index = u.index; packet = packet } ∷ rest ≡ sent =
            ground (arith, e) in
          subst (AllServed n) q
            ((short, omega (arith, at k u here, get_elem?-lt users k here, size)), all)

  pub notify_chat-AllServed :
      (users : List User) (r : Room) (i : ℕ) (user_id msg : List ℕ) (sent : List Sent)
      → IsIndexed n users
      → notify_chat users r i user_id msg ≡ some sent
      → AllServed n sent
  unfolding notify_chat
  notify_chat-AllServed users r i user_id msg sent placed h =
      let (name, fits, h₁) = >>=-eq-some (strcpy_s (max_user_id_length + 1) user_id) _ h in
      let (text, said, h₂) = >>=-eq-some (c_str (drop packet_header_length msg)) _ h₁ in
      let (message, fits', h₃) = >>=-eq-some (strcpy_s (max_chat_msg + 1) text) _ h₂ in
      send_to_all_user-AllServed users r.user_list (room_chat_notify name message) i false sent
        placed
        (
          omega (arith, strcpy_s-length (max_user_id_length + 1) user_id name fits),
          omega (arith, strcpy_s-length (max_chat_msg + 1) text message fits'),
        )
        h₃
