-- ===== src/PacketManager/Sends/Parts.antt =====
-- What the handlers of IOCPChatServer/PacketManager.cpp are made of sends only what the network layer
-- can serve.
use iocp.Common.{
  ℕ, ◌+◌, ◌<◌, ◌≡◌, sym, subst, Option, none, some, List, [], ◌∷◌, ◌++◌, ◌>>=◌, ◌==◌, if◌then◌else◌,
  arith, get_elem?, >>=-eq-some,
}
use iocp.Common.Int.{ℤ}
use iocp.Packet.{max_user_id_length}
use iocp.Packet.ErrorCode
use iocp.Packet.Strings.{strcpy_s}
use iocp.Packet.Wire.{ServerPacket}
use iocp.Packet.Wire.Framed.{HasShortTexts}
use iocp.User.{User}
use iocp.Room
use iocp.RoomManager
use iocp.PacketManager.{PacketManager, send_packet, send_all, push_my_sql, get_user, put_user}
use iocp.PacketManager.Rooms.{
  announce_entry, notify_if_room, notify_room, announce_departure, temp_chat_packet, entered_text,
  left_text,
}
use iocp.PacketManager.Loop.Leading.{Leads, choice-Leads, bind-Leads}
use iocp.PacketManager.Loop.Pools.{pool, Becomes}
use iocp.PacketManager.Loop.Changes.{unchanged, put_user-Changed}
use iocp.PacketManager.Sends.{
  AllServed, AllServed-append, IsIndexed, Changed-IsIndexed, notify_chat-AllServed,
}

module _ (n : ℕ) where
  -- From a pool of `n` users, whatever has been sent: nothing is added that cannot be served.
  abbrev pub Serves : PacketManager → PacketManager → Type 0
  Serves m m' = IsIndexed n (pool m) → AllServed n m.sent → AllServed n m'.sent

  pub quiet-Serves :
      (m : PacketManager) (o : Option PacketManager)
      → ((m' : PacketManager) → o ≡ some m' → m'.sent ≡ m.sent)
      → Leads Serves m o
  quiet-Serves m o same m' h placed all = subst (AllServed n) (sym (same m' h)) all

  pub send_packet-AllServed :
      (m m' : PacketManager) (i : ℕ) (packet : ServerPacket)
      → i < n
      → HasShortTexts packet
      → some (send_packet m i packet) ≡ some m'
      → AllServed n m.sent
      → AllServed n m'.sent
  unfolding send_packet
  send_packet-AllServed m m' i packet lt short h all =
      let q : m.sent ++ record { client_index = i; packet = packet } ∷ [] ≡ m'.sent =
        ground (arith, h) in
      subst (AllServed n) q (AllServed-append n m.sent _ all ((short, lt), tt))

  pub notify_room-Serves :
      (m : PacketManager) (k i : ℕ) (msg : List ℕ) → Leads Serves m (notify_room m k i msg)
  unfolding notify_room send_all
  notify_room-Serves m k i msg m' h placed all =
      let (u, here, h₁) = >>=-eq-some (get_user m i) _ h in
      let (r, there, h₂) = >>=-eq-some (get_elem? m.room_manager.room_list k) _ h₁ in
      let (sent, told, h₃) = >>=-eq-some (Room.notify_chat (pool m) r i u.user_id msg) _ h₂ in
      let q : m.sent ++ sent ≡ m'.sent = ground (arith, h₃) in
      subst (AllServed n) q (
        AllServed-append n m.sent sent all
          (notify_chat-AllServed n (pool m) r i u.user_id msg sent placed told))

  notify_if_room-Serves :
      (m : PacketManager) (k : Option ℕ) (i : ℕ) (msg : List ℕ)
      → Leads Serves m (notify_if_room m k i msg)
  unfolding notify_if_room
  notify_if_room-Serves m none i msg = quiet-Serves m _ λ m' h. ground (arith, h)
  notify_if_room-Serves m (some k) i msg = notify_room-Serves m k i msg

  pub announce_entry-Serves :
      (m : PacketManager) (i now : ℕ) (number : ℤ) → Leads Serves m (announce_entry m i now number)
  unfolding announce_entry push_my_sql
  announce_entry-Serves m i now number = bind-Leads Serves m (get_user m i) _ λ u here.
      bind-Leads Serves m (strcpy_s (max_user_id_length + 1) u.user_id) _
        λ user_id fits. notify_if_room-Serves _ _ i (temp_chat_packet entered_text)

  pub announce_departure-Serves :
      (m : PacketManager) (i now : ℕ) (number : ℤ) (k : Option ℕ)
      → Leads Serves m (announce_departure m i now number k)
  unfolding announce_departure push_my_sql
  announce_departure-Serves m i now number k = bind-Leads Serves m (get_user m i) _ λ u here.
      bind-Leads Serves m (strcpy_s (max_user_id_length + 1) u.user_id) _
        λ user_id fits. notify_if_room-Serves _ _ i (temp_chat_packet left_text)

  -- A user put back, an announcement if there is one to make, and the answer.
  pub answer-Serves :
      (m : PacketManager) (rooms : RoomManager.RoomManager) (i code : ℕ) (u u' : User)
      (announced : PacketManager → Option PacketManager) (packet : ServerPacket)
      → i < n
      → HasShortTexts packet
      → get_user m i ≡ some u
      → Becomes u u'
      → ((w : PacketManager) → Leads Serves w (announced w))
      → let placed = put_user (record m { room_manager = rooms }) i u' in
        Leads Serves m (
          (if code == ErrorCode.ok then announced placed else some placed) >>= λ w.
          some (send_packet w i packet))
  unfolding put_user
  answer-Serves m rooms i code u u' announced packet lt short here becomes tells m' h placed all =
      let after = put_user (record m { room_manager = rooms }) i u' in
      let (w, e, h') =
        >>=-eq-some (if code == ErrorCode.ok then announced after else some after) _ h in
      let placed' =
        Changed-IsIndexed (put_user-Changed (pool m) m rooms i u u' here becomes unchanged)
          placed in
      send_packet-AllServed w m' i packet lt short h' (
        choice-Leads Serves after (code == ErrorCode.ok) _ (some after) (tells after)
          (quiet-Serves after _ λ w' e'. ground (arith, e')) w e placed' all)

  pub sent-Serves :
      (m : PacketManager) (i : ℕ) (packet : ServerPacket)
      → i < n
      → HasShortTexts packet
      → Leads Serves m (some (send_packet m i packet))
  sent-Serves m i packet lt short m' h placed = send_packet-AllServed m m' i packet lt short h
