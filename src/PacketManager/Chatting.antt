-- ===== src/PacketManager/Chatting.antt =====
-- `ProcessRoomChatMessage` of IOCPChatServer/PacketManager.cpp in the states of the invariant.
use iocp.Common.{
  >>=-eq-some, ℕ, ◌+◌, ◌≤◌, ◌<◌, ◌≡◌, ◌≢◌, refl, ap, ◌∙◌, inl, inr, none, some, List, [], ◌∷◌, ◌++◌,
  arith, length, get_elem?, drop, get_elem?_of_lt, Option-cases,
}
use iocp.Common.Int.{pos}
use iocp.Packet.{packet_header_length, max_user_id_length, max_chat_msg}
use iocp.Packet.ErrorCode
use iocp.Packet.Strings.{c_str, strcpy_s, strcpy_s_fits, strcpy_s_long}
use iocp.Packet.Wire.{room_chat_response, room_chat_notify}
use iocp.User.{User, DomainState, no_domain, login, room}
use iocp.UserManager
use iocp.Room.{Room}
use iocp.RoomManager.{get_room_by_number}
use iocp.MySqlTask.{insert_chat_message}
use iocp.PacketManager.{PacketManager, send_packet, send_all, push_my_sql, get_user}
use iocp.PacketManager.Rooms.{process_room_chat_message, chat_in, notify_room}
use iocp.PacketManager.Consistent.{
  SamePlaces, IsConsistent, get_room_of_lt, to_each, notify_chat_lem,
}

-- The state after the user `u` at `i`, in the room `r`, has said `text`: the request is answered, the
-- message is queued for MySQL, and each user of the room is told once.
abbrev pub after_message : PacketManager → ℕ → ℕ → User → Room → List ℕ → PacketManager
after_message m i now u r text = record m {
  my_sql_tasks =
      m.my_sql_tasks
      ++ record { user_index = i; request = insert_chat_message u.user_id u.room_index text now }
        ∷ [];
  sent =
      m.sent
      ++ record { client_index = i; packet = room_chat_response ErrorCode.ok } ∷ []
      ++ to_each (room_chat_notify u.user_id text) r.user_list;
}

module _ {limit : ℕ} (m : PacketManager) (i now : ℕ) (p : List ℕ) (u : User)
    (v : IsConsistent limit m) (here : get_elem? m.user_manager.user_obj_pool i ≡ some u) where
  found :
      (k : ℕ)
      → u.room_index ≡ pos k
      → k < length m.room_manager.room_list
      → get_room_by_number m.room_manager u.room_index ≡ some k
  found k number lt = ap (get_room_by_number m.room_manager) number ∙ get_room_of_lt k v lt

  -- A message of at most 256 bytes, from a user in a room, in a state of the invariant: the answer
  -- comes first, then one notification with the sender's name and the text for each user of the
  -- sender's room, in the order of its list; the message is queued for MySQL; users and rooms stay.
  pub process_room_chat_message_tells :
      (text : List ℕ)
      → u.cur_domain_state ≡ room
      → c_str (drop packet_header_length p) ≡ some text
      → length text ≤ max_chat_msg
      → (k : ℕ) × (r : Room) × (u.room_index ≡ pos k)
        × (get_elem? m.room_manager.room_list k ≡ some r)
        × (process_room_chat_message m i now p ≡ some (after_message m i now u r text))
  unfolding process_room_chat_message chat_in notify_room get_user UserManager.get_user_by_conn_idx
      send_packet send_all push_my_sql
  process_room_chat_message_tells text state said fits =
      let (k, number, lt) = v.seated.inside i u here state in
      let (r, there) = get_elem?_of_lt m.room_manager.room_list k lt in
      (
        k,
        r,
        number,
        there,
        rw (
          here,
          state,
          found k number lt,
          strcpy_s_fits (max_user_id_length + 1) u.user_id (omega (arith, (v.fit i u here).short)),
          said,
          strcpy_s_fits (max_chat_msg + 1) text (omega arith),
          here,
          there,
          notify_chat_lem k i r u.user_id p text v there (v.fit i u here).short said fits,
        ),
      )

  -- In a state of the invariant, a message of a user who is in no room is answered with the code
  -- that says so, and nothing else happens.
  process_room_chat_message_refuses :
      u.cur_domain_state ≢ room
      → process_room_chat_message m i now p
        ≡ some (send_packet m i (room_chat_response ErrorCode.enter_room_invalid_user_status))
  unfolding process_room_chat_message get_user UserManager.get_user_by_conn_idx
  process_room_chat_message_refuses out = by_state u.cur_domain_state refl
    where
      by_state :
          (s : DomainState)
          → u.cur_domain_state ≡ s
          → process_room_chat_message m i now p
            ≡ some (send_packet m i (room_chat_response ErrorCode.enter_room_invalid_user_status))
      by_state no_domain e = rw (here, e)
      by_state login e = rw (here, e)
      by_state room e = absurd (out e)

  -- In a state of the invariant, a message of more than 256 bytes from a user in a room, as a
  -- client makes by leaving out the terminator, ends the process in `strcpy_s`.
  pub process_room_chat_message_aborts :
      (text : List ℕ)
      → u.cur_domain_state ≡ room
      → c_str (drop packet_header_length p) ≡ some text
      → max_chat_msg < length text
      → process_room_chat_message m i now p ≡ none
  unfolding process_room_chat_message chat_in get_user UserManager.get_user_by_conn_idx
  process_room_chat_message_aborts text state said long =
      let (k, number, lt) = v.seated.inside i u here state in
      rw (
        here,
        state,
        found k number lt,
        strcpy_s_fits (max_user_id_length + 1) u.user_id (omega (arith, (v.fit i u here).short)),
        said,
        strcpy_s_long (max_chat_msg + 1) text (omega arith),
      )

notify_room-SamePlaces :
    (m : PacketManager) (k i : ℕ) (msg : List ℕ) {m' : PacketManager}
    → notify_room m k i msg ≡ some m'
    → SamePlaces m m'
unfolding notify_room get_user UserManager.get_user_by_conn_idx send_all
notify_room-SamePlaces m k i msg h = ground (arith, h)

chat_in-SamePlaces :
    (m : PacketManager) (i now : ℕ) (p : List ℕ) (u : User) (k : ℕ) {m' : PacketManager}
    → chat_in m i now p u k ≡ some m'
    → SamePlaces m m'
unfolding chat_in send_packet push_my_sql
chat_in-SamePlaces m i now p u k h =
    let (user_id, named, h₁) = >>=-eq-some (strcpy_s (max_user_id_length + 1) u.user_id) _ h in
    let (text, said, h₂) = >>=-eq-some (c_str (drop packet_header_length p)) _ h₁ in
    let (message, fits, h₃) = >>=-eq-some (strcpy_s (max_chat_msg + 1) text) _ h₂ in
    notify_room-SamePlaces _ k i p h₃

-- A message that is dealt with changes no user and no room.
pub process_room_chat_message-SamePlaces :
    (m : PacketManager) (i now : ℕ) (p : List ℕ) {m' : PacketManager}
    → process_room_chat_message m i now p ≡ some m'
    → SamePlaces m m'
unfolding process_room_chat_message send_packet
process_room_chat_message-SamePlaces m i now p {m'} h =
    let (u, here, h') = >>=-eq-some (get_user m i) _ h in by_room u h'
  where
    by_room :
        (u : User)
        → elim u.cur_domain_state [
          | room ↦ elim (get_room_by_number m.room_manager u.room_index) [
            | none ↦
                some (send_packet m i (room_chat_response ErrorCode.chat_room_invalid_room_number))
            | some k ↦ chat_in m i now p u k
          ]
          | _ ↦ some (send_packet m i (room_chat_response ErrorCode.enter_room_invalid_user_status))
        ]
          ≡ some m'
        → SamePlaces m m'
    by_room u h = elim (Option-cases (get_room_by_number m.room_manager u.room_index)) [
      | inl e ↦ ground (arith, h)
      | inr (k, e) ↦ ground (arith, h, chat_in-SamePlaces m i now p u k {m' = m'})
    ]
