-- ===== src/PacketManager/Start.antt =====
-- The state that `Init` of IOCPChatServer/PacketManager.cpp, IOCPChatServer/UserManager.h and
-- IOCPChatServer/RoomManager.h makes is one of the invariant.
use iocp.Common.{
  ℕ, zero, suc, ◌+◌, ◌≡◌, refl, sym, ap, ◌∙◌, inl, inr, some, List, [], arith, length, get_elem?,
  Option-cases, subst,
}
use iocp.Common.Int.{pos}
use iocp.RingBuffer
use iocp.RingBuffer.{RingBuffer}
use iocp.User
use iocp.User.{User, max_packet_data_buffer_size, no_domain, room}
use iocp.UserManager
use iocp.UserManager.{make_users}
use iocp.Room
use iocp.Room.{Room}
use iocp.RoomManager
use iocp.RoomManager.{make_rooms}
use iocp.Membership.{members, seats, seat, seat_at, IsCounted}
use iocp.Membership.Lists.{count}
use iocp.PacketManager.{init}
use iocp.PacketManager.Consistent.{IsFit, IsConsistent}

module _ (memory : ℕ → List ℕ × List ℕ) where
  abbrev first_user : ℕ → User
  first_user j = User.init (User.new_user (memory j).0 (memory j).1) j

  make_users-get :
      (n i j : ℕ) {u : User} → get_elem? (make_users memory i n) j ≡ some u → u ≡ first_user (i + j)
  unfolding make_users
  make_users-get zero i j h = cc
  make_users-get (suc n) i zero h = ground arith
  make_users-get (suc n) i (suc j) h = make_users-get n (i + 1) j h ∙ ap first_user (omega arith)

  pub length-make_users : (i n : ℕ) → length (make_users memory i n) ≡ n
  unfolding make_users
  length-make_users i zero = refl
  length-make_users i (suc n) = omega (arith, length-make_users (i + 1) n)

  make_users-first :
      (n j : ℕ) {u : User} → get_elem? (make_users memory 0 n) j ≡ some u → u ≡ first_user j
  make_users-first n j h = make_users-get n 0 j h ∙ ap first_user (omega arith)

  first_user-IsFit :
      (j : ℕ) → length (memory j).0 ≡ max_packet_data_buffer_size → IsFit (first_user j)
  unfolding User.init User.new_user RingBuffer.clear
  first_user-IsFit j h = record {
    receiving = record {
      stored = h;
      small = omega arith;
      head_in = omega arith;
      tail_in = omega arith;
      full_at = inl refl;
    };
    short = omega arith;
  }

  first_user-index :
      (j : ℕ) → ((first_user j).index ≡ j) × ((first_user j).cur_domain_state ≡ no_domain)
  unfolding User.init User.new_user
  first_user-index j = (refl, refl)

make_rooms-get :
    (n i k : ℕ) {r : Room}
    → get_elem? (make_rooms i n (pos 0) (pos 8)) k ≡ some r
    → r ≡ Room.init (pos (i + k)) (pos 8)
unfolding make_rooms
make_rooms-get zero i k h = cc
make_rooms-get (suc n) i zero h = ground arith
make_rooms-get (suc n) i (suc k) h =
    make_rooms-get n (i + 1) k h ∙ ap (λ x. Room.init (pos x) (pos 8)) (omega arith)

length-make_rooms : (n i : ℕ) → length (make_rooms i n (pos 0) (pos 8)) ≡ n
unfolding make_rooms
length-make_rooms zero i = refl
length-make_rooms (suc n) i = ap suc (length-make_rooms n (i + 1))

make_rooms-first :
    (n k : ℕ) {r : Room}
    → get_elem? (make_rooms 0 n (pos 0) (pos 8)) k ≡ some r
    → r ≡ Room.init (pos k) (pos 8)
make_rooms-first n k h = make_rooms-get n 0 k h ∙ ap (λ x. Room.init (pos x) (pos 8)) (omega arith)

first_room-IsCounted : (k : ℕ) → IsCounted 8 k (Room.init (pos k) (pos 8))
unfolding Room.init
first_room-IsCounted k = record { counter = refl; within = omega arith; most = refl; number = refl }

members-first : (n k : ℕ) → members (make_rooms 0 n (pos 0) (pos 8)) k ≡ []
unfolding Room.init
members-first n k = elim (Option-cases (get_elem? (make_rooms 0 n (pos 0) (pos 8)) k)) [
  | inl e ↦ rw (members, e)
  | inr (r, e) ↦ rw (members, e) (ap (λ x. x.user_list) (make_rooms-first n k e))
]

seats-first : (memory : ℕ → List ℕ × List ℕ) (n j k : ℕ) → seats (make_users memory 0 n) j k ≡ 0
seats-first memory n j k = elim (Option-cases (get_elem? (make_users memory 0 n) j)) [
  | inl e ↦ rw (seats, e)
  | inr (u, e) ↦
      rw (seats, e)
        (ap (λ x. seat x k) (make_users-first memory n j e)
          ∙ ap (λ d. seat_at d (first_user memory j).room_index k) (first_user-index memory j).1)
]

-- The state that `Init` makes is one of the invariant, with rooms of at most 8, whatever the number
-- of clients and whatever the users' arrays, of 8096 bytes, hold at first.
pub init-IsConsistent :
    (memory : ℕ → List ℕ × List ℕ) (max_client : ℕ)
    → ((j : ℕ) → length (memory j).0 ≡ max_packet_data_buffer_size)
    → IsConsistent 8 (init memory max_client)
unfolding init UserManager.init RoomManager.init
init-IsConsistent memory max_client sized = record {
  small = omega arith;
  seated = record {
    counted =
        λ k r h. subst (IsCounted 8 k) (sym (make_rooms-first 250 k h)) (first_room-IsCounted k);
    seated = λ j k. ap (count j) (members-first 250 k) ∙ sym (seats-first memory max_client j k);
    indexed = λ j u h.
        ap (λ x. x.index) (make_users-first memory max_client j h) ∙ (first_user-index memory j).0;
    inside = λ j u h state. absurd (
        let p : no_domain ≡ room =
          sym (first_user-index memory j).1
          ∙ ap (λ x. x.cur_domain_state) (sym (make_users-first memory max_client j h))
          ∙ state in
        cc);
  };
  fit = λ j u h.
      subst IsFit (sym (make_users-first memory max_client j h))
        (first_user-IsFit memory j (sized j));
  first = refl;
  last = ap pos (sym (length-make_rooms 250 0));
}
