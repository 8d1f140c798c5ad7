-- ===== src/Membership/Moves.antt =====
-- A user enters a room (`Room::EnterUser`) or leaves it (`Room::LeaveUser`).
use native.Mathlib.Decide.{ℕ_discrete}
use iocp.Common.{
  ℕ, ◌^◌, ◌<◌, ◌≡◌, ◌≢◌, refl, sym, ap, subst, ◌∙◌, false, some, List, [], ◌∷◌, ◌++◌, arith, ◌==◌,
  if◌then◌else◌, length, length-append, length-set, get_elem?-lt, get_elem?, set,
}
use iocp.Common.Int.{pos, leb_ℤ, inc32}
use iocp.User
use iocp.User.{User, DomainState, no_domain, login, room}
use iocp.Room.{Room, enter_user, leave_user}
use iocp.Membership.{members, seat, seat_at, seats, IsCounted, Seated}
use iocp.Membership.Lists.{count, count-append, count-remove, length-remove, get_elem?-set}
use iocp.Membership.Updates.{seat_outside}

members-set :
    (rooms : List Room) (k k' : ℕ) (r' : Room) {r : Room}
    → get_elem? rooms k ≡ some r
    → members (set rooms k r') k' ≡ (if k == k' then r'.user_list else members rooms k')
members-set rooms k k' r' there = ground (arith, get_elem?-set rooms k k' r' there)

-- One user and one room change so that they still agree about each other.
record Agrees (limit i k : ℕ) (u u' : User) (r r' : Room) : Type 0 where
  counted : IsCounted limit k r'
  listed : (j : ℕ) → count j r'.user_list ≡ (if i == j then seat u' k else count j r.user_list)
  elsewhere : (k' : ℕ) → k ≢ k' → seat u' k' ≡ seat u k'
  same : u'.index ≡ u.index
  place : u'.cur_domain_state ≡ room → u'.room_index ≡ pos k

module _ {limit : ℕ} {pool : List User} {rooms : List Room} (i k : ℕ) {u : User} {r : Room}
    (v : Seated limit pool rooms) (here : get_elem? pool i ≡ some u)
    (there : get_elem? rooms k ≡ some r) where
  module _ (u' : User) (r' : Room) (a : Agrees limit i k u u' r r') where
    IsCounted-move :
        (k' : ℕ) (q : Room) → get_elem? (set rooms k r') k' ≡ some q → IsCounted limit k' q
    IsCounted-move k' q h = elim (ℕ_discrete k k') [
      | yes e ↦
          subst (λ n. IsCounted limit n q) e
            (subst (IsCounted limit k) (ground (arith, get_elem?-set rooms k k' r' there))
              a.counted)
      | no ne ↦ v.counted k' q (ground (arith, get_elem?-set rooms k k' r' there))
    ]

    seated-move : (j k' : ℕ) → count j (members (set rooms k r') k') ≡ seats (set pool i u') j k'
    seated-move j k' = elim (ℕ_discrete k k') [
      | yes e ↦
          subst (λ n. count j (members (set rooms k r') n) ≡ seats (set pool i u') j n) e
            (ground (
              arith,
              members-set rooms k k r' there,
              v.seated j k,
              get_elem?-set pool i j u' here,
              a.listed j,
            ))
      | no ne ↦ ground (
        arith,
        members-set rooms k k' r' there,
        v.seated j k',
        get_elem?-set pool i j u' here,
        a.elsewhere k' ne,
      )
    ]

    inside-move :
        (j : ℕ) (w : User)
        → get_elem? (set pool i u') j ≡ some w
        → w.cur_domain_state ≡ room
        → (n : ℕ) × (w.room_index ≡ pos n) × (n < length (set rooms k r'))
    inside-move j w h state = elim (ℕ_discrete i j) [
      | yes e ↦
          let w_is : u' ≡ w = ground (arith, get_elem?-set pool i j u' here) in
          (
            k,
            ap (λ x. x.room_index) (sym w_is) ∙ a.place (ap (λ x. x.cur_domain_state) w_is ∙ state),
            omega (arith, get_elem?-lt rooms k there, length-set rooms k r'),
          )
      | no ne ↦
          let (n, number, lt) =
            v.inside j w (ground (arith, get_elem?-set pool i j u' here)) state in
          (n, number, omega (arith, length-set rooms k r'))
    ]

    Seated-move : Seated limit (set pool i u') (set rooms k r')
    Seated-move = record {
      counted = IsCounted-move;
      seated = seated-move;
      indexed = λ j w h.
          ground (arith, get_elem?-set pool i j u' here, v.indexed i u here, v.indexed j w, a.same);
      inside = inside-move;
    }

  -- One who is in no room enters one with a free place.
  pub Seated-enter :
      limit < 2 ^ 31
      → u.cur_domain_state ≢ room
      → leb_ℤ r.max_user_count r.current_user_count ≡ false
      → let (code, r', u') = enter_user r i u in Seated limit (set pool i u') (set rooms k r')
  unfolding enter_user User.enter_room
  Seated-enter small out free = rw free (
      Seated-move u' r' (record {
        counted = ground (arith, v.counted k r there, length-append r.user_list (i ∷ []));
        listed = λ j. ground (
          arith,
          count-append j r.user_list (i ∷ []),
          none_before,
          v.counted k r there,
          ap (λ n. seat_at room n k) (v.counted k r there).number,
        );
        elsewhere = λ k' ne. ground (arith, seat_outside u k' out, v.counted k r there);
        same = refl;
        place = λ e. (v.counted k r there).number;
      }))
    where
      u' : User
      u' = User.enter_room u r.room_number

      r' : Room
      r' = record r {
        user_list = r.user_list ++ i ∷ [];
        current_user_count = inc32 r.current_user_count;
      }

      none_before : count i r.user_list ≡ 0
      none_before = ground (arith, v.seated i k, seat_outside u k out)

  -- One who by its own state is in the room leaves it.
  pub Seated-leave :
      limit < 2 ^ 31
      → u.cur_domain_state ≡ room
      → u.room_index ≡ pos k
      → Seated limit (set pool i (User.set_domain_state u login)) (set rooms k (leave_user r i))
  unfolding leave_user User.set_domain_state
  Seated-leave small in_room number =
      Seated-move (User.set_domain_state u login) (leave_user r i) (record {
        counted = ground (arith, v.counted k r there, one, length-remove i r.user_list);
        listed = λ j. ground (arith, count-remove i j r.user_list);
        elsewhere = λ k' ne. ground arith;
        same = refl;
        place = λ e. number;
      })
    where
      one : count i r.user_list ≡ 1
      one = ground (arith, v.seated i k)
