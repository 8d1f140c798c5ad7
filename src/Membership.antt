-- ===== src/Membership.antt =====
-- Who is in which room, told twice: by the lists of IOCPChatServer/Room.h, and by the state and the
-- room number that each user of IOCPChatServer/User.h keeps. What it means that the two agree.
pub mod Lists
pub mod Updates
pub mod Moves
use iocp.Common.{
  ℕ, ◌≤◌, ◌<◌, ◌≡◌, Option, none, some, List, [], ◌∷◌, length, get_elem?, if◌then◌else◌,
}
use iocp.Common.Int.{ℤ, pos, eq_ℤ}
use iocp.User.{User, DomainState, room}
use iocp.Room.{Room}
use Lists.{count}

-- The list of the room at a place.
abbrev pub members : List Room → ℕ → List ℕ
members rooms k = elim (get_elem? rooms k) [ none ↦ [] | some r ↦ r.user_list ]

-- 1 if a user with this state and room number is in the room numbered `k`, else 0.
abbrev pub seat_at : DomainState → ℤ → ℕ → ℕ
seat_at room number k = if eq_ℤ number (pos k) then 1 else 0
seat_at _ number k = 0

abbrev pub seat : User → ℕ → ℕ
seat u k = seat_at u.cur_domain_state u.room_index k

abbrev pub seats : List User → ℕ → ℕ → ℕ
seats pool j k = elim (get_elem? pool j) [ none ↦ 0 | some u ↦ seat u k ]

-- A room whose counter is right, which is not over its limit, and which stands at its number.
pub record IsCounted (limit k : ℕ) (r : Room) : Type 0 where
  pub counter : r.current_user_count ≡ pos (length r.user_list)
  pub within : length r.user_list ≤ limit
  pub most : r.max_user_count ≡ pos limit
  pub number : r.room_number ≡ pos k

pub record Seated (limit : ℕ) (pool : List User) (rooms : List Room) : Type 0 where
  pub counted : (k : ℕ) (r : Room) → get_elem? rooms k ≡ some r → IsCounted limit k r
  pub seated : (j k : ℕ) → count j (members rooms k) ≡ seats pool j k
  pub indexed : (j : ℕ) (u : User) → get_elem? pool j ≡ some u → u.index ≡ j
  pub inside :
      (j : ℕ) (u : User)
      → get_elem? pool j ≡ some u
      → u.cur_domain_state ≡ room
      → (k : ℕ) × (u.room_index ≡ pos k) × (k < length rooms)
