-- ===== src/UserManager.antt =====
-- IOCPChatServer/UserManager.h: the pool of users and the dictionary of those logged in. A `User*`
-- is the user's place in the pool. `none` is an access out of the pool.
pub mod Dictionary
use iocp.Common.{
  ℕ, zero, suc, ◌+◌, Bool, true, false, Option, none, some, List, [], ◌∷◌, not, ◌>>=◌, ltb, ◌==◌,
  if◌then◌else◌, length, get_elem?, set,
}
use iocp.Common.Int.{ℤ, pos, negsuc, ltb_ℤ, inc32, dec32, signed32}
use iocp.Packet.ErrorCode
use iocp.User
use iocp.User.{User}
use Dictionary.{UserIds, find, insert, erase, contains}

pub record UserManager : Type 0 where
  pub current_user_cnt : ℤ
  pub max_user_cnt : ℤ
  pub user_obj_pool : List User
  pub user_id_dictionary : UserIds

-- The loop of `Init`; what the arrays of the user at each place hold at first is not determined.
unfoldable pub make_users : (ℕ → List ℕ × List ℕ) → ℕ → ℕ → List User
make_users memory i zero = []
make_users memory i (suc left) =
    User.init (User.new_user (memory i).0 (memory i).1) i ∷ make_users memory (i + 1) left

-- For fewer than 2 ^ 31 users: the source's number is an `INT32`.
unfoldable pub init : (ℕ → List ℕ × List ℕ) → ℕ → UserManager
init memory max_user_count_ = record {
  current_user_cnt = pos 0;
  max_user_cnt = signed32 max_user_count_;
  user_obj_pool = make_users memory 0 max_user_count_;
  user_id_dictionary = [];
}

unfoldable pub get_user_by_conn_idx : UserManager → ℕ → Option User
get_user_by_conn_idx m client_index_ = get_elem? m.user_obj_pool client_index_

-- What a method called on the user at a place leaves there.
unfoldable pub put_user : UserManager → ℕ → User → UserManager
put_user m i u = record m { user_obj_pool = set m.user_obj_pool i u }

unfoldable pub increase_user_cnt : UserManager → UserManager
increase_user_cnt m = record m { current_user_cnt = inc32 m.current_user_cnt }

unfoldable pub decrease_user_cnt : UserManager → UserManager
decrease_user_cnt m =
    if ltb_ℤ (pos 0) m.current_user_cnt
    then record m { current_user_cnt = dec32 m.current_user_cnt }
    else m

-- `insert` inserts only a new key.
unfoldable pub adduser : UserManager → List ℕ → ℕ → Option (ℕ × UserManager)
adduser m user_id_ client_index_ =
    if contains m.user_id_dictionary user_id_
    then some (ErrorCode.login_user_already, m)
    else (get_user_by_conn_idx m client_index_ >>= λ u. some (
      ErrorCode.ok,
      record (put_user m client_index_ (User.set_login u user_id_)) {
        user_id_dictionary = insert m.user_id_dictionary user_id_ (signed32 client_index_);
      },
    ))

unfoldable pub delete_user_info : UserManager → ℕ → Option UserManager
delete_user_info m i = get_user_by_conn_idx m i >>= λ u.
    let erased = record m { user_id_dictionary = erase m.user_id_dictionary u.user_id } in
    let cleared = User.increment_generation (User.clear u) in
    some (decrease_user_cnt (put_user erased i cleared))

unfoldable pub find_user_index_by_id : UserManager → List ℕ → ℤ
find_user_index_by_id m user_id_ = elim (find m.user_id_dictionary user_id_) [
  | none ↦ negsuc 0
  | some i ↦ i
]
