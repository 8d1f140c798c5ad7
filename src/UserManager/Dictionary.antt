-- ===== src/UserManager/Dictionary.antt =====
-- The `std::unordered_map<std::string, int>` of IOCPChatServer/UserManager.h. The code never walks
-- through it, so the order of the entries is of no account.
use iocp.Common.{
  ℕ, ◌≡◌, refl, Bool, true, false, Option, none, some, List, [], ◌∷◌, arith, if◌then◌else◌,
}
use iocp.Common.Int.{ℤ}
use iocp.Packet.Strings.{str_eq, str_eq_refl, eq_of_str_eq}

abbrev pub UserIds : Type 0
UserIds = List (List ℕ × ℤ)

unfoldable pub find : UserIds → List ℕ → Option ℤ
find [] k = none
find ((j, v) ∷ d) k = if str_eq j k then some v else find d k

unfoldable pub contains : UserIds → List ℕ → Bool
contains d k = elim (find d k) [ none ↦ false | some _ ↦ true ]

-- The caller has seen that the key is new.
unfoldable pub insert : UserIds → List ℕ → ℤ → UserIds
insert d k v = (k, v) ∷ d

unfoldable pub erase : UserIds → List ℕ → UserIds
erase [] k = []
erase ((j, v) ∷ d) k = if str_eq j k then erase d k else (j, v) ∷ erase d k

pub find-insert :
    (d : UserIds) (k j : List ℕ) (v : ℤ)
    → find (insert d k v) j ≡ (if str_eq k j then some v else find d j)
unfolding find insert
find-insert d k j v = refl

pub find-erase :
    (d : UserIds) (k j : List ℕ) → find (erase d k) j ≡ (if str_eq k j then none else find d j)
unfolding find erase
find-erase [] k j = ground arith
find-erase ((i, v) ∷ d) k j =
    ground
      (arith, find-erase d k j, eq_of_str_eq i k, eq_of_str_eq k j, eq_of_str_eq i j, str_eq_refl i)
