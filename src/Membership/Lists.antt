-- ===== src/Membership/Lists.antt =====
-- How often a place stands in a list, under the operations of IOCPChatServer/Room.h, and single
-- writes into a list.
use iocp.Common.{
  ℕ, zero, suc, ◌+◌, ◌≤◌, ◌≡◌, some, List, [], ◌∷◌, ◌++◌, arith, ◌==◌, if◌then◌else◌, length,
  get_elem?, set,
}
use iocp.Room.{remove}

abbrev pub count : ℕ → List ℕ → ℕ
count j [] = 0
count j (i ∷ is) = (if i == j then 1 else 0) + count j is

pub count-append : (j : ℕ) (xs ys : List ℕ) → count j (xs ++ ys) ≡ count j xs + count j ys
count-append j [] ys = omega arith
count-append j (x ∷ xs) ys = omega (arith, count-append j xs ys)

pub count-remove :
    (i j : ℕ) (xs : List ℕ) → count j (remove i xs) ≡ (if i == j then 0 else count j xs)
unfolding remove
count-remove i j [] = ground arith
count-remove i j (x ∷ xs) = ground (arith, count-remove i j xs)

pub length-remove : (i : ℕ) (xs : List ℕ) → length (remove i xs) + count i xs ≡ length xs
unfolding remove
length-remove i [] = omega arith
length-remove i (x ∷ xs) = ground (arith, length-remove i xs)

pub count-le-length : (j : ℕ) (xs : List ℕ) → count j xs ≤ length xs
count-le-length j [] = omega arith
count-le-length j (x ∷ xs) = ground (arith, count-le-length j xs)

-- A write at a place that is there.
pub get_elem?-set {ℓ} :
    {A : Type ℓ} (xs : List A) (i j : ℕ) (v : A) {a : A}
    → get_elem? xs i ≡ some a
    → get_elem? (set xs i v) j ≡ (if i == j then some v else get_elem? xs j)
get_elem?-set [] i j v h = cc
get_elem?-set (x ∷ xs) zero zero v h = ground arith
get_elem?-set (x ∷ xs) zero (suc j) v h = ground arith
get_elem?-set (x ∷ xs) (suc i) zero v h = ground arith
get_elem?-set (x ∷ xs) (suc i) (suc j) v h = ground (arith, get_elem?-set xs i j v h)
