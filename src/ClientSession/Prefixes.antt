-- ===== src/ClientSession/Prefixes.antt =====
-- What is taken and dropped from a list that grows at its end.
use iocp.Common.{
  ℕ, zero, suc, ◌≤◌, ◌≡◌, refl, ap, List, [], ◌∷◌, ◌++◌, arith, ◌==◌, if◌then◌else◌, length, take,
  drop,
}

module _ {ℓ} {A : Type ℓ} where
  pub drop-snoc : (xs ys : List A) (n : ℕ) → n ≤ length xs → drop n (xs ++ ys) ≡ drop n xs ++ ys
  drop-snoc xs ys zero h = refl
  drop-snoc [] ys (suc n) h = absurd (omega arith)
  drop-snoc (x ∷ xs) ys (suc n) h = drop-snoc xs ys n (omega arith)

  pub drop_next :
      (xs : List A) (n : ℕ) (y : A) (ys : List A) → drop n xs ≡ y ∷ ys → drop (suc n) xs ≡ ys
  drop_next [] zero y ys h = cc
  drop_next [] (suc n) y ys h = cc
  drop_next (x ∷ xs) zero y ys h = cc
  drop_next (x ∷ xs) (suc n) y ys h = drop_next xs n y ys h

  pub take_one_more : (xs : List A) (n : ℕ) → take (suc n) xs ≡ take n xs ++ take 1 (drop n xs)
  take_one_more [] zero = refl
  take_one_more [] (suc n) = refl
  take_one_more (x ∷ xs) zero = refl
  take_one_more (x ∷ xs) (suc n) = ap (λ l. x ∷ l) (take_one_more xs n)

  pub take-snoc :
      (xs : List A) (y : A) (n : ℕ)
      → n ≤ length xs
      → take (suc n) (xs ++ y ∷ [])
        ≡ take (suc n) xs ++ (if length (drop n xs) == 0 then y ∷ [] else [])
  take-snoc [] y zero h = refl
  take-snoc [] y (suc n) h = absurd (omega arith)
  take-snoc (x ∷ xs) y zero h = ground arith
  take-snoc (x ∷ xs) y (suc n) h = ap (λ l. x ∷ l) (take-snoc xs y n (omega arith))
