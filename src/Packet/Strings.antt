-- ===== src/Packet/Strings.antt =====
-- C strings in byte buffers: reading one from a pointer, and `strcpy_s`, which ends the process
-- where the string and its terminator do not fit (the default invalid-parameter handler).
use Prim.Native.Char.{code}
use Prim.Native.String.{String}
use iocp.Common.{
  ℕ, zero, suc, ◌≤◌, ◌<◌, ◌≡◌, refl, Bool, true, false, Option, none, some, List, [], ◌∷◌, ◌++◌,
  arith, ◌==◌, ltb, if◌then◌else◌, ◌>>=◌, length, take, Option-cases, inl, inr,
}

-- The bytes of an ASCII text.
abbrev pub codes : String → List ℕ
codes String.[] = []
codes (String.◌∷◌ c s) = code c ∷ codes s

-- The string at a pointer. `none`: no terminator up to the end of the buffer, so that the read runs
-- out of it.
unfoldable pub c_str : List ℕ → Option (List ℕ)
c_str [] = none
c_str (b ∷ bs) = if b == 0 then some [] else (c_str bs >>= λ s. some (b ∷ s))

-- `strcpy_s(dest, size, src)`: what `dest` then holds, as a string.
unfoldable pub strcpy_s : ℕ → List ℕ → Option (List ℕ)
strcpy_s size src = if ltb (length src) size then some src else none

-- `strncmp(s, prefix, strlen(prefix)) == 0`
unfoldable pub starts_with : List ℕ → List ℕ → Bool
starts_with s [] = true
starts_with [] (p ∷ ps) = false
starts_with (c ∷ s) (p ∷ ps) = if c == p then starts_with s ps else false

-- Equality of strings.
unfoldable pub str_eq : List ℕ → List ℕ → Bool
str_eq [] [] = true
str_eq [] (y ∷ ys) = false
str_eq (x ∷ xs) [] = false
str_eq (x ∷ xs) (y ∷ ys) = if x == y then str_eq xs ys else false

pub str_eq_refl : (s : List ℕ) → str_eq s s ≡ true
unfolding str_eq
str_eq_refl [] = refl
str_eq_refl (x ∷ s) = ground (arith, str_eq_refl s)

pub eq_of_str_eq : (s t : List ℕ) → str_eq s t ≡ true → s ≡ t
unfolding str_eq
eq_of_str_eq [] [] h = refl
eq_of_str_eq [] (y ∷ t) h = cc
eq_of_str_eq (x ∷ s) [] h = cc
eq_of_str_eq (x ∷ s) (y ∷ t) h = ground (arith, eq_of_str_eq s t)

pub str_eq_comm : (s t : List ℕ) → str_eq s t ≡ str_eq t s
unfolding str_eq
str_eq_comm [] [] = refl
str_eq_comm [] (y ∷ t) = refl
str_eq_comm (x ∷ s) [] = refl
str_eq_comm (x ∷ s) (y ∷ t) = ground (arith, str_eq_comm s t)

-- A string that `strcpy_s` let through is unchanged and has room for its terminator.
pub strcpy_s-eq-some :
    (size : ℕ) (s : List ℕ) {t : List ℕ} → strcpy_s size s ≡ some t → (t ≡ s) × (length s < size)
unfolding strcpy_s
strcpy_s-eq-some size s h = ground arith

pub strcpy_s_fits : (size : ℕ) (s : List ℕ) → length s < size → strcpy_s size s ≡ some s
unfolding strcpy_s
strcpy_s_fits size s h = ground arith

pub strcpy_s_long : (size : ℕ) (s : List ℕ) → size ≤ length s → strcpy_s size s ≡ none
unfolding strcpy_s
strcpy_s_long size s h = ground arith

-- A string that ends within a piece of a buffer is read from a copy of the piece.
pub c_str-take :
    (n : ℕ) (xs ys : List ℕ) {s : List ℕ}
    → c_str xs ≡ some s
    → length s < n
    → c_str (take n xs ++ ys) ≡ some s
unfolding c_str
c_str-take n [] ys h fits = cc
c_str-take zero (x ∷ xs) ys h fits = absurd (omega arith)
c_str-take (suc n) (x ∷ xs) ys {s} h fits = elim (Option-cases (c_str xs)) [
  | inl e ↦ ground arith
  | inr (t, e) ↦ ground (arith, c_str-take n xs ys e)
]

-- A string that was read, written again with its terminator.
pub c_str-written : (xs ys : List ℕ) {s : List ℕ} → c_str xs ≡ some s → c_str (s ++ 0 ∷ ys) ≡ some s
unfolding c_str
c_str-written [] ys h = cc
c_str-written (x ∷ xs) ys {s} h = elim (Option-cases (c_str xs)) [
  | inl e ↦ ground arith
  | inr (t, e) ↦ ground (arith, c_str-written xs ys e)
]

pub c_str-length : (xs : List ℕ) {s : List ℕ} → c_str xs ≡ some s → length s < length xs
unfolding c_str
c_str-length [] h = cc
c_str-length (x ∷ xs) {s} h = elim (Option-cases (c_str xs)) [
  | inl e ↦ ground arith
  | inr (t, e) ↦ ground (arith, c_str-length xs e)
]
