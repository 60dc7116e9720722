-- ===== src/Libc/Str.antt =====
-- strcmp, strchr, strrchr, isspace, toupper and the digits of string.h and ctype.h.
use linux_programming.Base.{
  ℕ, ◌-◌, ◌≡◌, refl, ap, All, Bool, true, false, ◌&&◌, ◌||◌, [], ◌∷◌, Option, none, some, arith,
  ltb, leb, ◌==◌, if◌then◌else◌,
}
use linux_programming.Base.Bytes.{Bytes}

-- The sign of strcmp's result.
pub data Order : Type 0 where
  less equal greater : Order

-- To split on a computed order and keep the equation.
pub data OrderIs (o : Order) : Type 0 where
  before : o ≡ less → OrderIs o
  same : o ≡ equal → OrderIs o
  after : o ≡ greater → OrderIs o

pub Order-cases : (o : Order) → OrderIs o
Order-cases less = before refl
Order-cases equal = same refl
Order-cases greater = after refl

unfoldable pub strcmp : Bytes → Bytes → Order
strcmp [] [] = equal
strcmp [] (y ∷ ys) = less
strcmp (x ∷ xs) [] = greater
strcmp (x ∷ xs) (y ∷ ys) = if ltb x y then less else if ltb y x then greater else strcmp xs ys

unfoldable pub str_eq : Bytes → Bytes → Bool
str_eq [] [] = true
str_eq [] (y ∷ ys) = false
str_eq (x ∷ xs) [] = false
str_eq (x ∷ xs) (y ∷ ys) = (x == y) && str_eq xs ys

pub str_eq_refl : (s : Bytes) → str_eq s s ≡ true
unfolding str_eq
str_eq_refl [] = refl
str_eq_refl (x ∷ xs) = ground (arith, str_eq_refl xs)

pub eq_of_str_eq : (s t : Bytes) → str_eq s t ≡ true → s ≡ t
unfolding str_eq
eq_of_str_eq [] [] h = refl
eq_of_str_eq [] (y ∷ t) h = ground arith
eq_of_str_eq (x ∷ s) [] h = ground arith
eq_of_str_eq (x ∷ s) (y ∷ t) h = ground (arith, eq_of_str_eq s t)

-- What stands behind the first `c`, and what stands before it.
unfoldable pub strchr : Bytes → ℕ → Option Bytes
strchr [] c = none
strchr (x ∷ xs) c = if x == c then some xs else strchr xs c

unfoldable pub upto : Bytes → ℕ → Bytes
upto [] c = []
upto (x ∷ xs) c = if x == c then [] else x ∷ upto xs c

-- A string without a NUL.
abbrev pub NoNul : Bytes → Type 0
NoNul = All (λ c. (c == 0) ≡ false)

pub upto-NoNul : (s : Bytes) → NoNul s → upto s 0 ≡ s
unfolding upto
upto-NoNul [] h = refl
upto-NoNul (c ∷ s) (h, hs) = rw h (ap (λ l. c ∷ l) (upto-NoNul s hs))

-- toupper in the C locale, the one of a program that calls no setlocale.
abbrev pub toupper : ℕ → ℕ
toupper c = if leb 97 c && leb c 122 then c - 32 else c

abbrev pub is_space : ℕ → Bool
is_space c = (c == 32) || (leb 9 c && leb c 13)

abbrev pub flip : Order → Order
flip less = greater
flip equal = equal
flip greater = less

pub strcmp_swap : (s t : Bytes) → strcmp t s ≡ flip (strcmp s t)
unfolding strcmp
strcmp_swap [] [] = refl
strcmp_swap [] (y ∷ t) = refl
strcmp_swap (x ∷ s) [] = refl
strcmp_swap (x ∷ s) (y ∷ t) = ground (arith, strcmp_swap s t)

pub strcmp_refl : (s : Bytes) → strcmp s s ≡ equal
unfolding strcmp
strcmp_refl [] = refl
strcmp_refl (x ∷ s) = ground (arith, strcmp_refl s)

pub eq_of_strcmp : (s t : Bytes) → strcmp s t ≡ equal → s ≡ t
unfolding strcmp
eq_of_strcmp [] [] h = refl
eq_of_strcmp [] (y ∷ t) h = ground arith
eq_of_strcmp (x ∷ s) [] h = ground arith
eq_of_strcmp (x ∷ s) (y ∷ t) h = ground (arith, eq_of_strcmp s t)

pub strcmp_trans : (s t u : Bytes) → strcmp s t ≡ less → strcmp t u ≡ less → strcmp s u ≡ less
unfolding strcmp
strcmp_trans [] [] u h k = ground arith
strcmp_trans [] (y ∷ t) [] h k = ground arith
strcmp_trans [] (y ∷ t) (z ∷ u) h k = refl
strcmp_trans (x ∷ s) [] u h k = ground arith
strcmp_trans (x ∷ s) (y ∷ t) [] h k = ground arith
strcmp_trans (x ∷ s) (y ∷ t) (z ∷ u) h k = ground (arith, strcmp_trans s t u)
