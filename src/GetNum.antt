-- ===== src/GetNum.antt =====
-- get_num.c and get_num.h (CH07-Memory_Allocation/free_and_sbrk; the other chapters hold copies):
-- numbers from the command line. A string argument is `none` where the source tests for NULL.
pub mod RoundTrip
pub mod Range
mod Tests
use Prim.Native.Nat.{bit_and}
use linux_programming.Base.{
  ℕ, ◌^◌, Bool, true, false, ◌&&◌, ◌||◌, not, [], ◌∷◌, ◌++◌, Option, none, some, ◌==◌,
  if◌then◌else◌, ◌-◌,
}
use linux_programming.Base.Int.{ℤ, pos, negsuc, ltb_ℤ}
use linux_programming.Base.Bytes.{Bytes, codes}
use linux_programming.Libc.Strtol.{Parsed, strtol}

-- A call returns, or the process exits with a text on stderr.
pub data Outcome (A : Type 0) : Type 0 where
  returns : A → Outcome A
  exits : Bytes → ℕ → Outcome A

infixl 5 ◌>>=◌
abbrev pub ◌>>=◌ : {A B : Type 0} → Outcome A → (A → Outcome B) → Outcome B
returns a >>= f = f a
exits text status >>= f = exits text status

abbrev pub gn_nonneg : ℕ
gn_nonneg = 1

abbrev pub gn_gt_0 : ℕ
gn_gt_0 = 2

abbrev pub gn_any_base : ℕ
gn_any_base = 64

abbrev pub gn_base_8 : ℕ
gn_base_8 = 128

abbrev pub gn_base_16 : ℕ
gn_base_16 = 256

abbrev pub has_flag : ℕ → ℕ → Bool
has_flag flags f = not (bit_and flags f == 0)

abbrev in_part : Option Bytes → Bytes
in_part none = []
in_part (some name) = codes " (in " ++ (name ++ codes ")")

abbrev offending : Option Bytes → Bytes
offending none = []
offending (some []) = []
offending (some (c ∷ arg)) = 9 ∷ 9 ∷ codes "offending text: " ++ ((c ∷ arg) ++ 10 ∷ [])

-- EXIT_FAILURE is 1.
unfoldable pub gn_fail : {A : Type 0} → Bytes → Bytes → Option Bytes → Option Bytes → Outcome A
gn_fail fname msg arg name =
    exits
      (fname
        ++ (codes " error"
            ++ (in_part name ++ (codes ": (" ++ (msg ++ (10 ∷ 41 ∷ offending arg))))))
      1

abbrev is_empty : Option Bytes → Bool
is_empty none = true
is_empty (some []) = true
is_empty (some (c ∷ arg)) = false

abbrev text_of : Option Bytes → Bytes
text_of none = []
text_of (some arg) = arg

abbrev ends : Bytes → Bool
ends [] = true
ends (c ∷ s) = false

unfoldable pub base_of : ℕ → ℕ
base_of flags =
    if has_flag flags gn_any_base
    then 0
    else if has_flag flags gn_base_8
    then 8
    else if has_flag flags gn_base_16
    then 16
    else 10

-- The tests on what strtol returned.
unfoldable pub check_num : Bytes → Option Bytes → ℕ → Option Bytes → Parsed → Outcome ℤ
unfolding gn_fail
check_num fname arg flags name p =
    if p.erange
    then gn_fail fname (codes "strtol() failed") arg name
    else if not (ends p.rest)
    then gn_fail fname (codes "nonnumeric characters") arg name
    else if has_flag flags gn_nonneg && ltb_ℤ p.value (pos 0)
    then gn_fail fname (codes "negative value not allowed") arg name
    else if has_flag flags gn_gt_0 && not (ltb_ℤ (pos 0) p.value)
    then gn_fail fname (codes "value must be > 0") arg name
    else returns p.value

unfoldable pub get_num : Bytes → Option Bytes → ℕ → Option Bytes → Outcome ℤ
unfolding base_of check_num gn_fail
get_num fname arg flags name =
    if is_empty arg
    then gn_fail fname (codes "null or empty string") arg name
    else check_num fname arg flags name (strtol (text_of arg) (base_of flags))

unfoldable pub get_long : Option Bytes → ℕ → Option Bytes → Outcome ℤ
unfolding get_num
get_long arg flags name = get_num (codes "getLong") arg flags name

abbrev pub int_max : ℕ
int_max = 2 ^ 31 - 1

-- INT_MIN is -(INT_MAX + 1).
unfoldable pub check_int : Option Bytes → Option Bytes → ℤ → Outcome ℤ
unfolding gn_fail
check_int arg name res =
    if ltb_ℤ (pos int_max) res || ltb_ℤ res (negsuc int_max)
    then gn_fail (codes "getInt") (codes "Integer out of range") arg name
    else returns res

unfoldable pub get_int : Option Bytes → ℕ → Option Bytes → Outcome ℤ
unfolding get_num check_int
get_int arg flags name = get_num (codes "getInt") arg flags name >>= check_int arg name
