-- ===== src/Libc/Strtol.antt =====
-- strtol(3): leading white space, a sign, a prefix that fixes the base, digits; the value is clamped
-- to the range of long, with errno set to ERANGE.
use linux_programming.Base.{
  ℕ, zero, suc, ◌+◌, ◌-◌, ◌*◌, ◌^◌, Bool, true, false, ◌&&◌, ◌||◌, [], ◌∷◌, Option, none, some, ltb,
  leb, ◌==◌, if◌then◌else◌,
}
use linux_programming.Base.Int.{ℤ, pos, negsuc}
use linux_programming.Base.Bytes.{Bytes}
use linux_programming.Libc.Str.{is_space}

-- `rest` is what `*endptr` points at, `erange` says that errno was set.
pub record Parsed : Type 0 where
  pub value : ℤ
  pub rest : Bytes
  pub erange : Bool

-- A letter or a decimal digit as a digit of a base up to 36; 36 for any other byte.
abbrev pub digit : ℕ → ℕ
digit c =
    if leb 48 c && leb c 57
    then c - 48
    else if leb 97 c && leb c 122
    then c - 87
    else if leb 65 c && leb c 90
    then c - 55
    else 36

unfoldable pub skip_space : Bytes → Bytes
skip_space [] = []
skip_space (c ∷ s) = let rest = skip_space s in if is_space c then rest else c ∷ s

-- The digits' value on top of `acc`, and what follows them.
unfoldable pub digits : ℕ → ℕ → Bytes → ℕ × Bytes
digits base acc [] = (acc, [])
digits base acc (c ∷ s) =
    let rest = digits base (acc * base + digit c) s in
    if ltb (digit c) base then rest else (acc, c ∷ s)

-- At least one digit stands at the front.
abbrev pub starts_digit : ℕ → Bytes → Bool
starts_digit base [] = false
starts_digit base (c ∷ s) = ltb (digit c) base

abbrev pub long_max : ℕ
long_max = 2 ^ 63 - 1

-- The value with its sign, clamped.
abbrev pub clamp : Bool → ℕ → Bytes → Parsed
clamp false n rest =
    if leb n long_max
    then record { value = pos n; rest = rest; erange = false }
    else record { value = pos long_max; rest = rest; erange = true }
clamp true zero rest = record { value = pos 0; rest = rest; erange = false }
clamp true (suc n) rest =
    if leb n long_max
    then record { value = negsuc n; rest = rest; erange = false }
    else record { value = negsuc long_max; rest = rest; erange = true }

-- Digits in a known base; without one nothing is consumed of `whole`.
abbrev pub number : ℕ → Bool → Bytes → Bytes → Parsed
number base neg whole s =
    if starts_digit base s
    then clamp neg (digits base 0 s).0 (digits base 0 s).1
    else record { value = pos 0; rest = whole; erange = false }

-- "0x" counts as a prefix only before a hexadecimal digit.
abbrev pub hex_body : Bytes → Option Bytes
hex_body [] = none
hex_body (z ∷ []) = none
hex_body (z ∷ x ∷ s) =
    if (z == 48) && ((x == 120) || (x == 88)) && starts_digit 16 s then some s else none

abbrev pub leading_zero : Bytes → Bool
leading_zero [] = false
leading_zero (c ∷ s) = c == 48

abbrev pub in_base : ℕ → Bool → Bytes → Bytes → Parsed
in_base base neg whole s =
    if (base == 0) || (base == 16)
    then elim (hex_body s) [
      | some body ↦ number 16 neg whole body
      | none ↦ number (if base == 16 then 16 else if leading_zero s then 8 else 10) neg whole s
    ]
    else number base neg whole s

abbrev pub signed : ℕ → Bytes → Bytes → Parsed
signed base whole [] = in_base base false whole []
signed base whole (c ∷ s) =
    if c == 45
    then in_base base true whole s
    else if c == 43
    then in_base base false whole s
    else in_base base false whole (c ∷ s)

unfoldable pub strtol : Bytes → ℕ → Parsed
unfolding skip_space digits
strtol s base = signed base s (skip_space s)
