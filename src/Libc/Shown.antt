-- ===== src/Libc/Shown.antt =====
-- The characters of a printed number.
use linux_programming.Base.{
  ℕ, zero, suc, ◌+◌, ◌/◌, ◌%◌, ◌≤◌, [], ◌∷◌, ◌++◌, All, arith, ltb, Bool-cases, inl, inr,
}
use linux_programming.Base.Int.{ℤ, pos, negsuc}
use linux_programming.Base.Bytes.{Bytes}
use linux_programming.Libc.Decimal.{decimal_fuel, decimal, print_int}

-- Bytes that are neither NUL nor blank.
unfoldable pub Shown : Bytes → Type 0
Shown = All (λ c. 45 ≤ c)

Shown-append : (xs ys : Bytes) → Shown xs → Shown ys → Shown (xs ++ ys)
unfolding Shown
Shown-append [] ys at_xs at_ys = at_ys
Shown-append (x ∷ xs) ys (h, at_xs) at_ys = (h, Shown-append xs ys at_xs at_ys)

decimal_fuel-Shown : (fuel n : ℕ) → Shown (decimal_fuel fuel n)
unfolding decimal_fuel Shown
decimal_fuel-Shown zero n = tt
decimal_fuel-Shown (suc fuel) n = elim (Bool-cases (ltb n 10)) [
  | inl small ↦ rw small (omega arith, tt)
  | inr large ↦ rw large (
      Shown-append (decimal_fuel fuel (n / 10)) ((48 + n % 10) ∷ [])
        (decimal_fuel-Shown fuel (n / 10)) (omega arith, tt))
]

pub print_int-Shown : (v : ℤ) → Shown (print_int v)
unfolding print_int decimal Shown
print_int-Shown (pos n) = decimal_fuel-Shown (suc n) n
print_int-Shown (negsuc n) = (omega arith, decimal_fuel-Shown (suc (suc n)) (suc n))
