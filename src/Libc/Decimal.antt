-- ===== src/Libc/Decimal.antt =====
-- printf's %d and %ld: an integer as decimal text.
use linux_programming.Base.{ℕ, zero, suc, ◌+◌, ◌/◌, ◌%◌, [], ◌∷◌, ◌++◌, ltb, if◌then◌else◌}
use linux_programming.Base.Int.{ℤ, pos, negsuc}
use linux_programming.Base.Bytes.{Bytes}

-- The digits of `n` in base ten, the first `fuel` of them from the right.
unfoldable pub decimal_fuel : ℕ → ℕ → Bytes
decimal_fuel zero n = []
decimal_fuel (suc fuel) n =
    let front = decimal_fuel fuel (n / 10) in
    if ltb n 10 then (48 + n) ∷ [] else front ++ (48 + n % 10) ∷ []

-- A number has at most `n + 1` digits.
unfoldable pub decimal : ℕ → Bytes
unfolding decimal_fuel
decimal n = decimal_fuel (suc n) n

unfoldable pub print_int : ℤ → Bytes
unfolding decimal
print_int (pos n) = decimal n
print_int (negsuc n) = 45 ∷ decimal (suc n)
