-- ===== src/GetNum/RoundTrip.antt =====
-- strtol and getInt on what printf's %d writes.
use linux_programming.Base.{
  ℕ, zero, suc, ◌+◌, ◌*◌, ◌/◌, ◌%◌, ◌≤◌, ◌<◌, ◌≡◌, refl, ◌∙◌, ap, inl, inr, Bool, true, false, [],
  ◌∷◌, ◌++◌, Option, some, arith, ltb, ◌==◌, append_assoc, append-nil, Bool-cases, lt→ltb,
}
use linux_programming.Base.Int.{ℤ, pos, negsuc, ◌≤ℤ◌}
use linux_programming.Base.Bytes.{Bytes}
use linux_programming.Libc.Decimal.{decimal_fuel, decimal, print_int}
use linux_programming.Libc.Strtol.{
  digit, digits, skip_space, signed, number, clamp, strtol, long_max,
}
use linux_programming.GetNum.{returns, is_empty, get_int, int_max}
use linux_programming.GetNum.Range.{check_int_lem}

digit_of : (d : ℕ) → d < 10 → digit (48 + d) ≡ d
digit_of d h = ground arith

digits-cons :
    (acc d : ℕ) (rest : Bytes)
    → d < 10
    → digits 10 acc ((48 + d) ∷ rest) ≡ digits 10 (acc * 10 + d) rest
unfolding digits
digits-cons acc d rest h = rw (digit_of d h, lt→ltb d 10 h)

pub digits-decimal_fuel :
    (fuel n : ℕ) (rest : Bytes)
    → n < fuel
    → digits 10 0 (decimal_fuel fuel n ++ rest) ≡ digits 10 n rest
unfolding decimal_fuel
digits-decimal_fuel zero n rest h = absurd (omega arith)
digits-decimal_fuel (suc fuel) n rest h = elim (Bool-cases (ltb n 10)) [
  | inl small ↦
      rw small (digits-cons 0 n rest (ground arith) ∙ ap (λ k. digits 10 k rest) (omega arith))
  | inr large ↦
      rw (large, append_assoc (decimal_fuel fuel (n / 10)) ((48 + n % 10) ∷ []) rest)
        (digits-decimal_fuel fuel (n / 10) ((48 + n % 10) ∷ rest) (ground arith)
          ∙ (digits-cons (n / 10) (n % 10) rest (omega arith)
              ∙ ap (λ k. digits 10 k rest) (omega arith)))
]

-- A first byte that is a decimal digit.
abbrev StartsDigit : Bytes → Type 0
StartsDigit s = (c : ℕ) × (r : Bytes) × (s ≡ c ∷ r) × (48 ≤ c) × (c ≤ 57)

decimal_fuel-StartsDigit : (fuel n : ℕ) → n < fuel → StartsDigit (decimal_fuel fuel n)
unfolding decimal_fuel
decimal_fuel-StartsDigit zero n h = absurd (omega arith)
decimal_fuel-StartsDigit (suc fuel) n h = elim (Bool-cases (ltb n 10)) [
  | inl small ↦ (48 + n, [], rw small, omega arith, ground arith)
  | inr large ↦
      let (c, r, e, lo, hi) = decimal_fuel-StartsDigit fuel (n / 10) (ground arith) in
      (c, r ++ (48 + n % 10) ∷ [], rw (large, e), lo, hi)
]

digits-nil : (n : ℕ) → digits 10 n [] ≡ (n, [])
unfolding digits
digits-nil n = refl

-- What `decimal n` looks like: a first digit, and the value of the whole.
pub decimal-digits :
    (n : ℕ)
    → (c : ℕ) × (r : Bytes) × (decimal n ≡ c ∷ r)
      × (48 ≤ c)
      × (c ≤ 57)
      × (digits 10 0 (c ∷ r) ≡ (n, []))
unfolding decimal
decimal-digits n =
    let (c, r, e, lo, hi) = decimal_fuel-StartsDigit (suc n) n (omega arith) in
    let whole = digits-decimal_fuel (suc n) n [] (omega arith) ∙ digits-nil n in
    (c, r, e, lo, hi, rw e at (rw append-nil at whole))

module _ (whole r : Bytes) (c n : ℕ) (lo : 48 ≤ c) (hi : c ≤ 57)
    (value : digits 10 0 (c ∷ r) ≡ (n, [])) where
  number_digits : (neg : Bool) → number 10 neg whole (c ∷ r) ≡ clamp neg n []
  number_digits neg = let d : ltb (digit c) 10 ≡ true = ground arith in rw (d, value)

  signed_digits : signed 10 whole (c ∷ r) ≡ clamp false n []
  signed_digits =
      let minus : (c == 45) ≡ false = ground arith in
      let plus : (c == 43) ≡ false = ground arith in rw (minus, plus) (number_digits false)

  skip_space_digit : skip_space (c ∷ r) ≡ c ∷ r
  unfolding skip_space
  skip_space_digit = ground arith

strtol-decimal : (n : ℕ) → strtol (decimal n) 10 ≡ clamp false n []
unfolding strtol
strtol-decimal n =
    let (c, r, e, lo, hi, value) = decimal-digits n in
    rw (e, skip_space_digit [] r c n lo hi value) (signed_digits (c ∷ r) r c n lo hi value)

strtol-minus : (n : ℕ) → strtol (45 ∷ decimal n) 10 ≡ clamp true n []
unfolding strtol skip_space
strtol-minus n =
    let (c, r, e, lo, hi, value) = decimal-digits n in
    rw e (number_digits (45 ∷ c ∷ r) r c n lo hi value true)

-- strtol reads a long back from the text that printf's %ld writes, to the end and with no range error.
pub strtol-print_int :
    (v : ℤ)
    → negsuc long_max ≤ℤ v
    → v ≤ℤ pos long_max
    → strtol (print_int v) 10 ≡ record { value = v; rest = []; erange = false }
unfolding print_int
strtol-print_int (pos n) lo hi = strtol-decimal n ∙ ground arith
strtol-print_int (negsuc n) lo hi = strtol-minus (suc n) ∙ ground arith

pub print_int-ne_nil : (v : ℤ) → is_empty (some (print_int v)) ≡ false
unfolding print_int
print_int-ne_nil (pos n) = let (c, r, e, lo, hi, value) = decimal-digits n in rw e
print_int-ne_nil (negsuc n) = refl

-- getInt with no flags reads every int back from the text that printf's %d writes.
pub get_int-print_int :
    (v : ℤ) (name : Option Bytes)
    → negsuc int_max ≤ℤ v
    → v ≤ℤ pos int_max
    → get_int (some (print_int v)) 0 name ≡ returns v
unfolding get_int
get_int-print_int v name lo hi =
    rw (print_int-ne_nil v, strtol-print_int v (omega arith) (omega arith))
      (check_int_lem (some (print_int v)) name v lo hi)
