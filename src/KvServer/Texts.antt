-- ===== src/KvServer/Texts.antt =====
-- The texts of the requests of server.c, and what sscanf makes of them.
use linux_programming.Base.{
  ℕ, suc, ◌<◌, ◌≤◌, ◌≡◌, refl, ap, ◌∙◌, Bool, true, false, [], ◌∷◌, ◌++◌, some, arith, ltb, leb,
  ◌==◌, length, All,
}
use linux_programming.Base.Int.{ℤ, pos, negsuc, ◌≤ℤ◌, to_int}
use linux_programming.Base.Bytes.{Bytes, codes}
use linux_programming.Libc.Decimal.{decimal, print_int}
use linux_programming.Libc.Str.{is_space, NoNul}
use linux_programming.Libc.Strtol.{clamp, long_max, digit, digits, skip_space}
use linux_programming.GetNum.{int_max}
use linux_programming.GetNum.RoundTrip.{digits-decimal_fuel, decimal-digits}
use linux_programming.Seqnum.Backup.{to_int-in_range}
use linux_programming.KvServer.{
  request, scan_digits, scan_int, span, is_nil, scan_value, scan_key, scan_pid, scan_request,
}

-- The text of a number with a colon behind it.
digits-colon : (n : ℕ) (rest : Bytes) → digits 10 0 (decimal n ++ 58 ∷ rest) ≡ (n, 58 ∷ rest)
unfolding decimal digits
digits-colon n rest = digits-decimal_fuel (suc n) n (58 ∷ rest) (omega arith)

-- A first byte that is a digit.
data Leading : Bytes → Type 0 where
  leading : {c : ℕ} {s : Bytes} → 48 ≤ c → c ≤ 57 → Leading (c ∷ s)

decimal-Leading : (n : ℕ) (rest : Bytes) → Leading (decimal n ++ rest)
decimal-Leading n rest = let (c, r, e, lo, hi, known) = decimal-digits n in rw e (leading lo hi)

scan_digits-Leading :
    (neg : Bool) (s : Bytes) (n : ℕ) (rest : Bytes)
    → Leading s
    → digits 10 0 s ≡ (n, rest)
    → scan_digits neg s ≡ some (to_int (clamp neg n rest).value, rest)
unfolding scan_digits
scan_digits-Leading neg _ n rest (leading {c} {s} lo hi) e =
    let d : ltb (digit c) 10 ≡ true = ground arith in rw (d, e) refl

scan_int-Leading : (s : Bytes) → Leading s → scan_int s ≡ scan_digits false s
unfolding scan_int skip_space
scan_int-Leading _ (leading {c} {s} lo hi) =
    let minus : (c == 45) ≡ false = ground arith in
    let plus : (c == 43) ≡ false = ground arith in
    let shown : is_space c ≡ false = ground arith in rw (shown, minus, plus) refl

scan_int-minus : (s : Bytes) → scan_int (45 ∷ s) ≡ scan_digits true s
unfolding scan_int skip_space
scan_int-minus s = refl

-- An int.
abbrev pub IsInt : ℤ → Type 0
IsInt v = (negsuc int_max ≤ℤ v) × (v ≤ℤ pos int_max)

clamp-pos : (n : ℕ) (rest : Bytes) → n ≤ int_max → (clamp false n rest).value ≡ pos n
clamp-pos n rest h = let fits : leb n long_max ≡ true = ground arith in rw fits refl

clamp-negsuc : (n : ℕ) (rest : Bytes) → n ≤ int_max → (clamp true (suc n) rest).value ≡ negsuc n
clamp-negsuc n rest h = let fits : leb n long_max ≡ true = ground arith in rw fits refl

scan_int-print_int :
    (v : ℤ) (rest : Bytes) → IsInt v → scan_int (print_int v ++ 58 ∷ rest) ≡ some (v, 58 ∷ rest)
unfolding print_int
scan_int-print_int (pos n) rest (lo, hi) =
    let s = decimal n ++ 58 ∷ rest in
    scan_int-Leading s (decimal-Leading n (58 ∷ rest))
    ∙ (scan_digits-Leading false s n (58 ∷ rest) (decimal-Leading n (58 ∷ rest))
          (digits-colon n rest)
        ∙ (ap (λ k. some (to_int k, 58 ∷ rest)) (clamp-pos n (58 ∷ rest) (omega arith))
            ∙ ap (λ k. some (k, 58 ∷ rest)) (to_int-in_range (pos n) lo hi)))
scan_int-print_int (negsuc n) rest (lo, hi) =
    let s = decimal (suc n) ++ 58 ∷ rest in
    scan_int-minus s
    ∙ (scan_digits-Leading true s (suc n) (58 ∷ rest) (decimal-Leading (suc n) (58 ∷ rest))
          (digits-colon (suc n) rest)
        ∙ (ap (λ k. some (to_int k, 58 ∷ rest)) (clamp-negsuc n (58 ∷ rest) (omega arith))
            ∙ ap (λ k. some (k, 58 ∷ rest)) (to_int-in_range (negsuc n) lo hi)))

-- A word is not empty and has neither a colon nor a NUL.
abbrev pub NoColon : Bytes → Type 0
NoColon = All (λ c. (c == 58) ≡ false)

abbrev pub IsWord : Bytes → Type 0
IsWord s = NoColon s × (is_nil s ≡ false) × NoNul s

span-colon : (s rest : Bytes) → NoColon s → span (s ++ 58 ∷ rest) ≡ (s, 58 ∷ rest)
unfolding span
span-colon [] rest h = refl
span-colon (c ∷ s) rest (h, hs) = rw (h, span-colon s rest hs) refl

span-end : (s : Bytes) → NoColon s → span s ≡ (s, [])
unfolding span
span-end [] h = refl
span-end (c ∷ s) (h, hs) = rw (h, span-end s hs) refl

-- The datagram to create a pair, and the one to read it.
unfoldable pub create_text : ℤ → Bytes → Bytes → Bytes
create_text pid key value = codes "c:" ++ (print_int pid ++ 58 ∷ (key ++ 58 ∷ value))

unfoldable pub read_text : ℤ → Bytes → Bytes
read_text pid key = codes "r:" ++ (print_int pid ++ 58 ∷ key)

pub scan_request-create_text :
    (pid : ℤ) (key value : Bytes)
    → IsInt pid
    → IsWord key
    → IsWord value
    → scan_request (create_text pid key value) ≡ request 4 b'c' pid key value
unfolding create_text scan_request scan_pid scan_key scan_value
scan_request-create_text pid key value int (k, k_ne, _) (v, v_ne, _) =
    rw
      (
        scan_pid,
        scan_int-print_int pid (key ++ 58 ∷ value) int,
        scan_key,
        span-colon key value k,
        k_ne,
        scan_value,
        span-end value v,
        v_ne,
        span-colon key value k,
      )
      refl

pub scan_request-read_text :
    (pid : ℤ) (key : Bytes)
    → IsInt pid
    → IsWord key
    → scan_request (read_text pid key) ≡ request 3 b'r' pid key []
unfolding read_text scan_request scan_pid scan_key scan_value
scan_request-read_text pid key int (k, k_ne, _) =
    rw (scan_pid, scan_int-print_int pid key int, scan_key, span-end key k, k_ne) refl

-- Key and value fit the arrays of the server.
abbrev pub Fits : Bytes → Bytes → Type 0
Fits key value = (length key < 64) × (length value < 256)
