-- ===== src/Itimerspec/RoundTrip.antt =====
-- The text of a timer's times, read back.
use linux_programming.Base.{
  ℕ, zero, suc, ◌+◌, ◌/◌, ◌%◌, ◌≡◌, inl, inr, refl, ap, true, false, Bool-cases, [], ◌∷◌, ◌++◌,
  append-nil, Option, none, some, arith, ltb, ◌==◌, All,
}
use linux_programming.Base.Int.{ℤ, pos, negsuc, ◌≤ℤ◌}
use linux_programming.Base.Bytes.{Bytes}
use linux_programming.Libc.Decimal.{decimal_fuel, decimal, print_int}
use linux_programming.Libc.Str.{strchr, upto}
use linux_programming.GetNum.{int_max}
use linux_programming.GetNum.RoundTrip.{strtol-print_int}
use linux_programming.Seqnum.Backup.{to_int-in_range}
use linux_programming.Itimerspec.{atoi, Timespec, timespec_from_str, itimerspec_from_str}

-- Bytes that are no separator.
abbrev Plain : Bytes → Type 0
Plain = All (λ b. ((b == 47) ≡ false) × ((b == 58) ≡ false))

Plain-append : (xs ys : Bytes) → Plain xs → Plain ys → Plain (xs ++ ys)
Plain-append [] ys hx hy = hy
Plain-append (x ∷ xs) ys (h, hx) hy = (h, Plain-append xs ys hx hy)

decimal_fuel-Plain : (fuel n : ℕ) → Plain (decimal_fuel fuel n)
unfolding decimal_fuel
decimal_fuel-Plain zero n = tt
decimal_fuel-Plain (suc fuel) n = elim (Bool-cases (ltb n 10)) [
  | inl small ↦ rw small ((ground arith, ground arith), tt)
  | inr large ↦ rw large (
      Plain-append (decimal_fuel fuel (n / 10)) ((48 + n % 10) ∷ [])
        (decimal_fuel-Plain fuel (n / 10)) ((ground arith, ground arith), tt))
]

print_int-Plain : (v : ℤ) → Plain (print_int v)
unfolding print_int decimal
print_int-Plain (pos n) = decimal_fuel-Plain (suc n) n
print_int-Plain (negsuc n) = ((refl, refl), decimal_fuel-Plain (suc (suc n)) (suc n))

-- Bytes that do not hold `c`.
abbrev Lacks : ℕ → Bytes → Type 0
Lacks c = All (λ b. (b == c) ≡ false)

upto-Lacks : (c : ℕ) (s : Bytes) → Lacks c s → upto s c ≡ s
unfolding upto
upto-Lacks c [] h = refl
upto-Lacks c (b ∷ s) (h, hs) = rw h (ap (λ t. b ∷ t) (upto-Lacks c s hs))

strchr-Lacks : (c : ℕ) (s : Bytes) → Lacks c s → strchr s c ≡ none
unfolding strchr
strchr-Lacks c [] h = refl
strchr-Lacks c (b ∷ s) (h, hs) = rw h (strchr-Lacks c s hs)

upto-found : (c : ℕ) (s t : Bytes) → Lacks c s → upto (s ++ c ∷ t) c ≡ s
unfolding upto
upto-found c [] t h = let e : (c == c) ≡ true = ground arith in rw e refl
upto-found c (b ∷ s) t (h, hs) = rw h (ap (λ l. b ∷ l) (upto-found c s t hs))

strchr-found : (c : ℕ) (s t : Bytes) → Lacks c s → strchr (s ++ c ∷ t) c ≡ some t
unfolding strchr
strchr-found c [] t h = let e : (c == c) ≡ true = ground arith in rw e refl
strchr-found c (b ∷ s) t (h, hs) = rw h (strchr-found c s t hs)

Plain-Lacks : (s : Bytes) → Plain s → Lacks 47 s × Lacks 58 s
Plain-Lacks [] h = (tt, tt)
Plain-Lacks (b ∷ s) ((h1, h2), hs) = let (l1, l2) = Plain-Lacks s hs in ((h1, l1), (h2, l2))

Lacks-append : (c : ℕ) (xs ys : Bytes) → Lacks c xs → Lacks c ys → Lacks c (xs ++ ys)
Lacks-append c [] ys hx hy = hy
Lacks-append c (x ∷ xs) ys (h, hx) hy = (h, Lacks-append c xs ys hx hy)

-- An int.
abbrev pub IsInt : ℤ → Type 0
IsInt v = (negsuc int_max ≤ℤ v) × (v ≤ℤ pos int_max)

atoi-print_int : (v : ℤ) → IsInt v → atoi (print_int v) ≡ v
atoi-print_int v (lo, hi) =
    rw (strtol-print_int v (omega arith) (omega arith)) (to_int-in_range v lo hi)

-- A time whose nanoseconds may be omitted, and a timer whose interval may be.
pub record Time : Type 0 where
  pub sec : ℤ
  pub nsec : Option ℤ

pub record Times : Type 0 where
  pub value : Time
  pub interval : Option Time

unfoldable pub nsec_text : Option ℤ → Bytes
nsec_text none = []
nsec_text (some n) = 47 ∷ print_int n

unfoldable pub time_text : Time → Bytes
time_text t = print_int t.sec ++ nsec_text t.nsec

unfoldable pub interval_text : Option Time → Bytes
interval_text none = []
interval_text (some t) = 58 ∷ time_text t

unfoldable pub times_text : Times → Bytes
times_text t = time_text t.value ++ interval_text t.interval

abbrev pub or_zero : Option ℤ → ℤ
or_zero none = pos 0
or_zero (some n) = n

abbrev pub timespec : Time → Timespec
timespec t = record { tv_sec = t.sec; tv_nsec = or_zero t.nsec }

abbrev pub interval_of : Option Time → Timespec
interval_of none = record { tv_sec = pos 0; tv_nsec = pos 0 }
interval_of (some t) = timespec t

unfoldable pub TimeInRange : Time → Type 0
TimeInRange t = IsInt t.sec × IsInt (or_zero t.nsec)

abbrev pub IntervalInRange : Option Time → Type 0
IntervalInRange none = Unit
IntervalInRange (some t) = TimeInRange t

timespec_from_str-time_text :
    (sec : ℤ) (nsec : Option ℤ)
    → IsInt sec
    → IsInt (or_zero nsec)
    → timespec_from_str (time_text (record { sec = sec; nsec = nsec }))
      ≡ record { tv_sec = sec; tv_nsec = or_zero nsec }
unfolding timespec_from_str time_text nsec_text
timespec_from_str-time_text sec none hs hn =
    let (lacks, _) = Plain-Lacks (print_int sec) (print_int-Plain sec) in
    rw
      (
        append-nil (print_int sec),
        upto-Lacks 47 (print_int sec) lacks,
        strchr-Lacks 47 (print_int sec) lacks,
        atoi-print_int sec hs,
      )
      refl
timespec_from_str-time_text sec (some n) hs hn =
    let (lacks, _) = Plain-Lacks (print_int sec) (print_int-Plain sec) in
    rw
      (
        upto-found 47 (print_int sec) (print_int n) lacks,
        strchr-found 47 (print_int sec) (print_int n) lacks,
        atoi-print_int sec hs,
        atoi-print_int n hn,
      )
      refl

time_text-Lacks :
    (sec : ℤ) (nsec : Option ℤ) → Lacks 58 (time_text (record { sec = sec; nsec = nsec }))
unfolding time_text nsec_text
time_text-Lacks sec none =
    let (_, lacks) = Plain-Lacks (print_int sec) (print_int-Plain sec) in
    Lacks-append 58 (print_int sec) [] lacks tt
time_text-Lacks sec (some n) =
    let (_, lacks) = Plain-Lacks (print_int sec) (print_int-Plain sec) in
    let (_, lacks_n) = Plain-Lacks (print_int n) (print_int-Plain n) in
    Lacks-append 58 (print_int sec) (47 ∷ print_int n) lacks (refl, lacks_n)

with_interval :
    (s : Bytes) (v : Timespec) (i : Option Time)
    → Lacks 58 s
    → timespec_from_str s ≡ v
    → IntervalInRange i
    → itimerspec_from_str (s ++ interval_text i)
      ≡ record { it_value = v; it_interval = interval_of i }
unfolding itimerspec_from_str interval_text TimeInRange
with_interval s v none lacks e h =
    rw (append-nil s, upto-Lacks 58 s lacks, strchr-Lacks 58 s lacks, e) refl
with_interval s v (some t) lacks e (hs, hn) =
    rw
      (
        upto-found 58 s (time_text t) lacks,
        strchr-found 58 s (time_text t) lacks,
        e,
        timespec_from_str-time_text t.sec t.nsec hs hn,
      )
      refl

-- The text "sec/nsec:sec/nsec" of times in the range of int, with nanoseconds and interval omitted or not,
-- is read back; what is omitted is 0.
pub itimerspec_from_str-times_text :
    (t : Times)
    → TimeInRange t.value
    → IntervalInRange t.interval
    → itimerspec_from_str (times_text t)
      ≡ record { it_value = timespec t.value; it_interval = interval_of t.interval }
unfolding times_text TimeInRange
itimerspec_from_str-times_text t (hs, hn) h =
    with_interval (time_text t.value) (timespec t.value) t.interval
      (time_text-Lacks t.value.sec t.value.nsec)
      (timespec_from_str-time_text t.value.sec t.value.nsec hs hn) h
