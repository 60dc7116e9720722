-- ===== src/ChildStatus/Reports.antt =====
-- child_status.c from the exit status that is given to it to what its parent reports.
use linux_programming.Base.{
  not, ◌⊎◌, ℕ, ◌%◌, ◌<◌, ◌≡◌, refl, inl, inr, false, ◌||◌, Bool-cases, List, [], ◌∷◌, ◌++◌, some,
  arith, ltb, ltb→lt, ==_iff, ◌==◌, if◌then◌else◌,
}
use linux_programming.Base.Int.{ℤ, pos}
use linux_programming.Base.Bytes.{Bytes, codes}
use linux_programming.Libc.Decimal.{print_int}
use linux_programming.Libc.Str.{str_eq}
use linux_programming.GetNum.RoundTrip.{decimal-digits, get_int-print_int}
use linux_programming.ChildStatus.{
  wifexited, wifsignaled, cld_exited, SigInfo, exits, killed_text, status_text, print_child_info,
  returned_text, watch_child,
}
use linux_programming.ChildStatus.Mains.{child_end, reports, main}
use linux_programming.ChildStatus.Misread.{status_text-killed_text}

not_help : (n : ℕ) → str_eq (print_int (pos n)) (codes "--help") ≡ false
unfolding print_int str_eq
not_help n = let (c, r, e, lo, hi, _) = decimal-digits n in rw e (ground arith)

child_end_lem :
    (n : ℕ) (args : List Bytes) → n < 256 → child_end (print_int (pos n) ∷ args) ≡ some n
unfolding child_end
child_end_lem n args h =
    let read = get_int-print_int (pos n) (some (codes "exit-status")) (omega arith) (omega arith) in
    let low : n % 256 ≡ n = omega arith in rw (read, low) refl

-- `_exit(n)` with this status.
abbrev pub info_of : ℤ → ℕ → SigInfo
info_of pid n = record { si_pid = pid; si_code = cld_exited; si_status = n }

looks_ended : (n : ℕ) → (wifexited n || wifsignaled n) ≡ not (n % 128 == 127)
looks_ended n = ground arith

module _ (strsignal : ℕ → Bytes) (hexadecimal hexadecimal4 : ℕ → Bytes) where
  -- What the parent prints of one report.
  abbrev pub report : SigInfo → Bytes
  report info =
      returned_text strsignal hexadecimal hexadecimal4 info
      ++ print_child_info strsignal hexadecimal hexadecimal4 info

  watch_child-report :
      (pid : ℤ) (n : ℕ)
      → watch_child strsignal hexadecimal hexadecimal4 [] (reports pid (some n))
        ≡ exits (if n % 128 == 127 then 1 else 0) (report (info_of pid n))
  unfolding watch_child
  watch_child-report pid n = elim (Bool-cases (n % 128 == 127)) [
    | inl e ↦ rw (looks_ended n, e) refl
    | inr e ↦ rw (looks_ended n, e) refl
  ]

  misread :
      (n : ℕ)
      → (n ≡ 0)
        ⊎ (126 < n)
        ⊎ (status_text strsignal hexadecimal hexadecimal4 n
            ≡ killed_text strsignal hexadecimal hexadecimal4 n false)
  misread n = elim (Bool-cases (n == 0)) [
    | inl e ↦ inl ((==_iff n 0).0 e)
    | inr e ↦ elim (Bool-cases (ltb 126 n)) [
      | inl f ↦ inr (inl (ltb→lt 126 n f))
      | inr f ↦ inr (
          inr (
            status_text-killed_text strsignal hexadecimal hexadecimal4 n (ground (arith, e))
              (ground (arith, f))))
    ]
  ]

  -- With the decimal text of an exit status below 256 as its argument, where fork succeeds, the program
  -- reports one event and exits: with success, but with a failure for 127 and 255, where the parent waits
  -- again for a child that is gone. For the statuses from 1 to 126 the report says that the child, which
  -- has exited, was killed by the signal of that number.
  pub main-reports :
      (name : Bytes) (pid : ℤ) (n : ℕ) (args : List Bytes)
      → n < 256
      → (main strsignal hexadecimal hexadecimal4 name (print_int (pos n) ∷ args) (some pid)
          ≡ exits (if n % 128 == 127 then 1 else 0) (report (info_of pid n)))
        × ((n ≡ 0)
            ⊎ (126 < n)
            ⊎ (status_text strsignal hexadecimal hexadecimal4 n
                ≡ killed_text strsignal hexadecimal hexadecimal4 n false))
  unfolding main
  main-reports name pid n args h =
      (rw (not_help n, child_end_lem n args h) (watch_child-report pid n), misread n)
