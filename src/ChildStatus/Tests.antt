-- ===== src/ChildStatus/Tests.antt =====
-- child_status.c with the exit status 3, and with none.
use linux_programming.Base.{ℕ, ◌<◌, ◌≡◌, ◌⊎◌, refl, false, [], ◌∷◌, some, arith}
use linux_programming.Base.Int.{pos}
use linux_programming.Base.Bytes.{Bytes, codes}
use linux_programming.Libc.Decimal.{print_int}
use linux_programming.ChildStatus.{exits, waits, killed_text, status_text, watch_child}
use linux_programming.ChildStatus.Mains.{child_end, main}
use linux_programming.ChildStatus.Reports.{report, info_of, main-reports}

abbrev strsignal : ℕ → Bytes
strsignal n = codes "Quit"

abbrev hexadecimal : ℕ → Bytes
hexadecimal n = print_int (pos n)

no_status : main strsignal hexadecimal hexadecimal (codes "prog") [] (some (pos 9)) ≡ waits []
unfolding main child_end watch_child
no_status = refl

abbrev status : ℕ
status = 3

main-reports_example :
    (main strsignal hexadecimal hexadecimal
        (codes "prog")
        (print_int (pos status) ∷ [])
        (some (pos 9))
      ≡ exits 0 (report strsignal hexadecimal hexadecimal (info_of (pos 9) status)))
    × ((status ≡ 0)
        ⊎ (126 < status)
        ⊎ (status_text strsignal hexadecimal hexadecimal status
            ≡ killed_text strsignal hexadecimal hexadecimal status false))
main-reports_example =
    main-reports strsignal hexadecimal hexadecimal (codes "prog") (pos 9) status [] (omega arith)
