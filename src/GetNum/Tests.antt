-- ===== src/GetNum/Tests.antt =====
-- get_num.c at concrete inputs.
use linux_programming.Base.{◌≡◌, refl, Bool, none, some, arith, ◌-◌, ◌^◌}
use linux_programming.Base.Int.{pos, negsuc}
use linux_programming.Base.Bytes.{codes}
use linux_programming.Libc.Decimal.{print_int}
use linux_programming.Libc.Strtol.{strtol}
use linux_programming.GetNum.{returns, exits, get_int, get_long, gn_any_base, gn_nonneg}
use linux_programming.Base.{◌↔◌}
use linux_programming.Base.Int.{◌≤ℤ◌}
use linux_programming.GetNum.{int_max}
use linux_programming.GetNum.Range.{Accepts, get_long-returns, get_int-returns}
use linux_programming.GetNum.RoundTrip.{strtol-print_int}

hex : get_int (some (codes " 0x1f")) gn_any_base none ≡ returns (pos 31)
unfolding get_int strtol
hex = refl

trailing_text :
    get_long (some (codes "12ab")) gn_nonneg (some (codes "n"))
    ≡ exits (codes "getLong error (in n): (nonnumeric characters\n)\t\toffending text: 12ab\n") 1
unfolding get_long strtol
trailing_text = refl

too_large :
    strtol (codes "-9223372036854775809") 10
    ≡ record { value = negsuc (2 ^ 63 - 1); rest = codes ""; erange = Bool.true }
unfolding strtol
too_large = refl

strtol-print_int_example :
    strtol (print_int (negsuc 41)) 10
    ≡ record { value = negsuc 41; rest = codes ""; erange = Bool.false }
strtol-print_int_example = strtol-print_int (negsuc 41) (omega arith) (omega arith)

get_long-returns_example :
    (get_long (some (codes "7")) gn_nonneg none ≡ returns (pos 7))
    ↔ Accepts (some (codes "7")) gn_nonneg (pos 7)
get_long-returns_example = get_long-returns (some (codes "7")) gn_nonneg none (pos 7)

get_int-returns_example : (get_int (some (codes "7")) gn_nonneg none ≡ returns (pos 7)) ↔ (
    Accepts (some (codes "7")) gn_nonneg (pos 7)
    × (negsuc int_max ≤ℤ pos 7)
    × (pos 7 ≤ℤ pos int_max))
get_int-returns_example = get_int-returns (some (codes "7")) gn_nonneg none (pos 7)
