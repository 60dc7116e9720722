-- ===== src/ThreadIncr/Tests.antt =====
-- thread_incr.c with two turns of each loop, and with calls of malloc that fail.
use linux_programming.Base.{◌≡◌, refl, true, false, [], ◌∷◌, arith}
use linux_programming.Base.Int.{pos}
use linux_programming.Libc.Decimal.{print_int}
use linux_programming.ThreadIncr.{Steps, begin, ended}
use linux_programming.ThreadIncr.Start.{runs, fault, num_loops, main_start}
use linux_programming.ThreadIncr.Argument.{main_start-lost}

second_malloc_fails : main_start true false true true [] ≡ fault
unfolding main_start num_loops
second_malloc_fails = refl

main_start-lost_example :
    (main_start true true true true (print_int (pos 2) ∷ []) ≡ runs (begin 2))
    × Steps (begin 2) (ended 2)
main_start-lost_example = main_start-lost 2 [] (omega arith) (omega arith)
