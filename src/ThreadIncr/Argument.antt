-- ===== src/ThreadIncr/Argument.antt =====
-- thread_incr.c from its argument to the value that it prints.
use linux_programming.Base.{ℕ, ◌^◌, ◌<◌, ◌≡◌, refl, true, List, ◌∷◌, some, arith}
use linux_programming.Base.Int.{pos}
use linux_programming.Base.Bytes.{Bytes, codes}
use linux_programming.Libc.Decimal.{print_int}
use linux_programming.GetNum.{returns, gn_gt_0, base_of}
use linux_programming.GetNum.Range.{Accepts, get_int-returns}
use linux_programming.GetNum.RoundTrip.{strtol-print_int, print_int-ne_nil}
use linux_programming.ThreadIncr.{Steps, begin, ended}
use linux_programming.ThreadIncr.Interleaving.{ended-lost}
use linux_programming.ThreadIncr.Start.{runs, num_loops, main_start}

-- getInt takes the text of a number above 0.
accepted : (n : ℕ) → 0 < n → n < 2 ^ 31 → Accepts (some (print_int (pos n))) gn_gt_0 (pos n)
unfolding base_of
accepted n lo hi = record {
  given = print_int-ne_nil (pos n);
  parsed = strtol-print_int (pos n) (omega arith) (omega arith);
  nonneg = λ h. omega arith;
  positive = λ h. omega arith;
}

num_loops_lem :
    (n : ℕ) (args : List Bytes)
    → 0 < n
    → n < 2 ^ 31
    → num_loops (print_int (pos n) ∷ args) ≡ returns (pos n)
unfolding num_loops
num_loops_lem n args lo hi =
    (get_int-returns (some (print_int (pos n))) gn_gt_0 (some (codes "num-loops")) (pos n)).1
      (accepted n lo hi, omega arith, omega arith)

-- Started with the decimal text of a number `n` above 0 in the range of int, where memory is there and the
-- threads can be made, the program runs two threads of which each increments the variable `n` times,
-- and there is an order of their loads and stores that leaves `n` in it: half of the increments are
-- lost.
pub main_start-lost :
    (n : ℕ) (args : List Bytes)
    → 0 < n
    → n < 2 ^ 31
    → (main_start true true true true (print_int (pos n) ∷ args) ≡ runs (begin n))
      × Steps (begin n) (ended n)
unfolding main_start
main_start-lost n args lo hi = (rw (num_loops_lem n args lo hi) refl, ended-lost n (omega arith))
