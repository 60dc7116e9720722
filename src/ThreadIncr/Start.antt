-- ===== src/ThreadIncr/Start.antt =====
-- main of thread_incr.c up to the joins: the number of turns, and the calls that make the threads.
use linux_programming.Base.{Bool, not, ◌&&◌, List, [], ◌∷◌, some, if◌then◌else◌}
use linux_programming.Base.Int.{ℤ, pos, pos_part}
use linux_programming.Base.Bytes.{Bytes, codes}
use linux_programming.GetNum.{Outcome, returns, exits, gn_gt_0, get_int}
use linux_programming.ThreadIncr.{State, begin}

-- The threads run; the program ends with a message; or it writes to NULL.
pub data Started : Type 0 where
  runs : State → Started
  ends fault : Started

-- The arguments behind the name of the program.
unfoldable pub num_loops : List Bytes → Outcome ℤ
num_loops [] = returns (pos 10000000)
num_loops (arg ∷ args) = get_int (some arg) gn_gt_0 (some (codes "num-loops"))

-- The calls of malloc and of pthread_create. The test behind the second malloc is of param1.
abbrev pub create : Bool → Bool → Bool → Bool → ℤ → Started
create malloc1 malloc2 create1 create2 loops =
    if not malloc1
    then ends
    else if not malloc2
    then fault
    else if create1 && create2
    then runs (begin (pos_part loops))
    else ends

abbrev pub with_loops : Bool → Bool → Bool → Bool → Outcome ℤ → Started
with_loops malloc1 malloc2 create1 create2 (exits text status) = ends
with_loops malloc1 malloc2 create1 create2 (returns loops) =
    create malloc1 malloc2 create1 create2 loops

unfoldable pub main_start : Bool → Bool → Bool → Bool → List Bytes → Started
main_start malloc1 malloc2 create1 create2 args =
    with_loops malloc1 malloc2 create1 create2 (num_loops args)
