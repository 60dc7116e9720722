-- ===== src/FlockDeadlock/Tests.antt =====
-- flock_deadlock.c: the interleaving that would be a deadlock.
use linux_programming.Base.{refl, true, false, none, ◌≤◌, ◌≡◌, List, [], ◌∷◌, map, arith}
use linux_programming.FlockDeadlock.{
  nobody, this, State, failed, first, Who, child, parent, Turn, calls, fails, success, run, forked,
}
use linux_programming.FlockDeadlock.Start.{main_start, release}
use linux_programming.FlockDeadlock.Undetected.{by_nobody, turns, run-success}

abbrev crossed : List Turn
crossed = calls child ∷ calls parent ∷ calls child ∷ fails parent ∷ []

abbrev alternating : List Who
alternating = child ∷ parent ∷ child ∷ parent ∷ child ∷ parent ∷ child ∷ parent ∷ []

four_each : (4 ≤ turns child alternating) × (4 ≤ turns parent alternating)
unfolding turns
four_each = (omega arith, omega arith)

run-success_example :
    ((run (forked nobody nobody) (map calls alternating)).child_at ≡ success)
    × ((run (forked nobody nobody) (map calls alternating)).parent_at ≡ success)
run-success_example = run-success alternating by_nobody by_nobody four_each.0 four_each.1

no_second_file : main_start true false true nobody nobody ≡ none
unfolding main_start
no_second_file = refl

-- A process that fails behind its first lock leaves the lock to the other process.
abbrev half : State
half = record { file1 = this; file2 = nobody; child_at = failed; parent_at = first }

not_released : release half ≡ half
unfolding release
not_released = refl

released :
    release (record half { parent_at = success })
    ≡ record half { file1 = nobody; parent_at = success }
unfolding release
released = refl
