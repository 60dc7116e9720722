-- ===== src/AtomicAppend/Tests.antt =====
-- Two processes of atomic_append.c that append to one file.
use linux_programming.Base.{none, ◌≡◌, refl, true, false, List, [], ◌∷◌, ◌++◌, some, arith}
use linux_programming.Base.Bytes.{Bytes, codes}
use linux_programming.Libc.Str.{str_eq, strcmp}
use linux_programming.AtomicAppend.{parse, opened, call, step, run, State, Event, first, second}
use linux_programming.AtomicAppend.Interleaved.{
  Interleaves, text, appends-Interleaves, seeks_first, seekers, seeks-lost,
}

with_x : parse (codes "f" ∷ codes "2" ∷ codes "x" ∷ []) ≡ some true
unfolding parse str_eq strcmp
with_x = refl

-- With a fifth word the x has no effect.
more_words : parse (codes "f" ∷ codes "2" ∷ codes "x" ∷ codes "y" ∷ []) ≡ some false
unfolding parse str_eq strcmp
more_words = refl

abbrev calls : List Event
calls = second true ∷ first true ∷ first true ∷ []

abbrev final : State
final = record {
  file = codes "a!!\"";
  p1 = record { append = true; i = 2; left = 0; offset = none };
  p2 = record { append = true; i = 1; left = 0; offset = none };
}

appends-Interleaves_example :
    (z : Bytes) × (final.file ≡ codes "a" ++ z) × Interleaves (text 0 2) (text 0 1) z
unfolding run step call
appends-Interleaves_example = appends-Interleaves calls (codes "a") 2 1 final refl refl refl

seeks-lost_example :
    run (seeks_first 2) (record { file = codes "a"; p1 = opened false 2; p2 = opened false 2 })
    ≡ some (seekers (codes "a!\"") 2 0)
seeks-lost_example = seeks-lost 2 (codes "a") (omega arith)
