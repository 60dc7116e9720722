-- ===== src/UsXfr/Tests.antt =====
-- Two clients of abstract_ns at the same time, of which the second writes first.
use linux_programming.Base.{
  ℕ, zero, suc, ◌++◌, ◌≡◌, refl, true, List, [], ◌∷◌, some, replicate, Option, ◌<◌, arith,
}
use linux_programming.Base.Bytes.{Bytes, codes}
use linux_programming.UsXfr.{enoent, sun_path, set_up, listens, client_set_up}
use linux_programming.UsXfr.Steps.{
  exited, reads, ends, writes, System, Event, connects, by_client, accepts, by_server, client_step,
  step, run, start,
}
use linux_programming.UsXfr.Order.{Ordered, run-Ordered, run-transfers}
use linux_programming.UsXfr.Tables.{upto}
use linux_programming.UsXfr.Progress.{Finishes, run-Finishes}

abbrev sv_sock_path : Bytes
sv_sock_path = 0 ∷ codes "/tmp/us_xfr"

-- Both names are 108 NUL bytes.
same_name : set_up sv_sock_path true (some enoent) true true ≡ listens (replicate 108 0)
unfolding set_up sun_path
same_name = refl

same_name_client : client_set_up sv_sock_path true true ≡ some (replicate 108 0)
unfolding client_set_up sun_path
same_name_client = refl

abbrev files : ℕ → Bytes
files zero = codes "one"
files (suc zero) = codes "two"
files _ = []

abbrev arrivals : List Event
arrivals = connects ∷ connects ∷ by_client 1 (reads 2) ∷ by_client 1 writes ∷ []

abbrev transfers : List Event
transfers =
    accepts
    ∷ by_client 0 (reads 3)
    ∷ by_client 0 writes
    ∷ by_client 1 (reads 1)
    ∷ by_client 0 ends
    ∷ by_server (reads 3)
    ∷ by_client 1 writes
    ∷ by_server writes
    ∷ by_server ends
    ∷ accepts
    ∷ by_server (reads 1)
    ∷ by_server writes
    ∷ by_client 1 ends
    ∷ by_server (reads 2)
    ∷ by_server writes
    ∷ by_server ends
    ∷ []

abbrev unwrapped : Option System → System
unwrapped (some s) = s
unwrapped _ = start files

unfoldable halfway : System
unfolding run step client_step
halfway = unwrapped (run arrivals (start files))

unfoldable final : System
unfolding run step client_step
final = unwrapped (run (arrivals ++ transfers) (start files))

to_halfway : run arrivals (start files) ≡ some halfway
unfolding run step client_step halfway
to_halfway = refl

halfway_to_final : run transfers halfway ≡ some final
unfolding run step client_step halfway final
halfway_to_final = refl

to_final : run (arrivals ++ transfers) (start files) ≡ some final
unfolding run step client_step final
to_final = refl

run-Ordered_example : Ordered files final
run-Ordered_example = run-Ordered files (arrivals ++ transfers) final to_final

all_exited : (i : ℕ) → i < final.arrived → (final.clients i).phase ≡ exited true
unfolding final run step client_step
all_exited zero h = refl
all_exited (suc zero) h = refl
all_exited (suc (suc i)) h = absurd (omega arith)

run-transfers_example : final.out ≡ upto files final.arrived
unfolding final run step client_step
run-transfers_example =
    run-transfers files (arrivals ++ transfers) final to_final refl refl all_exited

run-Finishes_example : Finishes halfway
unfolding halfway run step client_step
run-Finishes_example = run-Finishes files arrivals halfway to_halfway refl
