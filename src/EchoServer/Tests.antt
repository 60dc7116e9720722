-- ===== src/EchoServer/Tests.antt =====
-- The echo server at concrete events.
use linux_programming.Base.{
  ℕ, ◌≤◌, ◌<◌, ◌≢◌, ◌≡◌, refl, true, false, ◌||◌, List, [], ◌∷◌, some, none, arith,
}
use linux_programming.EchoServer.{
  Event, forks, loads, stores, tests, child_ends, sigchld, max_child, step, reap, grim_reaper, run,
  begin,
}
use linux_programming.Base.Int.{◌+ℤ◌, ◌-ℤ◌}
use linux_programming.InetSockets.{AddrInfo, inet_listen, inet_passive_socket, bind_loop, finish}
use linux_programming.EchoServer.Start.{serves, ends, main_start}
use linux_programming.EchoServer.Ready.{main_start-serves}
use linux_programming.EchoServer.Children.{unreaped, lost, Exact, run-Exact}
use linux_programming.EchoServer.Daemon.{
  become_daemon, settle, reopen, lowest, close_from, socket, Answers, Process, other, in_child,
  daemon_table, close_count,
}

-- A child that ends before it is counted, with the signal between the load and the store: its decrement is
-- lost.
abbrev quick_child : List Event
quick_child = forks ∷ child_ends ∷ loads ∷ sigchld ∷ stores ∷ tests ∷ []

one_lost : lost begin quick_child ≡ 1
unfolding lost step begin reap grim_reaper ◌+ℤ◌ ◌-ℤ◌
one_lost = refl

run-Exact_example :
    (unreaped (run begin quick_child) ≤ max_child)
    × Exact (run begin quick_child).phase (lost begin quick_child) (run begin quick_child)
run-Exact_example = run-Exact quick_child

abbrev answers : Answers
answers = record {
  first = in_child;
  second = in_child;
  setsid = true;
  chdir = true;
  open_max = some 1024;
  null_opened = true;
  dup2_out = true;
  dup2_err = true;
  limit = 1024;
}

abbrev process : Process
process = record { table = λ k. some (other k); at_root = false; mask = 18 }

-- The first address that getaddrinfo finds has no socket, the second one serves.
abbrev addresses : List AddrInfo
addresses =
    record { socket = none; setsockopt = true; accepts = true; addrlen = 16 }
    ∷ record { socket = some 3; setsockopt = true; accepts = true; addrlen = 28 }
    ∷ []

main_start-serves_example :
    (q : Process) × (main_start answers process true (some addresses) true ≡ serves q 3 begin)
    × (q.table 3 ≡ some socket)
    × ((k : ℕ) → k ≢ 3 → q.table k ≡ daemon_table (close_count (some 1024)) process.table k)
    × (2 < 3)
    × (q.mask ≡ 0)
    × (q.at_root ≡ (true || false))
unfolding inet_listen inet_passive_socket bind_loop finish
main_start-serves_example =
    main_start-serves answers process (some addresses) true 3 refl refl refl refl refl refl
      (omega arith) refl refl

-- With room for two descriptors the second dup2 fails.
two_descriptors :
    main_start (record answers { limit = 2 }) process true (some addresses) true ≡ ends
unfolding main_start become_daemon settle reopen lowest close_from
two_descriptors = refl
