-- ===== src/EchoServer.antt =====
-- CH60-Sockets_Server_Design/limited_children/is_echo_sv.c: a server that makes a child for each client and
-- counts the children. What the kernel does is a list of events, so each list is an interleaving of the
-- main loop with the ends of children and with the handler of SIGCHLD. The setup of the sockets is that
-- of InetSockets.
pub mod Daemon
pub mod Start
pub mod Ready
pub mod Children
pub mod Echo
mod Tests
use linux_programming.Base.{
  ℕ, zero, suc, ◌+◌, ◌-◌, List, [], ◌∷◌, ◌++◌, Option, none, some, Bool, ◌==◌, if◌then◌else◌,
  length,
}
use linux_programming.Base.Int.{ℤ, pos, ◌+ℤ◌, ◌-ℤ◌, eqb_ℤ}
use linux_programming.Base.Bytes.{Bytes}

abbrev pub max_child : ℕ
max_child = 10

-- Where the server stands: in accept; between fork and the load of CHILD_COUNT for its increment; between
-- that load, with what it has loaded, and the store; before the condition of the loop; behind the loop,
-- where main returns; after exit.
pub data Phase : Type 0 where
  accepting counting testing returned failed : Phase
  loaded : ℤ → Phase

-- `running` children run, `zombies` have ended and wait to be reaped.
pub record Server : Type 0 where
  pub phase : Phase
  pub child_count : ℤ
  pub running : ℕ
  pub zombies : ℕ

-- accept fails; accept succeeds and fork fails; both succeed; the load and the store of the increment; the
-- condition of the loop; a child ends; the signal is delivered.
pub data Event : Type 0 where
  accept_fails fork_fails forks loads stores tests child_ends sigchld : Event

-- The condition of the loop.
abbrev pub loop_test : Server → Server
loop_test s = record s {
  phase = if eqb_ℤ s.child_count (pos max_child) then returned else accepting;
}

-- The loop of grimReaper: waitpid succeeds once for each zombie.
unfoldable pub grim_reaper : ℕ → ℤ → ℤ
grim_reaper zero count = count
grim_reaper (suc zombies) count = grim_reaper zombies (count -ℤ pos 1)

abbrev pub end_child : Server → Server
end_child s =
    if s.running == 0 then s else record s { running = s.running - 1; zombies = s.zombies + 1 }

unfoldable pub reap : Server → Server
reap s = record s { child_count = grim_reaper s.zombies s.child_count; zombies = 0 }

-- What an event does in a phase; one that cannot happen there changes nothing.
abbrev pub on : Phase → Event → Server → Server
on phase child_ends s = end_child s
on returned sigchld s = s
on failed sigchld s = s
on phase sigchld s = reap s
on accepting accept_fails s = record s { phase = failed }
on accepting fork_fails s = record s { phase = testing }
on accepting forks s = record s { phase = counting; running = s.running + 1 }
on counting loads s = record s { phase = loaded s.child_count }
on (loaded count) stores s = record s { phase = testing; child_count = count +ℤ pos 1 }
on testing tests s = loop_test s
on _ _ s = s

unfoldable pub step : Server → Event → Server
step s e = on s.phase e s

unfoldable pub run : Server → List Event → Server
run s [] = s
run s (e ∷ es) = run (step s e) es

-- The state when main comes to its loop.
unfoldable pub begin : Server
begin = loop_test (record { phase = testing; child_count = pos 0; running = 0; zombies = 0 })
