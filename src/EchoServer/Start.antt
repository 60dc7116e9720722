-- ===== src/EchoServer/Start.antt =====
-- main of is_echo_sv.c up to its loop: the calls of becomeDaemon, sigaction and inetListen.
use linux_programming.Base.{
  ℕ, Bool, false, not, ◌||◌, List, [], ◌∷◌, Option, none, some, if◌then◌else◌,
}
use linux_programming.Base.Int.{minus_one, eqb_ℤ}
use linux_programming.InetSockets.{AddrInfo, Fds, PassiveResult, inet_listen}
use linux_programming.EchoServer.{Server, begin}
use linux_programming.EchoServer.Daemon.{
  Answers, Process, Daemon, Table, socket, put, returns, exits, become_daemon,
}

-- The daemon before the first test of its loop, with the descriptor that it accepts clients on; or an exit,
-- of main or in becomeDaemon.
pub data Started : Type 0 where
  serves : Process → ℕ → Server → Started
  ends : Started

-- The table with the sockets that inetListen has left open.
abbrev pub with_sockets : Fds → Table → Table
with_sockets [] t = t
with_sockets (fd ∷ fds) t = put fd (some socket) (with_sockets fds t)

abbrev pub with_socket : Process → PassiveResult → Started
with_socket p r = elim r.sfd [
  | none ↦ ends
  | some lfd ↦ serves (record p { table = with_sockets r.fds p.table }) lfd begin
]

-- `addresses` and `listens` are for inetListen: what getaddrinfo delivers, with what the calls on each
-- address return, and whether listen succeeds. No socket is open before.
abbrev pub with_daemon : Bool → Option (List AddrInfo) → Bool → Daemon → Started
with_daemon sigaction addresses listens exits = ends
with_daemon sigaction addresses listens (returns value p) =
    if eqb_ℤ value minus_one || not sigaction
    then ends
    else with_socket p (inet_listen addresses listens false [])

unfoldable pub main_start : Answers → Process → Bool → Option (List AddrInfo) → Bool → Started
main_start a p sigaction addresses listens =
    with_daemon sigaction addresses listens (become_daemon 0 a p)
