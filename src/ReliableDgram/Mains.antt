-- ===== src/ReliableDgram/Mains.antt =====
-- The main functions of dgram_sv.c and dgram_cl.c: the set-up of the sockets, and the loops behind it.
use linux_programming.Base.{
  ℕ, Bool, true, ◌&&◌, List, [], ◌∷◌, ◌++◌, Option, none, some, leb, ◌==◌, if◌then◌else◌, length,
  take,
}
use linux_programming.Base.Int.{ℤ}
use linux_programming.Base.Bytes.{Bytes, codes}
use linux_programming.Libc.Str.{str_eq}
use linux_programming.Libc.Decimal.{print_int}
use linux_programming.ReliableDgram.{Received, Served, serve, Client, client_loop}

abbrev pub sv_sock_path : Bytes
sv_sock_path = codes "/tmp/ud_ucase"

-- Whether socket, remove (its errno; `none` where it succeeds) and bind succeed.
pub record ServerCalls : Type 0 where
  pub socket : Bool
  pub remove : Option ℕ
  pub bind : Bool

abbrev pub removed : Option ℕ → Bool
removed none = true
removed (some errno) = errno == 2

abbrev pub server_ready : ServerCalls → Bool
server_ready c = c.socket && leb (length sv_sock_path) 107 && removed c.remove && c.bind

-- `none` for exit(EXIT_FAILURE) before the loop.
unfoldable pub main_server : ServerCalls → List Received → Option Served
main_server c received =
    if server_ready c then some (serve received (record { out = []; sent = [] })) else none

-- The path of the client's socket; snprintf stops at the size of sun_path.
unfoldable pub client_path : ℤ → Bytes
client_path pid = take 107 (codes "/tmp/ud_ucase_cl." ++ print_int pid)

abbrev pub usage : List Bytes → Bool
usage [] = true
usage (arg ∷ args) = str_eq arg (codes "--help")

-- The client with these arguments; `none` for the usage message and for a failing socket or bind.
unfoldable pub main_client :
    Bool → Bool → (ℕ → Bool) → List Bytes → List (Option Bytes) → Option Client
main_client socket bind sends args inbox =
    if usage args
    then none
    else if socket && bind
    then some (client_loop sends 1 args inbox [])
    else none
