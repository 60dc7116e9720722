-- ===== src/UsXfr/Steps.antt =====
-- The loops of the two programs of abstract_ns, as functions of one system call.
use linux_programming.Base.{
  ℕ, suc, Bool, true, false, ◌&&◌, List, [], ◌∷◌, ◌++◌, Option, none, some, ltb, leb, ◌==◌,
  if◌then◌else◌, ◌>>=◌, length, take, drop,
}
use linux_programming.Base.Bytes.{Bytes}

-- Before read, between read and write (with what has been read), or behind exit.
pub data ClientPhase : Type 0 where
  copying : ClientPhase
  holding : Bytes → ClientPhase
  exited : Bool → ClientPhase

-- `wire` is what has been written to the socket and not yet been read from it.
pub record Client : Type 0 where
  pub stdin : Bytes
  pub phase : ClientPhase
  pub wire : Bytes

-- What a call returns: read some bytes, read 0, write all, write fewer (none of them for -1), read -1.
pub data Call : Type 0 where
  reads : ℕ → Call
  ends : Call
  writes : Call
  writes_part : ℕ → Call
  read_fails : Call

abbrev pub buf_size : ℕ
buf_size = 100

-- read(fd, buf, BUF_SIZE) can return `n`, with `from` in the file.
abbrev pub readable : ℕ → Bytes → Bool
readable n from = leb 1 n && leb n buf_size && leb n (length from)

abbrev pub is_empty : Bytes → Bool
is_empty [] = true
is_empty (x ∷ xs) = false

abbrev client : Bytes → ClientPhase → Bytes → Client
client from phase w = record { stdin = from; phase = phase; wire = w }

abbrev pub client_call : Call → ClientPhase → Client → Option Client
client_call (reads n) copying c =
    if readable n c.stdin
    then some (client (drop n c.stdin) (holding (take n c.stdin)) c.wire)
    else none
client_call ends copying c =
    if is_empty c.stdin then some (client c.stdin (exited true) c.wire) else none
client_call read_fails copying c = some (client c.stdin (exited false) c.wire)
client_call writes (holding buf) c = some (client c.stdin copying (c.wire ++ buf))
client_call (writes_part n) (holding buf) c =
    if ltb n (length buf) then some (client c.stdin (exited false) (c.wire ++ take n buf)) else none
client_call _ _ c = none

-- The loop of the client and the exits behind it; `none` where the call cannot happen.
unfoldable pub client_step : Call → Client → Option Client
client_step call c = client_call call c.phase c

-- The server at accept, at read, at write with what it has read, or behind exit(EXIT_FAILURE).
pub data ServerPhase : Type 0 where
  accepting reading stopped : ServerPhase
  writing : Bytes → ServerPhase

-- The clients are numbered in the order in which their connect succeeds; `arrived` of them are connected,
-- and `served` connections the server has closed.
pub record System : Type 0 where
  pub clients : ℕ → Client
  pub arrived : ℕ
  pub served : ℕ
  pub server : ServerPhase
  pub out : Bytes

pub data Event : Type 0 where
  connects : Event
  by_client : ℕ → Call → Event
  accepts : Event
  by_server : Call → Event
  accept_fails close_fails : Event

abbrev pub set_client : ℕ → Client → (ℕ → Client) → ℕ → Client
set_client i c cs = λ k. if k == i then c else cs k

abbrev pub has_exited : ClientPhase → Bool
has_exited (exited ok) = true
has_exited _ = false

abbrev pub with_wire : Bytes → Client → Client
with_wire w c = record { stdin = c.stdin; phase = c.phase; wire = w }

-- read(cfd, ...) returns 0.
abbrev pub at_end : Client → Bool
at_end c = is_empty c.wire && has_exited c.phase

abbrev pub with_server : ServerPhase → System → System
with_server phase s = record s { server = phase }

abbrev pub server_call : Call → ServerPhase → System → Option System
server_call (reads n) reading s =
    let c = s.clients s.served in
    if readable n c.wire
    then some (record s {
      clients = set_client s.served (with_wire (drop n c.wire) c) s.clients;
      server = writing (take n c.wire);
    })
    else none
server_call ends reading s =
    if at_end (s.clients s.served)
    then some (record s { served = suc s.served; server = accepting })
    else none
server_call read_fails reading s = some (with_server stopped s)
server_call writes (writing buf) s = some (record s { server = reading; out = s.out ++ buf })
server_call (writes_part n) (writing buf) s =
    if ltb n (length buf)
    then some (record s { server = stopped; out = s.out ++ take n buf })
    else none
server_call _ _ s = none

abbrev pub accept : ServerPhase → System → Option System
accept accepting s = if ltb s.served s.arrived then some (with_server reading s) else none
accept _ s = none

abbrev pub fail_accept : ServerPhase → System → Option System
fail_accept accepting s = some (with_server stopped s)
fail_accept _ s = none

abbrev pub fail_close : ServerPhase → System → Option System
fail_close reading s = if at_end (s.clients s.served) then some (with_server stopped s) else none
fail_close _ s = none

-- `none` where the call cannot happen.
unfoldable pub step : Event → System → Option System
step connects s = some (record s { arrived = suc s.arrived })
step (by_client i call) s = client_step call (s.clients i) >>= λ c.
    if ltb i s.arrived then some (record s { clients = set_client i c s.clients }) else none
step accepts s = accept s.server s
step (by_server call) s = server_call call s.server s
step accept_fails s = fail_accept s.server s
step close_fails s = fail_close s.server s

unfoldable pub run : List Event → System → Option System
run [] s = some s
run (e ∷ es) s = step e s >>= run es

-- Before the first connection; client i has the standard input `files i`.
abbrev pub start : (ℕ → Bytes) → System
start files = record {
  clients = λ i. client (files i) copying [];
  arrived = 0;
  served = 0;
  server = accepting;
  out = [];
}
