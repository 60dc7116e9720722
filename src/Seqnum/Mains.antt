-- ===== src/Seqnum/Mains.antt =====
-- The main functions of the sequence number servers: the set-up, and the loop behind it.
use linux_programming.Base.{
  ℕ, Bool, true, false, ◌&&◌, List, [], ◌∷◌, ◌++◌, Option, none, some, ◌==◌, if◌then◌else◌,
}
use linux_programming.Base.Int.{ℤ, pos}
use linux_programming.Base.Bytes.{Bytes}
use linux_programming.Seqnum.{
  Grant, Turn, Server, serve_backup, Found, file, Start, started, stopped, start_backup, serve_fifo,
  MqTurn, MqRun, serve_mq,
}

-- The calls that make the server's FIFO and open it: the errno of mkfifo (`none` where it succeeds), and
-- whether the two calls of open and signal succeed.
pub record FifoCalls : Type 0 where
  pub mkfifo : Option ℕ
  pub open_read : Bool
  pub open_write : Bool
  pub ignore_sigpipe : Bool

abbrev pub eexist : ℕ
eexist = 17

abbrev pub made : Option ℕ → Bool
made none = true
made (some errno) = errno == eexist

abbrev pub fifo_ready : FifoCalls → Bool
fifo_ready c = made c.mkfifo && c.open_read && c.open_write && c.ignore_sigpipe

abbrev pub then_serve : FifoCalls → List Turn → Start → Option (Server × List Grant)
then_serve c ts stopped = none
then_serve c ts (started s) = if fifo_ready c then some (serve_backup s ts) else none

-- The server with a backup file; `none` where errExit ends it before its loop.
unfoldable pub main_backup : Found → Bytes → FifoCalls → List Turn → Option (Server × List Grant)
main_backup found buf c ts = then_serve c ts (start_backup found buf)

-- The server that removes its FIFO at the end; `registered` says whether both calls of sigaction succeed.
unfoldable pub main_fifo : Bool → FifoCalls → List Turn → Option (ℤ × List Grant)
main_fifo registered c ts =
    if registered && fifo_ready c then some (serve_fifo (pos 0) ts) else none

unfoldable pub main_mq : Bool → List MqTurn → Option MqRun
main_mq opened ts = if opened then some (serve_mq (pos 0) ts) else none

-- A start of the server with a backup, up to the point where it is stopped: between two turns.
pub record Session : Type 0 where
  pub buf : Bytes
  pub calls : FifoCalls
  pub turns : List Turn

-- The server is started again and again, on the file that it has left behind.
unfoldable pub sessions : Bytes → List Session → Bytes × List Grant
sessions content [] = (content, [])
sessions content (x ∷ xs) = elim (main_backup (file content false) x.buf x.calls x.turns) [
  | none ↦ sessions content xs
  | some (s, gs) ↦ let rest = sessions s.backup_file xs in (rest.0, gs ++ rest.1)
]
