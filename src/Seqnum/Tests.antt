-- ===== src/Seqnum/Tests.antt =====
-- The sequence number servers and their clients at concrete runs.
use linux_programming.Base.{ℕ, ◌≡◌, refl, Bool, true, false, List, [], ◌∷◌, none, some, arith}
use linux_programming.Base.Int.{pos, ◌+ℤ◌, minus_one}
use linux_programming.Libc.Str.{upto}
use linux_programming.Libc.Strtol.{strtol, skip_space, digits}
use linux_programming.Seqnum.{Turn, grant, Server, serve_backup, serve_fifo, start_backup, MqTurn}
use linux_programming.Seqnum.Contiguous.{Apart}
use linux_programming.Seqnum.Backup.{Saved, serve_backup-Saved}
use linux_programming.Seqnum.Mains.{FifoCalls, Session, sessions, main_mq, main_fifo}
use linux_programming.Seqnum.Restart.{Holds, IsRegular, sessions-Apart}
use linux_programming.Seqnum.Clients.{MqCalls}

abbrev ask : ℕ → ℕ → Bool → Bool → Turn
ask p n opened sent = record {
  request = some (record { pid = pos p; seq_len = pos n });
  opened = opened;
  sent = sent;
  backed_up = true;
}

-- A partial request, one from a client that has gone, one that gets no response, and one that does.
abbrev turns : List Turn
turns =
    record { request = none; opened = true; sent = true; backed_up = true }
    ∷ ask 7 5 false false
    ∷ ask 8 3 true false
    ∷ ask 9 2 true true
    ∷ []

abbrev server : Server
server = record { seq_num = pos 0; backup_file_content = []; backup_file = [] }

served : serve_fifo (pos 0) turns ≡ (
  pos 5,
  grant (record { pid = pos 8; seq_len = pos 3 }) (pos 0) false
      ∷ grant (record { pid = pos 9; seq_len = pos 2 }) (pos 3) true
      ∷ [],
)
unfolding serve_fifo ◌+ℤ◌
served = refl

server-Saved : Saved server
unfolding start_backup upto strtol skip_space digits
server-Saved buf = (_, refl, refl)

serve_backup-Saved_example : Saved (serve_backup server turns).0
serve_backup-Saved_example =
    serve_backup-Saved turns server server-Saved (refl, (refl, (refl, (refl, tt))))

abbrev mq_turns : List MqTurn
mq_turns =
    record {
      request = some (record { pid = pos 7; seq_len = pos 5 });
      opened = true;
      mq_send = pos 0;
    }
    ∷ record {
      request = some (record { pid = pos 8; seq_len = pos 2 });
      opened = true;
      mq_send = minus_one;
    }
    ∷ []

abbrev all_well : MqCalls
all_well = record {
  pid = pos 7;
  made = true;
  registered = true;
  server_opened = true;
  mq_send = pos 0;
  mq_receive = pos 4;
  response = pos 12;
}

abbrev fifo_calls : FifoCalls
fifo_calls = record { mkfifo = some 17; open_read = true; open_write = true; ignore_sigpipe = true }

abbrev session : Session
session = record { buf = []; calls = fifo_calls; turns = turns }

abbrev failed_session : Session
failed_session = record session { calls = record fifo_calls { mkfifo = some 13 } }

regular : IsRegular session
regular = ((tt, ((4, refl), ((2, refl), ((1, refl), tt)))), (refl, (refl, (refl, (refl, tt)))))

empty-Holds : Holds [] 0
unfolding start_backup upto strtol skip_space digits
empty-Holds buf = (_, refl, refl)

-- Two sessions, with a start between them that fails.
sessions-Apart_example : Apart 0 (sessions [] (session ∷ failed_session ∷ session ∷ [])).1 30
sessions-Apart_example =
    sessions-Apart (session ∷ failed_session ∷ session ∷ []) [] 0 empty-Holds
      (regular, (regular, (regular, tt))) (omega arith)

mq_open_fails : main_mq false mq_turns ≡ none
unfolding main_mq
mq_open_fails = refl

not_registered : main_fifo false fifo_calls turns ≡ none
unfolding main_fifo
not_registered = refl
