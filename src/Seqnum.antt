-- ===== src/Seqnum.antt =====
-- The sequence number servers: CH44-Pipes_and_FIFOs/seqnum_with_backup/fifo_seqnum_server.c,
-- CH44-Pipes_and_FIFOs/server_fifo_remove/fifo_seqnum_server.c and
-- CH52-POSIX_Message_Queues/seqnum_mq/mq_seqnum_server.c. What the system calls return is an input.
pub mod Mains
pub mod Contiguous
pub mod Backup
pub mod Restart
pub mod Clients
mod Tests
use linux_programming.Base.{
  ℕ, suc, ◌+◌, Bool, true, false, not, ◌&&◌, List, [], ◌∷◌, ◌++◌, Option, none, some, ◌==◌,
  if◌then◌else◌, length, take, drop,
}
use linux_programming.Base.Int.{ℤ, pos, ◌+ℤ◌, eqb_ℤ, to_int}
use linux_programming.Base.Bytes.{Bytes}
use linux_programming.Libc.Str.{upto}
use linux_programming.Libc.Strtol.{Parsed, strtol}
use linux_programming.Libc.Decimal.{print_int}

-- `struct request`.
pub record Request : Type 0 where
  pub pid : ℤ
  pub seq_len : ℤ

-- The sizes of `struct request` and `struct response`.
abbrev pub request_size : ℕ
request_size = 8

abbrev pub response_size : ℕ
response_size = 4

-- A response that the server has tried to send: to whom, the number in it, and how many numbers the
-- client has asked for. `sent` says that the whole response was written.
pub record Grant : Type 0 where
  pub pid : ℤ
  pub seq_num : ℤ
  pub seq_len : ℤ
  pub sent : Bool

-- Addition of ints, which wraps around in two's complement.
abbrev pub add_int : ℤ → ℤ → ℤ
add_int a b = to_int (a +ℤ b)

-- One turn of the loop of a server on FIFOs: what read delivers (`none` if it is not a whole request),
-- and whether the open of the client's FIFO, the write to it and the write to the backup succeed.
pub record Turn : Type 0 where
  pub request : Option Request
  pub opened : Bool
  pub sent : Bool
  pub backed_up : Bool

abbrev pub grant : Request → ℤ → Bool → Grant
grant r n sent = record { pid = r.pid; seq_num = n; seq_len = r.seq_len; sent = sent }

-- The server with a backup file: the number, the buffer of 21 bytes, and the file.
pub record Server : Type 0 where
  pub seq_num : ℤ
  pub backup_file_content : Bytes
  pub backup_file : Bytes

abbrev pub content_size : ℕ
content_size = 21

-- snprintf(backupFileContent, 21, "%d", n): at most 20 characters and a NUL.
unfoldable pub print_content : ℤ → Bytes → Bytes
print_content n buf = let text = take 20 (print_int n) in text ++ 0 ∷ drop (suc (length text)) buf

-- lseek to the front and write of the 21 bytes, into a file that may be longer.
unfoldable pub write_front : Bytes → Bytes → Bytes
write_front content file = take content_size content ++ drop content_size file

unfoldable pub update : Server → Request → Bool → Server
update s r backed_up =
    let n = add_int s.seq_num r.seq_len in
    let content = print_content n s.backup_file_content in
    record {
      seq_num = n;
      backup_file_content = content;
      backup_file = if backed_up then write_front content s.backup_file else s.backup_file;
    }

-- The loop, over the turns that it makes.
unfoldable pub serve_backup : Server → List Turn → Server × List Grant
serve_backup s [] = (s, [])
serve_backup s (t ∷ ts) = elim t.request [
  | none ↦ serve_backup s ts
  | some r ↦
      let skipped = serve_backup s ts in
      let rest = serve_backup (update s r t.backed_up) ts in
      if t.opened then (rest.0, grant r s.seq_num t.sent ∷ rest.1) else skipped
]

-- What the server finds when it starts: the file opens, with its content, and read fails or not; or open
-- fails with ENOENT, and then creat succeeds or not; or open fails otherwise.
pub data Found : Type 0 where
  file : Bytes → Bool → Found
  missing : Bool → Found
  denied : Found

pub data Start : Type 0 where
  started : Server → Start
  stopped : Start

-- The buffer after read: the front of the file, and what the array held before behind it.
abbrev pub read_front : Bytes → Bytes → Bytes
read_front content buf = let got = take content_size content in got ++ drop (length got) buf

-- strtol does not set EINVAL in base 10. After creat the descriptor is still -1, so read fails.
unfoldable pub start_backup : Found → Bytes → Start
start_backup denied buf = stopped
start_backup (missing created) buf = stopped
start_backup (file content read_fails) buf =
    let now = read_front content buf in
    if read_fails
    then stopped
    else if length content == 0
    then started (record { seq_num = pos 0; backup_file_content = buf; backup_file = content })
    else started (record {
      seq_num = to_int (strtol (upto now 0) 10).value;
      backup_file_content = now;
      backup_file = content;
    })

-- The server without a backup: only the number is kept.
unfoldable pub serve_fifo : ℤ → List Turn → ℤ × List Grant
serve_fifo n [] = (n, [])
serve_fifo n (t ∷ ts) = elim t.request [
  | none ↦ serve_fifo n ts
  | some r ↦
      let skipped = serve_fifo n ts in
      let rest = serve_fifo (add_int n r.seq_len) ts in
      if t.opened then (rest.0, grant r n t.sent ∷ rest.1) else skipped
]

-- A signal handler of the server: it removes the server's FIFO and exits with status -1, which the
-- parent sees as 255. `fifo` says whether the FIFO is there.
pub record Gone : Type 0 where
  pub fifo : Bool
  pub status : ℕ

unfoldable pub fifo_sig_handler : Bool → Gone
fifo_sig_handler fifo = record { fifo = false; status = 255 }

-- One turn of the server on message queues; mq_receive fails where `request` is `none`. `mq_send` is
-- what mq_send returns.
pub record MqTurn : Type 0 where
  pub request : Option Request
  pub opened : Bool
  pub mq_send : ℤ

-- The number of the next grant, the grants, whether the server has exited with a failure, and how many
-- times it has printed that a response could not be written.
pub record MqRun : Type 0 where
  pub seq_num : ℤ
  pub grants : List Grant
  pub failed : Bool
  pub complaints : ℕ

abbrev pub complains : ℤ → ℕ
complains result = if eqb_ℤ result (pos response_size) then 0 else 1

unfoldable pub serve_mq : ℤ → List MqTurn → MqRun
serve_mq n [] = record { seq_num = n; grants = []; failed = false; complaints = 0 }
serve_mq n (t ∷ ts) = elim t.request [
  | none ↦ record { seq_num = n; grants = []; failed = true; complaints = 0 }
  | some r ↦
      let skipped = serve_mq n ts in
      let rest = serve_mq (add_int n r.seq_len) ts in
      if t.opened
      then record rest {
        grants = grant r n (eqb_ℤ t.mq_send (pos 0)) ∷ rest.grants;
        complaints = complains t.mq_send + rest.complaints;
      }
      else skipped
]
