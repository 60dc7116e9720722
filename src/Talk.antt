-- ===== src/Talk.antt =====
-- CH52-POSIX_Message_Queues/talk/talk.c: the main loop of one terminal, which sends what is typed, the queue of the
-- other terminal, and the thread there that prints what it receives. A step is one turn of one of the two.
pub mod Sent
pub mod Delivery
mod Tests
use linux_programming.Base.{
  ℕ, ◌+◌, ◌-◌, Bool, true, false, ◌&&◌, List, [], ◌∷◌, ◌++◌, Option, none, some, ltb, leb,
  if◌then◌else◌, ◌>>=◌, length, replicate,
}
use linux_programming.Base.Int.{ℤ, pos, ltb_ℤ}
use linux_programming.Base.Bytes.{Bytes, codes}
use linux_programming.Libc.Decimal.{print_int}
use linux_programming.Libc.Str.{upto}

-- MQ_CAP, and the mqMsgLen with which each terminal makes its queue.
abbrev pub mq_cap : ℕ
mq_cap = 8

abbrev pub mq_msgsize : ℕ
mq_msgsize = 512

-- MQ_TEMPLATE with the id of a process.
unfoldable pub mq_name : ℤ → Bytes
mq_name pid = codes "/mq-client_" ++ print_int pid

-- The calls before the main loop: whether malloc, mq_open for the own queue and pthread_create succeed, what
-- scanf reads (`none` for no number), and whether mq_open for the other queue succeeds.
pub record Calls : Type 0 where
  pub malloc : Bool
  pub mq_open_ours : Bool
  pub pthread_create : Bool
  pub scanf : Option ℤ
  pub mq_open_theirs : Bool

-- The names of the own queue and of the one that is written to; `none` for exit(EXIT_FAILURE).
abbrev pub with_peer : ℤ → Bool → Option ℤ → Option (Bytes × Bytes)
with_peer pid opens none = none
with_peer pid opens (some theirs) =
    if ltb_ℤ (pos 0) theirs && opens then some (mq_name pid, mq_name theirs) else none

unfoldable pub set_up : ℤ → Calls → Option (Bytes × Bytes)
set_up pid c =
    if c.malloc && c.mq_open_ours && c.pthread_create
    then with_peer pid c.mq_open_theirs c.scanf
    else none

-- `queue` holds the messages from the oldest on; `shown` is what the other terminal has printed of them.
pub record State : Type 0 where
  pub mq_msg_len : ℕ
  pub queue : List Bytes
  pub shown : Bytes
  pub sending : Bool
  pub receiving : Bool

-- getline delivers a line, or -1; mq_send fails for a reason of its own; mq_receive takes a message, finds none
-- (EAGAIN), or fails otherwise.
pub data Event : Type 0 where
  typed send_fails : Bytes → Event
  input_ends receives finds_none receive_fails : Event

abbrev pub print_message : Bytes → Bytes
print_message buffer = codes "\n[Received]: " ++ upto buffer 0

-- The buffer behind memset and getline: the line, and NUL bytes up to its size.
abbrev pub message : ℕ → Bytes → Bytes
message size line = line ++ replicate (size - length line) 0

-- `receive` is what stands behind a turn of the receiver.
abbrev pub receive : List Bytes → State → Option State
receive [] s = none
receive (m ∷ queue) s = some (record s { queue = queue; shown = s.shown ++ print_message m })

-- mq_receive with EAGAIN, and the sleep.
abbrev pub poll : List Bytes → State → Option State
poll [] s = some s
poll (m ∷ queue) s = none

-- `grown` is the size that getline gives to a buffer that is too small, from the old one and the size needed.
module _ (grown : ℕ → ℕ → ℕ) where
  abbrev pub line_size : ℕ → Bytes → ℕ
  line_size size line =
      let need = length line + 1 in if leb need size then size else grown size need

  -- mq_send of the whole buffer: too long for the queue; it waits while the queue is full (`none`).
  abbrev pub send : Bytes → ℕ → State → Option State
  send line size s =
      if ltb mq_msgsize size
      then some (record s { mq_msg_len = size; sending = false })
      else if ltb (length s.queue) mq_cap
      then some (record s { mq_msg_len = size; queue = s.queue ++ message size line ∷ [] })
      else none

  unfoldable pub step : Event → State → Option State
  step (typed line) s = if s.sending then send line (line_size s.mq_msg_len line) s else none
  step (send_fails line) s =
      if s.sending
      then some (record s { mq_msg_len = line_size s.mq_msg_len line; sending = false })
      else none
  step input_ends s = if s.sending then some (record s { sending = false }) else none
  step receives s = if s.receiving then receive s.queue s else none
  step finds_none s = if s.receiving then poll s.queue s else none
  step receive_fails s = if s.receiving then some (record s { receiving = false }) else none

  unfoldable pub run : List Event → State → Option State
  run [] s = some s
  run (e ∷ es) s = step e s >>= run es

abbrev pub start : State
start = record { mq_msg_len = mq_msgsize; queue = []; shown = []; sending = true; receiving = true }
