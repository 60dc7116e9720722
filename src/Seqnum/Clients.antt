-- ===== src/Seqnum/Clients.antt =====
-- The clients of the sequence number servers: CH44-Pipes_and_FIFOs/seqnum_with_backup/fifo_seqnum_client.c
-- and CH52-POSIX_Message_Queues/seqnum_mq/mq_seqnum_client.c.
use linux_programming.Base.{
  ℕ, ◌≡◌, ◌⊎◌, refl, Bool, true, false, not, List, [], ◌∷◌, Option, none, some, arith,
  if◌then◌else◌, length, All, Bool-cases, Option-cases, inl, inr,
}
use linux_programming.Base.Int.{ℤ, pos, minus_one, eqb_ℤ}
use linux_programming.Base.Bytes.{Bytes, codes}
use linux_programming.Libc.Str.{str_eq}
use linux_programming.GetNum.{Outcome, returns, exits, get_int, gn_gt_0}
use linux_programming.Seqnum.{Request, request_size, response_size, MqTurn, add_int, serve_mq}

-- What the calls of a client return: its process id, whether its own FIFO (or queue) could be made and
-- the exit handler registered, whether the server's could be opened, whether the request was written
-- whole, whether its own FIFO could be opened, and the response (`none` if it is not read whole).
pub record Calls : Type 0 where
  pub pid : ℤ
  pub made : Bool
  pub registered : Bool
  pub server_opened : Bool
  pub written : Bool
  pub own_opened : Bool
  pub response : Option ℤ

-- How a client ends: the request that the server receives, the number that is printed, the status, and
-- whether its FIFO or queue is left behind.
pub record Ended : Type 0 where
  pub request : Option Request
  pub printed : Option ℤ
  pub status : ℕ
  pub left_behind : Bool

abbrev pub fails : Option Request → Bool → Ended
fails request left = record { request = request; printed = none; status = 1; left_behind = left }

abbrev pub wants_help : Option Bytes → Bool
wants_help none = false
wants_help (some arg) = str_eq arg (codes "--help")

-- `seqLen`: the first argument, or 1.
abbrev pub seq_len_of : Option Bytes → Outcome ℤ
seq_len_of none = returns (pos 1)
seq_len_of (some arg) = get_int (some arg) gn_gt_0 (some (codes "seq-len"))

-- From the write of the request on.
unfoldable pub exchange : Calls → ℤ → Ended
exchange c n =
    let req : Request = record { pid = c.pid; seq_len = n } in
    if not c.server_opened
    then fails none false
    else if not c.written
    then fails none false
    else if not c.own_opened
    then fails (some req) false
    else elim c.response [
      | none ↦ fails (some req) false
      | some seq_num ↦ record {
        request = some req;
        printed = some seq_num;
        status = 0;
        left_behind = false;
      }
    ]

unfoldable pub fifo_client : Option Bytes → Calls → Ended
fifo_client arg c =
    if wants_help arg
    then fails none false
    else if not c.made
    then fails none false
    else if not c.registered
    then fails none true
    else elim (seq_len_of arg) [ exits _ _ ↦ fails none false | returns n ↦ exchange c n ]

-- What the calls of the client on message queues return; `mq_send` and `mq_receive` are the results of
-- the two functions.
pub record MqCalls : Type 0 where
  pub pid : ℤ
  pub made : Bool
  pub registered : Bool
  pub server_opened : Bool
  pub mq_send : ℤ
  pub mq_receive : ℤ
  pub response : ℤ

-- A queued request: mq_send has returned 0.
abbrev pub queued : MqCalls → ℤ → Option Request
queued c n = if eqb_ℤ c.mq_send (pos 0) then some (record { pid = c.pid; seq_len = n }) else none

unfoldable pub mq_exchange : MqCalls → ℤ → Ended
mq_exchange c n =
    if not c.server_opened
    then fails none false
    else if not (eqb_ℤ c.mq_send (pos request_size))
    then fails (queued c n) false
    else if not (eqb_ℤ c.mq_receive (pos response_size))
    then fails (queued c n) false
    else record { request = queued c n; printed = some c.response; status = 0; left_behind = false }

unfoldable pub mq_client : Option Bytes → MqCalls → Ended
mq_client arg c =
    if wants_help arg
    then fails none false
    else if not c.made
    then fails none false
    else if not c.registered
    then fails none true
    else elim (seq_len_of arg) [ exits _ _ ↦ fails none false | returns n ↦ mq_exchange c n ]

-- mq_send(3) returns 0, or -1 on an error.
abbrev pub SendResult : ℤ → Type 0
SendResult r = (r ≡ pos 0) ⊎ (r ≡ minus_one)

Fails : Ended → Type 0
Fails e = (e.printed ≡ none) × (e.status ≡ 1)

not_size :
    (r : ℤ)
    → SendResult r
    → (eqb_ℤ r (pos request_size) ≡ false) × (eqb_ℤ r (pos response_size) ≡ false)
not_size r (inl e) = rw e (refl, refl)
not_size r (inr e) = rw e (refl, refl)

mq_exchange-Fails : (c : MqCalls) (n : ℤ) → SendResult c.mq_send → Fails (mq_exchange c n)
unfolding mq_exchange Fails
mq_exchange-Fails c n sent = elim (Bool-cases c.server_opened) [
  | inl e ↦ rw (e, (not_size c.mq_send sent).0) (refl, refl)
  | inr e ↦ rw e (refl, refl)
]

seq_len-cases :
    {A : Type 0} (o : Outcome A)
    → ((a : A) × (o ≡ returns a)) ⊎ ((t : Bytes) × (s : ℕ) × (o ≡ exits t s))
seq_len-cases (returns a) = inl (a, refl)
seq_len-cases (exits t s) = inr (t, s, refl)

-- The client on message queues never prints a number and always fails, since it compares what mq_send
-- returns, which is 0 or -1, with the size of the request.
pub mq_client-fails :
    (arg : Option Bytes) (c : MqCalls)
    → SendResult c.mq_send
    → ((mq_client arg c).printed ≡ none) × ((mq_client arg c).status ≡ 1)
unfolding mq_client Fails
mq_client-fails arg c sent = elim (Bool-cases (wants_help arg)) [
  | inl e ↦ rw e (refl, refl)
  | inr e ↦ elim (Bool-cases c.made) [
    | inr f ↦ rw (e, f) (refl, refl)
    | inl f ↦ elim (Bool-cases c.registered) [
      | inr g ↦ rw (e, f, g) (refl, refl)
      | inl g ↦ elim (seq_len-cases (seq_len_of arg)) [
        | inl (n, k) ↦ rw (e, f, g, k) (mq_exchange-Fails c n sent)
        | inr (t, s, k) ↦ rw (e, f, g, k) (refl, refl)
      ]
    ]
  ]
]

-- The server on message queues complains about every response that it sends, whether mq_send has sent
-- it (0) or not (-1).
serve_mq-complains :
    (ts : List MqTurn) (n : ℤ)
    → All (λ t. SendResult t.mq_send) ts
    → (serve_mq n ts).complaints ≡ length (serve_mq n ts).grants
unfolding serve_mq
serve_mq-complains [] n sent = refl
serve_mq-complains (t ∷ ts) n (here, sent) = elim (Option-cases t.request) [
  | inl e ↦ rw e refl
  | inr (r, e) ↦ elim (Bool-cases t.opened) [
    | inl o ↦
        rw (e, o, (not_size t.mq_send here).1)
          (omega (arith, serve_mq-complains ts (add_int n r.seq_len) sent))
    | inr o ↦ rw (e, o) (serve_mq-complains ts n sent)
  ]
]
