-- ===== src/Talk/Delivery.antt =====
-- The turns of both sides of talk.c, and what the other terminal prints of the lines that are typed.
use mathlib.Core.Path.{subst}
use linux_programming.Base.{
  ℕ, ◌+◌, ◌≤◌, ◌<◌, ◌≡◌, refl, sym, ap, ◌∙◌, inl, inr, true, false, Bool-cases, List, [], ◌∷◌, ◌++◌,
  append_assoc, append-nil, some, arith, ltb, ltb→lt, lt→ltb, leb, unwrap, if_some, if_then,
  bind_some, length, length-append,
}
use linux_programming.Base.Bytes.{Bytes}
use linux_programming.Talk.{
  State, Event, typed, send_fails, input_ends, receives, finds_none, receive_fails, print_message,
  message, receive, poll, line_size, send, step, run, start,
}
use linux_programming.Talk.Sent.{
  sent, prints, print_message-message, all_of, Fits, Sound, Goes, sent_receives, add_line,
  sent_short, sent_long, sent_finds_none, sent_receive_fails, sent_none,
}

receives-Goes :
    (es : List Event) (queue : List Bytes) (s t : State)
    → s.queue ≡ queue
    → receive queue s ≡ some t
    → Sound s
    → Goes es receives s t
receives-Goes es [] s t q e h = ground arith
receives-Goes es (m ∷ queue) s t q e (fits, few) = subst (Goes es receives s) (unwrap e) (
  (fits, omega (arith, few, ap length q)),
  ap (λ z. z ++ prints (sent s.sending es)) (append_assoc s.shown (print_message m) (prints queue))
      ∙ rw (q, sent_receives s.sending es) refl,
)

short-Goes :
    (grown : ℕ → ℕ → ℕ) (es : List Event) (line : Bytes) (s t : State)
    → leb (length line + 1) 512 ≡ true
    → s.sending ≡ true
    → send grown line 512 s ≡ some t
    → Sound s
    → Goes es (typed line) s t
short-Goes grown es line s t short on e (fits, few) =
    let (room, p) = if_some (ltb (length s.queue) 8) _ t e in
    let msg = message 512 line in
    let same = print_message-message 512 line in
    subst (Goes es (typed line) s) p (
      (
        subst (λ b. Fits b 512) (sym on) refl,
        omega (arith, length-append s.queue (msg ∷ []), ltb→lt (length s.queue) 8 room),
      ),
      subst
          (λ b.
            all_of (record s { queue = s.queue ++ msg ∷ [] }) ++ prints (sent b es)
            ≡ all_of s ++ prints (sent b (typed line ∷ es)))
          (sym on)
          (rw (sent_short line es short)
            (add_line s.shown msg line (prints (sent true es)) s.queue same)),
    )

ends-Goes :
    (es : List Event) (e : Event) (size : ℕ) (s : State)
    → s.sending ≡ true
    → sent true (e ∷ es) ≡ []
    → Sound s
    → Goes es e s (record s { mq_msg_len = size; sending = false })
ends-Goes es e size s on none_sent (fits, few) = (
  (tt, few),
  subst (λ b. all_of s ++ [] ≡ all_of s ++ prints (sent b (e ∷ es))) (sym on) (rw none_sent refl),
)

typed-Goes :
    (grown : ℕ → ℕ → ℕ) (es : List Event) (line : Bytes) (size : ℕ) (s t : State)
    → (leb (length line + 1) 512 ≡ true → size ≡ 512)
    → (leb (length line + 1) 512 ≡ false → 512 < size)
    → s.sending ≡ true
    → send grown line size s ≡ some t
    → Sound s
    → Goes es (typed line) s t
typed-Goes grown es line size s t short long on e h =
    elim (Bool-cases (leb (length line + 1) 512)) [
      | inl fits ↦
          short-Goes grown es line s t fits on
            (subst (λ n. send grown line n s ≡ some t) (short fits) e) h
      | inr over ↦
          let too_long : ltb 512 size ≡ true = lt→ltb 512 size (long over) in
          let p = unwrap (rw (too_long) at e) in
          subst (Goes es (typed line) s) p
            (ends-Goes es (typed line) size s on (sent_long line es over) h)
    ]

-- getline makes the buffer at least as long as it needs.
abbrev pub Grows : (ℕ → ℕ → ℕ) → Type 0
Grows grown = (size need : ℕ) → need ≤ grown size need

line_size_short :
    (grown : ℕ → ℕ → ℕ) (size : ℕ) (line : Bytes)
    → size ≡ 512
    → leb (length line + 1) 512 ≡ true
    → line_size grown size line ≡ 512
line_size_short grown size line e h = rw (e, h) refl

line_size_long :
    (grown : ℕ → ℕ → ℕ) (size : ℕ) (line : Bytes)
    → size ≡ 512
    → Grows grown
    → leb (length line + 1) 512 ≡ false
    → 512 < line_size grown size line
line_size_long grown size line e g h =
    let over : 512 < length line + 1 = ground (arith, h) in
    rw (e, h) (omega (arith, g 512 (length line + 1), over))

poll_same : (queue : List Bytes) (s t : State) → poll queue s ≡ some t → s ≡ t
poll_same [] s t e = unwrap e
poll_same (m ∷ queue) s t e = ground arith

step-Goes :
    (grown : ℕ → ℕ → ℕ) (es : List Event) (e : Event) (s t : State)
    → Grows grown
    → step grown e s ≡ some t
    → Sound s
    → Goes es e s t
unfolding step
step-Goes grown es (typed line) s t g e h =
    let (on, p) = if_then s.sending _ t e in
    let first : s.mq_msg_len ≡ 512 = subst (λ b. Fits b s.mq_msg_len) on h.0 in
    typed-Goes grown es line (line_size grown s.mq_msg_len line) s t
      (line_size_short grown s.mq_msg_len line first)
      (line_size_long grown s.mq_msg_len line first g) on p h
step-Goes grown es (send_fails line) s t g e h =
    let (on, p) = if_some s.sending _ t e in
    subst (Goes es (send_fails line) s) p
      (ends-Goes es (send_fails line) (line_size grown s.mq_msg_len line) s on refl h)
step-Goes grown es input_ends s t g e h =
    let (on, p) = if_some s.sending _ t e in
    subst (Goes es input_ends s) p (ends-Goes es input_ends s.mq_msg_len s on refl h)
step-Goes grown es receives s t g e h =
    let (_, p) = if_then s.receiving _ t e in receives-Goes es s.queue s t refl p h
step-Goes grown es finds_none s t g e h =
    let (_, p) = if_then s.receiving _ t e in
    subst (Goes es finds_none s) (poll_same s.queue s t p)
      (h, ap (λ l. all_of s ++ prints l) (sym (sent_finds_none s.sending es)))
step-Goes grown es receive_fails s t g e h =
    let (_, p) = if_some s.receiving _ t e in
    subst (Goes es receive_fails s) p
      (h, ap (λ l. all_of s ++ prints l) (sym (sent_receive_fails s.sending es)))

run-delivers_lem :
    (grown : ℕ → ℕ → ℕ) (es : List Event) (s t : State)
    → Grows grown
    → Sound s
    → run grown es s ≡ some t
    → (all_of t ≡ all_of s ++ prints (sent s.sending es)) × (length t.queue ≤ 8)
unfolding run
run-delivers_lem grown [] s t g h e =
    subst (λ u. (all_of u ≡ all_of s ++ prints (sent s.sending [])) × (length u.queue ≤ 8))
      (unwrap e)
      (sym (ap (λ l. all_of s ++ prints l) (sent_none s.sending) ∙ append-nil (all_of s)), h.1)
run-delivers_lem grown (x ∷ es) s t g h e =
    let (u, p, rest) = bind_some (step grown x s) (run grown es) t e in
    let (sound, goes) = step-Goes grown es x s u g p h in
    let (delivered, few) = run-delivers_lem grown es u t g sound rest in (delivered ∙ goes, few)

-- Whatever the two terminals do, in any order: what the other terminal has printed, with what it will
-- print for the messages that wait in its queue (at most eight), are the lines that were typed, in
-- their order, each behind "[Received]: " and up to a NUL byte in it; up to the first line of more than
-- 511 bytes, or the end of the input or a failing mq_send, where the sender leaves its loop.
pub run-delivers :
    (grown : ℕ → ℕ → ℕ) (es : List Event) (t : State)
    → Grows grown
    → run grown es start ≡ some t
    → (t.shown ++ prints t.queue ≡ prints (sent true es)) × (length t.queue ≤ 8)
run-delivers grown es t g e = run-delivers_lem grown es start t g (refl, omega arith) e
