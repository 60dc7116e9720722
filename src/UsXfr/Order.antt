-- ===== src/UsXfr/Order.antt =====
-- The order in which the server of abstract_ns shows the clients' inputs, after any system calls.
use linux_programming.Base.{
  ℕ, ◌<◌, ◌≡◌, refl, sym, ap, ◌∙◌, true, false, List, [], ◌++◌, append_assoc, append-nil, some,
  arith,
}
use mathlib.Core.Path.{subst}
use linux_programming.Base.Bytes.{Bytes}
use linux_programming.UsXfr.Steps.{
  ClientPhase, copying, holding, exited, Client, ServerPhase, accepting, reading, stopped, writing,
  System, Event, at_end, run, start,
}
use linux_programming.UsXfr.Tables.{upto, upto-cong}
use linux_programming.UsXfr.Sends.{Sent, empty_is}
use linux_programming.UsXfr.Inv.{AllBut, Shows, Inv, start-Inv}
use linux_programming.UsXfr.Copies.{run-ServerInv}

abbrev pub Begins : Bytes → Bytes → Type 0
Begins part whole = (rest : Bytes) × (part ++ rest ≡ whole)

-- What a client in this phase has sent of its standard input.
-- What a client in this phase has sent of its standard input, of which `from` is not read yet.
abbrev pub Part : ClientPhase → Bytes → Bytes → Bytes → Type 0
Part copying sent from file = sent ++ from ≡ file
Part (holding buf) sent from file = sent ++ (buf ++ from) ≡ file
Part (exited true) sent from file = sent ≡ file
Part (exited false) sent from file = (lost : Bytes) × (sent ++ (lost ++ from) ≡ file)

-- `sent i` is what client i has sent. The connections that are closed are those of clients that have
-- exited, with nothing left on its way. The output is all that these have sent, one behind the other,
-- and behind it a part of what the next one has sent.
pub record Ordered (files : ℕ → Bytes) (s : System) : Type 0 where
  pub sent : ℕ → Bytes
  pub from_files : (i : ℕ) → Part (s.clients i).phase (sent i) (s.clients i).stdin (files i)
  pub closed : (i : ℕ) → i < s.served → at_end (s.clients i) ≡ true
  pub shown : (part : Bytes) × (s.out ≡ upto sent s.served ++ part) × Begins part (sent s.served)

Sent-Part :
    (file taken : Bytes) (phase : ClientPhase) (from w : Bytes)
    → Sent file taken phase from w
    → Part phase (taken ++ w) from file
Sent-Part file taken copying from w h = append_assoc taken w from ∙ sym h
Sent-Part file taken (holding buf) from w h = append_assoc taken w (buf ++ from) ∙ sym h
Sent-Part file taken (exited true) from w h = sym h
Sent-Part file taken (exited false) from w (lost, h) =
    (lost, append_assoc taken w (lost ++ from) ∙ sym h)

Shows-AllBut :
    (taken : ℕ → Bytes) (served arrived : ℕ) (phase : ServerPhase) (out : Bytes)
    → Shows taken served arrived phase out
    → (left : Bytes) × AllBut taken served out left
Shows-AllBut taken served arrived accepting out (e, _) =
    (taken served, ([], e ∙ sym (append-nil (upto taken served)), refl))
Shows-AllBut taken served arrived reading out (e, _, _) =
    ([], (taken served, e, append-nil (taken served)))
Shows-AllBut taken served arrived (writing buf) out (e, _, _) = (buf, e)
Shows-AllBut taken served arrived stopped out (left, e, _) = (left, e)

at_end-wire : (c : Client) → at_end c ≡ true → c.wire ≡ []
at_end-wire c h = empty_is c.wire (ground arith)

closed-upto :
    (files taken : ℕ → Bytes) (s : System)
    → Inv files taken s
    → upto taken s.served ≡ upto (λ i. taken i ++ (s.clients i).wire) s.served
closed-upto files taken s h =
    upto-cong taken (λ i. taken i ++ (s.clients i).wire) s.served
      λ i lt. rw (at_end-wire (s.clients i) (h.closed i lt)) (sym (append-nil (taken i)))

Inv-Ordered : (files taken : ℕ → Bytes) (s : System) → Inv files taken s → Ordered files s
Inv-Ordered files taken s h =
    let (left, (part, e, all)) = Shows-AllBut taken s.served s.arrived s.server s.out h.shows in
    let wire = (s.clients s.served).wire in
    record {
      sent = λ i. taken i ++ (s.clients i).wire;
      from_files = λ i.
          Sent-Part (files i) (taken i) (s.clients i).phase (s.clients i).stdin (s.clients i).wire
            (h.sends i);
      closed = h.closed;
      shown = (
        part,
        e ∙ ap (λ x. x ++ part) (closed-upto files taken s h),
        (left ++ wire, sym (append_assoc part left wire) ∙ ap (λ x. x ++ wire) all),
      );
    }

-- After any system calls of the server and of the clients, in any order, with any numbers of bytes and with
-- any failures, the closed connections are those of clients that have exited, with nothing left to read;
-- the output of the server is all that these clients have sent, in the order in which they connected,
-- and then a part of what the next one has sent. What a client has sent is its standard input but for
-- what it still holds or has not read, so all of it where it has exited with success; one that exits with
-- a failure may lose what it had read and not yet sent.
pub run-Ordered :
    (files : ℕ → Bytes) (es : List Event) (s : System)
    → run es (start files) ≡ some s
    → Ordered files s
run-Ordered files es s e =
    let (taken, h) = run-ServerInv files es (start files) s e ((λ i. []), start-Inv files) in
    Inv-Ordered files taken s h

-- After any system calls after which the server is back at accept and has closed as many connections as
-- there are clients, all of which have exited with success, its output is their standard inputs, one
-- behind the other in the order in which they connected.
pub run-transfers :
    (files : ℕ → Bytes) (es : List Event) (s : System)
    → run es (start files) ≡ some s
    → s.server ≡ accepting
    → s.served ≡ s.arrived
    → ((i : ℕ) → i < s.arrived → (s.clients i).phase ≡ exited true)
    → s.out ≡ upto files s.arrived
run-transfers files es s e idle all done =
    let (taken, h) = run-ServerInv files es (start files) s e ((λ i. []), start-Inv files) in
    let (shown, _) = subst (λ p. Shows taken s.served s.arrived p s.out) idle h.shows in
    let sent : ℕ → Bytes = λ i. taken i ++ (s.clients i).wire in
    let whole : (i : ℕ) → i < s.served → sent i ≡ files i = λ i lt.
      subst (λ p. Part p (sent i) (s.clients i).stdin (files i)) (done i (omega arith))
        (Sent-Part (files i) (taken i) (s.clients i).phase (s.clients i).stdin (s.clients i).wire
          (h.sends i)) in
    shown ∙ closed-upto files taken s h ∙ upto-cong sent files s.served whole ∙ ap (upto files) all
