-- ===== src/UsXfr/Sends.antt =====
-- Where the bytes of one client of abstract_ns are, before and after its calls.
use linux_programming.Base.{
  ℕ, ◌≡◌, refl, sym, ap, ◌∙◌, true, false, [], ◌∷◌, ◌++◌, append_assoc, append-nil, some, arith,
  ltb, unwrap, if_some, length, take, drop, take-drop,
}
use mathlib.Core.Path.{subst}
use linux_programming.Base.Bytes.{Bytes}
use linux_programming.UsXfr.Steps.{
  ClientPhase, copying, holding, exited, Client, Call, reads, ends, writes, writes_part, read_fails,
  readable, is_empty, client_call, has_exited,
}

-- Where the bytes of a client's standard input are: the server has them, they are in the socket, in the
-- client's buffer, or not yet read. A client that fails loses what it has read and not sent.
abbrev pub Sent : Bytes → Bytes → ClientPhase → Bytes → Bytes → Type 0
Sent file taken copying from w = file ≡ taken ++ (w ++ from)
Sent file taken (holding buf) from w = file ≡ taken ++ (w ++ (buf ++ from))
Sent file taken (exited true) from w = file ≡ taken ++ w
Sent file taken (exited false) from w = (lost : Bytes) × (file ≡ taken ++ (w ++ (lost ++ from)))

abbrev pub Sends : Bytes → Bytes → Client → Type 0
Sends file taken c = Sent file taken c.phase c.stdin c.wire

pub empty_is : (xs : Bytes) → is_empty xs ≡ true → xs ≡ []
empty_is [] h = refl
empty_is (x ∷ xs) h = ground arith

pub move :
    (n : ℕ) (taken w from : Bytes)
    → taken ++ (w ++ from) ≡ taken ++ (w ++ (take n from ++ drop n from))
move n taken w from = rw (take-drop n from) refl

pub part :
    (n : ℕ) (taken w buf from : Bytes)
    → taken ++ (w ++ (buf ++ from)) ≡ taken ++ ((w ++ take n buf) ++ (drop n buf ++ from))
part n taken w buf from =
    rw
      (
        append_assoc w (take n buf) (drop n buf ++ from),
        ← append_assoc (take n buf) (drop n buf) from,
        take-drop n buf,
      )
      refl

pub client_call-Sends :
    (file taken : Bytes) (call : Call) (c c' : Client) (phase : ClientPhase)
    → Sent file taken phase c.stdin c.wire
    → client_call call phase c ≡ some c'
    → Sends file taken c'
client_call-Sends file taken (reads n) c c' copying h e =
    let (_, p) = if_some (readable n c.stdin) _ c' e in
    subst (Sends file taken) p (h ∙ move n taken c.wire c.stdin)
client_call-Sends file taken ends c c' copying h e =
    let (none_left, p) = if_some (is_empty c.stdin) _ c' e in
    subst (Sends file taken) p (h ∙ rw (empty_is c.stdin none_left, append-nil c.wire) refl)
client_call-Sends file taken read_fails c c' copying h e =
    subst (Sends file taken) (unwrap e) ([], h)
client_call-Sends file taken writes c c' (holding buf) h e =
    subst (Sends file taken) (unwrap e)
      (h ∙ ap (λ x. taken ++ x) (sym (append_assoc c.wire buf c.stdin)))
client_call-Sends file taken (writes_part n) c c' (holding buf) h e =
    let (_, p) = if_some (ltb n (length buf)) _ c' e in
    subst (Sends file taken) p (drop n buf, h ∙ part n taken c.wire buf c.stdin)
client_call-Sends file taken _ c c' _ h e = ground arith

-- A client that has exited makes no more calls.
pub client_call-at_end :
    (call : Call) (c c' : Client) (phase : ClientPhase)
    → client_call call phase c ≡ some c'
    → has_exited phase ≡ false
client_call-at_end call c c' copying e = refl
client_call-at_end call c c' (holding buf) e = refl
client_call-at_end call c c' (exited ok) e = ground arith

pub regroup :
    (n : ℕ) (taken w from : Bytes)
    → taken ++ (w ++ from) ≡ (taken ++ take n w) ++ (drop n w ++ from)
regroup n taken w from =
    rw
      (
        append_assoc taken (take n w) (drop n w ++ from),
        ← append_assoc (take n w) (drop n w) from,
        take-drop n w,
      )
      refl

pub with_wire-Sends :
    (file taken : Bytes) (n : ℕ) (phase : ClientPhase) (from w : Bytes)
    → Sent file taken phase from w
    → Sent file (taken ++ take n w) phase from (drop n w)
with_wire-Sends file taken n copying from w h = h ∙ regroup n taken w from
with_wire-Sends file taken n (holding buf) from w h = h ∙ regroup n taken w (buf ++ from)
with_wire-Sends file taken n (exited true) from w h =
    h ∙ rw (append_assoc taken (take n w) (drop n w), take-drop n w) refl
with_wire-Sends file taken n (exited false) from w (lost, h) =
    (lost, h ∙ regroup n taken w (lost ++ from))
