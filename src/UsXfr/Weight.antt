-- ===== src/UsXfr/Weight.antt =====
-- A bound on the system calls that the programs of abstract_ns still make.
use linux_programming.Base.{
  ℕ, zero, suc, ◌+◌, ◌*◌, ◌-◌, ◌≤◌, ◌<◌, ◌≡◌, refl, inl, inr, Bool, true, false, Bool-cases, some,
  arith, ltb, ltb→lt, ◌==◌, ==_iff, unwrap, if_some, bind_some, length, take, drop, length-append,
  length-take, length-take_le, length-drop,
}
use mathlib.Core.Path.{subst}
use linux_programming.Base.Bytes.{Bytes}
use linux_programming.UsXfr.Inv.{Shows, ServerInv}
use linux_programming.UsXfr.Steps.{
  ClientPhase, copying, holding, exited, Client, Call, reads, ends, writes, writes_part, read_fails,
  readable, is_empty, client_call, client_step, ServerPhase, accepting, reading, stopped, writing,
  System, Event, connects, by_client, accepts, by_server, accept_fails, close_fails, set_client,
  with_wire, at_end, server_call, accept, fail_accept, fail_close, step,
}

-- A bound on the calls that are to come.
abbrev client_weight : ClientPhase → Bytes → Bytes → ℕ
client_weight copying from w = 1 + 6 * length from + 3 * length w
client_weight (holding buf) from w = 2 + 4 * length buf + 6 * length from + 3 * length w
client_weight (exited ok) from w = 3 * length w

abbrev weight_of : Client → ℕ
weight_of c = client_weight c.phase c.stdin c.wire

abbrev clients_weight : (ℕ → Client) → ℕ → ℕ
clients_weight cs zero = 0
clients_weight cs (suc n) = clients_weight cs n + weight_of (cs n)

abbrev server_weight : ServerPhase → ℕ
server_weight accepting = 2
server_weight reading = 1
server_weight (writing buf) = 2 + length buf
server_weight stopped = 0

abbrev pub weight : System → ℕ
weight s = clients_weight s.clients s.arrived + server_weight s.server + 2 * (s.arrived - s.served)

readable_lem : (n : ℕ) (from : Bytes) → readable n from ≡ true → (1 ≤ n) × (n ≤ length from)
readable_lem n from h = ground arith

client_call-weight :
    (call : Call) (phase : ClientPhase) (c c' : Client)
    → client_call call phase c ≡ some c'
    → weight_of c' < client_weight phase c.stdin c.wire
client_call-weight (reads n) copying c c' e =
    let (ok, p) = if_some (readable n c.stdin) _ c' e in
    let fit = readable_lem n c.stdin ok in
    subst (λ d. weight_of d < client_weight copying c.stdin c.wire) p
      (omega (arith, fit, length-take n c.stdin (omega (arith, fit)), length-drop n c.stdin))
client_call-weight ends copying c c' e =
    let (_, p) = if_some (is_empty c.stdin) _ c' e in
    subst (λ d. weight_of d < client_weight copying c.stdin c.wire) p (omega arith)
client_call-weight read_fails copying c c' e =
    subst (λ d. weight_of d < client_weight copying c.stdin c.wire) (unwrap e) (omega arith)
client_call-weight writes (holding buf) c c' e =
    subst (λ d. weight_of d < client_weight (holding buf) c.stdin c.wire) (unwrap e)
      (omega (arith, length-append c.wire buf))
client_call-weight (writes_part n) (holding buf) c c' e =
    let (_, p) = if_some (ltb n (length buf)) _ c' e in
    subst (λ d. weight_of d < client_weight (holding buf) c.stdin c.wire) p
      (omega (arith, length-append c.wire (take n buf), length-take_le n buf))
client_call-weight _ phase c c' e = ground arith

clients_weight-above :
    (cs : ℕ → Client) (i n : ℕ) (c : Client)
    → n ≤ i
    → clients_weight (set_client i c cs) n ≡ clients_weight cs n
clients_weight-above cs i zero c h = refl
clients_weight-above cs i (suc n) c h =
    let other : (n == i) ≡ false = ground arith in
    rw (clients_weight-above cs i n c (omega arith), other) refl

clients_weight-set_client :
    (cs : ℕ → Client) (i n : ℕ) (c : Client)
    → i < n
    → clients_weight (set_client i c cs) n + weight_of (cs i) ≡ clients_weight cs n + weight_of c
clients_weight-set_client cs i zero c h = ground arith
clients_weight-set_client cs i (suc n) c h = elim (Bool-cases (n == i)) [
  | inl e ↦
      let same = (==_iff n i).0 e in
      rw (e, clients_weight-above cs i n c (omega arith), same) (omega arith)
  | inr e ↦ rw (e) (omega (arith, clients_weight-set_client cs i n c (ground arith)))
]

lighter_client :
    (cs : ℕ → Client) (i n : ℕ) (c : Client)
    → i < n
    → weight_of c < weight_of (cs i)
    → clients_weight (set_client i c cs) n < clients_weight cs n
lighter_client cs i n c h lt = omega (arith, clients_weight-set_client cs i n c h)

wire_weight :
    (phase : ClientPhase) (from v w : Bytes)
    → client_weight phase from v + 3 * length w ≡ client_weight phase from w + 3 * length v
wire_weight copying from v w = omega arith
wire_weight (holding buf) from v w = omega arith
wire_weight (exited ok) from v w = omega arith

server_call-weight :
    (call : Call) (phase : ServerPhase) (s t : System)
    → s.server ≡ phase
    → s.served < s.arrived
    → server_call call phase s ≡ some t
    → weight t < weight s
server_call-weight (reads n) reading s t p busy e =
    let c = s.clients s.served in
    let (ok, q) = if_some (readable n c.wire) _ t e in
    let fit = readable_lem n c.wire ok in
    let d = with_wire (drop n c.wire) c in
    let sum = clients_weight-set_client s.clients s.served s.arrived d busy in
    subst (λ u. weight u < weight s) q
      (rw (p) (
        omega (
          arith,
          sum,
          fit,
          wire_weight c.phase c.stdin (drop n c.wire) c.wire,
          length-take n c.wire (omega (arith, fit)),
          length-drop n c.wire,
        )))
server_call-weight ends reading s t p busy e =
    let (_, q) = if_some (at_end (s.clients s.served)) _ t e in
    subst (λ u. weight u < weight s) q (rw (p) (omega arith))
server_call-weight read_fails reading s t p busy e =
    subst (λ u. weight u < weight s) (unwrap e) (rw (p) (omega arith))
server_call-weight writes (writing buf) s t p busy e =
    subst (λ u. weight u < weight s) (unwrap e) (rw (p) (omega arith))
server_call-weight (writes_part n) (writing buf) s t p busy e =
    let (_, q) = if_some (ltb n (length buf)) _ t e in
    subst (λ u. weight u < weight s) q (rw (p) (omega arith))
server_call-weight _ phase s t p busy e = ground arith

-- A connection is in work.
abbrev pub is_busy : ServerPhase → Bool
is_busy reading = true
is_busy (writing buf) = true
is_busy _ = false

abbrev pub is_call : Event → Bool
is_call connects = false
is_call _ = true

pub Shows-Busy :
    (taken : ℕ → Bytes) (served arrived : ℕ) (phase : ServerPhase) (out : Bytes)
    → Shows taken served arrived phase out
    → is_busy phase ≡ true
    → served < arrived
Shows-Busy taken served arrived accepting out h b = ground arith
Shows-Busy taken served arrived reading out (_, lt, _) b = lt
Shows-Busy taken served arrived (writing buf) out (_, lt, _) b = lt
Shows-Busy taken served arrived stopped out h b = ground arith

phase_call :
    (call : Call) (phase : ServerPhase) (s t : System)
    → server_call call phase s ≡ some t
    → is_busy phase ≡ true
phase_call call accepting s t e = ground arith
phase_call call stopped s t e = ground arith
phase_call call reading s t e = refl
phase_call call (writing buf) s t e = refl

accept-weight :
    (phase : ServerPhase) (s t : System)
    → s.server ≡ phase
    → accept phase s ≡ some t
    → weight t < weight s
accept-weight accepting s t p e =
    let (_, q) = if_some (ltb s.served s.arrived) _ t e in
    subst (λ u. weight u < weight s) q (rw (p) (omega arith))
accept-weight _ s t p e = ground arith

fail_accept-weight :
    (phase : ServerPhase) (s t : System)
    → s.server ≡ phase
    → fail_accept phase s ≡ some t
    → weight t < weight s
fail_accept-weight accepting s t p e =
    subst (λ u. weight u < weight s) (unwrap e) (rw (p) (omega arith))
fail_accept-weight _ s t p e = ground arith

fail_close-weight :
    (phase : ServerPhase) (s t : System)
    → s.server ≡ phase
    → fail_close phase s ≡ some t
    → weight t < weight s
fail_close-weight reading s t p e =
    let (_, q) = if_some (at_end (s.clients s.served)) _ t e in
    subst (λ u. weight u < weight s) q (rw (p) (omega arith))
fail_close-weight _ s t p e = ground arith

pub step-weight :
    (files : ℕ → Bytes) (e : Event) (s t : System)
    → ServerInv files s
    → is_call e ≡ true
    → step e s ≡ some t
    → weight t < weight s
unfolding step client_step
step-weight files connects s t h c e = ground arith
step-weight files (by_client i call) s t h c e =
    let (d, p, rest) = bind_some (client_step call (s.clients i)) _ t e in
    let (here, q) = if_some (ltb i s.arrived) _ t rest in
    subst (λ u. weight u < weight s) q
      (omega (
        arith,
        lighter_client s.clients i s.arrived d (ltb→lt i s.arrived here)
            (client_call-weight call (s.clients i).phase (s.clients i) d p),
      ))
step-weight files accepts s t h c e = accept-weight s.server s t refl e
step-weight files (by_server call) s t (taken, h) c e =
    server_call-weight call s.server s t refl
      (Shows-Busy taken s.served s.arrived s.server s.out h.shows (phase_call call s.server s t e))
      e
step-weight files accept_fails s t h c e = fail_accept-weight s.server s t refl e
step-weight files close_fails s t h c e = fail_close-weight s.server s t refl e
