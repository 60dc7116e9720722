-- ===== src/UsXfr/Copies.antt =====
-- The calls of the server of abstract_ns, on what holds between two system calls.
use linux_programming.Base.{
  ℕ, suc, ◌<◌, ◌≡◌, refl, sym, ap, ◌∙◌, inl, inr, true, List, [], ◌∷◌, ◌++◌, append_assoc,
  append-nil, some, arith, ltb, ltb→lt, ◌==◌, ==_iff, Bool-cases, unwrap, if_some, bind_some,
  length, take, drop, take-drop,
}
use mathlib.Core.Path.{subst}
use linux_programming.Base.Bytes.{Bytes}
use linux_programming.UsXfr.Steps.{
  Call, reads, ends, writes, writes_part, read_fails, readable, client_step, ServerPhase, accepting,
  reading, stopped, writing, System, Event, connects, by_client, accepts, by_server, accept_fails,
  close_fails, set_client, with_wire, at_end, server_call, with_server, accept, fail_accept,
  fail_close, step, run,
}
use linux_programming.UsXfr.Tables.{
  upto, set_taken, set_client-elim, set_both-elim, upto-set_taken, set_taken_self,
  set_taken-Nothing,
}
use linux_programming.UsXfr.Sends.{Sends, with_wire-Sends}
use linux_programming.UsXfr.Inv.{Shows, Inv, ServerInv, connects-Inv, by_client-Inv}

server_reads-Inv :
    (files taken : ℕ → Bytes) (s : System) (n : ℕ)
    → s.server ≡ reading
    → Inv files taken s
    → ServerInv files (
        let c = s.clients s.served in
        record s {
          clients = set_client s.served (with_wire (drop n c.wire) c) s.clients;
          server = writing (take n c.wire);
        })
server_reads-Inv files taken s n e h =
    let c = s.clients s.served in
    let d = with_wire (drop n c.wire) c in
    let b = taken s.served ++ take n c.wire in
    let (shown, busy, nothing) = subst (λ p. Shows taken s.served s.arrived p s.out) e h.shows in
    (
      set_taken s.served b taken,
      record {
        sends =
            set_both-elim (λ k. Sends (files k)) s.served b d taken s.clients
              (with_wire-Sends (files s.served) (taken s.served) n c.phase c.stdin c.wire
                (h.sends s.served))
              h.sends;
        closed =
            set_client-elim (λ k x. k < s.served → at_end x ≡ true) s.served d s.clients
              (λ lt. ground arith) h.closed;
        in_order = h.in_order;
        shows = (
          (
            taken s.served,
            shown
                ∙ ap (λ x. x ++ taken s.served)
                    (sym (upto-set_taken s.served b taken s.served (omega arith))),
            sym (set_taken_self s.served b taken),
          ),
          busy,
          set_taken-Nothing s.served (suc s.served) b taken (omega arith) nothing,
        );
      },
    )

with_server-Inv :
    (files taken : ℕ → Bytes) (s : System) (phase : ServerPhase) (out : Bytes)
    → Inv files taken s
    → Shows taken s.served s.arrived phase out
    → ServerInv files (record s { server = phase; out = out })
with_server-Inv files taken s phase out h shows =
    (taken, record { sends = h.sends; closed = h.closed; in_order = h.in_order; shows = shows })

server_ends-Inv :
    (files taken : ℕ → Bytes) (s : System)
    → s.server ≡ reading
    → at_end (s.clients s.served) ≡ true
    → Inv files taken s
    → ServerInv files (record s { served = suc s.served; server = accepting })
server_ends-Inv files taken s e over h =
    let (shown, busy, nothing) = subst (λ p. Shows taken s.served s.arrived p s.out) e h.shows in
    (
      taken,
      record {
        sends = h.sends;
        closed = λ i lt. below i lt;
        in_order = omega arith;
        shows = (shown, nothing);
      },
    )
  where
    below : (i : ℕ) → i < suc s.served → at_end (s.clients i) ≡ true
    below i lt = elim (Bool-cases (i == s.served)) [
      | inl same ↦ subst (λ k. at_end (s.clients k) ≡ true) (sym ((==_iff i s.served).0 same)) over
      | inr other ↦ h.closed i (ground arith)
    ]

abbrev showing :
    (taken : ℕ → Bytes) (s : System) (phase : ServerPhase)
    → s.server ≡ phase
    → Shows taken s.served s.arrived s.server s.out
    → Shows taken s.served s.arrived phase s.out
showing taken s phase p h = subst (λ q. Shows taken s.served s.arrived q s.out) p h

-- A server that has written all that it has read, and stops.
stops-Inv :
    (files taken : ℕ → Bytes) (s : System)
    → s.server ≡ reading
    → Inv files taken s
    → ServerInv files (with_server stopped s)
stops-Inv files taken s p h =
    let (shown, _, nothing) = showing taken s reading p h.shows in
    with_server-Inv files taken s stopped s.out h
      ([], (taken s.served, shown, append-nil (taken s.served)), nothing)

server_call-Inv :
    (files taken : ℕ → Bytes) (call : Call) (phase : ServerPhase) (s t : System)
    → s.server ≡ phase
    → server_call call phase s ≡ some t
    → Inv files taken s
    → ServerInv files t
server_call-Inv files taken (reads n) reading s t p e h =
    let (_, q) = if_some (readable n (s.clients s.served).wire) _ t e in
    subst (ServerInv files) q (server_reads-Inv files taken s n p h)
server_call-Inv files taken ends reading s t p e h =
    let (over, q) = if_some (at_end (s.clients s.served)) _ t e in
    subst (ServerInv files) q (server_ends-Inv files taken s p over h)
server_call-Inv files taken read_fails reading s t p e h =
    subst (ServerInv files) (unwrap e) (stops-Inv files taken s p h)
server_call-Inv files taken writes (writing buf) s t p e h =
    let ((part, shown, all), busy, nothing) = showing taken s (writing buf) p h.shows in
    subst (ServerInv files) (unwrap e) (
      with_server-Inv files taken s reading (s.out ++ buf) h (
        ap (λ x. x ++ buf) shown
            ∙ append_assoc (upto taken s.served) part buf
            ∙ ap (λ x. upto taken s.served ++ x) all,
        busy,
        nothing,
      ))
server_call-Inv files taken (writes_part n) (writing buf) s t p e h =
    let (_, q) = if_some (ltb n (length buf)) _ t e in
    let ((part, shown, all), _, nothing) = showing taken s (writing buf) p h.shows in
    subst (ServerInv files) q (
      with_server-Inv files taken s stopped (s.out ++ take n buf) h (
        drop n buf,
        (
          part ++ take n buf,
          ap (λ x. x ++ take n buf) shown ∙ append_assoc (upto taken s.served) part (take n buf),
          rw (append_assoc part (take n buf) (drop n buf), take-drop n buf) all,
        ),
        nothing,
      ))
server_call-Inv files taken _ phase s t p e h = ground arith

accept-Inv :
    (files taken : ℕ → Bytes) (phase : ServerPhase) (s t : System)
    → s.server ≡ phase
    → accept phase s ≡ some t
    → Inv files taken s
    → ServerInv files t
accept-Inv files taken accepting s t p e h =
    let (waits, q) = if_some (ltb s.served s.arrived) _ t e in
    let (shown, nothing) = showing taken s accepting p h.shows in
    subst (ServerInv files) q (
      with_server-Inv files taken s reading s.out h (
        rw (nothing s.served (omega arith), append-nil (upto taken s.served)) shown,
        ltb→lt s.served s.arrived waits,
        λ i le. nothing i (omega arith),
      ))
accept-Inv files taken _ s t p e h = ground arith

fail_accept-Inv :
    (files taken : ℕ → Bytes) (phase : ServerPhase) (s t : System)
    → s.server ≡ phase
    → fail_accept phase s ≡ some t
    → Inv files taken s
    → ServerInv files t
fail_accept-Inv files taken accepting s t p e h =
    let (shown, nothing) = showing taken s accepting p h.shows in
    subst (ServerInv files) (unwrap e) (
      with_server-Inv files taken s stopped s.out h (
        taken s.served,
        ([], shown ∙ sym (append-nil (upto taken s.served)), refl),
        λ i le. nothing i (omega arith),
      ))
fail_accept-Inv files taken _ s t p e h = ground arith

fail_close-Inv :
    (files taken : ℕ → Bytes) (phase : ServerPhase) (s t : System)
    → s.server ≡ phase
    → fail_close phase s ≡ some t
    → Inv files taken s
    → ServerInv files t
fail_close-Inv files taken reading s t p e h =
    let (_, q) = if_some (at_end (s.clients s.served)) _ t e in
    subst (ServerInv files) q (stops-Inv files taken s p h)
fail_close-Inv files taken _ s t p e h = ground arith

pub step-Inv :
    (files taken : ℕ → Bytes) (e : Event) (s t : System)
    → step e s ≡ some t
    → Inv files taken s
    → ServerInv files t
unfolding step
step-Inv files taken connects s t e h =
    subst (ServerInv files) (unwrap e) (taken, connects-Inv files taken s h)
step-Inv files taken (by_client i call) s t e h =
    let (c, p, rest) = bind_some (client_step call (s.clients i)) _ t e in
    let (_, q) = if_some (ltb i s.arrived) _ t rest in
    subst (ServerInv files) q (taken, by_client-Inv files taken s i call c p h)
step-Inv files taken accepts s t e h = accept-Inv files taken s.server s t refl e h
step-Inv files taken (by_server call) s t e h =
    server_call-Inv files taken call s.server s t refl e h
step-Inv files taken accept_fails s t e h = fail_accept-Inv files taken s.server s t refl e h
step-Inv files taken close_fails s t e h = fail_close-Inv files taken s.server s t refl e h

pub run-ServerInv :
    (files : ℕ → Bytes) (es : List Event) (s t : System)
    → run es s ≡ some t
    → ServerInv files s
    → ServerInv files t
unfolding run
run-ServerInv files [] s t e h = subst (ServerInv files) (unwrap e) h
run-ServerInv files (x ∷ es) s t e (taken, h) =
    let (u, p, rest) = bind_some (step x s) (run es) t e in
    run-ServerInv files es u t rest (step-Inv files taken x s u p h)
