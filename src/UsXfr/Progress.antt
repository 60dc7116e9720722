-- ===== src/UsXfr/Progress.antt =====
-- The calls that are to come in a state of the programs of abstract_ns.
use linux_programming.Base.{
  ℕ, zero, suc, ◌+◌, ◌≤◌, ◌<◌, ◌≡◌, refl, ◌∙◌, inl, inr, ◌⊎◌, Bool, true, Bool-cases, ◌&&◌, List,
  [], ◌∷◌, some, arith, ltb, ltb→lt, bind_some, unwrap, length, All,
}
use mathlib.Core.Path.{subst}
use linux_programming.Base.Bytes.{Bytes}
use linux_programming.UsXfr.Inv.{Inv, ServerInv, start-Inv}
use linux_programming.UsXfr.Copies.{step-Inv, run-ServerInv}
use linux_programming.UsXfr.Steps.{
  ServerPhase, accepting, reading, stopped, writing, System, Event, step, run, start,
}
use linux_programming.UsXfr.Weight.{is_call, is_busy, weight, step-weight, Shows-Busy}
use linux_programming.UsXfr.Goes.{is_right, is_running, Goes, server-Goes}

abbrev are_calls : List Event → Bool
are_calls [] = true
are_calls (e ∷ es) = is_call e && are_calls es

are_calls_lem :
    (e : Event) (es : List Event)
    → are_calls (e ∷ es) ≡ true
    → (is_call e ≡ true) × (are_calls es ≡ true)
are_calls_lem e es h = ground arith

run-weight_lem :
    (files : ℕ → Bytes) (es : List Event) (s t : System)
    → ServerInv files s
    → are_calls es ≡ true
    → run es s ≡ some t
    → weight t + length es ≤ weight s
unfolding run
run-weight_lem files [] s t h calls e =
    subst (λ u. weight u + 0 ≤ weight s) (unwrap e) (omega arith)
run-weight_lem files (x ∷ es) s t (taken, h) all e =
    let (call, calls) = are_calls_lem x es all in
    let (u, p, rest) = bind_some (step x s) (run es) t e in
    omega (
      arith,
      step-weight files x s u (taken, h) call p,
      run-weight_lem files es u t (step-Inv files taken x s u p h) calls rest,
    )

-- In a state that the programs come to, they make at most `weight` further calls before the next client
-- connects, whatever these return.
pub run-weight :
    (files : ℕ → Bytes) (before es : List Event) (s t : System)
    → run before (start files) ≡ some s
    → are_calls es ≡ true
    → run es s ≡ some t
    → weight t + length es ≤ weight s
run-weight files before es s t r calls e =
    run-weight_lem files es s t
      (run-ServerInv files before (start files) s r ((λ i. []), start-Inv files)) calls e

-- Calls after which no client waits.
pub record Finishes (s : System) : Type 0 where
  pub calls : List Event
  pub final : System
  pub right : All (λ e. is_right e ≡ true) calls
  pub runs : run calls s ≡ some final
  pub idle : final.server ≡ accepting
  pub served_all : final.served ≡ s.arrived
  pub arrived_same : final.arrived ≡ s.arrived

serving :
    (files taken : ℕ → Bytes) (s : System)
    → Inv files taken s
    → is_busy s.server ≡ true
    → s.served < s.arrived
serving files taken s h busy = Shows-Busy taken s.served s.arrived s.server s.out h.shows busy

idle_or-Goes :
    (files taken : ℕ → Bytes) (s : System) (phase : ServerPhase)
    → Inv files taken s
    → s.server ≡ phase
    → is_running phase ≡ true
    → ((s.server ≡ accepting) × (s.served ≡ s.arrived)) ⊎ Goes s
idle_or-Goes files taken s accepting h p running = elim (Bool-cases (ltb s.served s.arrived)) [
  | inl lt ↦ inr (server-Goes s accepting p running (ltb→lt s.served s.arrived lt))
  | inr ge ↦ inl (p, ground (arith, h.in_order))
]
idle_or-Goes files taken s reading h p running =
    inr (server-Goes s reading p running (serving files taken s h (rw (p) refl)))
idle_or-Goes files taken s (writing buf) h p running =
    inr (server-Goes s (writing buf) p running (serving files taken s h (rw (p) refl)))
idle_or-Goes files taken s stopped h p running = ground arith

is_right-call : (e : Event) → is_right e ≡ true → is_call e ≡ true
is_right-call e h = ground arith

first_goes : (s : System) (g : Goes s) → Finishes g.after → Finishes s
unfolding run
first_goes s g f = record {
  calls = g.event ∷ f.calls;
  final = f.final;
  right = (g.right, f.right);
  runs = rw (g.does) f.runs;
  idle = f.idle;
  served_all = f.served_all ∙ g.arrived_same;
  arrived_same = f.arrived_same ∙ g.arrived_same;
}

lighter :
    (files taken : ℕ → Bytes) (s : System) (g : Goes s)
    → Inv files taken s
    → weight g.after < weight s
lighter files taken s g h =
    step-weight files g.event s g.after (taken, h) (is_right-call g.event g.right) g.does

has_weight : (s : System) → is_running s.server ≡ true → ¬ (weight s ≤ 0)
has_weight s running h = ground arith

finished : (s : System) → s.server ≡ accepting → s.served ≡ s.arrived → Finishes s
unfolding run
finished s idle all = record {
  calls = [];
  final = s;
  right = tt;
  runs = refl;
  idle = idle;
  served_all = all;
  arrived_same = refl;
}

goes_on :
    (n : ℕ) (files : ℕ → Bytes) (s : System)
    → ServerInv files s
    → is_running s.server ≡ true
    → weight s ≤ n
    → Finishes s
goes_on zero files s h running enough = elim (has_weight s running enough) [ ]
goes_on (suc n) files s (taken, h) running enough =
    elim (idle_or-Goes files taken s s.server h refl running) [
      | inl (idle, all) ↦ finished s idle all
      | inr g ↦ first_goes s g (
          goes_on n files g.after (step-Inv files taken g.event s g.after g.does h) g.running
            (omega (arith, enough, lighter files taken s g h)))
    ]

-- In a state that the programs come to, with a server that has not stopped, there are calls, none of which
-- fails or moves less than it should, after which the server is back at accept and has closed the
-- connection of every client that has connected.
pub run-Finishes :
    (files : ℕ → Bytes) (es : List Event) (s : System)
    → run es (start files) ≡ some s
    → is_running s.server ≡ true
    → Finishes s
run-Finishes files es s r running =
    goes_on (weight s) files s
      (run-ServerInv files es (start files) s r ((λ i. []), start-Inv files)) running (omega arith)
