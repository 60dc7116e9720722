-- ===== src/UsXfr/Goes.antt =====
-- A call that the programs of abstract_ns can make while a connection waits.
use linux_programming.Base.{
  ℕ, suc, ◌<◌, ◌≡◌, refl, inl, inr, ◌⊎◌, Bool, true, false, [], ◌∷◌, ◌++◌, some, arith, leb, lt→ltb,
  length, take, drop,
}
use linux_programming.Base.Bytes.{Bytes}
use linux_programming.UsXfr.Steps.{
  ClientPhase, copying, holding, exited, Client, reads, ends, writes, client_step, ServerPhase,
  accepting, reading, stopped, writing, System, Event, by_client, accepts, by_server, set_client,
  with_wire, step, run,
}

-- A call that neither fails nor moves less than it should.
abbrev pub is_right : Event → Bool
is_right accepts = true
is_right (by_client i (reads n)) = true
is_right (by_client i ends) = true
is_right (by_client i writes) = true
is_right (by_server (reads n)) = true
is_right (by_server ends) = true
is_right (by_server writes) = true
is_right _ = false

abbrev pub is_running : ServerPhase → Bool
is_running stopped = false
is_running _ = true

List-cases : (xs : Bytes) → (xs ≡ []) ⊎ ((b : ℕ) × (w : Bytes) × (xs ≡ b ∷ w))
List-cases [] = inl refl
List-cases (b ∷ w) = inr (b, w, refl)

pub record Goes (s : System) : Type 0 where
  pub event : Event
  pub after : System
  pub right : is_right event ≡ true
  pub does : step event s ≡ some after
  pub running : is_running after.server ≡ true
  pub arrived_same : after.arrived ≡ s.arrived

one_fits : (b : ℕ) (w : Bytes) → leb 1 (length (b ∷ w)) ≡ true
one_fits b w = ground arith

with_client : Client → System → System
with_client c s = record s { clients = set_client s.served c s.clients }

-- The client whose connection is served reads or writes, or exits.
client-Goes :
    (s : System) (phase : ClientPhase) (from : Bytes)
    → s.server ≡ reading
    → (s.clients s.served).phase ≡ phase
    → (s.clients s.served).stdin ≡ from
    → (s.clients s.served).wire ≡ []
    → s.served < s.arrived
    → Goes s
unfolding with_client step client_step
client-Goes s copying [] p q f e busy =
    let c = s.clients s.served in
    record {
      event = by_client s.served ends;
      after = with_client (record c { phase = exited true }) s;
      right = refl;
      does = rw (q, f, lt→ltb s.served s.arrived busy) refl;
      running = rw (p) refl;
      arrived_same = refl;
    }
client-Goes s copying (b ∷ from) p q f e busy =
    let c = s.clients s.served in
    record {
      event = by_client s.served (reads 1);
      after =
          with_client
            (record { stdin = drop 1 c.stdin; phase = holding (take 1 c.stdin); wire = c.wire }) s;
      right = refl;
      does = rw (q, f, lt→ltb s.served s.arrived busy) (rw (one_fits b from) refl);
      running = rw (p) refl;
      arrived_same = refl;
    }
client-Goes s (holding buf) from p q f e busy =
    let c = s.clients s.served in
    record {
      event = by_client s.served writes;
      after = with_client (record { stdin = c.stdin; phase = copying; wire = c.wire ++ buf }) s;
      right = refl;
      does = rw (q, lt→ltb s.served s.arrived busy) refl;
      running = rw (p) refl;
      arrived_same = refl;
    }
client-Goes s (exited ok) from p q f e busy = record {
  event = by_server ends;
  after = record s { served = suc s.served; server = accepting };
  right = refl;
  does = rw (p, e, q) refl;
  running = refl;
  arrived_same = refl;
}

pub server-Goes :
    (s : System) (phase : ServerPhase)
    → s.server ≡ phase
    → is_running phase ≡ true
    → s.served < s.arrived
    → Goes s
unfolding step
server-Goes s accepting p run busy = record {
  event = accepts;
  after = record s { server = reading };
  right = refl;
  does = rw (p, lt→ltb s.served s.arrived busy) refl;
  running = refl;
  arrived_same = refl;
}
server-Goes s (writing buf) p run busy = record {
  event = by_server writes;
  after = record s { server = reading; out = s.out ++ buf };
  right = refl;
  does = rw (p) refl;
  running = refl;
  arrived_same = refl;
}
server-Goes s reading p run busy = elim (List-cases (s.clients s.served).wire) [
  | inl e ↦ client-Goes s (s.clients s.served).phase (s.clients s.served).stdin p refl refl e busy
  | inr (b, w, e) ↦
      let c = s.clients s.served in
      record {
        event = by_server (reads 1);
        after = record s {
          clients = set_client s.served (with_wire (drop 1 c.wire) c) s.clients;
          server = writing (take 1 c.wire);
        };
        right = refl;
        does = rw (p, e) (rw (one_fits b w) refl);
        running = refl;
        arrived_same = refl;
      }
]
server-Goes s stopped p run busy = ground arith
