-- ===== src/UsXfr/Inv.antt =====
-- What holds between two system calls of the programs of abstract_ns; connect and the calls of a client.
use linux_programming.Base.{ℕ, suc, ◌≤◌, ◌<◌, ◌≡◌, refl, true, false, [], ◌++◌, some, arith}
use linux_programming.Base.Bytes.{Bytes}
use linux_programming.UsXfr.Steps.{
  Client, Call, client_step, ServerPhase, accepting, reading, stopped, writing, System, set_client,
  has_exited, at_end, start,
}
use linux_programming.UsXfr.Tables.{upto, Nothing, set_client-elim}
use linux_programming.UsXfr.Sends.{Sends, client_call-Sends, client_call-at_end}

-- The output is what has been read of the clients before, and of this one all but `left`.
abbrev pub AllBut : (ℕ → Bytes) → ℕ → Bytes → Bytes → Type 0
AllBut taken served out left =
    (part : Bytes) × (out ≡ upto taken served ++ part) × (part ++ left ≡ taken served)

abbrev pub Shows : (ℕ → Bytes) → ℕ → ℕ → ServerPhase → Bytes → Type 0
Shows taken served arrived accepting out = (out ≡ upto taken served) × Nothing taken served
Shows taken served arrived reading out =
    (out ≡ upto taken (suc served)) × (served < arrived) × Nothing taken (suc served)
Shows taken served arrived (writing buf) out =
    AllBut taken served out buf × (served < arrived) × Nothing taken (suc served)
Shows taken served arrived stopped out =
    (left : Bytes) × AllBut taken served out left × Nothing taken (suc served)

pub record Inv (files taken : ℕ → Bytes) (s : System) : Type 0 where
  pub sends : (i : ℕ) → Sends (files i) (taken i) (s.clients i)
  pub closed : (i : ℕ) → i < s.served → at_end (s.clients i) ≡ true
  pub in_order : s.served ≤ s.arrived
  pub shows : Shows taken s.served s.arrived s.server s.out

pub start-Inv : (files : ℕ → Bytes) → Inv files (λ i. []) (start files)
start-Inv files = record {
  sends = λ i. refl;
  closed = λ i h. ground arith;
  in_order = omega arith;
  shows = (refl, λ i h. refl);
}

later_arrival :
    (taken : ℕ → Bytes) (served arrived : ℕ) (phase : ServerPhase) (out : Bytes)
    → Shows taken served arrived phase out
    → Shows taken served (suc arrived) phase out
later_arrival taken served arrived accepting out h = h
later_arrival taken served arrived reading out (a, b, c) = (a, omega arith, c)
later_arrival taken served arrived (writing buf) out (a, b, c) = (a, omega arith, c)
later_arrival taken served arrived stopped out h = h

abbrev pub ServerInv : (ℕ → Bytes) → System → Type 0
ServerInv files s = (taken : ℕ → Bytes) × Inv files taken s

not_at_end : (c d : Client) → has_exited c.phase ≡ false → at_end c ≡ true → at_end d ≡ true
not_at_end c d running over = ground arith

pub connects-Inv :
    (files taken : ℕ → Bytes) (s : System)
    → Inv files taken s
    → Inv files taken (record s { arrived = suc s.arrived })
connects-Inv files taken s h = record {
  sends = h.sends;
  closed = h.closed;
  in_order = omega (arith, h.in_order);
  shows = later_arrival taken s.served s.arrived s.server s.out h.shows;
}

pub by_client-Inv :
    (files taken : ℕ → Bytes) (s : System) (i : ℕ) (call : Call) (c : Client)
    → client_step call (s.clients i) ≡ some c
    → Inv files taken s
    → Inv files taken (record s { clients = set_client i c s.clients })
unfolding client_step
by_client-Inv files taken s i call c e h = record {
  sends =
      set_client-elim (λ k. Sends (files k) (taken k)) i c s.clients
        (client_call-Sends (files i) (taken i) call (s.clients i) c (s.clients i).phase (h.sends i)
          e)
        h.sends;
  closed =
      set_client-elim (λ k d. k < s.served → at_end d ≡ true) i c s.clients
        (λ lt.
          not_at_end (s.clients i) c (client_call-at_end call (s.clients i) c (s.clients i).phase e)
            (h.closed i lt))
        h.closed;
  in_order = h.in_order;
  shows = h.shows;
}
