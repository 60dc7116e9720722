-- ===== src/Talk/Tests.antt =====
-- Two lines and one that is too long, typed to a terminal of talk.c.
use linux_programming.Base.{
  ◌≡◌, ◌≤◌, refl, true, List, [], ◌∷◌, ◌++◌, some, none, max, arith, length,
}
use linux_programming.Base.Int.{pos}
use linux_programming.Base.Bytes.{codes}
use linux_programming.Libc.Str.{upto}
use linux_programming.Talk.{Calls, set_up, State, Event, typed, receives, message, step, run}
use linux_programming.Talk.Sent.{sent, prints}
use linux_programming.Talk.Delivery.{run-delivers}

abbrev calls : Calls
calls = record {
  malloc = true;
  mq_open_ours = true;
  pthread_create = true;
  scanf = some (pos 0);
  mq_open_theirs = true;
}

no_pid : set_up (pos 7) calls ≡ none
unfolding set_up
no_pid = refl

abbrev talked : List Event
talked = typed (codes "one\n") ∷ typed (codes "two\n") ∷ receives ∷ []

abbrev final : State
final = record {
  mq_msg_len = 512;
  queue = message 512 (codes "two\n") ∷ [];
  shown = codes "\n[Received]: one\n";
  sending = true;
  receiving = true;
}

run-delivers_example :
    (final.shown ++ prints final.queue ≡ prints (sent true talked)) × (length final.queue ≤ 8)
unfolding run step upto
run-delivers_example = run-delivers max talked final (λ size need. omega arith) refl
