-- ===== src/Abort/Tests.antt =====
-- my_abort in a process with a handler that returns, and with SIGABRT blocked and pending.
use linux_programming.Base.{◌≡◌, refl, true, false}
use linux_programming.Abort.{
  handled, ignored, Process, Handled, returns, leaves, killed, left, Calls, raise, unblock,
  my_abort,
}
use linux_programming.Abort.Endings.{Ended, my_abort-Ended}

abbrev calls : Calls
calls = record { sigaction = true; sigprocmask = true; raise1 = true; raise2 = true }

abbrev process : Process
process = record { disposition = handled; blocked = true; pending = true; flushed = false }

abbrev handler : Process → Handled
handler p = returns ignored

-- The handler is started at the unblocking, and the two calls of raise follow.
flushes : my_abort handler calls process ≡ killed true
unfolding my_abort raise unblock
flushes = refl

jumps : my_abort (λ p. leaves) calls process ≡ left
unfolding my_abort raise unblock
jumps = refl

my_abort-Ended_example : Ended handler calls (my_abort handler calls process)
my_abort-Ended_example = my_abort-Ended handler calls process
