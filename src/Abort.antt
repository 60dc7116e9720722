-- ===== src/Abort.antt =====
-- CH21-Signals_Signal_Hanlders/abort/abort.c: my_abort. The state is what the process has set for SIGABRT; the
-- handler that is installed, if one is, is a parameter.
pub mod Endings
mod Tests
use linux_programming.Base.{
  Bool, true, false, not, List, [], ◌∷◌, Option, none, some, if◌then◌else◌,
}

-- The disposition of SIGABRT: SIG_DFL, SIG_IGN, or a handler.
pub data Disposition : Type 0 where
  default ignored handled : Disposition

-- `flushed` says whether fflush(NULL) has been called behind what was
-- written.
pub record Process : Type 0 where
  pub disposition : Disposition
  pub blocked : Bool
  pub pending : Bool
  pub flushed : Bool

-- How a handler ends: it returns, with the disposition that it leaves, or it does not (exit, longjmp).
pub data Handled : Type 0 where
  returns : Disposition → Handled
  leaves : Handled

-- How my_abort ends, or how far a call in it comes: the process goes on, it is killed by SIGABRT, it exits
-- with EXIT_FAILURE, or the handler does not return.
pub data Outcome : Type 0 where
  goes_on : Process → Outcome
  killed : Bool → Outcome
  exits : Outcome
  left : Outcome

-- Which calls succeed: sigaction, sigprocmask, and the two of raise.
pub record Calls : Type 0 where
  pub sigaction : Bool
  pub sigprocmask : Bool
  pub raise1 : Bool
  pub raise2 : Bool

infixl 5 ◌then_do◌
abbrev pub ◌then_do◌ : Outcome → (Process → Outcome) → Outcome
goes_on p then_do k = k p
killed f then_do k = killed f
exits then_do k = exits
left then_do k = left

-- if (call == -1) { perror; exit }
abbrev pub or_exit : Bool → Outcome → Outcome
or_exit true o = o
or_exit false o = exits

module _ (handler : Process → Handled) where
  abbrev after_handler : Process → Handled → Outcome
  after_handler p (returns d) = goes_on (record p { disposition = d })
  after_handler p leaves = left

  -- The signal is delivered; the handler finds the process as it is.
  abbrev deliver : Disposition → Process → Outcome
  deliver default p = killed p.flushed
  deliver ignored p = goes_on p
  deliver handled p = after_handler p (handler p)

  -- raise(SIGABRT): in a process that blocks the signal it stays pending.
  unfoldable pub raise : Process → Outcome
  raise p = if p.blocked then goes_on (record p { pending = true }) else deliver p.disposition p

  -- sigprocmask(SIG_UNBLOCK, ...): a pending signal is delivered before the call returns.
  unfoldable pub unblock : Process → Outcome
  unblock p =
      let q = record p { blocked = false; pending = false } in
      if p.pending then deliver p.disposition q else goes_on q

  -- fflush(NULL) and signal(SIGABRT, SIG_DFL).
  abbrev pub reset : Process → Process
  reset p = record p { flushed = true; disposition = default }

  unfoldable pub my_abort : Calls → Process → Outcome
  unfolding raise unblock
  my_abort c p = or_exit c.sigaction (
      or_exit c.sigprocmask (unblock p) then_do λ q.
      or_exit c.raise1 (raise q) then_do λ r. or_exit c.raise2 (raise (reset r)))
