-- ===== src/Abort/Endings.antt =====
-- The ways in which a call of my_abort can end.
use mathlib.Core.Path.{subst}
use linux_programming.Base.{
  ◌≡◌, refl, sym, inl, inr, ◌⊎◌, arith, if◌then◌else◌, Bool, true, false, ◌&&◌, Bool-cases,
}
use linux_programming.Abort.{
  Disposition, default, ignored, handled, Process, Handled, returns, leaves, Outcome, goes_on,
  killed, exits, left, Calls, ◌then_do◌, or_exit, deliver, raise, unblock, reset, my_abort,
}

abbrev pub all_succeed : Calls → Bool
all_succeed c = c.sigaction && c.sigprocmask && c.raise1 && c.raise2

-- SIGABRT ends the process, or a call fails, or the handler does not return.
pub data Ended (handler : Process → Handled) (c : Calls) : Outcome → Type 0 where
  by_signal : (flushed : Bool) → Ended handler c (killed flushed)
  by_failure : all_succeed c ≡ false → Ended handler c exits
  by_handler : (q : Process) → handler q ≡ leaves → Ended handler c left

-- Where it goes on, the signal is not blocked.
data Continues (handler : Process → Handled) (c : Calls) : Outcome → Type 0 where
  unblocked : (q : Process) → q.blocked ≡ false → Continues handler c (goes_on q)
  over : {o : Outcome} → Ended handler c o → Continues handler c o

then_do-Continues :
    (handler : Process → Handled) (c : Calls) (o : Outcome) (k : Process → Outcome)
    → Continues handler c o
    → ((q : Process) → q.blocked ≡ false → Continues handler c (k q))
    → Continues handler c (o then_do k)
then_do-Continues handler c _ k (unblocked q h) rest = rest q h
then_do-Continues handler c _ k (over (by_signal f)) rest = over (by_signal f)
then_do-Continues handler c _ k (over (by_failure h)) rest = over (by_failure h)
then_do-Continues handler c _ k (over (by_handler q h)) rest = over (by_handler q h)

then_do-Ended :
    (handler : Process → Handled) (c : Calls) (o : Outcome) (k : Process → Outcome)
    → Continues handler c o
    → ((q : Process) → q.blocked ≡ false → Ended handler c (k q))
    → Ended handler c (o then_do k)
then_do-Ended handler c _ k (unblocked q h) rest = rest q h
then_do-Ended handler c _ k (over (by_signal f)) rest = by_signal f
then_do-Ended handler c _ k (over (by_failure h)) rest = by_failure h
then_do-Ended handler c _ k (over (by_handler q h)) rest = by_handler q h

Handled-cases : (h : Handled) → ((d : Disposition) × (h ≡ returns d)) ⊎ (h ≡ leaves)
Handled-cases (returns d) = inl (d, refl)
Handled-cases leaves = inr refl

deliver-Continues :
    (handler : Process → Handled) (c : Calls) (d : Disposition) (p : Process)
    → p.blocked ≡ false
    → Continues handler c (deliver handler d p)
deliver-Continues handler c default p h = over (by_signal p.flushed)
deliver-Continues handler c ignored p h = unblocked p h
deliver-Continues handler c handled p h = elim (Handled-cases (handler p)) [
  | inl (d, e) ↦ rw e (unblocked (record p { disposition = d }) h)
  | inr e ↦ rw e (over (by_handler p e))
]

unblock-Continues :
    (handler : Process → Handled) (c : Calls) (p : Process)
    → Continues handler c (unblock handler p)
unfolding unblock
unblock-Continues handler c p = elim (Bool-cases p.pending) [
  | inl e ↦ rw e (
      deliver-Continues handler c p.disposition (record p { blocked = false; pending = false })
        refl)
  | inr e ↦ rw e (unblocked (record p { blocked = false; pending = false }) refl)
]

raise-Continues :
    (handler : Process → Handled) (c : Calls) (p : Process)
    → p.blocked ≡ false
    → Continues handler c (raise handler p)
unfolding raise
raise-Continues handler c p h =
    subst
      (λ b.
        Continues handler c
          (if b then goes_on (record p { pending = true }) else deliver handler p.disposition p))
      (sym h) (deliver-Continues handler c p.disposition p h)

raise_again-Ended :
    (handler : Process → Handled) (c : Calls) (p : Process)
    → p.blocked ≡ false
    → Ended handler c (raise handler (reset handler p))
unfolding raise
raise_again-Ended handler c p h =
    let q = reset handler p in
    subst (λ b. Ended handler c (if b then goes_on (record q { pending = true }) else killed true))
      (sym h) (by_signal true)

or_exit-Continues :
    (handler : Process → Handled) (c : Calls) (b : Bool) (o : Outcome)
    → (b ≡ false → all_succeed c ≡ false)
    → Continues handler c o
    → Continues handler c (or_exit b o)
or_exit-Continues handler c true o fails h = h
or_exit-Continues handler c false o fails h = over (by_failure (fails refl))

or_exit-Ended :
    (handler : Process → Handled) (c : Calls) (b : Bool) (o : Outcome)
    → (b ≡ false → all_succeed c ≡ false)
    → Ended handler c o
    → Ended handler c (or_exit b o)
or_exit-Ended handler c true o fails h = h
or_exit-Ended handler c false o fails h = by_failure (fails refl)

-- A call of my_abort does not come back to its caller: whatever the disposition of SIGABRT, whether it is
-- blocked or pending, and whatever the calls return and the handler does, SIGABRT ends the process, or
-- one of the four calls has failed and the process exits, or a start of the handler does not return.
pub my_abort-Ended :
    (handler : Process → Handled) (c : Calls) (p : Process) → Ended handler c (my_abort handler c p)
unfolding my_abort
my_abort-Ended handler c p =
    or_exit-Ended handler c c.sigaction _ (λ e. ground (arith, e))
      (then_do-Ended handler c _ _
        (or_exit-Continues handler c c.sigprocmask _ (λ e. ground (arith, e))
          (unblock-Continues handler c p))
        λ q h.
          then_do-Ended handler c _ _
            (or_exit-Continues handler c c.raise1 _ (λ e. ground (arith, e))
              (raise-Continues handler c q h))
            λ r h'.
              or_exit-Ended handler c c.raise2 _ (λ e. ground (arith, e))
                (raise_again-Ended handler c r h'))
