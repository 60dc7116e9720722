-- ===== src/OneTimeInit/Tests.antt =====
-- Two threads: the first calls init, the second waits for the mutex.
use linux_programming.Base.{◌≤◌, ◌≡◌, ◌⊎◌, true, false, [], ◌∷◌}
use linux_programming.OneTimeInit.{
  before, testing, initializing, unlocking, returned, control, lock, fires, inits, unlock, State,
  state, step, Steps, stop, more, begin,
}
use linux_programming.OneTimeInit.Once.{past, count, Steps-once}

abbrev first_returns : State
first_returns = state (control true false 1) (returned ∷ before ∷ [])

first_alone : Steps (begin 2) first_returns
first_alone = more _ _ _ (step [] (before ∷ []) before testing _ _ (lock false 0)) (
    more _ _ _ (step [] (before ∷ []) testing initializing _ _ (fires true 0)) (
      more _ _ _ (step [] (before ∷ []) initializing unlocking _ _ (inits true true 0)) (
        more _ _ _ (step [] (before ∷ []) unlocking returned _ _ (unlock true true 1))
          (stop first_returns))))

Steps-once_example :
    (first_returns.shared.inits ≤ 1)
    × ((count past first_returns.threads ≡ 0) ⊎ (first_returns.shared.inits ≡ 1))
Steps-once_example = Steps-once 2 first_returns first_alone
