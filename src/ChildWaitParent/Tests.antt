-- ===== src/ChildWaitParent/Tests.antt =====
-- A run in which the child signals before the parent waits.
use linux_programming.Base.{◌≡◌, ◌≢◌, ◌⊎◌, true, false}
use linux_programming.ChildWaitParent.{
  starting, awake, signalled, suspended, finished, parent_suspends, parent_wakes, parent_kills,
  child_kills, child_suspends, Steps, stop, more, forked,
}
use linux_programming.ChildWaitParent.Waiting.{stuck, CanStep, child_of, Steps-stuck}

early_signal : Steps forked stuck
early_signal = more _ _ _ (child_kills starting false false 0) (
    more _ _ _ (parent_suspends signalled true false 0) (
      more _ _ _ (parent_wakes signalled false 0) (
        more _ _ _ (child_suspends awake false false 0)
          (more _ _ _ (parent_kills suspended false false 0) (stop stuck)))))

Steps-stuck_example : (child_of stuck ≢ finished) × (CanStep stuck ⊎ (stuck ≡ stuck))
Steps-stuck_example = Steps-stuck stuck early_signal
