-- ===== src/ChildWaitParent/Waiting.antt =====
-- How every run of child_wait_parent.c ends.
use linux_programming.Base.{◌≡◌, ◌≢◌, ◌⊎◌, inl, inr, refl, true, false}
use mathlib.Core.Path.{subst}
use linux_programming.ChildWaitParent.{
  ParentAt, starting, waiting, awake, ended, ChildAt, working, signalled, suspended, finished,
  State, state, Step, parent_suspends, parent_wakes, parent_kills, child_kills, child_suspends,
  child_wakes, Steps, stop, more, forked,
}

data Waits : ParentAt → Type 0 where
  before_suspend : Waits starting
  in_suspend : Waits waiting

data Sent : ChildAt → Type 0 where
  has_sent : Sent signalled
  in_suspend : Sent suspended

-- The states that can be reached.
data Reached : State → Type 0 where
  early : {p : ParentAt} → Waits p → Reached (state p working false false 0)
  sent : {p : ParentAt} {c : ChildAt} → Waits p → Sent c → Reached (state p c true false 0)
  woken : {c : ChildAt} → Sent c → Reached (state awake c false false 0)
  over : {c : ChildAt} → Sent c → Reached (state ended c false false 1)

Step-Reached : {s t : State} → Step s t → Reached s → Reached t
Step-Reached (parent_suspends c csig psig n) (early w) = early in_suspend
Step-Reached (parent_suspends c csig psig n) (sent w h) = sent in_suspend h
Step-Reached (parent_wakes c psig n) (sent w h) = woken h
Step-Reached (parent_kills c csig psig n) (woken h) = over h
Step-Reached (child_kills p csig psig n) (early w) = sent w has_sent
Step-Reached (child_suspends p csig psig n) (sent w h) = sent w in_suspend
Step-Reached (child_suspends p csig psig n) (woken h) = woken in_suspend
Step-Reached (child_suspends p csig psig n) (over h) = over in_suspend
Step-Reached (parent_kills _ _ _ _) (early w) = elim w [ ]
Step-Reached (parent_kills c _ _ _) (sent w h) = elim w [ ]
Step-Reached (child_kills p _ _ _) (sent w h) = elim h [ ]
Step-Reached (child_kills _ _ _ _) (woken h) = elim h [ ]
Step-Reached (child_kills _ _ _ _) (over h) = elim h [ ]
Step-Reached (child_wakes p csig n) h = elim h [ ]

Steps-Reached : {s t : State} → Steps s t → Reached s → Reached t
Steps-Reached (stop s) h = h
Steps-Reached (more s t u one rest) h = Steps-Reached rest (Step-Reached one h)

abbrev pub stuck : State
stuck = state ended suspended false false 1

pub record CanStep (s : State) : Type 0 where
  pub next : State
  pub by : Step s next

abbrev can : {s t : State} → Step s t → CanStep s
can {s} {t} h = record { next = t; by = h }

Reached-CanStep : {s : State} → Reached s → CanStep s ⊎ (s ≡ stuck)
Reached-CanStep (early {p} w) = inl (can (child_kills p false false 0))
Reached-CanStep (sent {c = c} before_suspend h) = inl (can (parent_suspends c true false 0))
Reached-CanStep (sent {c = c} in_suspend h) = inl (can (parent_wakes c false 0))
Reached-CanStep (woken {c} h) = inl (can (parent_kills c false false 0))
Reached-CanStep (over has_sent) = inl (can (child_suspends ended false false 1))
Reached-CanStep (over in_suspend) = inr refl

abbrev pub child_of : State → ChildAt
child_of (state p c csig psig n) = c

data Unfinished : ChildAt → Type 0 where
  is_working : Unfinished working
  is_signalled : Unfinished signalled
  is_suspended : Unfinished suspended

Sent-Unfinished : {c : ChildAt} → Sent c → Unfinished c
Sent-Unfinished has_sent = is_signalled
Sent-Unfinished in_suspend = is_suspended

Reached-Unfinished : {s : State} → Reached s → Unfinished (child_of s)
Reached-Unfinished (early w) = is_working
Reached-Unfinished (sent w h) = Sent-Unfinished h
Reached-Unfinished (woken h) = Sent-Unfinished h
Reached-Unfinished (over h) = Sent-Unfinished h

Unfinished-finished : Unfinished finished → ⊥
Unfinished-finished h = elim h [ ]

-- Whatever the order of the steps: the child never ends, and a state that can be reached allows a step, or
-- it is the one in which the parent has ended, the child waits in sigsuspend with no signal pending, and
-- the parent of the parent has got the signal that the child waits for.
pub Steps-stuck : (t : State) → Steps forked t → (child_of t ≢ finished) × (CanStep t ⊎ (t ≡ stuck))
Steps-stuck t path =
    let reached = Steps-Reached path (early before_suspend) in
    (
      λ e. Unfinished-finished (subst Unfinished e (Reached-Unfinished reached)),
      Reached-CanStep reached,
    )
