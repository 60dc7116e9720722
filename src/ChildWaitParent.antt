-- ===== src/ChildWaitParent.antt =====
-- CH24-Process_Creation/child_wait_parent/child_wait_parent.c: a parent and its child that wait for each other with
-- signals. Both signals are blocked except in sigsuspend, so a signal that comes early stays pending;
-- sigsuspend returns when its signal is pending, behind the handler.
pub mod Waiting
mod Tests
use linux_programming.Base.{ℕ, Bool, true, false, ◌+◌}

-- The parent: before sigsuspend, in it, behind it, and at its end.
pub data ParentAt : Type 0 where
  starting waiting awake ended : ParentAt

-- The child: before its kill, before sigsuspend, in it, and at its end.
pub data ChildAt : Type 0 where
  working signalled suspended finished : ChildAt

-- The two processes, whether SYNC_CSIG is pending for the parent and SYNC_PSIG for the child, and how many
-- signals SYNC_PSIG the parent of the parent has got.
pub data State : Type 0 where
  state : ParentAt → ChildAt → Bool → Bool → ℕ → State

-- The process that getppid gives in the parent.
pub data Target : Type 0 where
  the_child grandparent : Target

abbrev pub getppid_in_parent : Target
getppid_in_parent = grandparent

abbrev pub signal : Target → ParentAt → ChildAt → Bool → Bool → ℕ → State
signal the_child p c csig psig n = state p c csig true n
signal grandparent p c csig psig n = state p c csig psig (n + 1)

pub data Step : State → State → Type 0 where
  parent_suspends :
      (c : ChildAt) (csig psig : Bool) (n : ℕ)
      → Step (state starting c csig psig n) (state waiting c csig psig n)
  parent_wakes :
      (c : ChildAt) (psig : Bool) (n : ℕ)
      → Step (state waiting c true psig n) (state awake c false psig n)
  parent_kills :
      (c : ChildAt) (csig psig : Bool) (n : ℕ)
      → Step (state awake c csig psig n) (signal getppid_in_parent ended c csig psig n)
  child_kills :
      (p : ParentAt) (csig psig : Bool) (n : ℕ)
      → Step (state p working csig psig n) (state p signalled true psig n)
  child_suspends :
      (p : ParentAt) (csig psig : Bool) (n : ℕ)
      → Step (state p signalled csig psig n) (state p suspended csig psig n)
  child_wakes :
      (p : ParentAt) (csig : Bool) (n : ℕ)
      → Step (state p suspended csig true n) (state p finished csig false n)

pub data Steps : State → State → Type 0 where
  stop : (s : State) → Steps s s
  more : (s t u : State) → Step s t → Steps t u → Steps s u

-- Behind fork.
abbrev pub forked : State
forked = state starting working false false 0
