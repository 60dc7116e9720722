-- ===== src/OneTimeInit.antt =====
-- CH31-Threads_Thread_Safety_and_Per_Thread_Storage/one_time_init/one_time_init.c: threads that call one_time_init with
-- one control structure, interleaved in any way. The mutex is that of POSIX: a thread gets it when no
-- thread has it.
pub mod Once
mod Tests
use linux_programming.Base.{ℕ, suc, Bool, true, false, List, [], ◌∷◌, ◌++◌, replicate}

-- Where a thread is: before the lock, before the test, before the call of init, before the unlock, or back
-- from one_time_init.
pub data Place : Type 0 where
  before testing initializing unlocking returned : Place

-- The control structure, with how many calls of init have ended.
pub record Control : Type 0 where
  pub fired : Bool
  pub locked : Bool
  pub inits : ℕ

abbrev pub control : Bool → Bool → ℕ → Control
control f l n = record { fired = f; locked = l; inits = n }

-- The steps of one thread.
pub data Move : Control → Place → Control → Place → Type 0 where
  lock : (f : Bool) (n : ℕ) → Move (control f false n) before (control f true n) testing
  passes : (l : Bool) (n : ℕ) → Move (control true l n) testing (control true l n) unlocking
  fires : (l : Bool) (n : ℕ) → Move (control false l n) testing (control true l n) initializing
  inits : (f l : Bool) (n : ℕ) → Move (control f l n) initializing (control f l (suc n)) unlocking
  unlock : (f l : Bool) (n : ℕ) → Move (control f l n) unlocking (control f false n) returned

pub record State : Type 0 where
  pub shared : Control
  pub threads : List Place

abbrev pub state : Control → List Place → State
state c ts = record { shared = c; threads = ts }

-- A step of one of the threads.
pub data Step : State → State → Type 0 where
  step :
      (xs ys : List Place) (p q : Place) (c d : Control)
      → Move c p d q
      → Step (state c (xs ++ p ∷ ys)) (state d (xs ++ q ∷ ys))

pub data Steps : State → State → Type 0 where
  stop : (s : State) → Steps s s
  more : (s u v : State) → Step s u → Steps u v → Steps s v

-- `n` threads that call one_time_init.
abbrev pub begin : ℕ → State
begin n = state (control false false 0) (replicate n before)
