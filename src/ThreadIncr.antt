-- ===== src/ThreadIncr.antt =====
-- CH30-Threads_Thread_Synchronization/Exercise_30-1/thread_incr.c: two threads that increment a shared
-- variable without a lock. A step is one load or one store of `glob` by one thread.
pub mod Interleaving
pub mod Start
pub mod Argument
mod Tests
use linux_programming.Base.{ℕ, zero, suc, ◌+◌, ◌%◌, ◌^◌}

-- Where a thread is in the body of its loop: before `loc = glob`, or before `glob = loc`, with the value
-- that has been loaded.
pub data Phase : Type 0 where
  ready : Phase
  loaded : ℕ → Phase

-- `left` is how many turns of the loop a thread has not finished.
pub record Thread : Type 0 where
  pub left : ℕ
  pub phase : Phase

abbrev pub thread : ℕ → Phase → Thread
thread n p = record { left = n; phase = p }

pub record State : Type 0 where
  pub glob : ℕ
  pub t1 : Thread
  pub t2 : Thread

abbrev pub state : ℕ → Thread → Thread → State
state g t1 t2 = record { glob = g; t1 = t1; t2 = t2 }

-- `loc++`, on the bits of an int.
abbrev pub increment : ℕ → ℕ
increment loc = (loc + 1) % 2 ^ 32

pub data Step : State → State → Type 0 where
  load1 :
      (g n : ℕ) (t : Thread)
      → Step (state g (thread (suc n) ready) t) (state g (thread (suc n) (loaded g)) t)
  store1 :
      (g n loc : ℕ) (t : Thread)
      → Step (state g (thread (suc n) (loaded loc)) t) (state (increment loc) (thread n ready) t)
  load2 :
      (g n : ℕ) (t : Thread)
      → Step (state g t (thread (suc n) ready)) (state g t (thread (suc n) (loaded g)))
  store2 :
      (g n loc : ℕ) (t : Thread)
      → Step (state g t (thread (suc n) (loaded loc))) (state (increment loc) t (thread n ready))

pub data Steps : State → State → Type 0 where
  stop : (s : State) → Steps s s
  more : (s u v : State) → Step s u → Steps u v → Steps s v

-- After the calls of pthread_create, and after those of pthread_join, of `glob`.
abbrev pub begin : ℕ → State
begin loops = state 0 (thread loops ready) (thread loops ready)

abbrev pub ended : ℕ → State
ended g = state g (thread zero ready) (thread zero ready)
