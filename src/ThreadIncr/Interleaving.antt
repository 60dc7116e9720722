-- ===== src/ThreadIncr/Interleaving.antt =====
-- What two threads of thread_incr.c can leave in the shared variable.
use linux_programming.Base.{ℕ, zero, suc, ◌+◌, ◌<◌, ◌≤◌, ◌^◌, ◌≡◌, arith}
use mathlib.Core.Path.{subst}
use linux_programming.ThreadIncr.{
  Phase, ready, loaded, Thread, thread, State, state, increment, Step, load1, store1, load2, store2,
  Steps, stop, more, begin, ended,
}

-- A loaded value is at most the number of increments that have been finished.
abbrev pub Within : ℕ → Phase → Type 0
Within b ready = Unit
Within b (loaded loc) = loc ≤ b

-- `m` increments in all: what has been finished bounds the variable and the loaded values.
abbrev pub Bounded : ℕ → State → Type 0
Bounded m s =
    (b : ℕ) × (b + s.t1.left + s.t2.left ≡ m)
    × (s.glob ≤ b)
    × Within b s.t1.phase
    × Within b s.t2.phase

Within-suc : (b : ℕ) (p : Phase) → Within b p → Within (b + 1) p
Within-suc b ready w = tt
Within-suc b (loaded loc) w = omega arith

Step-Bounded : (m : ℕ) (s u : State) → Step s u → Bounded m s → Bounded m u
Step-Bounded m s u (load1 g n t) (b, e, at_g, w1, w2) = (b, e, at_g, at_g, w2)
Step-Bounded m s u (store1 g n loc t) (b, e, at_g, w1, w2) =
    (b + 1, omega arith, omega arith, tt, Within-suc b t.phase w2)
Step-Bounded m s u (load2 g n t) (b, e, at_g, w1, w2) = (b, e, at_g, w1, at_g)
Step-Bounded m s u (store2 g n loc t) (b, e, at_g, w1, w2) =
    (b + 1, omega arith, omega arith, Within-suc b t.phase w1, tt)

Steps-Bounded : (m : ℕ) (s u : State) → Steps s u → Bounded m s → Bounded m u
Steps-Bounded m s u (stop r) bounded = bounded
Steps-Bounded m s v (more r u w step steps) bounded =
    Steps-Bounded m u v steps (Step-Bounded m s u step bounded)

-- However the two threads are interleaved, the variable ends with at most the number of increments.
pub ended-bound : (loops g : ℕ) → Steps (begin loops) (ended g) → g ≤ loops + loops
ended-bound loops g run =
    let (b, e, at_g, w1, w2) =
      Steps-Bounded (loops + loops) (begin loops) (ended g) run
        (0, omega arith, omega arith, tt, tt) in
    omega arith

-- One turn of both threads, in which both load before either stores.
lost_from :
    (n g : ℕ) → g + n < 2 ^ 32 → Steps (state g (thread n ready) (thread n ready)) (ended (g + n))
lost_from zero g h =
    let e : g ≡ g + 0 = omega arith in
    subst (λ k. Steps (state g (thread 0 ready) (thread 0 ready)) (ended k)) e (stop _)
lost_from (suc n) g h =
    let turn : Thread = thread n ready in
    let before : Thread = thread (suc n) ready in
    let during : Thread = thread (suc n) (loaded g) in
    let next : g + 1 ≡ increment g = omega arith in
    let whole : g + 1 + n ≡ g + suc n = omega arith in
    let rest =
      subst (λ k. Steps (state k turn turn) (ended (g + suc n))) next
        (subst (λ k. Steps (state (g + 1) turn turn) (ended k)) whole
          (lost_from n (g + 1) (omega arith))) in
    more _ _ _ (load1 g n before) (
      more _ _ _ (load2 g n during)
        (more _ _ _ (store1 g n g during) (more _ _ _ (store2 (increment g) n g turn) rest)))

-- Two threads that do `loops` increments each can leave `loops` in the variable: half of the increments
-- are lost.
pub ended-lost : (loops : ℕ) → loops < 2 ^ 32 → Steps (begin loops) (ended loops)
ended-lost loops h =
    let e : 0 + loops ≡ loops = omega arith in
    subst (λ k. Steps (begin loops) (ended k)) e (lost_from loops 0 (omega arith))
