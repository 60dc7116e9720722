-- ===== src/OneTimeInit/Once.antt =====
-- How often one_time_init.c calls init, and when.
use linux_programming.Base.{
  ℕ, zero, suc, ◌+◌, ◌≤◌, ◌≡◌, ◌⊎◌, inl, inr, refl, Bool, true, false, List, [], ◌∷◌, ◌++◌, arith,
  if◌then◌else◌, replicate,
}
use linux_programming.OneTimeInit.{
  Place, before, testing, initializing, unlocking, returned, Control, Move, lock, passes, fires,
  inits, unlock, State, state, Step, step, Steps, stop, more, begin,
}

abbrev bit : Bool → ℕ
bit b = if b then 1 else 0

abbrev holds : Place → Bool
holds before = false
holds testing = true
holds initializing = true
holds unlocking = true
holds returned = false

abbrev calling : Place → Bool
calling before = false
calling testing = false
calling initializing = true
calling unlocking = false
calling returned = false

-- A thread that has gone past the test and, if it was its turn, past the call of init.
abbrev pub past : Place → Bool
past before = false
past testing = false
past initializing = false
past unlocking = true
past returned = true

abbrev pub count : (Place → Bool) → List Place → ℕ
count q [] = 0
count q (p ∷ ps) = bit (q p) + count q ps

count-append :
    (q : Place → Bool) (xs ys : List Place) → count q (xs ++ ys) ≡ count q xs + count q ys
count-append q [] ys = omega arith
count-append q (x ∷ xs) ys = omega (arith, count-append q xs ys)

-- The threads that hold the mutex, the calls of init that are running and have ended, and what is true as
-- soon as a thread is past the test.
unfoldable Orderly : State → Type 0
Orderly s =
    (count holds s.threads ≡ bit s.shared.locked)
    × (s.shared.inits + count calling s.threads ≡ bit s.shared.fired)
    × ((count past s.threads ≡ 0) ⊎ (s.shared.inits ≡ 1))

-- A thread among the others, by the counts of the others.
unfoldable OrderlyAt : Control → Place → ℕ → ℕ → ℕ → Type 0
OrderlyAt c p h k d =
    (h + bit (holds p) ≡ bit c.locked)
    × (c.inits + (k + bit (calling p)) ≡ bit c.fired)
    × ((d + bit (past p) ≡ 0) ⊎ (c.inits ≡ 1))

bit_le : (b : Bool) → bit b ≤ 1
bit_le true = omega arith
bit_le false = omega arith

Move-OrderlyAt :
    {c d : Control} {p q : Place} (h k n : ℕ)
    → k ≤ h
    → Move c p d q
    → OrderlyAt c p h k n
    → OrderlyAt d q h k n
unfolding OrderlyAt
Move-OrderlyAt h k n less (lock f i) (a, b, e) = (omega arith, omega arith, e)
Move-OrderlyAt h k n less (passes l i) (a, b, e) =
    (omega arith, omega arith, inr (omega (arith, bit_le l)))
Move-OrderlyAt h k n less (fires l i) (a, b, e) = (omega arith, omega arith, e)
Move-OrderlyAt h k n less (inits f l i) (a, b, e) =
    (omega arith, omega arith, inr (omega (arith, bit_le f)))
Move-OrderlyAt h k n less (unlock f l i) (a, b, e) = (omega (arith, bit_le l), omega arith, e)

calling_le_holds : (ps : List Place) → count calling ps ≤ count holds ps
calling_le_holds [] = omega arith
calling_le_holds (before ∷ ps) = omega (arith, calling_le_holds ps)
calling_le_holds (testing ∷ ps) = omega (arith, calling_le_holds ps)
calling_le_holds (initializing ∷ ps) = omega (arith, calling_le_holds ps)
calling_le_holds (unlocking ∷ ps) = omega (arith, calling_le_holds ps)
calling_le_holds (returned ∷ ps) = omega (arith, calling_le_holds ps)

-- The threads but one.
abbrev others : (Place → Bool) → List Place → List Place → ℕ
others q xs ys = count q xs + count q ys

count-others :
    (q : Place → Bool) (xs ys : List Place) (p : Place)
    → count q (xs ++ p ∷ ys) ≡ others q xs ys + bit (q p)
count-others q xs ys p = omega (arith, count-append q xs (p ∷ ys))

Orderly-OrderlyAt :
    (c : Control) (xs ys : List Place) (p : Place)
    → Orderly (state c (xs ++ p ∷ ys))
    → OrderlyAt c p (others holds xs ys) (others calling xs ys) (others past xs ys)
unfolding Orderly OrderlyAt
Orderly-OrderlyAt c xs ys p (a, b, e) =
    let eh = count-others holds xs ys p in
    let ek = count-others calling xs ys p in
    let en = count-others past xs ys p in
    (omega arith, omega arith, elim e [ inl z ↦ inl (omega arith) | inr o ↦ inr o ])

OrderlyAt-Orderly :
    (c : Control) (xs ys : List Place) (p : Place)
    → OrderlyAt c p (others holds xs ys) (others calling xs ys) (others past xs ys)
    → Orderly (state c (xs ++ p ∷ ys))
unfolding Orderly OrderlyAt
OrderlyAt-Orderly c xs ys p (a, b, e) =
    let eh = count-others holds xs ys p in
    let ek = count-others calling xs ys p in
    let en = count-others past xs ys p in
    (omega arith, omega arith, elim e [ inl z ↦ inl (omega arith) | inr o ↦ inr o ])

Step-Orderly : {s t : State} → Step s t → Orderly s → Orderly t
Step-Orderly (step xs ys p q c d m) h =
    let fewer : others calling xs ys ≤ others holds xs ys =
      omega (arith, calling_le_holds xs, calling_le_holds ys) in
    OrderlyAt-Orderly d xs ys q (
      Move-OrderlyAt (others holds xs ys) (others calling xs ys) (others past xs ys) fewer m
        (Orderly-OrderlyAt c xs ys p h))

Steps-Orderly : {s t : State} → Steps s t → Orderly s → Orderly t
Steps-Orderly (stop s) h = h
Steps-Orderly (more s u v one rest) h = Steps-Orderly rest (Step-Orderly one h)

count-replicate : (q : Place → Bool) (n : ℕ) → q before ≡ false → count q (replicate n before) ≡ 0
count-replicate q zero e = refl
count-replicate q (suc n) e = rw e (omega (arith, count-replicate q n e))

begin-Orderly : (n : ℕ) → Orderly (begin n)
unfolding Orderly
begin-Orderly n =
    let h = count-replicate holds n refl in
    let k = count-replicate calling n refl in
    (omega arith, omega arith, inl (count-replicate past n refl))

-- In every interleaving of any number of threads, init has been called at most once, and as soon as a
-- thread is past the test and the call (or has returned), init has been called once and has ended.
pub Steps-once :
    (n : ℕ) (t : State)
    → Steps (begin n) t
    → (t.shared.inits ≤ 1) × ((count past t.threads ≡ 0) ⊎ (t.shared.inits ≡ 1))
unfolding Orderly
Steps-once n t path =
    let (_, b, e) = Steps-Orderly path (begin-Orderly n) in
    (omega (arith, bit_le t.shared.fired), e)
