-- ===== src/DirectoryObserver/Buffer.antt =====
-- How long the loop of directory_observer.c over a buffer runs.
use linux_programming.Base.{
  ◌>>=◌, ℕ, zero, suc, ◌<◌, ◌≤◌, ◌≢◌, inl, inr, Bool-cases, ◌&&◌, List, [], ◌∷◌, Option, none, some,
  arith, length, length-drop, drop,
}
use linux_programming.Base.Bytes.{Bytes}
use linux_programming.DirectoryObserver.{
  Header, le32, header, has, in_create, in_isdir, display_event, Walk, State, Outcome, waits,
  past_end, exits, running, Next, goes, stops, watched_again, displayed, event_at, events,
}
use mathlib.Core.Path.{subst}

data Shrinks {ℓ} {A : Type ℓ} (n : ℕ) : Option (A × Bytes) → Type ℓ where
  nothing : Shrinks n none
  shrunk : {a : A} {rest : Bytes} → length rest < n → Shrinks n (some (a, rest))

le32-Shrinks : (b : Bytes) → Shrinks (length b) (le32 b)
unfolding le32
le32-Shrinks [] = nothing
le32-Shrinks (a ∷ []) = nothing
le32-Shrinks (a ∷ b ∷ []) = nothing
le32-Shrinks (a ∷ b ∷ c ∷ []) = nothing
le32-Shrinks (a ∷ b ∷ c ∷ d ∷ rest) = shrunk (omega arith)

bind-Shrinks {ℓ κ} :
    {A : Type ℓ} {B : Type κ} {n : ℕ} {o : Option (A × Bytes)} (f : A × Bytes → Option (B × Bytes))
    → Shrinks n o
    → ((a : A) (rest : Bytes) → length rest < n → Shrinks n (f (a, rest)))
    → Shrinks n (o >>= f)
bind-Shrinks f nothing k = nothing
bind-Shrinks f (shrunk h) k = k _ _ h

weaken {ℓ} : {A : Type ℓ} {n m : ℕ} {o : Option (A × Bytes)} → n ≤ m → Shrinks n o → Shrinks m o
weaken h nothing = nothing
weaken h (shrunk k) = shrunk (omega arith)

header-Shrinks : (b : Bytes) → Shrinks (length b) (header b)
unfolding header
header-Shrinks b = bind-Shrinks _ (le32-Shrinks b) λ wd b1 h1.
    bind-Shrinks _ (weaken (omega arith) (le32-Shrinks b1)) λ mask b2 h2.
      bind-Shrinks _ (weaken (omega arith) (le32-Shrinks b2)) λ cookie b3 h3.
        bind-Shrinks _ (weaken (omega arith) (le32-Shrinks b3)) λ len rest h4. shrunk h4

data Halted : Outcome → Type 0 where
  halted_waits : {s : State} → Halted (waits s)
  halted_past_end : {s : State} → Halted (past_end s)
  halted_exits : {s : State} → Halted (exits s)

data Progress (n : ℕ) : Next → Type 0 where
  progress : {rest : Bytes} {s : State} → length rest < n → Progress n (goes rest s)
  end : {o : Outcome} → Halted o → Progress n (stops o)

module _ (tree : ℕ → Walk) where
  drop-Progress : (k n : ℕ) (rest : Bytes) → length rest < n → length (drop k rest) < n
  drop-Progress k n rest h = omega (arith, length-drop k rest)

  watched_again-Progress :
      (n : ℕ) (s : State) (o : Option (List Bytes)) (rest : Bytes)
      → length rest < n
      → Progress n (watched_again tree s o rest)
  watched_again-Progress n s none rest h = end halted_exits
  watched_again-Progress n s (some ws) rest h = progress h

  displayed-Progress :
      (n : ℕ) (s : State) (h : Header) (rest : Bytes) (o : Option Bytes)
      → length rest < n
      → Progress n (displayed tree s h rest o)
  displayed-Progress n s h rest none lt = end halted_past_end
  displayed-Progress n s h rest (some text) lt =
      let shorter : length (drop h.len rest) < n = drop-Progress h.len n rest lt in
      elim (Bool-cases (has h.mask in_create && has h.mask in_isdir)) [
        | inl e ↦ rw e (watched_again-Progress n _ _ _ shorter)
        | inr e ↦ rw e (progress shorter)
      ]

  event_at-Progress :
      (n : ℕ) (s : State) (o : Option (Header × Bytes))
      → Shrinks n o
      → Progress n (event_at tree s o)
  event_at-Progress n s _ nothing = end halted_past_end
  event_at-Progress n s _ (shrunk {a} {rest} lt) =
      displayed-Progress n s a rest (display_event a rest) lt

  next-Halted :
      {n : ℕ} {next : Next} (f : Bytes → State → Outcome)
      → Progress n next
      → ((rest : Bytes) (t : State) → length rest < n → Halted (f rest t))
      → Halted (elim next [ goes rest t ↦ f rest t | stops o ↦ o ])
  next-Halted f (progress {rest} {s} lt) k = k rest s lt
  next-Halted f (end o) k = o

  events-Halted :
      (fuel : ℕ) (b : Bytes) (s : State) → length b < fuel → Halted (events tree fuel b s)
  unfolding events
  events-Halted zero b s h = absurd (omega arith)
  events-Halted (suc fuel) [] s h = halted_waits
  events-Halted (suc fuel) (b ∷ bs) s h =
      next-Halted (events tree fuel)
        (event_at-Progress (length (b ∷ bs)) s (header (b ∷ bs)) (header-Shrinks (b ∷ bs)))
        λ rest t lt. events-Halted fuel rest t (omega arith)

Halted-running : {t : State} → Halted (running t) → ⊥
Halted-running h = elim h [ ]

-- The loop over a buffer ends, whatever bytes are in it: with one turn for each byte and one more, it
-- does not run out of fuel.
pub events-running :
    (tree : ℕ → Walk) (fuel : ℕ) (b : Bytes) (s t : State)
    → length b < fuel
    → events tree fuel b s ≢ running t
events-running tree fuel b s t lt e =
    Halted-running (subst Halted e (events-Halted tree fuel b s lt))
