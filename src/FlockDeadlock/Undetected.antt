-- ===== src/FlockDeadlock/Undetected.antt =====
-- The runs of flock_deadlock.c, and what becomes of its detection of a deadlock.
use linux_programming.Base.{
  ℕ, zero, suc, ◌-◌, ◌≤◌, ◌≡◌, ◌≢◌, refl, sym, ap, ◌∙◌, List, [], ◌∷◌, arith, map,
}
use mathlib.Core.Path.{subst}
use linux_programming.FlockDeadlock.{
  Owner, nobody, this, Who, child, parent, Place, first, second, unlock_first, unlock_second,
  success, detected, failed, State, View, call, call_failing, with_view, Turn, calls, fails, step,
  run, forked,
}

-- No other program has the lock.
pub data Untaken : Owner → Type 0 where
  by_nobody : Untaken nobody
  by_this : Untaken this

-- Where a call leads to, and where one that fails leads to.
unfoldable after : Place → Place
after first = second
after second = unlock_first
after unlock_first = unlock_second
after unlock_second = success
after success = success
after detected = detected
after failed = failed

unfoldable after_failing : Place → Place
after_failing first = failed
after_failing second = failed
after_failing unlock_first = unlock_second
after_failing unlock_second = success
after_failing success = success
after_failing detected = detected
after_failing failed = failed

abbrev at_place : Owner → Owner → Place → View
at_place m o p = record { mine = m; other = o; at = p }

data LeadsTo (p : Place) : View → Type 0 where
  leads : {m o : Owner} → Untaken m → Untaken o → LeadsTo p (at_place m o p)

call-after :
    {m o : Owner} (p : Place) → Untaken m → Untaken o → LeadsTo (after p) (call (at_place m o p) p)
unfolding after
call-after first by_nobody y = leads by_this y
call-after first by_this y = leads by_this y
call-after second x by_nobody = leads x by_this
call-after second x by_this = leads x by_this
call-after unlock_first by_nobody y = leads by_nobody y
call-after unlock_first by_this y = leads by_nobody y
call-after unlock_second x by_nobody = leads x by_nobody
call-after unlock_second x by_this = leads x by_nobody
call-after success x y = leads x y
call-after detected x y = leads x y
call-after failed x y = leads x y

call_failing-after :
    {m o : Owner} (p : Place)
    → Untaken m
    → Untaken o
    → LeadsTo (after_failing p) (call_failing (at_place m o p) p)
unfolding after_failing
call_failing-after first x y = leads x y
call_failing-after second x y = leads x y
call_failing-after unlock_first x y = leads x y
call_failing-after unlock_second x y = leads x y
call_failing-after success x y = leads x y
call_failing-after detected x y = leads x y
call_failing-after failed x y = leads x y

-- Where a turn leads a process to.
unfoldable moved : Turn → Who → Place → Place
moved (calls child) child p = after p
moved (calls child) parent p = p
moved (calls parent) child p = p
moved (calls parent) parent p = after p
moved (fails child) child p = after_failing p
moved (fails child) parent p = p
moved (fails parent) child p = p
moved (fails parent) parent p = after_failing p

abbrev state : Owner → Owner → Place → Place → State
state f1 f2 c p = record { file1 = f1; file2 = f2; child_at = c; parent_at = p }

data Free (c p : Place) : State → Type 0 where
  free : {f1 f2 : Owner} → Untaken f1 → Untaken f2 → Free c p (state f1 f2 c p)

child-Free :
    {c : Place} (f1 f2 : Owner) (k p : Place) (v : View)
    → LeadsTo c v
    → Free c p (with_view child (state f1 f2 k p) v)
child-Free f1 f2 k p _ (leads x y) = free x y

parent-Free :
    {p : Place} (f1 f2 : Owner) (c k : Place) (v : View)
    → LeadsTo p v
    → Free c p (with_view parent (state f1 f2 c k) v)
parent-Free f1 f2 c k _ (leads x y) = free y x

step-Free :
    (t : Turn) {c p : Place} {s : State}
    → Free c p s
    → Free (moved t child c) (moved t parent p) (step t s)
unfolding step moved
step-Free (calls child) {c} {p} (free {f1} {f2} x y) = child-Free f1 f2 c p _ (call-after c x y)
step-Free (calls parent) {c} {p} (free {f1} {f2} x y) = parent-Free f1 f2 c p _ (call-after p y x)
step-Free (fails child) {c} {p} (free {f1} {f2} x y) =
    child-Free f1 f2 c p _ (call_failing-after c x y)
step-Free (fails parent) {c} {p} (free {f1} {f2} x y) =
    parent-Free f1 f2 c p _ (call_failing-after p y x)

-- The place of a process after some turns.
unfoldable moves : List Turn → Who → Place → Place
moves [] w p = p
moves (t ∷ ts) w p = moves ts w (moved t w p)

run-Free :
    (ts : List Turn) {c p : Place} {s : State}
    → Free c p s
    → Free (moves ts child c) (moves ts parent p) (run s ts)
unfolding run moves
run-Free [] h = h
run-Free (t ∷ ts) h = run-Free ts (step-Free t h)

places : {c p : Place} {s : State} → Free c p s → (s.child_at ≡ c) × (s.parent_at ≡ p)
places (free x y) = (refl, refl)

pub data Quiet : Place → Type 0 where
  quiet_first : Quiet first
  quiet_second : Quiet second
  quiet_unlock_first : Quiet unlock_first
  quiet_unlock_second : Quiet unlock_second
  quiet_success : Quiet success
  quiet_failed : Quiet failed

after-Quiet : (p : Place) → Quiet p → Quiet (after p)
unfolding after
after-Quiet first h = quiet_second
after-Quiet second h = quiet_unlock_first
after-Quiet unlock_first h = quiet_unlock_second
after-Quiet unlock_second h = quiet_success
after-Quiet success h = quiet_success
after-Quiet detected h = elim h [ ]
after-Quiet failed h = quiet_failed

after_failing-Quiet : (p : Place) → Quiet p → Quiet (after_failing p)
unfolding after_failing
after_failing-Quiet first h = quiet_failed
after_failing-Quiet second h = quiet_failed
after_failing-Quiet unlock_first h = quiet_unlock_second
after_failing-Quiet unlock_second h = quiet_success
after_failing-Quiet success h = quiet_success
after_failing-Quiet detected h = elim h [ ]
after_failing-Quiet failed h = quiet_failed

moved-Quiet : (t : Turn) (w : Who) (p : Place) → Quiet p → Quiet (moved t w p)
unfolding moved
moved-Quiet (calls child) child p h = after-Quiet p h
moved-Quiet (calls child) parent p h = h
moved-Quiet (calls parent) child p h = h
moved-Quiet (calls parent) parent p h = after-Quiet p h
moved-Quiet (fails child) child p h = after_failing-Quiet p h
moved-Quiet (fails child) parent p h = h
moved-Quiet (fails parent) child p h = h
moved-Quiet (fails parent) parent p h = after_failing-Quiet p h

moves-Quiet : (ts : List Turn) (w : Who) (p : Place) → Quiet p → Quiet (moves ts w p)
unfolding moves
moves-Quiet [] w p h = h
moves-Quiet (t ∷ ts) w p h = moves-Quiet ts w (moved t w p) (moved-Quiet t w p h)

Quiet-detected : Quiet detected → ⊥
Quiet-detected h = elim h [ ]

undetected : {p : Place} → Quiet p → p ≢ detected
undetected h e = Quiet-detected (subst Quiet e h)

-- While no other program locks the files, neither process reports a deadlock, in whatever order they
-- make their calls and whichever of these fail with another error: flock takes the locks of the two
-- processes for the same lock.
run-undetected :
    {f1 f2 : Owner} (ts : List Turn)
    → Untaken f1
    → Untaken f2
    → ((run (forked f1 f2) ts).child_at ≢ detected) × ((run (forked f1 f2) ts).parent_at ≢ detected)
run-undetected {f1} {f2} ts x y =
    let (c, p) = places (run-Free ts (free x y)) in
    (
      λ e. undetected (moves-Quiet ts child first quiet_first) (sym c ∙ e),
      λ e. undetected (moves-Quiet ts parent first quiet_first) (sym p ∙ e),
    )

unfoldable pub turns : Who → List Who → ℕ
turns w [] = 0
turns child (child ∷ ws) = suc (turns child ws)
turns child (parent ∷ ws) = turns child ws
turns parent (child ∷ ws) = turns parent ws
turns parent (parent ∷ ws) = suc (turns parent ws)

unfoldable afters : ℕ → Place → Place
afters zero p = p
afters (suc n) p = afters n (after p)

moves-afters :
    (ws : List Who) (w : Who) (p : Place) → moves (map calls ws) w p ≡ afters (turns w ws) p
unfolding moves moved turns afters
moves-afters [] child p = refl
moves-afters [] parent p = refl
moves-afters (child ∷ ws) child p = moves-afters ws child (after p)
moves-afters (child ∷ ws) parent p = moves-afters ws parent p
moves-afters (parent ∷ ws) child p = moves-afters ws child p
moves-afters (parent ∷ ws) parent p = moves-afters ws parent (after p)

afters-success : (n : ℕ) → afters n success ≡ success
unfolding afters after
afters-success zero = refl
afters-success (suc n) = afters-success n

afters-first : (n : ℕ) → afters (suc (suc (suc (suc n)))) first ≡ success
unfolding afters after
afters-first n = afters-success n

four_calls : (n : ℕ) → 4 ≤ n → afters n first ≡ success
four_calls n h =
    let e : suc (suc (suc (suc (n - 4)))) ≡ n = omega arith in
    ap (λ k. afters k first) (sym e) ∙ afters-first (n - 4)

-- While no other program locks the files and no call fails, both processes end with success as soon as
-- each of them has made its four calls, in whatever order: none waits for the other.
pub run-success :
    {f1 f2 : Owner} (ws : List Who)
    → Untaken f1
    → Untaken f2
    → 4 ≤ turns child ws
    → 4 ≤ turns parent ws
    → ((run (forked f1 f2) (map calls ws)).child_at ≡ success)
      × ((run (forked f1 f2) (map calls ws)).parent_at ≡ success)
run-success ws x y hc hp =
    let (c, p) = places (run-Free (map calls ws) (free x y)) in
    (
      c ∙ moves-afters ws child first ∙ four_calls (turns child ws) hc,
      p ∙ moves-afters ws parent first ∙ four_calls (turns parent ws) hp,
    )
