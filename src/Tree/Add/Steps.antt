-- ===== src/Tree/Add/Steps.antt =====
-- The steps of `add` while no mutex call fails: what each leaves in memory.
use linux_programming.Base.{
  ◌≡◌, refl, fun_ext, ◌≢◌, Bool, true, false, List, [], ◌∷◌, some, arith, ◌==◌,
}
use linux_programming.Base.Int.{ℤ}
use linux_programming.Base.Bytes.{Bytes}
use linux_programming.Nodes.{
  Ptr, null, Node, blank, Store, ok, Cmd, and_then, pure, write, load, modify, calloc, acquire,
  mutex_call, mutex_lock, mutex_unlock, mutex_init,
}
use linux_programming.Nodes.Rep.{Cells, full}
use linux_programming.Tree.{
  zero_result, initialize, Side, on_left, on_right, child, with_child, ensure_child, descend, fill,
}
use linux_programming.Tree.Lookup.{load-ok, not_null}

-- Memory in which the next mutex calls all go through.
abbrev pub quiet : Cells → List Ptr → Store
quiet c fs = record { cell = c; callocs = fs; mutex_fails = [] }

abbrev pub hold : Bool → Node → Node
hold b n = record n { locked = b }

abbrev pub set : Cells → Ptr → Node → Cells
set c p n = write c p (some n)

pub set-set : (c : Cells) (p : Ptr) (m n : Node) → set (set c p m) p n ≡ set c p n
set-set c p m n = fun_ext λ a. ground arith

pub set_self : (c : Cells) (p : Ptr) (n : Node) → c p ≡ some n → set c p n ≡ c
set_self c p n h = fun_ext λ a. ground arith

set_at : (c : Cells) (p : Ptr) (n : Node) → set c p n p ≡ some n
set_at c p n = ground arith

module _ (c : Cells) (fs : List Ptr) (p : Ptr) (n : Node) (ne : p ≢ null)
    (holds : c p ≡ some n) where
  pub modify-ok : (f : Node → Node) → modify p f (quiet c fs) ≡ ok tt (quiet (set c p (f n)) fs)
  unfolding modify
  modify-ok f = rw (load-ok {s = quiet c fs} ne holds)

  pub lock-ok :
      n.locked ≡ false → mutex_lock p (quiet c fs) ≡ ok true (quiet (set c p (hold true n)) fs)
  unfolding mutex_lock mutex_call acquire
  lock-ok free = rw (load-ok {s = quiet c fs} ne holds, and_then) (rw free refl)

  pub unlock-ok : mutex_unlock p (quiet c fs) ≡ ok true (quiet (set c p (hold false n)) fs)
  unfolding mutex_unlock mutex_call
  unlock-ok = rw (modify-ok (hold false))

  pub init-ok : mutex_init p (quiet c fs) ≡ ok true (quiet (set c p (hold false n)) fs)
  unfolding mutex_init mutex_call
  init-ok = rw (modify-ok (hold false))

module _ (c : Cells) (fs : List Ptr) (p : Ptr) (n : Node) (ne : p ≢ null) where
  -- The same in memory where `p` was written last.
  pub modify-set :
      (f : Node → Node) → modify p f (quiet (set c p n) fs) ≡ ok tt (quiet (set c p (f n)) fs)
  modify-set f = rw (modify-ok (set c p n) fs p n ne (set_at c p n) f, set-set)

  pub lock_set :
      n.locked ≡ false
      → mutex_lock p (quiet (set c p n) fs) ≡ ok true (quiet (set c p (hold true n)) fs)
  lock_set free = rw (lock-ok (set c p n) fs p n ne (set_at c p n) free, set-set)

  pub unlock-set :
      mutex_unlock p (quiet (set c p n) fs) ≡ ok true (quiet (set c p (hold false n)) fs)
  unlock-set = rw (unlock-ok (set c p n) fs p n ne (set_at c p n), set-set)

  init_set : mutex_init p (quiet (set c p n) fs) ≡ ok true (quiet (set c p (hold false n)) fs)
  init_set = rw (init-ok (set c p n) fs p n ne (set_at c p n), set-set)

  pub load-set : load p (quiet (set c p n) fs) ≡ ok n (quiet (set c p n) fs)
  load-set = load-ok {s = quiet (set c p n) fs} ne (set_at c p n)

-- A node that is there is left blank, and its mutex free.
pub initialize-ok :
    (c : Cells) (fs : List Ptr) (p : Ptr) (n : Node)
    → p ≢ null
    → c p ≡ some n
    → initialize p (quiet c fs) ≡ ok zero_result (quiet (set c p blank) fs)
unfolding initialize
initialize-ok c fs p n ne holds = rw (
  init-ok c fs p n ne holds,
  lock_set c fs p (hold false n) ne refl,
  modify-set c fs p (hold true n) ne,
  unlock-set c fs p (record blank { locked = true }) ne,
)

-- `add` at the locked root node without a key.
pub fill-ok :
    (c : Cells) (fs : List Ptr) (p : Ptr) (k : Bytes) (v : Ptr)
    → p ≢ null
    → fill p k v (quiet (set c p (hold true blank)) fs)
      ≡ ok zero_result (quiet (set c p (full k v null null)) fs)
unfolding fill
fill-ok c fs p k v ne =
    rw (
      modify-set c fs p (hold true blank) ne,
      unlock-set c fs p (hold true (full k v null null)) ne,
    )

child-hold : (side : Side) (b : Bool) (n : Node) → child side (hold b n) ≡ child side n
child-hold on_left b n = refl
child-hold on_right b n = refl

child-with_child :
    (side : Side) (q : Ptr) (n : Node) → child side (hold false (with_child side q n)) ≡ q
child-with_child on_left q n = refl
child-with_child on_right q n = refl

calloc-ok :
    (c : Cells) (fs : List Ptr) (q : Ptr)
    → q ≢ null
    → calloc (quiet c (q ∷ fs)) ≡ ok q (quiet (set c q blank) fs)
unfolding calloc
calloc-ok c fs q ne = rw (not_null ne)

set_comm :
    (c : Cells) (p q : Ptr) (m n : Node)
    → (p == q) ≡ false
    → set (set c p m) q n ≡ set (set c q n) p m
set_comm c p q m n h = fun_ext λ a. ground arith

module _ (side : Side) (c : Cells) (fs : List Ptr) (p : Ptr) (n : Node) (ne : p ≢ null) where
  pub ensure_child-present :
      (child side n == null) ≡ false
      → ensure_child side p (quiet (set c p n) fs) ≡ ok true (quiet (set c p n) fs)
  unfolding ensure_child
  ensure_child-present there = rw (load-set c fs p n ne, and_then) (rw there refl)

  -- With an address for the new node, the child pointer leads to it, and it is blank.
  pub ensure_child-absent :
      (q : Ptr)
      → q ≢ null
      → (q == p) ≡ false
      → (child side n == null) ≡ true
      → ensure_child side p (quiet (set c p n) (q ∷ fs))
        ≡ ok true (quiet (set (set c q blank) p (with_child side q n)) fs)
  unfolding ensure_child
  ensure_child-absent q ne_q apart absent =
      let made : set (set c p n) q blank ≡ set (set c q blank) p n = fun_ext λ a. ground arith in
      let held = modify-set (set c q blank) fs p n ne (with_child side q) in
      let back : set (set (set c q blank) p (with_child side q n)) q blank
          ≡ set (set c q blank) p (with_child side q n) =
        fun_ext λ a. ground arith in
      let at_q : set (set c q blank) p (with_child side q n) q ≡ some blank = ground arith in
      let clean =
        initialize-ok (set (set c q blank) p (with_child side q n)) fs q blank ne_q at_q in
      rw (load-set c (q ∷ fs) p n ne, and_then)
        (rw (absent, calloc-ok (set c p n) fs q ne_q, and_then)
          (rw (made, held, and_then) (rw (not_null ne_q, and_then) (rw (clean, back) refl))))

  -- One side of `add` at the locked root, up to the recursive call.
  pub descend-present :
      (again : Ptr → Cmd ℤ)
      → (child side n == null) ≡ false
      → descend again p side (quiet (set c p n) fs)
        ≡ and_then
            (again (child side n) (quiet (set c p (hold false n)) fs))
            (λ _. pure zero_result)
  unfolding descend
  descend-present again there =
      rw (ensure_child-present there, and_then)
        (rw (unlock-set c fs p n ne, and_then)
          (rw (load-set c fs p (hold false n) ne, and_then) (rw (child-hold side false n) refl)))

  pub descend-absent :
      (again : Ptr → Cmd ℤ) (q : Ptr)
      → q ≢ null
      → (q == p) ≡ false
      → (child side n == null) ≡ true
      → descend again p side (quiet (set c p n) (q ∷ fs))
        ≡ and_then
            (again q (quiet (set (set c q blank) p (hold false (with_child side q n))) fs))
            (λ _. pure zero_result)
  unfolding descend
  descend-absent again q ne_q apart absent =
      let d = set c q blank in
      let m = with_child side q n in
      rw (ensure_child-absent q ne_q apart absent, and_then)
        (rw (unlock-set d fs p m ne, and_then)
          (rw (load-set d fs p (hold false m) ne, and_then) (rw (child-with_child side q n) refl)))
