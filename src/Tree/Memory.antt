-- ===== src/Tree/Memory.antt =====
-- What becomes of the mutexes and the pointers on the failing paths of thread_safe_tree.c.
use linux_programming.Base.{
  ℕ, suc, ◌≡◌, refl, ◌≢◌, true, List, [], some, arith, ◌==◌, ◌⊎◌, inl, inr,
}
use linux_programming.Base.Int.{ℤ, minus_one, eqb_ℤ}
use linux_programming.Base.Bytes.{Bytes}
use linux_programming.Libc.Str.{less, greater, strcmp, strcmp_refl}
use linux_programming.Nodes.{
  Ptr, null, Node, Run, ok, fault, blocked, and_then, mutex_lock, mutex_call, acquire, load, calloc,
}
use linux_programming.Nodes.Rep.{Cells, full}
use linux_programming.Tree.{
  Side, on_left, on_right, child, with_child, ensure_child, descend, add, get_parent, get_node,
  delete,
}
use linux_programming.Tree.Lookup.{load-ok, not_null}
use linux_programming.Tree.Add.Steps.{quiet, hold, set, load-set, modify-set}
use linux_programming.Tree.Add.Insert.{add-node}

-- A thread that holds the root's mutex waits for itself.
held-blocks :
    (fuel : ℕ) (k : Bytes) (v : Ptr) (c : Cells) (fs : List Ptr) (p : Ptr) (n : Node)
    → p ≢ null
    → n.locked ≡ true
    → add (suc fuel) p (some k) v (quiet (set c p n) fs) ≡ blocked
unfolding add mutex_lock mutex_call acquire
held-blocks fuel k v c fs p n ne held = rw (load-set c fs p n ne, and_then) (rw held refl)

null_child : (side : Side) (n : Node) → with_child side (child side n) n ≡ n
null_child on_left n = refl
null_child on_right n = refl

descend-no_memory :
    (again : Ptr → linux_programming.Nodes.Cmd ℤ) (side : Side) (c : Cells) (p : Ptr) (n : Node)
    → p ≢ null
    → child side n ≡ null
    → descend again p side (quiet (set c p n) []) ≡ ok minus_one (quiet (set c p n) [])
unfolding descend ensure_child calloc
descend-no_memory again side c p n ne absent =
    let none_there : (child side n == null) ≡ true = ground arith in
    let still : with_child side null n ≡ n = rw (← absent) (null_child side n) in
    rw (load-set c [] p n ne, and_then)
      (rw (none_there, and_then) (rw (modify-set c [] p n ne (with_child side null), still) refl))

-- Where memory is exhausted and the key belongs to a child of the root that is missing, `add` returns
-- -1 with the root's mutex still held: the next `add` of the thread to that tree waits for ever.
pub add-no_memory :
    (fuel : ℕ) (k j : Bytes) (v : Ptr) (c : Cells) (p a b w : Ptr) (k' : Bytes)
    → p ≢ null
    → c p ≡ some (full k' w a b)
    → ((strcmp k k' ≡ less) × (a ≡ null)) ⊎ ((strcmp k k' ≡ greater) × (b ≡ null))
    → (d : Cells) × (add (suc fuel) p (some k) v (quiet c []) ≡ ok minus_one (quiet d []))
      × (add (suc fuel) p (some j) v (quiet d []) ≡ blocked)
add-no_memory fuel k j v c p a b w k' ne holds (inl (e, absent)) =
    let n = hold true (full k' w a b) in
    (
      set c p n,
      rw (add-node fuel k v [] c p a b w k' ne holds, e)
          (descend-no_memory _ on_left c p n ne absent),
      held-blocks fuel j v c [] p n ne refl,
    )
add-no_memory fuel k j v c p a b w k' ne holds (inr (e, absent)) =
    let n = hold true (full k' w a b) in
    (
      set c p n,
      rw (add-node fuel k v [] c p a b w k' ne holds, e)
          (descend-no_memory _ on_right c p n ne absent),
      held-blocks fuel j v c [] p n ne refl,
    )

-- `delete` of the key of the root uses the parent pointer, which nothing has assigned.
pub delete-root :
    (fuel : ℕ) (k : Bytes) (c : Cells) (fs : List Ptr) (p a b w : Ptr)
    → p ≢ null
    → c p ≡ some (full k w a b)
    → delete (suc fuel) p (some k) (quiet c fs) ≡ fault
unfolding delete get_parent get_node
delete-root fuel k c fs p a b w ne holds =
    let here = load-ok {s = quiet c fs} {n = full k w a b} ne holds in
    rw (not_null ne, here, and_then)
      (rw (strcmp_refl k, and_then, eqb_ℤ)
        (rw (here, and_then) (rw (strcmp_refl k, and_then) refl)))
