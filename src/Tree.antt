-- ===== src/Tree.antt =====
-- CH30-Threads_Thread_Synchronization/Exercise_30-2/thread_safe_tree.c: an unbalanced binary search
-- tree whose nodes carry mutexes. Each function is the run of one thread; a run ends `blocked` where
-- the thread waits for a mutex that is held. Recursion and loops run on fuel.
pub mod Lookup
pub mod Map
pub mod Memory
mod Tests
pub mod Add
use linux_programming.Base.{
  ℕ, zero, suc, Bool, true, false, not, ◌&&◌, Option, none, some, ◌==◌, if◌then◌else◌,
}
use linux_programming.Base.Int.{ℤ, pos, minus_one, eqb_ℤ}
use linux_programming.Base.Bytes.{Bytes}
use linux_programming.Libc.Str.{Order, less, equal, greater, strcmp}
use linux_programming.Nodes.{
  Ptr, null, Node, Cmd, out_of_fuel, fault, pure, ◌>>=◌, ◌>>◌, load, modify, free, calloc,
  mutex_lock, mutex_unlock, mutex_init,
}

abbrev pub zero_result : ℤ
zero_result = pos 0

unfoldable pub initialize : Ptr → Cmd ℤ
initialize node = do
  inited ← mutex_init node
  if not inited then pure minus_one else do
    held ← mutex_lock node
    if not held then pure minus_one else do
      modify node (λ n. record n { key = none; value = null; left = null; right = null })
      released ← mutex_unlock node
      if not released then pure minus_one else pure zero_result

-- The child pointer that a key goes to.
pub data Side : Type 0 where
  on_left on_right : Side

abbrev pub child : Side → Node → Ptr
child on_left n = n.left
child on_right n = n.right

abbrev pub with_child : Side → Ptr → Node → Node
with_child on_left p n = record n { left = p }
with_child on_right p n = record n { right = p }

-- `if (root->left == NULL) { … }`: false if calloc fails.
unfoldable pub ensure_child : Side → Ptr → Cmd Bool
ensure_child side root = do
  n ← load root
  if not (child side n == null) then pure true else do
    p ← calloc
    modify root (with_child side p)
    if p == null then pure false else (initialize p >> pure true)

-- One side of `add`, with the recursive call as `again`, whose result the source drops.
unfoldable pub descend : (Ptr → Cmd ℤ) → Ptr → Side → Cmd ℤ
descend again root side = do
  room ← ensure_child side root
  if not room then pure minus_one else do
    released ← mutex_unlock root
    if not released
        then pure minus_one
        else do n ← load root; again (child side n); pure zero_result

-- `root->key == NULL`.
unfoldable pub fill : Ptr → Bytes → Ptr → Cmd ℤ
fill root key value = do
  modify root (λ n. record n { key = some key; value = value })
  released ← mutex_unlock root
  if not released then pure minus_one else pure zero_result

-- `key` is `none` for NULL.
unfoldable pub add : ℕ → Ptr → Option Bytes → Ptr → Cmd ℤ
add zero root key value = λ _. out_of_fuel
add (suc fuel) root none value = pure minus_one
add (suc fuel) root (some key) value = do
  held ← mutex_lock root
  if not held then pure minus_one else do
    n ← load root
    elim n.key [
      | none ↦ fill root key value
      | some root_key ↦ elim (strcmp key root_key) [
        | less ↦ descend (λ p. add fuel p (some key) value) root on_left
        | greater ↦ descend (λ p. add fuel p (some key) value) root on_right
        | equal ↦ mutex_unlock root >> pure minus_one
      ]
    ]

-- The source assigns to its own parameter `value`, so nothing is stored for the caller.
unfoldable pub lookup : ℕ → Ptr → Option Bytes → Cmd Bool
lookup zero root key = λ _. out_of_fuel
lookup (suc fuel) root none = pure false
lookup (suc fuel) root (some key) = if root == null then pure false else do
  n ← load root
  elim n.key [
    | none ↦ pure false
    | some root_key ↦ elim (strcmp root_key key) [
      | greater ↦ lookup fuel n.left (some key)
      | less ↦ lookup fuel n.right (some key)
      | equal ↦ pure true
    ]
  ]

-- The result and the caller's pointer, `none` while it has no value.
unfoldable pub get_parent : ℕ → Ptr → Option Bytes → Option Ptr → Cmd (ℤ × Option Ptr)
get_parent zero root key parent = λ _. out_of_fuel
get_parent (suc fuel) root none parent = pure (minus_one, parent)
get_parent (suc fuel) root (some key) parent = if root == null then pure (minus_one, parent) else do
  n ← load root
  elim n.key [
    | none ↦ pure (minus_one, parent)
    | some root_key ↦ elim (strcmp root_key key) [
      | greater ↦ get_parent fuel n.left (some key) (if n.left == null then parent else some root)
      | less ↦ get_parent fuel n.right (some key) (if n.right == null then parent else some root)
      | equal ↦ pure (zero_result, parent)
    ]
  ]

unfoldable pub get_node : ℕ → Ptr → Option Bytes → Option Ptr → Cmd (ℤ × Option Ptr)
get_node zero root key self = λ _. out_of_fuel
get_node (suc fuel) root none self = pure (minus_one, self)
get_node (suc fuel) root (some key) self = if root == null then pure (minus_one, self) else do
  n ← load root
  elim n.key [
    | none ↦ pure (minus_one, self)
    | some root_key ↦ elim (strcmp root_key key) [
      | greater ↦ get_node fuel n.left (some key) self
      | less ↦ get_node fuel n.right (some key) self
      | equal ↦ pure (zero_result, some root)
    ]
  ]

-- The loops of getMin and getMax.
unfoldable pub last_on : Side → ℕ → Ptr → Cmd Ptr
last_on side zero tmp = λ _. out_of_fuel
last_on side (suc fuel) tmp = do
  n ← load tmp
  if child side n == null then pure tmp else last_on side fuel (child side n)

abbrev pub has_no_key : Option Bytes → Bool
has_no_key none = true
has_no_key (some _) = false

-- getMin goes left, getMax goes right.
unfoldable pub get_last : Side → ℕ → Ptr → Cmd (Option Ptr)
get_last side fuel root = if root == null then pure none else do
  n ← load root
  if has_no_key n.key then pure none else do res ← last_on side fuel root; pure (some res)

unfoldable pub get_min : ℕ → Ptr → Cmd (Option Ptr)
get_min fuel root = get_last on_left fuel root

unfoldable pub get_max : ℕ → Ptr → Cmd (Option Ptr)
get_max fuel root = get_last on_right fuel root

abbrev pub is_null : Ptr → Bool
is_null p = p == null

-- `*self` takes the key and the value of `*leaf`, which is freed.
unfoldable pub replace : Ptr → Option Ptr → Cmd ℤ
replace self none = pure minus_one
replace self (some last) = do
  held ← mutex_lock self
  if not held then pure minus_one else do
    n ← load last
    modify self (λ m. record m { key = n.key; value = n.value })
    free last
    released ← mutex_unlock self
    if not released then pure minus_one else pure zero_result

-- The node has no children. The side is chosen by the key of the root.
unfoldable pub unlink : Ptr → Ptr → Ptr → Bytes → Cmd ℤ
unlink root parent self key = do
  n ← load root
  elim n.key [
    | none ↦ λ _. fault
    | some root_key ↦ modify parent (elim (strcmp root_key key) [
      | greater ↦ with_child on_left null
      | _ ↦ with_child on_right null
    ])
  ]
  free self
  released ← mutex_unlock parent
  if not released then pure minus_one else pure zero_result

-- What `delete` does once both pointers are there.
unfoldable pub delete_found : ℕ → Ptr → Ptr → Ptr → Bytes → Cmd ℤ
delete_found fuel root parent self key = do
  held ← mutex_lock parent
  if not held then pure minus_one else do
    n ← load self
    let no_children = is_null n.left && is_null n.right
    let below = if not (is_null n.left) then get_max fuel n.left else get_min fuel n.right
    if no_children then unlink root parent self key else (do replace self (← below))

-- A pointer that was never assigned: its use is a fault.
abbrev pub assigned : {A : Type 0} → Option Ptr → (Ptr → Cmd A) → Cmd A
assigned none k = λ _. fault
assigned (some p) k = k p

unfoldable pub delete : ℕ → Ptr → Option Bytes → Cmd ℤ
delete fuel root none = pure minus_one
delete fuel root (some key) = do
  (found, parent) ← get_parent fuel root (some key) none
  if not (eqb_ℤ found zero_result) then pure minus_one else do
    (found', self) ← get_node fuel root (some key) none
    if not (eqb_ℤ found' zero_result)
        then pure minus_one
        else assigned parent (λ p. assigned self (λ q. delete_found fuel root p q key))
