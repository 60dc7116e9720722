-- ===== src/Nodes.antt =====
-- The memory of CH30-Threads_Thread_Synchronization/Exercise_30-2/thread_safe_tree.c: nodes at
-- addresses, each with its mutex, and the commands of one thread on them.
pub mod Rep
use linux_programming.Base.{
  ℕ, Bool, true, false, List, [], ◌∷◌, Option, none, some, ◌==◌, if◌then◌else◌,
}
use linux_programming.Base.Bytes.{Bytes}

abbrev pub Ptr : Type 0
Ptr = ℕ

abbrev pub null : Ptr
null = 0

-- `struct Node`. A value is a pointer that the functions never follow; `locked` is the mutex.
pub record Node : Type 0 where
  pub key : Option Bytes
  pub value : Ptr
  pub left : Ptr
  pub right : Ptr
  pub locked : Bool

-- What calloc gives: all fields zero, an unlocked mutex.
abbrev pub blank : Node
blank = record { key = none; value = null; left = null; right = null; locked = false }

-- `callocs` are the addresses that the next calls of calloc return, NULL from the end of the list on.
-- `mutex_fails` says which of the next mutex calls return an error, none from its end on.
pub record Store : Type 0 where
  pub cell : Ptr → Option Node
  pub callocs : List Ptr
  pub mutex_fails : List Bool

-- `fault` is an access through NULL, a dangling or an uninitialised pointer. `blocked` is a thread
-- that waits for a mutex which it holds itself.
pub data Run (A : Type 0) : Type 0 where
  ok : A → Store → Run A
  fault : Run A
  blocked : Run A
  out_of_fuel : Run A

abbrev pub Cmd : Type 0 → Type 0
Cmd A = Store → Run A

abbrev pub pure : {A : Type 0} → A → Cmd A
pure = ok

module _ {A B : Type 0} where
  abbrev pub and_then : Run A → (A → Cmd B) → Run B
  and_then (ok a s) k = k a s
  and_then fault k = fault
  and_then blocked k = blocked
  and_then out_of_fuel k = out_of_fuel

  infixl 5 ◌>>=◌ ◌>>◌
  abbrev pub ◌>>=◌ : Cmd A → (A → Cmd B) → Cmd B
  m >>= k = λ s. and_then (m s) k

  abbrev pub ◌>>◌ : Cmd A → Cmd B → Cmd B
  m >> n = m >>= λ _. n

abbrev pub write : (Ptr → Option Node) → Ptr → Option Node → Ptr → Option Node
write c p n a = if a == p then n else c a

unfoldable pub load : Ptr → Cmd Node
load p s = if p == null then fault else elim (s.cell p) [ none ↦ fault | some n ↦ ok n s ]

abbrev pub put : Ptr → Option Node → Cmd (Unit {0})
put p n s = ok tt (record s { cell = write s.cell p n })

-- `*p = f(*p)`
unfoldable pub modify : Ptr → (Node → Node) → Cmd (Unit {0})
modify p f = do n ← load p; put p (some (f n))

unfoldable pub free : Ptr → Cmd (Unit {0})
free p = load p >> put p none

-- calloc: NULL is the answer if memory is exhausted.
unfoldable pub calloc : Cmd Ptr
calloc s = elim s.callocs [
  | [] ↦ ok null s
  | p ∷ rest ↦
      if p == null
      then ok null (record s { callocs = rest })
      else ok p (record s { cell = write s.cell p (some blank); callocs = rest })
]

-- Whether the next mutex call goes through.
unfoldable pub mutex_call : Cmd Bool
mutex_call s = elim s.mutex_fails [
  | [] ↦ ok true s
  | true ∷ rest ↦ ok false (record s { mutex_fails = rest })
  | false ∷ rest ↦ ok true (record s { mutex_fails = rest })
]

unfoldable pub acquire : Ptr → Cmd Bool
acquire p = do
  n ← load p
  if n.locked then (λ _. blocked) else (put p (some (record n { locked = true })) >> pure true)

-- pthread_mutex_lock, pthread_mutex_unlock, pthread_mutex_init; true stands for the result 0.
unfoldable pub mutex_lock : Ptr → Cmd Bool
mutex_lock p = do done ← mutex_call; if done then acquire p else pure false

unfoldable pub mutex_unlock : Ptr → Cmd Bool
mutex_unlock p = do
  done ← mutex_call
  if done then (modify p (λ n. record n { locked = false }) >> pure true) else pure false

unfoldable pub mutex_init : Ptr → Cmd Bool
mutex_init p = do
  done ← mutex_call
  if done then (modify p (λ n. record n { locked = false }) >> pure true) else pure false
