-- ===== src/Execlp.antt =====
-- CH27-Program_Execution/execlp_from_execve/execlp_from_execve.c: execlp on top of execve. Arrays are lists
-- that know their size; memory is always granted.
pub mod Arrays
pub mod Path
mod Tests
use linux_programming.Base.{
  ℕ, zero, suc, ◌+◌, Bool, true, false, not, List, [], ◌∷◌, ◌++◌, Option, none, some, ltb, ◌==◌,
  if◌then◌else◌, length, replicate,
}
use linux_programming.Base.Bytes.{Bytes, codes}
use linux_programming.Libc.Str.{strchr}

-- An array of pointers to strings.
abbrev pub Pointers : Type 0
Pointers = List (Option Bytes)

-- A store at an index; `none` is a store past the end.
unfoldable pub store_at : ℕ → Option Bytes → Pointers → Option Pointers
store_at i x [] = none
store_at zero x (y ∷ ys) = some (x ∷ ys)
store_at (suc i) x (y ∷ ys) = elim (store_at i x ys) [ none ↦ none | some zs ↦ some (y ∷ zs) ]

-- The loop that sets envSize starts at index 1. An empty environment is read past its end.
abbrev pub env_size : List Bytes → Option ℕ
env_size [] = none
env_size (e ∷ es) = some (suc (length es))

-- The copies from index `i` on, and the NULL behind them.
unfoldable pub copy_from : ℕ → List Bytes → Pointers → Option Pointers
copy_from i [] envp = store_at i none envp
copy_from i (e ∷ es) envp = elim (store_at i (some e) envp) [
  | none ↦ none
  | some envp' ↦ copy_from (suc i) es envp'
]

unfoldable pub copy_env : List Bytes → Option Pointers
copy_env environ = elim (env_size environ) [
  | none ↦ none
  | some size ↦ copy_from 0 environ (replicate size none)
]

-- The argument vector: its capacity, the count of arguments, and the array.
pub record ArgVector : Type 0 where
  pub cap : ℕ
  pub argc : ℕ
  pub argv : Pointers

-- `if (argc + 1 > argvCap)`: the array grows by five places.
unfoldable pub grow : ArgVector → ArgVector
grow a =
    if ltb a.cap (a.argc + 1)
    then record a { cap = a.cap + 5; argv = a.argv ++ replicate 5 none }
    else a

abbrev pub push : Option Bytes → ArgVector → Option ArgVector
push x a = elim (store_at a.argc x a.argv) [
  | none ↦ none
  | some argv ↦ some (record a { argc = suc a.argc; argv = argv })
]

-- The while loop, with the arguments that va_arg delivers before NULL.
unfoldable pub capture_loop : List Bytes → ArgVector → Option ArgVector
capture_loop [] a = push none (grow a)
capture_loop (x ∷ xs) a = elim (push (some x) (grow a)) [
  | none ↦ none
  | some a' ↦ capture_loop xs a'
]

-- `arg` is `none` for NULL, and then no argument is read.
unfoldable pub capture_args : Option Bytes → List Bytes → Option ArgVector
capture_args arg xs = elim (store_at 0 arg (replicate 10 none)) [
  | none ↦ none
  | some argv ↦ elim arg [
    | none ↦ some (record { cap = 10; argc = 1; argv = argv })
    | some first ↦ capture_loop xs (record { cap = 10; argc = 1; argv = argv })
  ]
]

abbrev pub flush : Bytes → List Bytes → List Bytes
flush [] rest = rest
flush (c ∷ cs) rest = (c ∷ cs) ∷ rest

-- The tokens that strtok(PATH, ":") delivers, with what has been read of the first.
unfoldable pub tokens_from : Bytes → Bytes → List Bytes
tokens_from acc [] = flush acc []
tokens_from acc (c ∷ s) =
    let ended = flush acc (tokens_from [] s) in
    let longer = tokens_from (acc ++ c ∷ []) s in if c == 58 then ended else longer

unfoldable pub tokens : Bytes → List Bytes
tokens path = tokens_from [] path

abbrev pub slash : ℕ
slash = 47

abbrev pub ends_in_slash : Bytes → Bool
ends_in_slash [] = false
ends_in_slash (c ∷ []) = c == slash
ends_in_slash (c ∷ d ∷ s) = ends_in_slash (d ∷ s)

unfoldable pub pathname : Bytes → Bytes → Bytes
pathname token file = token ++ (if ends_in_slash token then [] else slash ∷ []) ++ file

-- The size that calloc is asked for.
abbrev pub pathname_size : Bytes → Bytes → ℕ
pathname_size token file = length token + length file + 1

-- How the call ends: the process runs another file, the call returns, or memory is written or read past
-- the end of an array.
pub data Exec : Type 0 where
  replaced : Bytes → Exec
  returned : Exec
  overrun : Exec

-- The loop over the tokens; `runs` says which files execve can run. The pathname takes one byte more
-- than its length.
unfoldable pub exec_path : (Bytes → Bool) → Bytes → List Bytes → Exec
exec_path runs file [] = returned
exec_path runs file (token ∷ rest) =
    let p = pathname token file in
    let next = exec_path runs file rest in
    if ltb (pathname_size token file) (length p + 1)
    then overrun
    else if runs p
    then replaced p
    else next

-- getenv("PATH"), or the default where it is missing or empty.
abbrev pub path_or_default : Option Bytes → Bytes
path_or_default none = codes "/usr/bin"
path_or_default (some []) = codes "/usr/bin"
path_or_default (some (c ∷ s)) = c ∷ s

abbrev pub has_slash : Bytes → Bool
has_slash file = elim (strchr file slash) [ none ↦ false | some _ ↦ true ]

unfoldable pub exec_file : (Bytes → Bool) → Option Bytes → Bytes → Exec
exec_file runs path file =
    let searched = exec_path runs file (tokens (path_or_default path)) in
    if has_slash file then (if runs file then replaced file else returned) else searched

unfoldable pub my_execlp :
    (Bytes → Bool) → List Bytes → Option Bytes → Bytes → Option Bytes → List Bytes → Exec
my_execlp runs environ path file arg args = elim (copy_env environ) [
  | none ↦ overrun
  | some envp ↦ elim (capture_args arg args) [ none ↦ overrun | some a ↦ exec_file runs path file ]
]
