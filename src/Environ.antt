-- ===== src/Environ.antt =====
-- CH06-Processes/environ/environ.c: setenv and unsetenv on top of putenv. The environment is a list of
-- pointers to texts, and each text knows whether its memory has been freed.
pub mod Dangling
mod Tests
use linux_programming.Base.{
  ℕ, Bool, true, false, ◌&&◌, ◌||◌, not, List, [], ◌∷◌, ◌++◌, Option, none, some, ◌==◌,
  if◌then◌else◌, map,
}
use linux_programming.Base.Int.{ℤ, pos, minus_one}
use linux_programming.Base.Bytes.{Bytes}
use linux_programming.Libc.Str.{str_eq, upto}

-- A text at an address; `live` is false once the address has been freed.
pub record Entry : Type 0 where
  pub address : ℕ
  pub text : Bytes
  pub live : Bool

abbrev pub Env : Type 0
Env = List Entry

-- "name=value" is an entry for `name`.
abbrev pub equals_sign : ℕ
equals_sign = 61

abbrev pub is_entry : Bytes → Entry → Bool
is_entry name e = str_eq (upto e.text equals_sign) name

-- getenv: the entry, not its value.
unfoldable pub getenv : Bytes → Env → Option Entry
getenv name [] = none
getenv name (e ∷ env) = if is_entry name e then some e else getenv name env

-- putenv keeps the pointer that it is given: it replaces the entry for the name, or adds one.
unfoldable pub putenv : Entry → Env → Env
putenv new [] = new ∷ []
putenv new (e ∷ env) =
    let rest = putenv new env in
    if is_entry (upto new.text equals_sign) e then new ∷ env else e ∷ rest

abbrev pub release : ℕ → Entry → Entry
release p e = record e { live = if e.address == p then false else e.live }

unfoldable pub free : ℕ → Env → Env
free p [] = []
free p (e ∷ env) = release p e ∷ free p env

pub data Errno : Type 0 where
  einval enomem unchanged : Errno

pub record Result : Type 0 where
  pub value : ℤ
  pub errno : Errno
  pub env : Env

abbrev pub result : ℤ → Errno → Env → Result
result v e env = record { value = v; errno = e; env = env }

abbrev pub is_present : Option Entry → Bool
is_present none = false
is_present (some e) = true

abbrev pub pair : ℕ → Bytes → Bytes → Entry
pair p name value = record { address = p; text = name ++ equals_sign ∷ value; live = true }

-- `memory` is what malloc returns, `put` says whether putenv succeeds; `name` is `none` for NULL.
unfoldable pub my_setenv : Option ℕ → Bool → Option Bytes → Bytes → Bool → Env → Result
my_setenv memory put none value overwrite env = result minus_one einval env
my_setenv none put (some name) value overwrite env = result minus_one enomem env
my_setenv (some p) put (some name) value overwrite env =
    if overwrite || is_present (getenv name env)
    then (if put
        then result (pos 0) unchanged (free p (putenv (pair p name value) env))
        else result minus_one unchanged (free p env))
    else result (pos 0) unchanged (free p env)

unfoldable pub my_unsetenv : Option ℕ → Bool → Bytes → Env → Result
my_unsetenv none put name env = result minus_one enomem env
my_unsetenv (some p) put name env =
    if put
    then result (pos 0) unchanged (free p (putenv (pair p name []) env))
    else result minus_one unchanged (free p env)
