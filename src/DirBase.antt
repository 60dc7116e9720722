-- ===== src/DirBase.antt =====
-- CH31-Threads_Thread_Safety_and_Per_Thread_Storage/dirname_basename_tsd/dirname_basename_tsd.c: basename and
-- dirname with a buffer in thread-specific data. The state is that of one thread.
pub mod Split
mod Tests
use linux_programming.Base.{
  ℕ, zero, suc, ◌+◌, Bool, true, false, List, [], ◌∷◌, Option, none, some, ltb, ◌==◌, if◌then◌else◌,
  length,
}
use linux_programming.Base.Bytes.{Bytes, codes}

-- What malloc has returned for the key: the size asked for, and the string in it.
pub record Buffer : Type 0 where
  pub size : ℕ
  pub text : Bytes

-- The two keys, and what a thread has stored for each.
pub data Key : Type 0 where
  basename_key dirname_key : Key

pub record Specific : Type 0 where
  pub of_basename : Option Buffer
  pub of_dirname : Option Buffer

-- pthread_getspecific and pthread_setspecific.
abbrev pub get : Key → Specific → Option Buffer
get basename_key t = t.of_basename
get dirname_key t = t.of_dirname

abbrev pub set : Key → Buffer → Specific → Specific
set basename_key buf t = record t { of_basename = some buf }
set dirname_key buf t = record t { of_dirname = some buf }

-- A call returns the pointer that is stored for a key, with what is stored then, and leaves the caller's
-- path changed; it exits; or it uses NULL or writes past the end of the buffer.
pub data Ran : Type 0 where
  ran : Key → Specific → Option Bytes → Ran
  exits : Ran
  fault : Ran

-- strcpy(buf, s) into the buffer that is stored for the key, and the return.
unfoldable pub copy : Key → Specific → Buffer → Bytes → Option Bytes → Ran
copy key t buf s path =
    if ltb buf.size (length s + 1)
    then fault
    else ran key (set key (record buf { text = s }) t) path

-- pthread_getspecific(key), or a new buffer of strlen(path) bytes; `memory` says whether malloc succeeds. The
-- calls of pthread_once and pthread_setspecific succeed.
unfoldable pub with_buffer : Bool → Option Buffer → Option Bytes → (Buffer → Ran) → Ran
with_buffer memory (some buf) path k = k buf
with_buffer memory none none k = fault
with_buffer memory none (some path) k =
    if memory then k (record { size = length path; text = [] }) else exits

-- A slash at the end of the path is taken away.
unfoldable pub strip : Bytes → Bytes
strip [] = []
strip (c ∷ []) = if c == 47 then [] else c ∷ []
strip (c ∷ d ∷ s) = c ∷ strip (d ∷ s)

-- strrchr(path, '/'): what stands before the last slash, and what stands behind it.
unfoldable pub last_slash : Bytes → Option (Bytes × Bytes)
last_slash [] = none
last_slash (c ∷ s) = elim (last_slash s) [
  | some (before, behind) ↦ some (c ∷ before, behind)
  | none ↦ if c == 47 then some ([], s) else none
]

abbrev pub base_part : Key → Specific → Buffer → Bytes → Ran
base_part key t buf path = elim (last_slash path) [
  | none ↦ copy key t buf path (some path)
  | some (before, behind) ↦ copy key t buf behind (some path)
]

-- The last slash is overwritten in the caller's string.
abbrev pub dir_part : Key → Specific → Buffer → Bytes → Ran
dir_part key t buf path = elim (last_slash path) [
  | none ↦ copy key t buf path (some path)
  | some (before, behind) ↦ copy key t buf before (some before)
]

abbrev pub on_path :
    (Key → Specific → Buffer → Bytes → Ran) → Key → Specific → Option Bytes → Buffer → Ran
on_path part key t none buf = copy key t buf (codes ".") none
on_path part key t (some []) buf = copy key t buf (codes ".") (some [])
on_path part key t (some (c ∷ path)) buf = part key t buf (strip (c ∷ path))

unfoldable pub basename_ts : Bool → Specific → Option Bytes → Ran
basename_ts memory t path =
    with_buffer memory (get basename_key t) path (on_path base_part basename_key t path)

-- It uses the key of basename_ts.
unfoldable pub dirname_ts : Bool → Specific → Option Bytes → Ran
dirname_ts memory t path =
    with_buffer memory (get basename_key t) path (on_path dir_part basename_key t path)
