-- ===== src/AtomicAppend.antt =====
-- CH05-FILE_IO_Further_Details/atomic_append/atomic_append.c: the program, and two processes that run it on one
-- file. A step is one system call of one process.
pub mod Interleaved
mod Tests
use linux_programming.Base.{
  ℕ, zero, suc, ◌+◌, ◌-◌, ◌%◌, ◌^◌, Bool, true, false, ◌&&◌, ◌||◌, List, [], ◌∷◌, ◌++◌, Option,
  none, some, ltb, leb, ◌==◌, if◌then◌else◌, ◌>>=◌, length,
}
use linux_programming.Base.Bytes.{Bytes, codes}
use linux_programming.Libc.Str.{str_eq}

-- The arguments behind the name of the program: `none` for the usage message, else whether the file is
-- opened with O_APPEND.
abbrev opens_append : List Bytes → Bool
opens_append (file ∷ num ∷ x ∷ []) = str_eq x (codes "x")
opens_append _ = false

unfoldable pub parse : List Bytes → Option Bool
parse [] = none
parse (file ∷ args) =
    let argc = 2 + length args in
    if ltb argc 3 || ltb 5 argc || str_eq file (codes "--help")
    then none
    else some (opens_append (file ∷ args))

abbrev pub int_max : ℕ
int_max = 2 ^ 31 - 1

-- The byte that turn `i` of the loop writes, where i + 33 is in the range of int.
abbrev pub character : ℕ → ℕ
character i = (i + 33) % 127

-- A process in its loop: `left` turns are to come, the next one has number `i`; `offset` is where lseek has
-- put it, before the write of that turn.
pub record Process : Type 0 where
  pub append : Bool
  pub i : ℕ
  pub left : ℕ
  pub offset : Option ℕ

-- write of one byte at an offset: in the file, or at its end; a gap is filled with NUL bytes.
unfoldable pub write_at : ℕ → ℕ → Bytes → Bytes
write_at zero c [] = c ∷ []
write_at zero c (b ∷ file) = c ∷ file
write_at (suc k) c [] = 0 ∷ write_at k c []
write_at (suc k) c (b ∷ file) = b ∷ write_at k c file

abbrev after_write : Process → ℕ → Process
after_write p left = record { append = p.append; i = suc p.i; left = left; offset = none }

-- The next call of a process: lseek, or write (which fails where `works` is false, and ends the process).
-- With O_APPEND the byte goes to the end that the file has at the write.
abbrev pub turn : Bool → Bool → Option ℕ → ℕ → Process → Bytes → Option (Process × Bytes)
turn works append offset zero p file = none
turn true true offset (suc left) p file = some (after_write p left, file ++ character p.i ∷ [])
turn true false (some k) (suc left) p file =
    some (after_write p left, write_at k (character p.i) file)
turn works false none (suc left) p file = some (record p { offset = some (length file) }, file)
turn false append offset (suc left) p file = some (record p { left = 0 }, file)

-- Where i + 33 leaves the range of int the turn is undefined: there is no step.
unfoldable pub call : Bool → Process → Bytes → Option (Process × Bytes)
call works p file =
    if leb (p.i + 33) int_max then turn works p.append p.offset p.left p file else none

pub record State : Type 0 where
  pub file : Bytes
  pub p1 : Process
  pub p2 : Process

pub data Event : Type 0 where
  first second : Bool → Event

unfoldable pub step : Event → State → Option State
step (first works) s =
    call works s.p1 s.file >>= λ (p, file). some (record s { file = file; p1 = p })
step (second works) s =
    call works s.p2 s.file >>= λ (p, file). some (record s { file = file; p2 = p })

unfoldable pub run : List Event → State → Option State
run [] s = some s
run (e ∷ es) s = step e s >>= run es

-- A process behind open and strtol.
abbrev pub opened : Bool → ℕ → Process
opened append num_bytes = record { append = append; i = 0; left = num_bytes; offset = none }
