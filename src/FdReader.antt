-- ===== src/FdReader.antt =====
-- CH12-System_and_Process_Information/fd_reader/fd_reader.c: the processes that have a file open, found in
-- /proc/PID/fd. The test for a process is that of Pstree/Status. A write beyond the end of an array or of
-- a block of memory is counted, and the model goes on as if it did no harm.
pub mod Report
mod Tests
use linux_programming.Base.{
  ℕ, ◌+◌, ◌-◌, Bool, true, false, ◌||◌, List, [], ◌∷◌, ◌++◌, Option, none, some, ltb, if◌then◌else◌,
  length, take,
}
use linux_programming.Base.Bytes.{Bytes, codes}
use linux_programming.Libc.Str.{str_eq}
use linux_programming.Pstree.Status.{is_process}

abbrev pub buf_size : ℕ
buf_size = 1024

-- An entry of /proc/PID/fd, with what readlink gives of it (`none` for -1).
pub record Link : Type 0 where
  pub name : Bytes
  pub target : Option Bytes

-- An entry of /proc, with what readlink gives of its "exe" and opendir of its "fd".
pub record Entry : Type 0 where
  pub d_name : Bytes
  pub is_dir : Bool
  pub exe : Option Bytes
  pub links : Option (List Link)

-- What is printed, the directories that are open, the writes beyond an end, and the blocks of malloc that are not
-- freed.
pub record State : Type 0 where
  pub out : Bytes
  pub dirs : ℕ
  pub past : ℕ
  pub blocks : ℕ

abbrev pub state : Bytes → ℕ → ℕ → ℕ → State
state out dirs past blocks = record { out = out; dirs = dirs; past = past; blocks = blocks }

-- A write to an array or a block of a size.
abbrev pub write_at : ℕ → ℕ → ℕ
write_at size index = if ltb index size then 0 else 1

-- The writes of NUL bytes for the two paths of a process, into blocks for "/proc/", its name, "/fd/" or "/exe",
-- and a NUL.
unfoldable pub path_writes : Bytes → ℕ
path_writes name =
    write_at (length name + 11) (length name + 6) + write_at (length name + 11) (length name + 11)

abbrev pub is_dots : Bytes → Bool
is_dots name = str_eq name (codes ".") || str_eq name (codes "..")

-- `faults` is a use of the argument that is not there.
pub data Scan : Type 0 where
  scanned faults : State → Scan

-- The comparison with the argument: where it is equal the executable is printed, and its block is not freed.
abbrev pub compare_link : Option Bytes → Bytes → Option Bytes → Scan → State → Scan
compare_link file exe none rest s = rest
compare_link none exe (some target) rest s = faults s
compare_link (some file) exe (some target) rest s =
    if str_eq file (take (buf_size - 1) target)
    then scanned (state (s.out ++ (exe ++ codes "\n")) s.dirs s.past (s.blocks + 1))
    else rest

-- The loop over the descriptors of a process. The path of each is one block, which is freed again.
unfoldable pub fd_loop : Option Bytes → Bytes → List Link → State → Scan
fd_loop file exe [] s = scanned s
fd_loop file exe (l ∷ ls) s =
    let rest = fd_loop file exe ls s in
    if is_dots l.name then rest else compare_link file exe l.target rest s

-- How the program ends, or that the loop goes on.
pub data Outcome : Type 0 where
  finished exits crashes : State → Outcome

pub data Next : Type 0 where
  goes : State → Next
  stops : Outcome → Next

abbrev pub free_paths : Scan → Next
free_paths (scanned s) = goes (state s.out s.dirs s.past (s.blocks - 2))
free_paths (faults s) = stops (crashes s)

-- opendir of "fd", which is never closed; it fails when the limit of open directories is reached.
abbrev pub open_links : ℕ → Option Bytes → Bytes → Option (List Link) → State → Next
open_links limit file exe none s = stops (exits s)
open_links limit file exe (some ls) s =
    if ltb s.dirs limit
    then free_paths (fd_loop file exe ls (state s.out (s.dirs + 1) s.past s.blocks))
    else stops (exits s)

-- A process. Where readlink fails one of the two blocks is freed.
abbrev pub scan_process : ℕ → Option Bytes → Option Bytes → Option (List Link) → State → Next
scan_process limit file none links s = goes (state s.out s.dirs s.past (s.blocks - 1))
scan_process limit file (some exe) links s =
    let text = take buf_size exe in
    open_links limit file text links
      (state s.out s.dirs (s.past + write_at buf_size (length text)) s.blocks)

abbrev pub is_proc : Entry → Bool
is_proc e = is_process (record { d_name = e.d_name; is_dir = e.is_dir; status = none })

unfoldable pub entry_step : ℕ → Option Bytes → Entry → State → Next
entry_step limit file e s =
    if is_proc e
    then scan_process limit file e.exe e.links
        (state s.out s.dirs (s.past + path_writes e.d_name) (s.blocks + 2))
    else goes s

-- The loop over /proc, and closedir.
unfoldable pub proc_loop : ℕ → Option Bytes → List Entry → State → Outcome
proc_loop limit file [] s = finished (state s.out (s.dirs - 1) s.past s.blocks)
proc_loop limit file (e ∷ es) s = elim (entry_step limit file e s) [
  | goes t ↦ proc_loop limit file es t
  | stops o ↦ o
]

-- main; `proc` is what /proc holds, `none` if opendir fails.
unfoldable pub main : ℕ → Option Bytes → Option (List Entry) → Outcome
main limit file none = exits (state [] 0 0 0)
main limit file (some es) = proc_loop limit file es (state [] 1 0 0)
