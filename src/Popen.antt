-- ===== src/Popen.antt =====
-- CH44-Pipes_and_FIFOs/popen_pclose/popen_pclose.c: my_popen in the parent and in the child, and my_pclose. A
-- process is its table of file descriptors; what the system calls return is an input.
pub mod Plumbing
mod Tests
use linux_programming.Base.{
  ℕ, ◌/◌, ◌%◌, Bool, true, false, not, ◌||◌, Option, none, some, ltb, ◌==◌, if◌then◌else◌,
}
use linux_programming.Base.Int.{ℤ, pos, minus_one, ltb_ℤ}

-- What a descriptor refers to: an end of the pipe of my_popen, or a file from before.
pub data File : Type 0 where
  reader writer : File
  old : ℕ → File

abbrev pub Table : Type 0
Table = ℕ → Option File

abbrev pub close_fd : ℕ → Table → Table
close_fd fd t = λ k. if k == fd then none else t k

abbrev pub dup2 : ℕ → ℕ → Table → Table
dup2 from to t = λ k. if k == to then t from else t k

abbrev pub read_type : ℕ
read_type = 114

abbrev pub write_type : ℕ
write_type = 119

abbrev pub map_size : ℕ
map_size = 1024

-- The parent, with FDPIDMAP.
pub record State : Type 0 where
  pub table : Table
  pub fd_pid_map : ℕ → ℤ

-- The results of the calls: the two descriptors of pipe, the process id of fork, and whether the calls
-- in the parent and in the child succeed.
pub record Calls : Type 0 where
  pub pipe : Option (ℕ × ℕ)
  pub fork : Option ℤ
  pub close : Bool
  pub fdopen : Bool
  pub child_close : Bool
  pub child_dup2 : Bool
  pub child_close_copied : Bool
  pub execlp : Bool

-- What my_popen returns in the parent: NULL, or a stream on a descriptor. `overruns` is a write beyond
-- the end of FDPIDMAP.
pub data Opened : Type 0 where
  null overruns : State → Opened
  stream : ℕ → State → Opened

-- The test of the type.
abbrev pub rejects : ℕ → Bool
rejects type = not (not (type == read_type) || not (type == write_type))

abbrev pub with_pipe : ℕ → ℕ → Table → Table
with_pipe r w t = λ k. if k == r then some reader else if k == w then some writer else t k

abbrev pub with_table : Table → State → State
with_table t s = record { table = t; fd_pid_map = s.fd_pid_map }

abbrev pub save_pid : ℕ → ℤ → State → State
save_pid fd pid s = record {
  table = s.table;
  fd_pid_map = λ k. if k == fd then pid else s.fd_pid_map k;
}

-- The parent behind fork: it closes one end and keeps the child with the other.
abbrev pub in_parent : Calls → ℤ → ℕ → ℕ → State → Opened
in_parent c pid close_end save_end s =
    if not c.close
    then null s
    else if not (ltb save_end map_size)
    then overruns (with_table (close_fd close_end s.table) s)
    else (let t = save_pid save_end pid (with_table (close_fd close_end s.table) s) in
        if c.fdopen then stream save_end t else null t)

abbrev pub forked : Calls → ℕ → ℕ → ℕ → Option ℤ → State → Opened
forked c type r w none s = null s
forked c type r w (some pid) s =
    if type == read_type then in_parent c pid w r s else in_parent c pid r w s

abbrev pub piped : Calls → ℕ → Option (ℕ × ℕ) → State → Opened
piped c type none s = null s
piped c type (some (r, w)) s = forked c type r w c.fork (with_table (with_pipe r w s.table) s)

-- my_popen in the parent; `type` is the first byte of the type.
unfoldable pub my_popen : Calls → ℕ → State → Opened
my_popen c type s = if rejects type then null s else piped c type c.pipe s

-- The child: it runs the command with its table, or it returns NULL from my_popen to a copy of the caller.
pub data Child : Type 0 where
  executes returns_null : Table → Child

abbrev pub execute : Calls → Table → Child
execute c t = if c.execlp then executes t else returns_null t

-- `from` becomes the descriptor `to`, the other end is closed.
abbrev pub redirect : Calls → ℕ → ℕ → ℕ → Table → Child
redirect c unused from to t =
    if not c.child_close
    then returns_null t
    else (let u = close_fd unused t in
        if from == to
        then execute c u
        else if not c.child_dup2
        then returns_null u
        else if not c.child_close_copied
        then returns_null (dup2 from to u)
        else execute c (close_fd from (dup2 from to u)))

-- my_popen in the child, from a table with the pipe `r`, `w`.
unfoldable pub child_popen : Calls → ℕ → ℕ → ℕ → Table → Child
child_popen c type r w t =
    if type == read_type
    then redirect c r w 1 t
    else if type == write_type
    then redirect c w r 0 t
    else execute c t

-- my_pclose on a stream with the descriptor `fd` (`none` where fileno fails); `wait` is the status that
-- waitpid gives of a process, `none` for -1.
abbrev pub exit_status : Option ℕ → ℤ
exit_status none = minus_one
exit_status (some status) = pos (status / 256 % 256)

unfoldable pub my_pclose : (ℤ → Option ℕ) → Option ℕ → State → ℤ × State
my_pclose wait none s = (minus_one, s)
my_pclose wait (some fd) s =
    let pid = s.fd_pid_map fd in
    (if ltb_ℤ (pos 0) pid then exit_status (wait pid) else minus_one, s)
