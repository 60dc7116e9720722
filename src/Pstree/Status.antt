-- ===== src/Pstree/Status.antt =====
-- How pstree.c reads a status file of /proc, and the whole program.
pub mod RoundTrip
use linux_programming.Base.{
  ℕ, zero, suc, ◌+◌, ◌-◌, Bool, true, false, not, ◌&&◌, ◌||◌, List, [], ◌∷◌, ◌++◌, Option, none,
  some, ◌==◌, if◌then◌else◌, length, take,
}
use linux_programming.Base.Int.{ℤ, to_int}
use linux_programming.Base.Bytes.{Bytes, codes}
use linux_programming.Libc.Str.{str_eq, upto}
use linux_programming.Libc.Strtol.{strtol}
use linux_programming.Pstree.{
  Process, Processes, insert_all, Built, built, failed, runs_on, create_tree, print_tree,
}
use linux_programming.Pstree.Linked.{empty}

abbrev pub tab : ℕ
tab = 9

unfoldable pub skip_tabs : Bytes → Bytes
skip_tabs [] = []
skip_tabs (c ∷ s) = let rest = skip_tabs s in if c == tab then rest else c ∷ s

unfoldable pub after_tab : Bytes → Bytes
after_tab [] = []
after_tab (c ∷ s) = let rest = after_tab s in if c == tab then s else rest

abbrev pub nonempty : Bytes → Option Bytes
nonempty [] = none
nonempty (c ∷ s) = some (c ∷ s)

-- strtok with "\t": the token, NULL if none is left, and where the next call goes on.
unfoldable pub strtok : Bytes → Option Bytes × Bytes
strtok s = let body = skip_tabs s in (nonempty (upto body tab), after_tab body)

-- The three strings of the loop over the lines: `none` while a pointer has not been assigned.
pub record Fields : Type 0 where
  pub cmd_name_value : Option Bytes
  pub cmd_pid_value : Option Bytes
  pub cmd_ppid_value : Option Bytes

-- The token less its last character, the newline.
abbrev pub chop : Bytes → Bytes
chop s = take (length s - 1) s

abbrev pub store : Bytes → Bytes → Fields → Fields
store label value f =
    if str_eq label (codes "Name:")
    then record f { cmd_name_value = some (chop value) }
    else if str_eq label (codes "Pid:")
    then record f { cmd_pid_value = some (chop value) }
    else record f { cmd_ppid_value = some (chop value) }

abbrev pub is_label : Bytes → Bool
is_label s = str_eq s (codes "Name:") || str_eq s (codes "Pid:") || str_eq s (codes "PPid:")

abbrev pub store_token : Bytes → Option Bytes → Fields → Option Fields
store_token label none f = none
store_token label (some value) f = some (store label value f)

abbrev pub line_token : Option Bytes → Bytes → Fields → Option Fields
line_token none rest f = none
line_token (some label) rest f =
    if is_label label then store_token label (strtok rest).0 f else some f

-- One line of a status file; `none` is a use of the NULL that strtok returns.
unfoldable pub read_line : Bytes → Fields → Option Fields
read_line line f = line_token (strtok line).0 (strtok line).1 f

unfoldable pub read_lines : List Bytes → Fields → Option Fields
read_lines [] f = some f
read_lines (line ∷ lines) f = elim (read_line line f) [
  | none ↦ none
  | some f' ↦ read_lines lines f'
]

abbrev pub pid_of : Bytes → ℤ
pid_of s = to_int (strtol s 10).value

-- A pointer that was never assigned is used where the file lacks a line.
abbrev pub process_of : Fields → Option Process
process_of f = elim f.cmd_name_value [
  | none ↦ none
  | some name ↦ elim f.cmd_pid_value [
    | none ↦ none
    | some pid ↦ elim f.cmd_ppid_value [
      | none ↦ none
      | some ppid ↦ some (record { name = name; pid = pid_of pid; ppid = pid_of ppid })
    ]
  ]
]

unfoldable pub read_status : List Bytes → Option Process
read_status lines =
    elim (read_lines lines
      (record { cmd_name_value = none; cmd_pid_value = none; cmd_ppid_value = none })) [
        | none ↦ none
        | some f ↦ process_of f
      ]

-- An entry of /proc: its name, whether it is a directory, and the lines of its status file, less those
-- that fgets splits, `none` if the file does not open.
pub record DirEntry : Type 0 where
  pub d_name : Bytes
  pub is_dir : Bool
  pub status : Option (List Bytes)

abbrev pub is_nil : Bytes → Bool
is_nil [] = true
is_nil (c ∷ s) = false

-- The tests of the loop over the directory: a process has a number for its name.
abbrev pub is_process : DirEntry → Bool
is_process d =
    not (str_eq d.d_name (codes "."))
    && not (str_eq d.d_name (codes ".."))
    && d.is_dir
    && is_nil (strtol d.d_name 10).rest

-- The processes in the order of the directory; `none` is a crash, which includes the call of fclose with
-- NULL after a status file that does not open.
unfoldable pub read_processes : List DirEntry → Option (List Process)
read_processes [] = some []
read_processes (d ∷ ds) =
    let rest = read_processes ds in
    if not (is_process d) then rest else elim d.status [
      | none ↦ none
      | some lines ↦ elim (read_status lines) [
        | none ↦ none
        | some p ↦ elim rest [ none ↦ none | some ps ↦ some (p ∷ ps) ]
      ]
    ]

-- How the program ends: with what it prints and status 0, with a failure, with a crash, or not at all.
pub data Ended : Type 0 where
  printed : Bytes → Ended
  exited : Ended
  crashed : Ended
  never : Ended

abbrev pub show : ℕ → Built → Ended
show fuel (built s ghost) = printed (print_tree fuel s ghost)
show fuel failed = exited
show fuel runs_on = never

-- `dir` is what /proc holds, `none` if opendir fails; `args` says whether there are arguments.
unfoldable pub main : ℕ → Bool → Option (List DirEntry) → Ended
main fuel true dir = exited
main fuel false none = exited
main fuel false (some ds) = elim (read_processes ds) [
  | none ↦ crashed
  | some ps ↦ show fuel (create_tree fuel (insert_all ps empty))
]
