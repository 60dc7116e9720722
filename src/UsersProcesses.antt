-- ===== src/UsersProcesses.antt =====
-- CH12-System_and_Process_Information/user_processes/users_processes.c: the processes of a user, found in
-- /proc. strtok, the entries of /proc and the test for a process are those of Pstree/Status. getpwnam is
-- a parameter: the id of a name, `none` where there is no such user.
pub mod Status
pub mod Listing
mod Tests
use linux_programming.Base.{
  ℕ, ◌+◌, ◌-◌, ◌%◌, ◌^◌, Bool, true, false, ◌||◌, List, [], ◌∷◌, ◌++◌, Option, none, some, leb, ltb,
  if◌then◌else◌, length, ◌>>=◌,
}
use linux_programming.Base.Int.{ℤ, pos, negsuc, to_int}
use linux_programming.Base.Bytes.{Bytes, codes}
use linux_programming.Libc.Str.{str_eq}
use linux_programming.Libc.Decimal.{print_int}
use linux_programming.Libc.Strtol.{Parsed, strtol}
use linux_programming.Pstree.Status.{strtok, chop, DirEntry, is_nil, is_process}

-- A value as a `uid_t`, which has 32 bits and no sign.
abbrev pub uid_of : ℤ → ℕ
uid_of (pos n) = n % 2 ^ 32
uid_of (negsuc n) = 2 ^ 32 - 1 - n % 2 ^ 32

-- `uid_t` of -1.
abbrev pub no_uid : ℕ
no_uid = uid_of (negsuc 0)

abbrev pub pw_uid : Option ℕ → ℕ
pw_uid none = no_uid
pw_uid (some uid) = uid

unfoldable pub user_id_from_name : (Bytes → Option ℕ) → Bytes → ℕ
user_id_from_name getpwnam [] = no_uid
user_id_from_name getpwnam (c ∷ name) =
    let u = strtol (c ∷ name) 10 in
    if is_nil u.rest then uid_of u.value else pw_uid (getpwnam (c ∷ name))

-- The strings of the loop over the lines: `none` while a pointer has not been assigned.
pub record Values : Type 0 where
  pub cmd_name_value : Option Bytes
  pub cmd_uid_value : Option Bytes

abbrev pub label_name : Bytes
label_name = codes "Name:"

abbrev pub label_uid : Bytes
label_uid = codes "Uid:"

-- What is kept of a line, by its first and its second token; `none` is a use of NULL.
abbrev pub keep : Option Bytes → Option Bytes → Values → Option Values
keep none second v = none
keep (some label) none v =
    if str_eq label label_name || str_eq label label_uid then none else some v
keep (some label) (some value) v =
    if str_eq label label_name
    then some (record v { cmd_name_value = some (chop value) })
    else if str_eq label label_uid
    then some (record v { cmd_uid_value = some value })
    else some v

unfoldable pub read_line : Bytes → Values → Option Values
read_line line v = keep (strtok line).0 (strtok (strtok line).1).0 v

unfoldable pub read_lines : List Bytes → Values → Option Values
read_lines [] v = some v
read_lines (line ∷ lines) v = read_line line v >>= read_lines lines

-- What is printed of a process.
unfoldable pub process_text : Bytes → Bytes → Bytes → Bytes → Bytes
process_text name pid user uid =
    codes "Process with name: "
    ++ (name
        ++ (codes " and PID: "
            ++ (pid
                ++ (codes " belongs to user "
                    ++ (user ++ (codes " with UID " ++ (uid ++ codes "\n")))))))

-- The comparison of the ids, behind which both strings are freed.
abbrev pub compare_uid : Bytes → Bytes → Bytes → Values → Option Bytes
compare_uid user user_id pid v = v.cmd_uid_value >>= λ uid.
    (v.cmd_name_value >>= λ name.
    some (if str_eq user_id uid then process_text name pid user uid else []))

-- One status file. A status file that does not open leads to fclose with NULL.
unfoldable pub status_text : Bytes → Bytes → Bytes → Option (List Bytes) → Option Bytes
status_text user user_id pid none = none
status_text user user_id pid (some lines) =
    read_lines lines (record { cmd_name_value = none; cmd_uid_value = none })
    >>= compare_uid user user_id pid

-- The loop over /proc: what is printed, `none` where the program crashes.
unfoldable pub list_processes : Bytes → Bytes → List DirEntry → Option Bytes
list_processes user user_id [] = some []
list_processes user user_id (d ∷ ds) =
    let rest = list_processes user user_id ds in
    if is_process d
    then (status_text user user_id d.d_name d.status >>= λ text.
        (rest >>= λ texts. some (text ++ texts)))
    else rest

-- How the program ends; `overruns` is a write beyond the end of `userIDStr`.
pub data Ended : Type 0 where
  printed : Bytes → Ended
  exited crashed overruns : Ended

abbrev pub user_id_str : ℕ
user_id_str = 6

abbrev pub ended : Option Bytes → Ended
ended none = crashed
ended (some text) = printed text

abbrev pub search : Bytes → Bytes → Option (List DirEntry) → Ended
search user user_id none = exited
search user user_id (some entries) = ended (list_processes user user_id entries)

abbrev pub with_user : (Bytes → Option ℕ) → Bytes → Option (List DirEntry) → Ended
with_user getpwnam user dir =
    let user_id = print_int (to_int (pos (user_id_from_name getpwnam user))) in
    if ltb (length user_id) user_id_str then search user user_id dir else overruns

-- main, with its arguments; `dir` is what /proc holds, `none` if opendir fails.
unfoldable pub main : (Bytes → Option ℕ) → List Bytes → Option (List DirEntry) → Ended
main getpwnam [] dir = exited
main getpwnam (user ∷ []) dir =
    if str_eq user (codes "--help") then exited else with_user getpwnam user dir
main getpwnam (user ∷ other ∷ others) dir = exited
