-- ===== src/Pstree/Status/RoundTrip.antt =====
-- A status file as the kernel writes it, read by pstree.c.
use linux_programming.Base.{
  suc, ◌-◌, ◌≡◌, refl, ap, ◌∙◌, false, List, [], ◌∷◌, ◌++◌, Option, none, some, arith, ◌==◌, length,
  length-append, All,
}
use linux_programming.Base.Int.{ℤ, negsuc, pos, ◌≤ℤ◌}
use linux_programming.Base.Bytes.{Bytes, codes}
use linux_programming.Libc.Str.{str_eq, upto}
use linux_programming.Libc.Decimal.{print_int}
use linux_programming.Libc.Shown.{Shown, print_int-Shown}
use linux_programming.GetNum.{int_max}
use linux_programming.GetNum.RoundTrip.{strtol-print_int}
use linux_programming.Seqnum.Backup.{to_int-in_range}
use linux_programming.Pstree.{Process}
use linux_programming.Pstree.Status.{
  skip_tabs, after_tab, strtok, nonempty, chop, Fields, read_line, read_lines, process_of,
  read_status,
}

abbrev pub NoTab : Bytes → Type 0
NoTab = All (λ c. (c == 9) ≡ false)

pub Shown-NoTab : (s : Bytes) → Shown s → NoTab s
unfolding Shown
Shown-NoTab [] shown = tt
Shown-NoTab (c ∷ s) (h, shown) = (ground arith, Shown-NoTab s shown)

pub upto-line : (s : Bytes) → NoTab s → upto (s ++ 10 ∷ []) 9 ≡ s ++ 10 ∷ []
unfolding upto
upto-line [] plain = refl
upto-line (c ∷ s) (h, plain) = rw h (ap (λ l. c ∷ l) (upto-line s plain))

pub skip_tabs-line : (s : Bytes) → NoTab s → skip_tabs (s ++ 10 ∷ []) ≡ s ++ 10 ∷ []
unfolding skip_tabs
skip_tabs-line [] plain = refl
skip_tabs-line (c ∷ s) (h, plain) = rw h refl

pub chop-line : (s : Bytes) → chop (s ++ 10 ∷ []) ≡ s
chop-line [] = refl
chop-line (c ∷ s) =
    let e : length (c ∷ s ++ 10 ∷ []) - 1 ≡ suc (length (s ++ 10 ∷ []) - 1) =
      omega (arith, length-append s (10 ∷ [])) in
    rw e (ap (λ l. c ∷ l) (chop-line s))

pub line_not_nil : (s : Bytes) → nonempty (s ++ 10 ∷ []) ≡ some (s ++ 10 ∷ [])
line_not_nil [] = refl
line_not_nil (c ∷ s) = refl

-- A line of a status file.
abbrev pub line : Bytes → Bytes → Bytes
line label value = label ++ 9 ∷ value ++ 10 ∷ []

read_line-name :
    (s : Bytes) (f : Fields)
    → NoTab s
    → read_line (line (codes "Name:") s) f ≡ some (record f { cmd_name_value = some s })
unfolding read_line strtok skip_tabs after_tab upto str_eq
read_line-name s f plain =
    rw (skip_tabs-line s plain, upto-line s plain, line_not_nil s, chop-line s) refl

read_line-pid :
    (s : Bytes) (f : Fields)
    → NoTab s
    → read_line (line (codes "Pid:") s) f ≡ some (record f { cmd_pid_value = some s })
unfolding read_line strtok skip_tabs after_tab upto str_eq
read_line-pid s f plain =
    rw (skip_tabs-line s plain, upto-line s plain, line_not_nil s, chop-line s) refl

read_line-ppid :
    (s : Bytes) (f : Fields)
    → NoTab s
    → read_line (line (codes "PPid:") s) f ≡ some (record f { cmd_ppid_value = some s })
unfolding read_line strtok skip_tabs after_tab upto str_eq
read_line-ppid s f plain =
    rw (skip_tabs-line s plain, upto-line s plain, line_not_nil s, chop-line s) refl

step :
    (l : Bytes) (ls : List Bytes) (f f' : Fields)
    → read_line l f ≡ some f'
    → read_lines (l ∷ ls) f ≡ read_lines ls f'
unfolding read_lines
step l ls f f' e = rw (e, read_lines) refl

finished :
    (ls : List Bytes) (f : Fields) (o : Option Process)
    → read_lines ls (record { cmd_name_value = none; cmd_pid_value = none; cmd_ppid_value = none })
      ≡ some f
    → process_of f ≡ o
    → read_status ls ≡ o
unfolding read_status
finished ls f o e known = rw (e, read_status) known

-- Of a status file that has a name without tabs and two ids in the range of int, pstree gets the process
-- with that name and those ids.
pub read_status-line :
    (name : Bytes) (pid ppid : ℤ)
    → NoTab name
    → negsuc int_max ≤ℤ pid
    → pid ≤ℤ pos int_max
    → negsuc int_max ≤ℤ ppid
    → ppid ≤ℤ pos int_max
    → read_status (
        line (codes "Name:") name
        ∷ line (codes "Pid:") (print_int pid)
        ∷ line (codes "PPid:") (print_int ppid)
        ∷ [])
      ≡ some (record { name = name; pid = pid; ppid = ppid })
unfolding read_lines
read_status-line name pid ppid plain lo hi lo' hi' =
    let pid_plain = Shown-NoTab (print_int pid) (print_int-Shown pid) in
    let ppid_plain = Shown-NoTab (print_int ppid) (print_int-Shown ppid) in
    let parsed = strtol-print_int pid (omega arith) (omega arith) in
    let parsed' = strtol-print_int ppid (omega arith) (omega arith) in
    let none_yet : Fields = record {
      cmd_name_value = none;
      cmd_pid_value = none;
      cmd_ppid_value = none;
    } in
    let named : Fields = record none_yet { cmd_name_value = some name } in
    let numbered : Fields = record named { cmd_pid_value = some (print_int pid) } in
    let full : Fields = record numbered { cmd_ppid_value = some (print_int ppid) } in
    let second : List Bytes =
      line (codes "Pid:") (print_int pid) ∷ line (codes "PPid:") (print_int ppid) ∷ [] in
    let third : List Bytes = line (codes "PPid:") (print_int ppid) ∷ [] in
    finished (line (codes "Name:") name ∷ second) full
      (some (record { name = name; pid = pid; ppid = ppid }))
      (step (line (codes "Name:") name) second none_yet named (read_line-name name none_yet plain)
        ∙ (step (line (codes "Pid:") (print_int pid)) third named numbered
              (read_line-pid (print_int pid) named pid_plain)
            ∙ step (line (codes "PPid:") (print_int ppid)) [] numbered full
                (read_line-ppid (print_int ppid) numbered ppid_plain)))
      (rw (parsed, parsed', to_int-in_range pid lo hi, to_int-in_range ppid lo' hi') refl)
