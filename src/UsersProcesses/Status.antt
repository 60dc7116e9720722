-- ===== src/UsersProcesses/Status.antt =====
-- A status file as the kernel writes it, read by users_processes.c.
use linux_programming.Base.{ℕ, ◌≡◌, refl, ap, false, List, [], ◌∷◌, ◌++◌, Option, none, some, All}
use linux_programming.Base.Bytes.{Bytes, codes}
use linux_programming.Libc.Str.{str_eq, upto}
use linux_programming.Pstree.Status.{skip_tabs, after_tab, strtok}
use linux_programming.Pstree.Status.RoundTrip.{
  NoTab, upto-line, skip_tabs-line, chop-line, line_not_nil, line,
}
use linux_programming.UsersProcesses.{Values, label_name, label_uid, keep, read_line, read_lines}

-- A line with another label.
unfoldable pub Other : Bytes → Type 0
Other l =
    (label : Bytes) × ((strtok l).0 ≡ some label)
    × (str_eq label label_name ≡ false)
    × (str_eq label label_uid ≡ false)

keep-other :
    (label : Bytes) (second : Option Bytes) (v : Values)
    → str_eq label label_name ≡ false
    → str_eq label label_uid ≡ false
    → keep (some label) second v ≡ some v
keep-other label none v n u = rw (n, u) refl
keep-other label (some value) v n u = rw (n, u) refl

read_line-Other : (l : Bytes) (v : Values) → Other l → read_line l v ≡ some v
unfolding read_line Other
read_line-Other l v (label, e, n, u) = rw e (keep-other label (strtok (strtok l).1).0 v n u)

pub read_lines-Other :
    (ls rest : List Bytes) (v : Values)
    → All Other ls
    → read_lines (ls ++ rest) v ≡ read_lines rest v
unfolding read_lines
read_lines-Other [] rest v h = refl
read_lines-Other (l ∷ ls) rest v (h, hs) =
    rw (read_line-Other l v h) (read_lines-Other ls rest v hs)

pub read_line-name :
    (s : Bytes) (v : Values)
    → NoTab s
    → read_line (line (codes "Name:") s) v ≡ some (record v { cmd_name_value = some s })
unfolding read_line strtok skip_tabs after_tab upto str_eq
read_line-name s v plain =
    rw (skip_tabs-line s plain, upto-line s plain, line_not_nil s, chop-line s) refl

-- The ids of a process in its status file: the real one, and the others behind a tab.
abbrev pub uid_line : Bytes → Bytes → Bytes
uid_line uid others = codes "Uid:" ++ 9 ∷ (uid ++ 9 ∷ others)

upto-tab : (s rest : Bytes) → NoTab s → upto (s ++ 9 ∷ rest) 9 ≡ s
unfolding upto
upto-tab [] rest plain = refl
upto-tab (c ∷ s) rest (h, plain) = rw h (ap (λ l. c ∷ l) (upto-tab s rest plain))

pub read_line-uid :
    (c : ℕ) (s others : Bytes) (v : Values)
    → NoTab (c ∷ s)
    → read_line (uid_line (c ∷ s) others) v ≡ some (record v { cmd_uid_value = some (c ∷ s) })
unfolding read_line strtok skip_tabs after_tab upto str_eq
read_line-uid c s others v (h, plain) = rw (h, upto-tab s others plain, h) refl
