-- ===== src/UsersProcesses/Listing.antt =====
-- What users_processes.c prints of a /proc with status files as the kernel writes them.
use linux_programming.Base.{
  ℕ, zero, suc, ◌+◌, ◌*◌, ◌/◌, ◌%◌, ◌^◌, ◌<◌, ◌≤◌, ◌≡◌, ◌≢◌, inl, inr, refl, sym, ap, ◌∙◌, true,
  false, Bool-cases, List, [], ◌∷◌, ◌++◌, append-nil, map, Option, none, some, arith, ltb, ◌==◌,
  if◌then◌else◌, All, length, length-append, lt→ltb,
}
use linux_programming.Base.Int.{pos, pos_part, to_int}
use linux_programming.Base.Bytes.{Bytes, codes}
use linux_programming.Libc.Str.{str_eq, str_eq_refl, eq_of_str_eq}
use linux_programming.Libc.Decimal.{print_int, decimal, decimal_fuel}
use linux_programming.Libc.Shown.{print_int-Shown}
use linux_programming.Libc.Strtol.{strtol}
use linux_programming.GetNum.RoundTrip.{strtol-print_int, decimal-digits}
use linux_programming.Seqnum.Backup.{to_int-in_range, length-decimal_fuel}
use linux_programming.Pstree.Status.{DirEntry, is_nil, is_process}
use linux_programming.Pstree.Status.RoundTrip.{NoTab, Shown-NoTab, line}
use linux_programming.UsersProcesses.{
  user_id_from_name, Values, read_line, read_lines, process_text, status_text, list_processes,
  printed, overruns, main,
}
use linux_programming.UsersProcesses.Status.{
  Other, uid_line, read_lines-Other, read_line-name, read_line-uid,
}
use mathlib.Core.Path.{subst}

-- A process: its number, its name, its real user, the rest of the line with the ids, and the lines before,
-- between and behind those that are read.
pub record Proc : Type 0 where
  pub pid : ℕ
  pub name : Bytes
  pub uid : ℕ
  pub other_ids : Bytes
  pub before : List Bytes
  pub between : List Bytes
  pub behind : List Bytes

unfoldable pub status_file : Proc → List Bytes
status_file p =
    p.before
    ++ line (codes "Name:") p.name
      ∷ (p.between ++ uid_line (print_int (pos p.uid)) p.other_ids ∷ p.behind)

unfoldable pub Sound : Proc → Type 0
Sound p =
    (p.pid < 2 ^ 31)
    × NoTab p.name
    × (p.uid < 2 ^ 31)
    × All Other p.before
    × All Other p.between
    × All Other p.behind

-- An entry of /proc: that of a process, or one that the program passes over.
pub data Item : Type 0 where
  process : Proc → Item
  passed : DirEntry → Item

abbrev pub entry : Item → DirEntry
entry (process p) = record {
  d_name = print_int (pos p.pid);
  is_dir = true;
  status = some (status_file p);
}
entry (passed d) = d

unfoldable pub SoundItem : Item → Type 0
SoundItem (process p) = Sound p
SoundItem (passed d) = is_process d ≡ false

-- What should be printed: the processes whose real user is `u`, in the order of the directory.
unfoldable pub expected : Bytes → ℕ → List Item → Bytes
expected user u [] = []
expected user u (process p ∷ items) =
    let rest = expected user u items in
    (if u == p.uid
      then process_text p.name (print_int (pos p.pid)) user (print_int (pos p.uid))
      else [])
    ++ rest
expected user u (passed d ∷ items) = expected user u items

print_int-cons : (n : ℕ) → (c : ℕ) × (s : Bytes) × (print_int (pos n) ≡ c ∷ s) × (48 ≤ c)
unfolding print_int
print_int-cons n = let (c, s, e, lo, hi, known) = decimal-digits n in (c, s, e, lo)

read_lines-step :
    (l : Bytes) (rest : List Bytes) (v w : Values)
    → read_line l v ≡ some w
    → read_lines (l ∷ rest) v ≡ read_lines rest w
unfolding read_lines
read_lines-step l rest v w e = rw e refl

read_line-id :
    (n : ℕ) (others : Bytes) (v : Values)
    → read_line (uid_line (print_int (pos n)) others) v
      ≡ some (record v { cmd_uid_value = some (print_int (pos n)) })
read_line-id n others v =
    let (c, s, e, lo) = print_int-cons n in
    let plain : NoTab (c ∷ s) =
      subst NoTab e (Shown-NoTab (print_int (pos n)) (print_int-Shown (pos n))) in
    rw e (read_line-uid c s others v plain)

read_lines-nil : (v : Values) → read_lines [] v ≡ some v
unfolding read_lines
read_lines-nil v = refl

read_lines-status_file :
    (p : Proc) (v : Values)
    → Sound p
    → read_lines (status_file p) v
      ≡ some (record { cmd_name_value = some p.name; cmd_uid_value = some (print_int (pos p.uid)) })
unfolding status_file Sound
read_lines-status_file p v (_, plain, _, before, between, behind) =
    let id = uid_line (print_int (pos p.uid)) p.other_ids in
    let named : Values = record v { cmd_name_value = some p.name } in
    let full : Values = record named { cmd_uid_value = some (print_int (pos p.uid)) } in
    read_lines-Other p.before _ v before
    ∙ (read_lines-step (line (codes "Name:") p.name) _ v named (read_line-name p.name v plain)
        ∙ (read_lines-Other p.between _ named between
            ∙ (read_lines-step id p.behind named full (read_line-id p.uid p.other_ids named)
                ∙ (ap (λ ls. read_lines ls full) (sym (append-nil p.behind))
                    ∙ (read_lines-Other p.behind [] full behind ∙ read_lines-nil full)))))

dot_name : (t : Bytes) (c : ℕ) (s : Bytes) → t ≡ c ∷ s → 48 ≤ c → str_eq t (codes ".") ≡ false
unfolding str_eq
dot_name t c s e lo = let ne : (c == 46) ≡ false = ground arith in rw (e, ne) refl

dots_name : (t : Bytes) (c : ℕ) (s : Bytes) → t ≡ c ∷ s → 48 ≤ c → str_eq t (codes "..") ≡ false
unfolding str_eq
dots_name t c s e lo = let ne : (c == 46) ≡ false = ground arith in rw (e, ne) refl

print_int-ne : (m n : ℕ) → m < 2 ^ 31 → n < 2 ^ 31 → m ≢ n → print_int (pos m) ≢ print_int (pos n)
print_int-ne m n hm hn ne texts =
    let read_m = strtol-print_int (pos m) (omega arith) (omega arith) in
    let read_n = strtol-print_int (pos n) (omega arith) (omega arith) in
    let values : pos m ≡ pos n =
      sym (ap (λ r. r.value) read_m)
      ∙ (ap (λ s. (strtol s 10).value) texts ∙ ap (λ r. r.value) read_n) in
    ne (ap pos_part values)

-- Printed numbers are the same where the numbers are.
print_int-== :
    (m n : ℕ) → m < 2 ^ 31 → n < 2 ^ 31 → str_eq (print_int (pos m)) (print_int (pos n)) ≡ (m == n)
print_int-== m n hm hn = elim (Bool-cases (m == n)) [
  | inl e ↦ let same : m ≡ n = ground arith in rw (e, same) (str_eq_refl (print_int (pos n)))
  | inr e ↦ elim (Bool-cases (str_eq (print_int (pos m)) (print_int (pos n)))) [
    | inl t ↦ absurd (
        print_int-ne m n hm hn (ground arith)
          (eq_of_str_eq (print_int (pos m)) (print_int (pos n)) t))
    | inr f ↦ f ∙ sym e
  ]
]

is_process-print_int :
    (pid : ℕ) (lines : Option (List Bytes))
    → pid < 2 ^ 31
    → is_process (record { d_name = print_int (pos pid); is_dir = true; status = lines }) ≡ true
is_process-print_int pid lines h =
    let (c, s, e, lo) = print_int-cons pid in
    let all_read : is_nil (strtol (print_int (pos pid)) 10).rest ≡ true =
      ap (λ r. is_nil r.rest) (strtol-print_int (pos pid) (omega arith) (omega arith)) in
    rw (dot_name (print_int (pos pid)) c s e lo, dots_name (print_int (pos pid)) c s e lo, all_read)
      refl

uid_range : (p : Proc) → Sound p → p.uid < 2 ^ 31
unfolding Sound
uid_range p (_, _, range, _, _, _) = range

pid_range : (p : Proc) → Sound p → p.pid < 2 ^ 31
unfolding Sound
pid_range p (range, _, _, _, _, _) = range

status_text-status_file :
    (user pid : Bytes) (u : ℕ) (p : Proc)
    → u < 2 ^ 31
    → Sound p
    → status_text user (print_int (pos u)) pid (some (status_file p))
      ≡ some (if u == p.uid then process_text p.name pid user (print_int (pos p.uid)) else [])
unfolding status_text
status_text-status_file user pid u p hu h =
    let none_yet : Values = record { cmd_name_value = none; cmd_uid_value = none } in
    rw (read_lines-status_file p none_yet h, print_int-== u p.uid hu (uid_range p h)) refl

list_processes-expected :
    (user : Bytes) (u : ℕ) (items : List Item)
    → u < 2 ^ 31
    → All SoundItem items
    → list_processes user (print_int (pos u)) (map entry items) ≡ some (expected user u items)
unfolding list_processes expected SoundItem
list_processes-expected user u [] hu h = refl
list_processes-expected user u (process p ∷ items) hu (h, hs) =
    let here = status_text-status_file user (print_int (pos p.pid)) u p hu h in
    let is_one = is_process-print_int p.pid (some (status_file p)) (pid_range p h) in
    rw (is_one, here, list_processes-expected user u items hu hs) refl
list_processes-expected user u (passed d ∷ items) hu (h, hs) =
    rw h (list_processes-expected user u items hu hs)

short_id : (u : ℕ) → u < 100000 → length (print_int (pos u)) < 6
unfolding print_int decimal
short_id u h = omega (arith, length-decimal_fuel (suc u) 4 u (omega arith))

-- For a user whose id has at most five digits, the processes that have this real user are printed, each
-- once and in the order of /proc, and no others: where each status file opens and has its name (without
-- tabs) before its ids, and numbers are in the range of int.
pub main-expected :
    (getpwnam : Bytes → Option ℕ) (user : Bytes) (u : ℕ) (items : List Item)
    → str_eq user (codes "--help") ≡ false
    → user_id_from_name getpwnam user ≡ u
    → u < 100000
    → All SoundItem items
    → main getpwnam (user ∷ []) (some (map entry items)) ≡ printed (expected user u items)
unfolding main
main-expected getpwnam user u items no_help found small h =
    let id : to_int (pos (user_id_from_name getpwnam user)) ≡ pos u =
      ap (λ k. to_int (pos k)) found ∙ to_int-in_range (pos u) (omega arith) (omega arith) in
    let fits : ltb (length (print_int (pos u))) 6 ≡ true = lt→ltb _ 6 (short_id u small) in
    rw (no_help, id, fits, list_processes-expected user u items (omega arith) h) refl

ten_power : (k : ℕ) → 0 < 10 ^ k
ten_power zero = omega arith
ten_power (suc k) = omega (arith, ten_power k)

length-decimal_fuel_low : (fuel k n : ℕ) → n < fuel → 10 ^ k ≤ n → k < length (decimal_fuel fuel n)
unfolding decimal_fuel
length-decimal_fuel_low zero k n hf h = absurd (omega arith)
length-decimal_fuel_low (suc fuel) zero n hf h = elim (Bool-cases (ltb n 10)) [
  | inl small ↦ rw small (omega arith)
  | inr large ↦
      rw (large, length-append (decimal_fuel fuel (n / 10)) ((48 + n % 10) ∷ [])) (omega arith)
]
length-decimal_fuel_low (suc fuel) (suc k) n hf h =
    let power : 10 ^ suc k ≡ 10 ^ k * 10 = omega arith in
    let positive : 0 < 10 ^ k = ten_power k in
    let large : ltb n 10 ≡ false = ground arith in
    let front = length-decimal_fuel_low fuel k (n / 10) (omega arith) (omega arith) in
    rw (large, length-append (decimal_fuel fuel (n / 10)) ((48 + n % 10) ∷ [])) (omega arith)

long_id : (u : ℕ) → 100000 ≤ u → 6 ≤ length (print_int (pos u))
unfolding print_int decimal
long_id u h = omega (arith, length-decimal_fuel_low (suc u) 5 u (omega arith) (omega arith))

not_below : (a : ℕ) → 6 ≤ a → ltb a 6 ≡ false
not_below a h = ground arith

-- For a user whose id has six digits or more, the id is written beyond the end of its array.
main-overruns :
    (getpwnam : Bytes → Option ℕ) (user : Bytes) (u : ℕ) (dir : Option (List DirEntry))
    → str_eq user (codes "--help") ≡ false
    → user_id_from_name getpwnam user ≡ u
    → 100000 ≤ u
    → u < 2 ^ 31
    → main getpwnam (user ∷ []) dir ≡ overruns
unfolding main
main-overruns getpwnam user u dir no_help found large range =
    let id : to_int (pos (user_id_from_name getpwnam user)) ≡ pos u =
      ap (λ k. to_int (pos k)) found ∙ to_int-in_range (pos u) (omega arith) (omega arith) in
    let long : ltb (length (print_int (pos u))) 6 ≡ false = not_below _ (long_id u large) in
    rw (no_help, id, long) refl
