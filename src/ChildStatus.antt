-- ===== src/ChildStatus.antt =====
-- CH26-Monitoring_Child_Processes/waitid/child_status.c: a parent that reports what happens to its child. The
-- macros of <sys/wait.h> are written out on the status, a number; strsignal and
-- the two hexadecimal conversions of printf are parameters.
pub mod Misread
pub mod Mains
pub mod Reports
mod Tests
use linux_programming.Base.{
  ℕ, ◌/◌, ◌%◌, Bool, true, false, ◌&&◌, ◌||◌, List, [], ◌∷◌, ◌++◌, Option, none, some, ltb, ◌==◌,
  if◌then◌else◌,
}
use linux_programming.Base.Int.{ℤ, pos}
use linux_programming.Base.Bytes.{Bytes, codes}
use linux_programming.Libc.Decimal.{print_int}

abbrev pub wifexited : ℕ → Bool
wifexited s = s % 128 == 0

abbrev pub wifsignaled : ℕ → Bool
wifsignaled s = ltb 0 (s % 128) && ltb (s % 128) 127

abbrev pub wifstopped : ℕ → Bool
wifstopped s = s % 256 == 127

abbrev pub wifcontinued : ℕ → Bool
wifcontinued s = s == 65535

abbrev pub wexitstatus : ℕ → ℕ
wexitstatus s = s / 256 % 256

abbrev pub wtermsig : ℕ → ℕ
wtermsig s = s % 128

abbrev pub wcoredump : ℕ → Bool
wcoredump s = s / 128 % 2 == 1

-- `si_code`.
pub data Code : Type 0 where
  cld_exited cld_killed cld_dumped cld_stopped cld_trapped cld_continued : Code

-- `siginfo_t`, as far as it is used. For CLD_EXITED the kernel puts the exit value into si_status, and
-- the number of the signal for the other codes.
pub record SigInfo : Type 0 where
  pub si_pid : ℤ
  pub si_code : Code
  pub si_status : ℕ

abbrev pub code_text : Code → Bytes
code_text cld_exited = codes "Child terminated by calling _exit\n"
code_text cld_killed = codes "Child killed by a signal\n"
code_text cld_dumped = []
code_text cld_stopped = codes "Child stopped by a signal\n"
code_text cld_trapped = []
code_text cld_continued = codes "Child continued by a signal\n"

-- How a child ended, with its number; the end of the parent's loop.
pub data Watch : Type 0 where
  exits : ℕ → Bytes → Watch
  waits : Bytes → Watch

module _ (strsignal : ℕ → Bytes) (hexadecimal hexadecimal4 : ℕ → Bytes) where
  abbrev pub signal_text : ℕ → Bytes
  signal_text sig = print_int (pos sig) ++ (codes " (" ++ (strsignal sig ++ codes ")"))

  abbrev pub exited_text : ℕ → Bytes
  exited_text value = codes "child exited, status=" ++ (print_int (pos value) ++ codes "\n")

  abbrev pub killed_text : ℕ → Bool → Bytes
  killed_text sig core =
      codes "child is killed by signal "
      ++ (signal_text sig ++ ((if core then codes "(core dumped)" else []) ++ codes "\n"))

  abbrev pub stopped_text : ℕ → Bytes
  stopped_text sig = codes "child is stopped by signal " ++ (signal_text sig ++ codes "\n")

  -- The branches on si_status.
  unfoldable pub status_text : ℕ → Bytes
  status_text s =
      if wifexited s
      then exited_text (wexitstatus s)
      else if wifsignaled s
      then killed_text (wtermsig s) (wcoredump s)
      else if wifstopped s
      then stopped_text (wexitstatus s)
      else if wifcontinued s
      then codes "child is continued\n"
      else codes "what happened to this child? (status=" ++ (hexadecimal s ++ codes ")\n")

  unfoldable pub print_child_info : SigInfo → Bytes
  print_child_info info =
      codes "Information gathered from si_code\n------------------------------:\n"
      ++ (code_text info.si_code
          ++ (codes "\n\nInformation gathered from si_status\n----------------------------:\n"
              ++ status_text info.si_status))

  -- The line that the parent prints of the result of waitid.
  unfoldable pub returned_text : SigInfo → Bytes
  returned_text info =
      codes "waitid() returned: PID="
      ++ (print_int info.si_pid
          ++ (codes "; status=0x"
              ++ (hexadecimal4 info.si_status
                  ++ (codes " ("
                      ++ (print_int (pos (info.si_status / 256))
                          ++ (codes ","
                              ++ (print_int (pos (info.si_status % 256)) ++ codes ")\n")))))))

  -- The parent's loop, over what waitid returns (`none` for -1), with what has been
  -- printed. It exits when the status looks like that of a child that has ended.
  unfoldable pub watch_child : Bytes → List (Option SigInfo) → Watch
  watch_child printed [] = waits printed
  watch_child printed (none ∷ rest) = exits 1 printed
  watch_child printed (some info ∷ rest) =
      let all = printed ++ (returned_text info ++ print_child_info info) in
      let next = watch_child all rest in
      if wifexited info.si_status || wifsignaled info.si_status then exits 0 all else next
