-- ===== src/ChildStatus/Mains.antt =====
-- main of child_status.c: the child, and the parent on what waitid reports of it.
use linux_programming.Base.{
  ℕ, ◌-◌, ◌%◌, Bool, false, List, [], ◌∷◌, ◌++◌, Option, none, some, if◌then◌else◌,
}
use linux_programming.Base.Int.{ℤ, pos, negsuc}
use linux_programming.Base.Bytes.{Bytes, codes}
use linux_programming.Libc.Str.{str_eq}
use linux_programming.GetNum.{Outcome, get_int}
use linux_programming.ChildStatus.{cld_exited, SigInfo, Watch, exits, watch_child}

-- What exit leaves of its argument.
abbrev pub low_byte : ℤ → ℕ
low_byte (pos n) = n % 256
low_byte (negsuc n) = 255 - n % 256

-- The status of the child behind getInt, which exits itself where it has no number.
abbrev pub exit_status : Outcome ℤ → ℕ
exit_status (Outcome.returns v) = low_byte v
exit_status (Outcome.exits text status) = status

-- The status with which the child exits; `none` for the loop of pause.
unfoldable pub child_end : List Bytes → Option ℕ
child_end [] = none
child_end (arg ∷ args) = some (exit_status (get_int (some arg) 0 (some (codes "exit-status"))))

-- What waitid returns: the end of the child, and then -1, since there is no child left.
abbrev pub reports : ℤ → Option ℕ → List (Option SigInfo)
reports pid none = []
reports pid (some status) =
    some (record { si_pid = pid; si_code = cld_exited; si_status = status }) ∷ none ∷ []

abbrev pub asks_help : List Bytes → Bool
asks_help [] = false
asks_help (arg ∷ args) = str_eq arg (codes "--help")

module _ (strsignal : ℕ → Bytes) (hexadecimal hexadecimal4 : ℕ → Bytes) where
  abbrev pub in_parent : List Bytes → Option ℤ → Watch
  in_parent args none = exits 1 []
  in_parent args (some pid) =
      watch_child strsignal hexadecimal hexadecimal4 [] (reports pid (child_end args))

  -- The first process, with the name of the program and its arguments, and with what it prints; `fork` is
  -- the id of the child. No signal comes to the child.
  unfoldable pub main : Bytes → List Bytes → Option ℤ → Watch
  main name args fork =
      if asks_help args then exits 1 (name ++ codes " [exit-status]\n") else in_parent args fork
