-- ===== src/Popen/Tests.antt =====
-- my_popen with the type "r", in a process that has the three standard descriptors.
use linux_programming.Base.{ℕ, refl, true, Option, some, none, arith, ltb, if◌then◌else◌}
use linux_programming.Base.Int.{ℤ, pos}
use linux_programming.Popen.{old, State, Calls}
use linux_programming.Popen.Plumbing.{reading, Plumbed, my_popen-Plumbed}

abbrev calls : Calls
calls = record {
  pipe = some (3, 4);
  fork = some (pos 900);
  close = true;
  fdopen = true;
  child_close = true;
  child_dup2 = true;
  child_close_copied = true;
  execlp = true;
}

abbrev shell : State
shell = record { table = λ k. if ltb k 3 then some (old k) else none; fd_pid_map = λ k. pos 0 }

-- A child that exits with 2.
abbrev wait : ℤ → Option ℕ
wait pid = some 512

abbrev plumbed : Plumbed calls reading 3 4 (pos 900) shell
plumbed =
    my_popen-Plumbed calls reading 3 4 (pos 900) shell
      (refl, refl, refl, refl, refl, refl, refl, refl) (omega arith) (omega arith) (omega arith)
