-- ===== src/FlockDeadlock/Start.antt =====
-- main of flock_deadlock.c before its calls of flock, and the end of both processes.
use linux_programming.Base.{Bool, true, false, ◌&&◌, Option, none, some, if◌then◌else◌}
use linux_programming.FlockDeadlock.{
  Owner, lock_un, Place, success, detected, failed, State, forked,
}

-- Whether the two calls of open and fork succeed; `none` for exit(EXIT_FAILURE). The files come as other
-- programs have them.
unfoldable pub main_start : Bool → Bool → Bool → Owner → Owner → Option State
main_start open1 open2 forks file1 file2 =
    if open1 && open2 && forks then some (forked file1 file2) else none

abbrev pub has_ended : Place → Bool
has_ended success = true
has_ended detected = true
has_ended failed = true
has_ended _ = false

-- The descriptions are closed, and their locks released, when both processes have ended.
unfoldable pub release : State → State
release s =
    if has_ended s.child_at && has_ended s.parent_at
    then record s { file1 = lock_un s.file1; file2 = lock_un s.file2 }
    else s
