-- ===== src/FlockDeadlock.antt =====
-- CH55-File_Locking/flock_deadlock/flock_deadlock.c: a process and its child that lock two files with flock. Both use the open
-- file descriptions that the parent has made before fork. A lock of flock belongs to a description.
pub mod Undetected
pub mod Start
mod Tests
use linux_programming.Base.{List, [], ◌∷◌}

-- The owner of the lock of a file: the description of this program, or one of another program.
pub data Owner : Type 0 where
  nobody this another : Owner

-- What flock finds: it has the lock, or another description has it.
pub data Lock : Type 0 where
  taken : Owner → Lock
  held : Lock

abbrev pub lock_ex : Owner → Lock
lock_ex nobody = taken this
lock_ex this = taken this
lock_ex another = held

abbrev pub lock_un : Owner → Owner
lock_un nobody = nobody
lock_un this = nobody
lock_un another = another

pub data Who : Type 0 where
  child parent : Who

-- The calls of flock that a process is before, and its ends: with EXIT_SUCCESS, with the message that a
-- deadlock is detected, with that of perror.
pub data Place : Type 0 where
  first second unlock_first unlock_second success detected failed : Place

pub record State : Type 0 where
  pub file1 : Owner
  pub file2 : Owner
  pub child_at : Place
  pub parent_at : Place

-- A process with its two files in the order in which it locks them.
pub record View : Type 0 where
  pub mine : Owner
  pub other : Owner
  pub at : Place

-- flock without LOCK_NB waits until the lock is free.
abbrev pub first_lock : View → Lock → View
first_lock v (taken o) = record { mine = o; other = v.other; at = second }
first_lock v held = v

abbrev pub second_lock : View → Lock → View
second_lock v (taken o) = record { mine = v.mine; other = o; at = unlock_first }
second_lock v held = record { mine = v.mine; other = v.other; at = detected }

-- The next call of a process. The result of the calls that unlock is not looked at.
abbrev pub call : View → Place → View
call v first = first_lock v (lock_ex v.mine)
call v second = second_lock v (lock_ex v.other)
call v unlock_first = record { mine = lock_un v.mine; other = v.other; at = unlock_second }
call v unlock_second = record { mine = v.mine; other = lock_un v.other; at = success }
call v success = v
call v detected = v
call v failed = v

-- The next call, where it is one that fails with an error other than EWOULDBLOCK.
abbrev pub call_failing : View → Place → View
call_failing v first = record { mine = v.mine; other = v.other; at = failed }
call_failing v second = record { mine = v.mine; other = v.other; at = failed }
call_failing v unlock_first = record { mine = v.mine; other = v.other; at = unlock_second }
call_failing v unlock_second = record { mine = v.mine; other = v.other; at = success }
call_failing v success = v
call_failing v detected = v
call_failing v failed = v

-- The child locks file1 and then file2, the parent file2 and then file1.
abbrev pub view : Who → State → View
view child s = record { mine = s.file1; other = s.file2; at = s.child_at }
view parent s = record { mine = s.file2; other = s.file1; at = s.parent_at }

abbrev pub with_view : Who → State → View → State
with_view child s v = record {
  file1 = v.mine;
  file2 = v.other;
  child_at = v.at;
  parent_at = s.parent_at;
}
with_view parent s v = record {
  file1 = v.other;
  file2 = v.mine;
  child_at = s.child_at;
  parent_at = v.at;
}

-- A turn of one process: its next call, or that call failing.
pub data Turn : Type 0 where
  calls fails : Who → Turn

unfoldable pub step : Turn → State → State
step (calls w) s = let v = view w s in with_view w s (call v v.at)
step (fails w) s = let v = view w s in with_view w s (call_failing v v.at)

unfoldable pub run : State → List Turn → State
run s [] = s
run s (t ∷ ts) = run (step t s) ts

-- Behind the fork.
abbrev pub forked : Owner → Owner → State
forked file1 file2 = record { file1 = file1; file2 = file2; child_at = first; parent_at = first }
