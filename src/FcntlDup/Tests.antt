-- ===== src/FcntlDup/Tests.antt =====
-- mydup and mydup2 in a process with the three standard descriptors and a file.
use linux_programming.Base.{◌+◌, ◌≡◌, refl, some, none, arith, ltb, if◌then◌else◌}
use linux_programming.FcntlDup.{
  Table, returned, close, refer, mydup, mydup2, fcntl_dupfd, first_free,
}
use linux_programming.FcntlDup.Moves.{IsMoved, mydup2-IsMoved}

abbrev process : Table
process k = if ltb k 4 then some (k + 10) else none

-- The same descriptor twice is not looked at, also where it is not open.
not_open : mydup2 1024 7 7 process ≡ returned 7 process
unfolding mydup2
not_open = refl

lowest : mydup 1024 0 3 process ≡ returned 4 (close 3 (refer 4 (some 13) process))
unfolding mydup fcntl_dupfd first_free
lowest = refl

mydup2-IsMoved_example :
    (u : Table) × (mydup2 1024 3 1 process ≡ returned 1 u) × IsMoved 3 1 process u
mydup2-IsMoved_example = mydup2-IsMoved 1024 3 1 13 process refl (omega arith) (omega arith)
