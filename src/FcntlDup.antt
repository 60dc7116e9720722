-- ===== src/FcntlDup.antt =====
-- CH05-FILE_IO_Further_Details/fcntl_as_dupn/fcntln_as_dupn.c: mydup and mydup2 on the table of descriptors of the
-- process, through fcntl and close.
pub mod Moves
mod Tests
use linux_programming.Base.{
  ℕ, zero, suc, ◌-◌, Bool, true, false, Option, none, some, ltb, ◌==◌, if◌then◌else◌, is_none,
}

-- What each descriptor refers to.
abbrev pub Table : Type 0
Table = ℕ → Option ℕ

abbrev pub close : ℕ → Table → Table
close fd t k = if k == fd then none else t k

abbrev pub refer : ℕ → Option ℕ → Table → Table
refer fd file t k = if k == fd then file else t k

-- The first of the `n` descriptors from `fd` on that is free.
unfoldable pub first_free : ℕ → ℕ → Table → Option ℕ
first_free zero fd t = none
first_free (suc n) fd t =
    let rest = first_free n (suc fd) t in if is_none (t fd) then some fd else rest

-- fcntl(oldfd, F_DUPFD, from), in a process with `limit` descriptors: the new one, or -1.
unfoldable pub fcntl_dupfd : ℕ → ℕ → ℕ → Table → Option ℕ
fcntl_dupfd limit oldfd from t =
    if is_none (t oldfd) then none else first_free (limit - from) from t

-- A descriptor is returned, with the table; or the process exits.
pub data Dup : Type 0 where
  returned : ℕ → Table → Dup
  exits : Dup

abbrev pub moved : ℕ → Option ℕ → Table → Dup
moved oldfd none t = exits
moved oldfd (some newfd) t = returned newfd (close oldfd (refer newfd (t oldfd) t))

-- `from` is what fcntl takes for the third argument that the call leaves out.
unfoldable pub mydup : ℕ → ℕ → ℕ → Table → Dup
mydup limit from oldfd t = moved oldfd (fcntl_dupfd limit oldfd from t) t

abbrev pub moved_to : ℕ → ℕ → Option ℕ → Table → Dup
moved_to oldfd newfd none t = exits
moved_to oldfd newfd (some res) t = returned newfd (close oldfd (refer res (t oldfd) t))

unfoldable pub mydup2 : ℕ → ℕ → ℕ → Table → Dup
mydup2 limit oldfd newfd t =
    let u = if is_none (t newfd) then t else close newfd t in
    if oldfd == newfd
    then returned newfd t
    else if is_none (t oldfd)
    then exits
    else moved_to oldfd newfd (fcntl_dupfd limit oldfd newfd u) u
