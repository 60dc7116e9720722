-- ===== src/EchoServer/Daemon.antt =====
-- CH60-Sockets_Server_Design/limited_children/become_daemon.c: how a process becomes a daemon, with its
-- table of descriptors, its working directory and its mask. What the calls return is an input.
use linux_programming.Base.{
  ℕ, zero, suc, ◌+◌, ◌<◌, ◌≡◌, refl, ◌∙◌, Bool, true, false, not, ◌&&◌, ◌||◌, Option, none, some,
  arith, ltb, ◌==◌, if◌then◌else◌,
}
use linux_programming.Base.Int.{ℤ, pos, minus_one}
use linux_programming.GetNum.{has_flag}

-- BD_NO_CHDIR, BD_NO_CLOSE_FILES, BD_NO_REOPEN_STD_FDS, BD_NO_UMASK0 and BD_MAX_CLOSE.
abbrev pub bd_no_chdir : ℕ
bd_no_chdir = 1

abbrev pub bd_no_close_files : ℕ
bd_no_close_files = 2

abbrev pub bd_no_reopen_std_fds : ℕ
bd_no_reopen_std_fds = 4

abbrev pub bd_no_umask0 : ℕ
bd_no_umask0 = 8

abbrev pub bd_max_close : ℕ
bd_max_close = 8192

-- What a descriptor refers to.
pub data OpenFile : Type 0 where
  dev_null socket : OpenFile
  other : ℕ → OpenFile

abbrev pub Table : Type 0
Table = ℕ → Option OpenFile

pub record Process : Type 0 where
  pub table : Table
  pub at_root : Bool
  pub mask : ℕ

-- The process after fork: fork fails, it is the child, or it is the parent.
pub data Fork : Type 0 where
  fork_error in_child in_parent : Fork

-- The results of the calls: the two forks, setsid, chdir, sysconf (`none` for -1), and open of
-- /dev/null, and the two calls of dup2. `limit` is the number of descriptors that the process may have.
pub record Answers : Type 0 where
  pub first : Fork
  pub second : Fork
  pub setsid : Bool
  pub chdir : Bool
  pub open_max : Option ℕ
  pub null_opened : Bool
  pub dup2_out : Bool
  pub dup2_err : Bool
  pub limit : ℕ

-- A return with a value, or an exit with status 0.
pub data Daemon : Type 0 where
  returns : ℤ → Process → Daemon
  exits : Daemon

abbrev pub put : ℕ → Option OpenFile → Table → Table
put fd file t k = if k == fd then file else t k

-- close for `n` descriptors from `fd` on.
unfoldable pub close_from : ℕ → ℕ → Table → Table
close_from zero fd t = t
close_from (suc n) fd t = close_from n (suc fd) (put fd none t)

abbrev pub free : Option OpenFile → Bool
free none = true
free (some file) = false

-- The lowest descriptor that is free, of `n` from `fd` on.
unfoldable pub lowest : ℕ → ℕ → Table → Option ℕ
lowest zero fd t = none
lowest (suc n) fd t = let rest = lowest n (suc fd) t in if free (t fd) then some fd else rest

abbrev pub close_count : Option ℕ → ℕ
close_count none = bd_max_close
close_count (some m) = m

-- dup2(STDIN_FILENO, fd).
abbrev pub dup2_stdin : ℕ → Table → Table
dup2_stdin fd t = put fd (t 0) t

-- dup2 with its result: it fails for a descriptor that the process may not have.
abbrev dup2_next : Bool → ℕ → ℕ → Process → (Process → Daemon) → Daemon
dup2_next works limit fd p next =
    if works && ltb fd limit
    then next (record p { table = dup2_stdin fd p.table })
    else returns minus_one p

-- Behind the open of /dev/null at the descriptor that it gets.
abbrev pub reopen_at : Answers → Option ℕ → Process → Daemon
reopen_at a none p = returns minus_one p
reopen_at a (some zero) p =
    dup2_next a.dup2_out a.limit 1 (record p { table = put 0 (some dev_null) p.table })
      λ q. dup2_next a.dup2_err a.limit 2 q λ r. returns (pos 0) r
reopen_at a (some (suc fd)) p =
    returns minus_one (record p { table = put (suc fd) (some dev_null) p.table })

unfoldable pub reopen : Answers → Process → Daemon
reopen a p =
    let closed = record p { table = put 0 none p.table } in
    if a.null_opened
    then reopen_at a (lowest a.limit 0 closed.table) closed
    else returns minus_one closed

-- What follows the second fork.
unfoldable pub settle : ℕ → Answers → Process → Daemon
settle flags a p0 =
    let p1 = if has_flag flags bd_no_umask0 then p0 else record p0 { mask = 0 } in
    let p2 =
      if has_flag flags bd_no_chdir then p1 else record p1 { at_root = a.chdir || p1.at_root } in
    let p3 =
      if has_flag flags bd_no_close_files
      then p2
      else record p2 { table = close_from (close_count a.open_max) 0 p2.table } in
    if has_flag flags bd_no_reopen_std_fds then returns (pos 0) p3 else reopen a p3

abbrev pub forked : Fork → Process → Daemon → Daemon
forked fork_error p next = returns minus_one p
forked in_child p next = next
forked in_parent p next = exits

unfoldable pub become_daemon : ℕ → Answers → Process → Daemon
become_daemon flags a p =
    forked a.first p
      (if not a.setsid then returns minus_one p else forked a.second p (settle flags a p))

-- A descriptor after the loop that closes.
close_from-at :
    (n fd k : ℕ) (t : Table)
    → close_from n fd t k ≡ (if not (ltb k fd) && ltb k (fd + n) then none else t k)
unfolding close_from
close_from-at zero fd k t = ground arith
close_from-at (suc n) fd k t = ground (arith, close_from-at n (suc fd) k (put fd none t))

-- The table of a daemon.
abbrev pub daemon_table : ℕ → Table → Table
daemon_table m t k = if ltb k 3 then some dev_null else if ltb k m then none else t k

lowest_zero : (n : ℕ) (t : Table) → 0 < n → t 0 ≡ none → lowest n 0 t ≡ some 0
unfolding lowest
lowest_zero zero t h e = absurd (omega arith)
lowest_zero (suc n) t h e = rw e refl

-- The process before the standard descriptors are opened again, with all flags off.
abbrev bare : Answers → Process → Process
bare a p = record {
  table = close_from (close_count a.open_max) 0 p.table;
  at_root = a.chdir || p.at_root;
  mask = 0;
}

settle_zero : (a : Answers) (p : Process) → settle 0 a p ≡ reopen a (bare a p)
unfolding settle
settle_zero a p = refl

reopen_null :
    (a : Answers) (p : Process)
    → a.null_opened ≡ true
    → a.dup2_out ≡ true
    → a.dup2_err ≡ true
    → 2 < a.limit
    → reopen a p
      ≡ returns (pos 0) (record p {
        table = dup2_stdin 2 (dup2_stdin 1 (put 0 (some dev_null) (put 0 none p.table)));
      })
unfolding reopen
reopen_null a p opened out err room =
    let one : ltb 1 a.limit ≡ true = ground arith in
    let two : ltb 2 a.limit ≡ true = ground arith in
    rw (opened, lowest_zero a.limit (put 0 none p.table) (omega arith) refl, out, err, one, two)
      refl

detached :
    (f g : Fork) (session : Bool) (p : Process) (next : Daemon)
    → f ≡ in_child
    → session ≡ true
    → g ≡ in_child
    → forked f p (if not session then returns minus_one p else forked g p next) ≡ next
detached f g session p next e1 e2 e3 = rw (e1, e2, e3) refl

-- With no flags, where both forks give the child and the calls succeed, becomeDaemon returns 0 in the
-- grandchild; its descriptors 0, 1 and 2 are /dev/null, those below the limit of the loop are closed,
-- and the others are as they were; its mask is 0, and it is at the root unless chdir fails.
pub become_daemon-daemon_table :
    (a : Answers) (p : Process)
    → a.first ≡ in_child
    → a.second ≡ in_child
    → a.setsid ≡ true
    → a.null_opened ≡ true
    → a.dup2_out ≡ true
    → a.dup2_err ≡ true
    → 2 < a.limit
    → (q : Process) × (become_daemon 0 a p ≡ returns (pos 0) q)
      × ((k : ℕ) → q.table k ≡ daemon_table (close_count a.open_max) p.table k)
      × (q.mask ≡ 0)
      × (q.at_root ≡ (a.chdir || p.at_root))
unfolding become_daemon
become_daemon-daemon_table a p first second session opened out err room =
    let closed = bare a p in
    (
      record closed {
        table = dup2_stdin 2 (dup2_stdin 1 (put 0 (some dev_null) (put 0 none closed.table)));
      },
      detached a.first a.second a.setsid p (settle 0 a p) first session second
          ∙ (settle_zero a p ∙ reopen_null a closed opened out err room),
      λ k. ground (arith, close_from-at (close_count a.open_max) 0 k p.table),
      refl,
      refl,
    )
