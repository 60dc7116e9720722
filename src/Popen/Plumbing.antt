-- ===== src/Popen/Plumbing.antt =====
-- Which ends of the pipe the parent and the child of my_popen have, and what my_pclose leaves.
use linux_programming.Base.{
  ℕ, ◌<◌, ◌≡◌, ◌≢◌, refl, sym, ◌∙◌, inl, inr, true, false, Bool-cases, ◌||◌, Option, none, some,
  arith, ltb, ◌==◌, ==_refl, if◌then◌else◌, lt→ltb,
}
use linux_programming.Base.Int.{ℤ, pos, ltb_ℤ}
use linux_programming.Popen.{
  reader, writer, Table, close_fd, dup2, read_type, write_type, State, Calls, stream, rejects,
  with_pipe, with_table, save_pid, in_parent, my_popen, executes, redirect, child_popen,
  exit_status, my_pclose,
}

-- All calls of my_popen succeed, with these results.
abbrev pub Succeeds : Calls → ℕ → ℕ → ℤ → Type 0
Succeeds c r w pid =
    (c.pipe ≡ some (r, w))
    × (c.fork ≡ some pid)
    × (c.close ≡ true)
    × (c.fdopen ≡ true)
    × (c.child_close ≡ true)
    × (c.child_dup2 ≡ true)
    × (c.child_close_copied ≡ true)
    × (c.execlp ≡ true)

-- The test of the type rejects no type.
rejects_none : (type : ℕ) → rejects type ≡ false
rejects_none type = ground arith

redirect-executes :
    (c : Calls) (unused from to : ℕ) (t : Table)
    → c.child_close ≡ true
    → c.child_dup2 ≡ true
    → c.child_close_copied ≡ true
    → c.execlp ≡ true
    → unused ≢ from
    → (u : Table) × (redirect c unused from to t ≡ executes u)
      × ((k : ℕ)
          → u k ≡ (if k == to then t from else if (k == unused) || (k == from) then none else t k))
redirect-executes c unused from to t ok1 ok2 ok3 ok4 ne = elim (Bool-cases (from == to)) [
  | inl e ↦ (close_fd unused t, rw (ok1, e, ok4) refl, λ k. ground arith)
  | inr e ↦ (
    close_fd from (dup2 from to (close_fd unused t)),
    rw (ok1, e, ok2, ok3, ok4) refl,
    λ k. ground arith,
  )
]

-- The two types, with the first byte of each, the end that the parent keeps, and the end and the
-- descriptor that the child uses.
pub data Mode : Type 0 where
  reading writing : Mode

abbrev pub type_of : Mode → ℕ
type_of reading = read_type
type_of writing = write_type

abbrev pub kept : {A : Type 0} → Mode → A → A → A
kept reading r w = r
kept writing r w = w

abbrev pub given : {A : Type 0} → Mode → A → A → A
given reading r w = w
given writing r w = r

abbrev pub child_fd : Mode → ℕ
child_fd reading = 1
child_fd writing = 0

abbrev pub parent_table : Mode → ℕ → ℕ → Table → Table
parent_table m r w t = λ k.
    if k == kept m r w then some (kept m reader writer) else if k == given m r w then none else t k

abbrev pub child_table : Mode → ℕ → ℕ → Table → Table
child_table m r w t = λ k.
    if k == child_fd m
    then some (given m reader writer)
    else if (k == r) || (k == w)
    then none
    else t k

my_popen-in_parent :
    (c : Calls) (m : Mode) (r w : ℕ) (pid : ℤ) (s : State)
    → Succeeds c r w pid
    → my_popen c (type_of m) s
      ≡ in_parent c pid (given m r w) (kept m r w) (with_table (with_pipe r w s.table) s)
unfolding my_popen
my_popen-in_parent c reading r w pid s (p, f, _, _, _, _, _, _) = rw (p, f) refl
my_popen-in_parent c writing r w pid s (p, f, _, _, _, _, _, _) = rw (p, f) refl

in_parent-stream :
    (c : Calls) (pid : ℤ) (close_end save_end : ℕ) (s : State)
    → c.close ≡ true
    → c.fdopen ≡ true
    → save_end < 1024
    → in_parent c pid close_end save_end s
      ≡ stream save_end (save_pid save_end pid (with_table (close_fd close_end s.table) s))
in_parent-stream c pid close_end save_end s closes opens small =
    let inside : ltb save_end 1024 ≡ true = lt→ltb save_end 1024 small in
    rw (closes, inside, opens) refl

parent_table_lem :
    (m : Mode) (r w : ℕ) (t : Table) (k : ℕ)
    → r ≢ w
    → close_fd (given m r w) (with_pipe r w t) k ≡ parent_table m r w t k
parent_table_lem reading r w t k ne = ground arith
parent_table_lem writing r w t k ne = ground arith

kept_small : (m : Mode) (r w : ℕ) → r < 1024 → w < 1024 → kept m r w < 1024
kept_small reading r w hr hw = hr
kept_small writing r w hr hw = hw

-- What a successful my_popen leads to in both processes.
pub record Plumbed (c : Calls) (m : Mode) (r w : ℕ) (pid : ℤ) (s : State) : Type 0 where
  pub parent : State
  pub child : Table
  pub opened : my_popen c (type_of m) s ≡ stream (kept m r w) parent
  pub runs : child_popen c (type_of m) r w (with_pipe r w s.table) ≡ executes child
  pub parent_ends : (k : ℕ) → parent.table k ≡ parent_table m r w s.table k
  pub child_ends : (k : ℕ) → child k ≡ child_table m r w s.table k
  pub remembered : parent.fd_pid_map (kept m r w) ≡ pid

child_popen-redirect :
    (c : Calls) (m : Mode) (r w : ℕ) (t : Table)
    → child_popen c (type_of m) r w t ≡ redirect c (kept m r w) (given m r w) (child_fd m) t
unfolding child_popen
child_popen-redirect c reading r w t = refl
child_popen-redirect c writing r w t = refl

child_table_lem :
    (m : Mode) (r w : ℕ) (t : Table) (k : ℕ)
    → r ≢ w
    → (if k == child_fd m
        then with_pipe r w t (given m r w)
        else if (k == kept m r w) || (k == given m r w)
        then none
        else with_pipe r w t k)
      ≡ child_table m r w t k
child_table_lem reading r w t k ne = ground arith
child_table_lem writing r w t k ne = ground arith

kept-ne : (m : Mode) (r w : ℕ) → r ≢ w → kept m r w ≢ given m r w
kept-ne reading r w ne = ne
kept-ne writing r w ne = λ e. ne (sym e)

pub my_popen-Plumbed :
    (c : Calls) (m : Mode) (r w : ℕ) (pid : ℤ) (s : State)
    → Succeeds c r w pid
    → r ≢ w
    → r < 1024
    → w < 1024
    → Plumbed c m r w pid s
my_popen-Plumbed c m r w pid s ok ne hr hw =
    let (_, _, closes, opens, ok1, ok2, ok3, ok4) = ok in
    let t = with_pipe r w s.table in
    let (u, runs, ends) =
      redirect-executes c (kept m r w) (given m r w) (child_fd m) t ok1 ok2 ok3 ok4
        (kept-ne m r w ne) in
    record {
      parent = save_pid (kept m r w) pid (with_table (close_fd (given m r w) t) (with_table t s));
      child = u;
      opened =
          my_popen-in_parent c m r w pid s ok
          ∙ in_parent-stream c pid (given m r w) (kept m r w) (with_table t s) closes opens
              (kept_small m r w hr hw);
      runs = child_popen-redirect c m r w t ∙ runs;
      parent_ends = λ k. parent_table_lem m r w s.table k ne;
      child_ends = λ k. ends k ∙ child_table_lem m r w s.table k ne;
      remembered = rw (==_refl (kept m r w)) refl;
    }

-- my_pclose on a stream that my_popen has opened waits for its child and returns its exit status (-1 where
-- waitpid fails), and the parent's end of the pipe stays open.
pub my_pclose-open :
    (c : Calls) (m : Mode) (r w : ℕ) (pid : ℤ) (s : State) (wait : ℤ → Option ℕ)
    → (h : Plumbed c m r w pid s) → ltb_ℤ (pos 0) pid ≡ true
    → (my_pclose wait (some (kept m r w)) h.parent ≡ (exit_status (wait pid), h.parent))
      × (h.parent.table (kept m r w) ≡ some (kept m reader writer))
unfolding my_pclose
my_pclose-open c m r w pid s wait h positive =
    (rw (h.remembered, positive) refl, h.parent_ends (kept m r w) ∙ rw (==_refl (kept m r w)) refl)
