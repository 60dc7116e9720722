-- ===== src/Seqnum/Restart.antt =====
-- The numbers that the server with a backup hands out when it is started again.
use mathlib.Core.Path.{subst}
use linux_programming.Base.{
  ℕ, suc, ◌+◌, ◌^◌, ◌≤◌, ◌<◌, ◌≡◌, refl, sym, ap, ◌∙◌, true, false, Bool-cases, ◌⊎◌, inl, inr, List,
  [], ◌∷◌, ◌++◌, none, some, arith, length, ◌==◌, All,
}
use linux_programming.Base.Int.{pos}
use linux_programming.Base.Bytes.{Bytes}
use linux_programming.Seqnum.{
  Grant, Turn, Server, serve_backup, file, Start, started, stopped, start_backup, serve_fifo,
}
use linux_programming.Seqnum.Mains.{
  FifoCalls, fifo_ready, then_serve, main_backup, Session, sessions,
}
use linux_programming.Seqnum.Contiguous.{
  Apart, Apart-weaken, Positive, total, EndsAt, serve_fifo-EndsAt, serve_backup-serve_fifo,
}
use linux_programming.Seqnum.Backup.{Saved, serve_backup-Saved}

-- Whatever the buffer held, the server starts from this content with this number.
abbrev pub Holds : Bytes → ℕ → Type 0
Holds content n =
    (buf : Bytes)
    → (s : Server) × (start_backup (file content false) buf ≡ started s) × (s.seq_num ≡ pos n)

abbrev file_of : Bytes → Start → Bytes
file_of content stopped = content
file_of content (started s) = s.backup_file

start_backup-file :
    (content buf : Bytes) (s : Server)
    → start_backup (file content false) buf ≡ started s
    → s.backup_file ≡ content
unfolding start_backup
start_backup-file content buf s e = elim (Bool-cases (length content == 0)) [
  | inl h ↦ sym (ap (file_of content) (rw (h, start_backup) at e))
  | inr h ↦ sym (ap (file_of content) (rw (h, start_backup) at e))
]

started-Saved :
    (content buf : Bytes) (n : ℕ) (s : Server)
    → Holds content n
    → start_backup (file content false) buf ≡ started s
    → s.seq_num ≡ pos n
    → Saved s
started-Saved content buf n s holds e at_n b =
    let (x, ex, nx) = holds b in
    let same = start_backup-file content buf s e in
    (x, subst (λ f. start_backup (file f false) b ≡ started x) (sym same) ex, nx ∙ sym at_n)

Apart-sooner : (a b c : ℕ) (gs : List Grant) → a ≤ b → Apart b gs c → Apart a gs c
Apart-sooner a b c [] h le = omega arith
Apart-sooner a b c (g ∷ gs) h (m, k, e, f, le, rest) = (m, k, e, f, omega arith, rest)

Apart-append : (a b c : ℕ) (gs hs : List Grant) → Apart a gs b → Apart b hs c → Apart a (gs ++ hs) c
Apart-append a b c [] hs x y = Apart-sooner a b c hs x y
Apart-append a b c (g ∷ gs) hs (m, k, e, f, le, rest) y =
    (m, k, e, f, le, Apart-append (m + suc k) b c gs hs rest y)

abbrev pub total_all : List Session → ℕ
total_all [] = 0
total_all (x ∷ xs) = total x.turns + total_all xs

-- The requests of a session ask for at least one number, and its writes to the backup file succeed.
abbrev pub IsRegular : Session → Type 0
IsRegular x = All (λ t. Positive t.request) x.turns × All (λ t. t.backed_up ≡ true) x.turns

-- A session that comes to its loop.
served-EndsAt :
    (s : Server) (n : ℕ) (ts : List Turn)
    → s.seq_num ≡ pos n
    → All (λ t. Positive t.request) ts
    → n + total ts < 2 ^ 31
    → EndsAt n ((serve_backup s ts).0.seq_num, (serve_backup s ts).1) (n + total ts)
served-EndsAt s n ts at_n asked fits =
    subst (λ r. EndsAt n r (n + total ts))
      (sym (serve_backup-serve_fifo ts s ∙ ap (λ k. serve_fifo k ts) at_n))
      (serve_fifo-EndsAt ts n asked fits)

served-Holds :
    (content buf : Bytes) (n m : ℕ) (s : Server) (ts : List Turn)
    → Holds content n
    → start_backup (file content false) buf ≡ started s
    → s.seq_num ≡ pos n
    → All (λ t. t.backed_up ≡ true) ts
    → (serve_backup s ts).0.seq_num ≡ pos m
    → Holds (serve_backup s ts).0.backup_file m
served-Holds content buf n m s ts holds e at_n backed at_m b =
    let (x, ex, nx) =
      serve_backup-Saved ts s (started-Saved content buf n s holds e at_n) backed b in
    (x, ex, nx ∙ at_m)

main_backup-started :
    (content buf : Bytes) (c : FifoCalls) (ts : List Turn) (s : Server)
    → start_backup (file content false) buf ≡ started s
    → main_backup (file content false) buf c ts ≡ then_serve c ts (started s)
unfolding main_backup
main_backup-started content buf c ts s e = rw e refl

sessions_next :
    (content : Bytes) (x : Session) (xs : List Session) (s : Server) (gs : List Grant)
    → main_backup (file content false) x.buf x.calls x.turns ≡ some (s, gs)
    → (sessions content (x ∷ xs)).1 ≡ gs ++ (sessions s.backup_file xs).1
unfolding sessions
sessions_next content x xs s gs e = rw (e, sessions) refl

sessions_failed :
    (content : Bytes) (x : Session) (xs : List Session)
    → main_backup (file content false) x.buf x.calls x.turns ≡ none
    → (sessions content (x ∷ xs)).1 ≡ (sessions content xs).1
unfolding sessions
sessions_failed content x xs e = rw (e, sessions) refl

then_serve_cases :
    (c : FifoCalls) (ts : List Turn) (s : Server)
    → (then_serve c ts (started s) ≡ some (serve_backup s ts))
      ⊎ (then_serve c ts (started s) ≡ none)
then_serve_cases c ts s = elim (Bool-cases (fifo_ready c)) [
  | inl e ↦ inl (rw (e) refl)
  | inr e ↦ inr (rw (e) refl)
]

-- The server with a backup is started as often as one likes, each time on the file that it has left, where
-- the set-up may fail, and is stopped between two turns; the file holds the number `n` at first. Where
-- every request asks for at least one number, the numbers asked for fit an int in all, and the writes to
-- the file succeed, no number is given twice, in one session or in two.
pub sessions-Apart :
    (xs : List Session) (content : Bytes) (n : ℕ)
    → Holds content n
    → All IsRegular xs
    → n + total_all xs < 2 ^ 31
    → Apart n (sessions content xs).1 (n + total_all xs)
unfolding sessions
sessions-Apart [] content n holds h fits = omega arith
sessions-Apart (x ∷ xs) content n holds ((asked, backed), h) fits =
    let (s, e, at_n) = holds x.buf in
    let begun = main_backup-started content x.buf x.calls x.turns s e in
    elim (then_serve_cases x.calls x.turns s) [
      | inl ready ↦
          let (m, at_m, le, top, apart) = served-EndsAt s n x.turns at_n asked (omega arith) in
          let next = served-Holds content x.buf n m s x.turns holds e at_n backed at_m in
          let later =
            sessions-Apart xs (serve_backup s x.turns).0.backup_file m next h
              (omega (arith, top)) in
          subst (λ gs. Apart n gs (n + total_all (x ∷ xs)))
            (sym (sessions_next content x xs _ _ (begun ∙ ready)))
            (Apart-weaken n (m + total_all xs) _ _ (omega (arith, top))
              (Apart-append n m _ _ _ apart later))
      | inr failed ↦
          subst (λ gs. Apart n gs (n + total_all (x ∷ xs)))
            (sym (sessions_failed content x xs (begun ∙ failed)))
            (Apart-weaken n (n + total_all xs) _ _ (omega arith)
              (sessions-Apart xs content n holds h (omega arith)))
    ]
