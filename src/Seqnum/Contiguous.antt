-- ===== src/Seqnum/Contiguous.antt =====
-- The ranges of numbers that the servers hand out.
use linux_programming.Base.{
  ℕ, suc, ◌+◌, ◌-◌, ◌^◌, ◌≤◌, ◌≡◌, refl, ap, ltb, leb, All, ◌<◌, ◌%◌, true, List, [], ◌∷◌, Option,
  none, some, arith, Bool-cases, Option-cases, inl, inr,
}
use linux_programming.Base.Int.{ℤ, pos, pos_part, ◌+ℤ◌}
use linux_programming.Seqnum.{
  Request, Grant, add_int, Turn, grant, Server, update, serve_backup, serve_fifo, MqTurn, serve_mq,
}

-- Each grant begins where the one before it ends, from `a` to `b`.
abbrev pub Contiguous : ℤ → List Grant → ℤ → Type 0
Contiguous a [] b = a ≡ b
Contiguous a (g ∷ gs) b = (g.seq_num ≡ a) × Contiguous (add_int a g.seq_len) gs b

-- Whatever the clients do, the grants of the server without a backup are one behind the other, from its
-- first number to the number it will use next, also where a response could not be sent.
pub serve_fifo-Contiguous :
    (ts : List Turn) (n : ℤ) → Contiguous n (serve_fifo n ts).1 (serve_fifo n ts).0
unfolding serve_fifo
serve_fifo-Contiguous [] n = refl
serve_fifo-Contiguous (t ∷ ts) n = elim (Option-cases t.request) [
  | inl e ↦ rw e (serve_fifo-Contiguous ts n)
  | inr (r, e) ↦ elim (Bool-cases t.opened) [
    | inl o ↦ rw (e, o) (refl, serve_fifo-Contiguous ts (add_int n r.seq_len))
    | inr o ↦ rw (e, o) (serve_fifo-Contiguous ts n)
  ]
]

-- The server with a backup hands out the same numbers as the one without, whatever happens to the file.
pub serve_backup-serve_fifo :
    (ts : List Turn) (s : Server)
    → ((serve_backup s ts).0.seq_num, (serve_backup s ts).1) ≡ serve_fifo s.seq_num ts
unfolding serve_backup serve_fifo update
serve_backup-serve_fifo [] s = refl
serve_backup-serve_fifo (t ∷ ts) s = elim (Option-cases t.request) [
  | inl e ↦ rw e (serve_backup-serve_fifo ts s)
  | inr (r, e) ↦ elim (Bool-cases t.opened) [
    | inl o ↦
        let ih = serve_backup-serve_fifo ts (update s r t.backed_up) in
        rw (e, o) (ap (λ p. (p.0, grant r s.seq_num t.sent ∷ p.1)) ih)
    | inr o ↦ rw (e, o) (serve_backup-serve_fifo ts s)
  ]
]

-- The grants of the server on message queues are one behind the other, from its first number to the
-- number it has when its run ends, by a failing mq_receive or not.
pub serve_mq-Contiguous :
    (ts : List MqTurn) (n : ℤ) → Contiguous n (serve_mq n ts).grants (serve_mq n ts).seq_num
unfolding serve_mq
serve_mq-Contiguous [] n = refl
serve_mq-Contiguous (t ∷ ts) n = elim (Option-cases t.request) [
  | inl e ↦ rw e refl
  | inr (r, e) ↦ elim (Bool-cases t.opened) [
    | inl o ↦ rw (e, o) (refl, serve_mq-Contiguous ts (add_int n r.seq_len))
    | inr o ↦ rw (e, o) (serve_mq-Contiguous ts n)
  ]
]

-- What the requests ask for is positive, and how much it is in all.
abbrev pub asks : Option Request → ℕ
asks none = 0
asks (some r) = pos_part r.seq_len

abbrev pub Positive : Option Request → Type 0
Positive none = Unit
Positive (some r) = (k : ℕ) × (r.seq_len ≡ pos (suc k))

abbrev pub total : List Turn → ℕ
total [] = 0
total (t ∷ ts) = asks t.request + total ts

-- Each range of numbers ends before the next one begins, the first one begins at `a` or later, and all
-- end at `b` or before.
abbrev pub Apart : ℕ → List Grant → ℕ → Type 0
Apart a [] b = a ≤ b
Apart a (g ∷ gs) b =
    (m : ℕ) × (k : ℕ) × (g.seq_num ≡ pos m)
    × (g.seq_len ≡ pos (suc k))
    × (a ≤ m)
    × Apart (m + suc k) gs b

add_int_fits : (m k : ℕ) → m + k < 2 ^ 31 → add_int (pos m) (pos k) ≡ pos (m + k)
unfolding ◌+ℤ◌
add_int_fits m k h =
    let sum : leb 0 (m + k) ≡ true = ground arith in
    let w : (m + k) % 2 ^ 32 ≡ m + k = omega arith in
    let e : ltb (m + k) (2 ^ 31) ≡ true = ground arith in
    let d : m + k - (0 + 0) ≡ m + k = omega arith in rw (sum, d, w, e) refl

pub Apart-weaken : (a b c : ℕ) (gs : List Grant) → b ≤ c → Apart a gs b → Apart a gs c
Apart-weaken a b c [] h apart = omega arith
Apart-weaken a b c (g ∷ gs) h (m, k, e, f, le, rest) =
    (m, k, e, f, le, Apart-weaken (m + suc k) b c gs h rest)

-- A run that ends at the number `m`.
abbrev pub EndsAt : ℕ → ℤ × List Grant → ℕ → Type 0
EndsAt n r top = (m : ℕ) × (r.0 ≡ pos m) × (n ≤ m) × (m ≤ top) × Apart n r.1 m

pub serve_fifo-EndsAt :
    (ts : List Turn) (n : ℕ)
    → All (λ t. Positive t.request) ts
    → n + total ts < 2 ^ 31
    → EndsAt n (serve_fifo (pos n) ts) (n + total ts)
unfolding serve_fifo
serve_fifo-EndsAt [] n asked h = (n, refl, omega arith, omega arith, omega arith)
serve_fifo-EndsAt (t ∷ ts) n (positive, asked) h = elim (Option-cases t.request) [
  | inl e ↦
      let bound : n + (0 + total ts) < 2 ^ 31 = rw e at h in
      let (m, at_m, le, top, apart) = serve_fifo-EndsAt ts n asked (omega arith) in
      rw e (m, at_m, le, omega (arith, top), apart)
  | inr (r, e) ↦
      let (k, f) = rw e at positive in
      let bound : n + (suc k + total ts) < 2 ^ 31 = rw (e, f) at h in
      elim (Bool-cases t.opened) [
        | inl o ↦
            let (m, at_m, le, top, apart) = serve_fifo-EndsAt ts (n + suc k) asked (omega arith) in
            let next = add_int_fits n (suc k) (omega arith) in
            rw (e, o)
              (rw (f, next)
                (
                  m,
                  at_m,
                  omega (arith, le),
                  omega (arith, top),
                  (n, k, refl, refl, omega arith, apart),
                ))
        | inr o ↦
            let (m, at_m, le, top, apart) = serve_fifo-EndsAt ts n asked (omega arith) in
            rw (e, o, f) (m, at_m, le, omega (arith, top), apart)
      ]
]

serve_fifo-Apart :
    (ts : List Turn) (n : ℕ)
    → All (λ t. Positive t.request) ts
    → n + total ts < 2 ^ 31
    → Apart n (serve_fifo (pos n) ts).1 (n + total ts)
serve_fifo-Apart ts n asked h =
    let (m, _, _, top, apart) = serve_fifo-EndsAt ts n asked h in
    Apart-weaken n m (n + total ts) _ top apart

-- Where every request asks for at least one number and the numbers asked for fit an int in all, no
-- number is given to two clients, whatever fails on the way: each range that the server with a backup
-- grants ends before the next one begins, and the last one ends within the numbers asked for.
pub serve_backup-Apart :
    (ts : List Turn) (s : Server) (n : ℕ)
    → s.seq_num ≡ pos n
    → All (λ t. Positive t.request) ts
    → n + total ts < 2 ^ 31
    → Apart n (serve_backup s ts).1 (n + total ts)
serve_backup-Apart ts s n at_n asked h =
    rw (ap (λ p. p.1) (serve_backup-serve_fifo ts s), at_n) (serve_fifo-Apart ts n asked h)
