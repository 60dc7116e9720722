-- ===== src/Seqnum/Backup.antt =====
-- The backup file of seqnum_with_backup/fifo_seqnum_server.c, and a server that starts again.
use linux_programming.Base.{
  take_short, ℕ, zero, suc, ◌+◌, ◌*◌, ◌/◌, ◌%◌, ◌^◌, ◌≤◌, ◌<◌, ◌≡◌, refl, ap, true, false, List, [],
  ◌∷◌, ◌++◌, append_assoc, arith, ltb, ◌==◌, Bool-cases, Option-cases, inl, inr, All, length,
  length-append, take, drop,
}
use linux_programming.Base.Int.{ℤ, pos, negsuc, ◌≤ℤ◌, ◌+ℤ◌, to_int}
use linux_programming.Base.Bytes.{Bytes}
use linux_programming.Libc.Str.{upto}
use linux_programming.Libc.Strtol.{strtol}
use linux_programming.Libc.Decimal.{decimal_fuel, decimal, print_int}
use linux_programming.Libc.Shown.{Shown, print_int-Shown}
use linux_programming.GetNum.{int_max}
use linux_programming.GetNum.RoundTrip.{strtol-print_int}
use linux_programming.Seqnum.{
  Request, add_int, Turn, Server, print_content, write_front, update, serve_backup, started, file,
  start_backup,
}

to_int-range : (v : ℤ) → (negsuc int_max ≤ℤ to_int v) × (to_int v ≤ℤ pos int_max)
to_int-range (pos m) = elim (Bool-cases (ltb (m % 2 ^ 32) (2 ^ 31))) [
  | inl e ↦ rw e (omega arith, ground arith)
  | inr e ↦ rw e (ground arith, omega arith)
]
to_int-range (negsuc m) = elim (Bool-cases (ltb (m % 2 ^ 32) (2 ^ 31))) [
  | inl e ↦ rw e (ground arith, omega arith)
  | inr e ↦ rw e (omega arith, ground arith)
]

pub to_int-in_range : (v : ℤ) → negsuc int_max ≤ℤ v → v ≤ℤ pos int_max → to_int v ≡ v
to_int-in_range (pos m) lo hi =
    let w : m % 2 ^ 32 ≡ m = omega arith in
    let e : ltb m (2 ^ 31) ≡ true = ground arith in rw (w, e) refl
to_int-in_range (negsuc m) lo hi =
    let w : m % 2 ^ 32 ≡ m = omega arith in
    let e : ltb m (2 ^ 31) ≡ true = ground arith in rw (w, e) refl

pub length-decimal_fuel : (fuel k n : ℕ) → n < 10 ^ suc k → length (decimal_fuel fuel n) ≤ suc k
unfolding decimal_fuel
length-decimal_fuel zero k n h = omega arith
length-decimal_fuel (suc fuel) zero n h = elim (Bool-cases (ltb n 10)) [
  | inl small ↦ rw small (omega arith)
  | inr large ↦ absurd (ground arith)
]
length-decimal_fuel (suc fuel) (suc k) n h = elim (Bool-cases (ltb n 10)) [
  | inl small ↦ rw small (omega arith)
  | inr large ↦
      let power : 10 ^ suc (suc k) ≡ 10 ^ suc k * 10 = omega arith in
      let front = length-decimal_fuel fuel k (n / 10) (omega arith) in
      rw (large, length-append (decimal_fuel fuel (n / 10)) ((48 + n % 10) ∷ [])) (omega arith)
]

pub length-print_int : (v : ℤ) → negsuc int_max ≤ℤ v → v ≤ℤ pos int_max → length (print_int v) ≤ 11
unfolding print_int decimal
length-print_int (pos n) lo hi = omega (arith, length-decimal_fuel (suc n) 9 n (omega arith))
length-print_int (negsuc n) lo hi =
    omega (arith, length-decimal_fuel (suc (suc n)) 9 (suc n) (omega arith))

take_text :
    (n : ℕ) (text xs : Bytes)
    → length text < n
    → (ys : Bytes) × (take n (text ++ 0 ∷ xs) ≡ text ++ 0 ∷ ys)
take_text zero text xs h = absurd (omega arith)
take_text (suc n) [] xs h = (take n xs, refl)
take_text (suc n) (x ∷ text) xs h =
    let (ys, e) = take_text n text xs (omega arith) in (ys, ap (λ l. x ∷ l) e)

upto_text : (text ys : Bytes) → Shown text → upto (text ++ 0 ∷ ys) 0 ≡ text
unfolding upto Shown
upto_text [] ys h = refl
upto_text (x ∷ text) ys (h, hs) =
    let ne : (x == 0) ≡ false = ground arith in rw ne (ap (λ l. x ∷ l) (upto_text text ys hs))

-- The file holds the number of the server: a server that starts from it takes up that number.
abbrev pub Saved : Server → Type 0
Saved s =
    (buf : Bytes)
    → (s' : Server) × (start_backup (file s.backup_file false) buf ≡ started s')
      × (s'.seq_num ≡ s.seq_num)

write_front_text :
    (n : ℤ) (buf old : Bytes)
    → length (print_int n) ≤ 11
    → (ys : Bytes) × (write_front (print_content n buf) old ≡ print_int n ++ 0 ∷ ys)
unfolding write_front print_content
write_front_text n buf old h =
    let (ys, e) =
      take_text 21 (print_int n) (drop (suc (length (print_int n))) buf) (omega arith) in
    (
      ys ++ drop 21 old,
      rw
          (
            take_short 20 (print_int n) (omega arith),
            e,
            append_assoc (print_int n) (0 ∷ ys) (drop 21 old),
          )
          refl,
    )

start_backup_text :
    (n : ℤ) (ys buf : Bytes)
    → negsuc int_max ≤ℤ n
    → n ≤ℤ pos int_max
    → (s' : Server) × (start_backup (file (print_int n ++ 0 ∷ ys) false) buf ≡ started s')
      × (s'.seq_num ≡ n)
unfolding start_backup
start_backup_text n ys buf lo hi =
    let text = print_int n in
    let (zs, e) = take_text 21 text ys (omega (arith, length-print_int n lo hi)) in
    let later = drop (length (text ++ 0 ∷ zs)) buf in
    let some_bytes : (length (text ++ 0 ∷ ys) == 0) ≡ false =
      ground (arith, length-append text (0 ∷ ys)) in
    let parsed = strtol-print_int n (omega arith) (omega arith) in
    let line = upto_text text (zs ++ later) (print_int-Shown n) in
    let number : to_int (strtol (upto ((text ++ 0 ∷ zs) ++ later) 0) 10).value ≡ n =
      rw (append_assoc text (0 ∷ zs) later, line, parsed) (to_int-in_range n lo hi) in
    let resumed : Server = record {
      seq_num = to_int (strtol (upto ((text ++ 0 ∷ zs) ++ later) 0) 10).value;
      backup_file_content = (text ++ 0 ∷ zs) ++ later;
      backup_file = text ++ 0 ∷ ys;
    } in
    (resumed, rw (some_bytes, e) refl, number)

update-Saved : (s : Server) (r : Request) → Saved (update s r true)
unfolding update
update-Saved s r buf =
    let n = add_int s.seq_num r.seq_len in
    let (lo, hi) = to_int-range (s.seq_num +ℤ r.seq_len) in
    let (ys, e) =
      write_front_text n s.backup_file_content s.backup_file (length-print_int n lo hi) in
    rw e (start_backup_text n ys buf lo hi)

-- Where every write to the backup file succeeds, the file holds the server's number after any run, if it
-- holds it at the beginning: a server that is started again goes on with the number at which this one
-- has stopped.
pub serve_backup-Saved :
    (ts : List Turn) (s : Server)
    → Saved s
    → All (λ t. t.backed_up ≡ true) ts
    → Saved (serve_backup s ts).0
unfolding serve_backup
serve_backup-Saved [] s saved ok = saved
serve_backup-Saved (t ∷ ts) s saved (written, ok) = elim (Option-cases t.request) [
  | inl e ↦ rw e (serve_backup-Saved ts s saved ok)
  | inr (r, e) ↦ elim (Bool-cases t.opened) [
    | inl o ↦ rw (e, o, written) (serve_backup-Saved ts (update s r true) (update-Saved s r) ok)
    | inr o ↦ rw (e, o) (serve_backup-Saved ts s saved ok)
  ]
]
