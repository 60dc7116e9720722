-- ===== src/KvServer/Arrival.antt =====
-- How the text of a request arrives in the buffer of server.c.
use linux_programming.Base.{
  take_short, ◌<◌, ◌≡◌, refl, ap, ◌∙◌, [], ◌∷◌, ◌++◌, arith, length, length-append,
}
use linux_programming.Base.Int.{ℤ}
use linux_programming.Base.Bytes.{Bytes}
use linux_programming.Libc.Shown.{Shown, print_int-Shown}
use linux_programming.Libc.Decimal.{print_int}
use linux_programming.Libc.Str.{NoNul, upto-NoNul}
use linux_programming.Seqnum.Backup.{length-print_int}
use linux_programming.KvServer.{Request, request, scan_request, string_in, read_request, buf_size}
use linux_programming.KvServer.Texts.{
  IsInt, IsWord, Fits, create_text, read_text, scan_request-create_text, scan_request-read_text,
}

NoNul-append : (xs ys : Bytes) → NoNul xs → NoNul ys → NoNul (xs ++ ys)
NoNul-append [] ys at_xs at_ys = at_ys
NoNul-append (x ∷ xs) ys (h, at_xs) at_ys = (h, NoNul-append xs ys at_xs at_ys)

Shown-NoNul : (s : Bytes) → Shown s → NoNul s
unfolding Shown
Shown-NoNul [] h = tt
Shown-NoNul (c ∷ s) (h, hs) = (ground arith, Shown-NoNul s hs)

-- A text without NUL that fits the buffer arrives whole.
string_in-NoNul : (s : Bytes) → NoNul s → length s < buf_size → string_in s ≡ s
unfolding string_in
string_in-NoNul s h lt = rw (take_short buf_size s (omega arith)) (upto-NoNul s h)

create_text-NoNul :
    (pid : ℤ) (key value : Bytes) → NoNul key → NoNul value → NoNul (create_text pid key value)
unfolding create_text
create_text-NoNul pid key value k v = (
  refl,
  (
    refl,
    NoNul-append (print_int pid) (58 ∷ (key ++ 58 ∷ value))
        (Shown-NoNul (print_int pid) (print_int-Shown pid))
        (refl, NoNul-append key (58 ∷ value) k (refl, v)),
  ),
)

read_text-NoNul : (pid : ℤ) (key : Bytes) → NoNul key → NoNul (read_text pid key)
unfolding read_text
read_text-NoNul pid key k = (
  refl,
  (
    refl,
    NoNul-append (print_int pid) (58 ∷ key) (Shown-NoNul (print_int pid) (print_int-Shown pid))
        (refl, k),
  ),
)

length-create_text :
    (pid : ℤ) (key value : Bytes)
    → IsInt pid
    → Fits key value
    → length (create_text pid key value) < buf_size
unfolding create_text
length-create_text pid key value (lo, hi) (small_k, small_v) = omega (
  arith,
  length-print_int pid lo hi,
  length-append (print_int pid) (58 ∷ (key ++ 58 ∷ value)),
  length-append key (58 ∷ value),
)

length-read_text :
    (pid : ℤ) (key : Bytes) → IsInt pid → length key < 64 → length (read_text pid key) < buf_size
unfolding read_text
length-read_text pid key (lo, hi) small =
    omega (arith, length-print_int pid lo hi, length-append (print_int pid) (58 ∷ key))

-- What the server gets out of such a text.
pub record Arrives (buf : Bytes) (r : Request) : Type 0 where
  pub in_buf : length (string_in buf) < buf_size
  pub request_is : read_request buf ≡ r

whole_text :
    (buf : Bytes) (r : Request)
    → NoNul buf
    → length buf < buf_size
    → scan_request buf ≡ r
    → Arrives buf r
unfolding read_request
whole_text buf r clean short e =
    let all = string_in-NoNul buf clean short in
    record { in_buf = rw all short; request_is = ap scan_request all ∙ e }

pub create_text-Arrives :
    (pid : ℤ) (key value : Bytes)
    → IsInt pid
    → IsWord key
    → IsWord value
    → Fits key value
    → Arrives (create_text pid key value) (request 4 b'c' pid key value)
create_text-Arrives pid key value int k v fits =
    whole_text (create_text pid key value) (request 4 b'c' pid key value)
      (create_text-NoNul pid key value k.2 v.2) (length-create_text pid key value int fits)
      (scan_request-create_text pid key value int k v)

pub read_text-Arrives :
    (pid : ℤ) (key : Bytes)
    → IsInt pid
    → IsWord key
    → length key < 64
    → Arrives (read_text pid key) (request 3 b'r' pid key [])
read_text-Arrives pid key int k small =
    whole_text (read_text pid key) (request 3 b'r' pid key []) (read_text-NoNul pid key k.2)
      (length-read_text pid key int small) (scan_request-read_text pid key int k)
