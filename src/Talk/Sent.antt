-- ===== src/Talk/Sent.antt =====
-- The lines that the sender of talk.c gets through, and what the receiver prints of them.

use linux_programming.Base.{
  ℕ, zero, suc, ◌+◌, ◌-◌, ◌≤◌, ◌≡◌, refl, sym, ap, ◌∙◌, Bool, true, false, List, [], ◌∷◌, ◌++◌,
  append_assoc, append-nil, leb, if◌then◌else◌, length, replicate,
}
use linux_programming.Base.Bytes.{Bytes}
use linux_programming.Libc.Str.{upto}
use linux_programming.Talk.{
  State, Event, typed, send_fails, input_ends, receives, finds_none, receive_fails, print_message,
  message,
}

-- The lines up to the first that does not fit the queue, or to the end of the sender.
abbrev pub sent : Bool → List Event → List Bytes
sent false es = []
sent true [] = []
sent true (typed line ∷ es) =
    let rest = sent true es in if leb (length line + 1) 512 then line ∷ rest else []
sent true (send_fails line ∷ es) = []
sent true (input_ends ∷ es) = []
sent true (_ ∷ es) = sent true es

abbrev pub prints : List Bytes → Bytes
prints [] = []
prints (m ∷ ms) = print_message m ++ prints ms

pub prints-append : (xs ys : List Bytes) → prints (xs ++ ys) ≡ prints xs ++ prints ys
prints-append [] ys = refl
prints-append (x ∷ xs) ys =
    ap (λ z. print_message x ++ z) (prints-append xs ys)
    ∙ sym (append_assoc (print_message x) (prints xs) (prints ys))

pub upto_zeros : (k : ℕ) → upto (replicate k 0) 0 ≡ []
unfolding upto
upto_zeros zero = refl
upto_zeros (suc k) = refl

pub upto_padded : (line : Bytes) (k : ℕ) → upto (line ++ replicate k 0) 0 ≡ upto line 0
unfolding upto
upto_padded [] k = upto_zeros k
upto_padded (b ∷ line) k = rw (upto_padded line k) refl

pub print_message-message :
    (size : ℕ) (line : Bytes) → print_message (message size line) ≡ print_message line
print_message-message size line = rw (upto_padded line (size - length line)) refl

-- What the terminal has shown and what is on the way to it.
abbrev pub all_of : State → Bytes
all_of s = s.shown ++ prints s.queue

-- The buffer has its first size as long as the sender is in its loop, and no more than eight messages wait.
abbrev pub Fits : Bool → ℕ → Type 0
Fits true size = size ≡ 512
Fits false size = Unit

abbrev pub Sound : State → Type 0
Sound s = Fits s.sending s.mq_msg_len × (length s.queue ≤ 8)

-- A call of either terminal, with `es` to come.
abbrev pub Goes : List Event → Event → State → State → Type 0
Goes es e s t =
    Sound t
    × (all_of t ++ prints (sent t.sending es) ≡ all_of s ++ prints (sent s.sending (e ∷ es)))

pub sent_receives : (b : Bool) (es : List Event) → sent b (receives ∷ es) ≡ sent b es
sent_receives true es = refl
sent_receives false es = refl

pub add_line :
    (shown msg line rest : Bytes) (queue : List Bytes)
    → print_message msg ≡ print_message line
    → (shown ++ prints (queue ++ msg ∷ [])) ++ rest
      ≡ (shown ++ prints queue) ++ (print_message line ++ rest)
add_line shown msg line rest queue h =
    let mid : prints (queue ++ msg ∷ []) ≡ prints queue ++ print_message line =
      prints-append queue (msg ∷ [])
      ∙ ap (λ z. prints queue ++ z) (append-nil (print_message msg) ∙ h) in
    ap (λ z. (shown ++ z) ++ rest) mid
    ∙ ap (λ z. z ++ rest) (sym (append_assoc shown (prints queue) (print_message line)))
    ∙ append_assoc (shown ++ prints queue) (print_message line) rest

pub sent_short :
    (line : Bytes) (es : List Event)
    → leb (length line + 1) 512 ≡ true
    → sent true (typed line ∷ es) ≡ line ∷ sent true es
sent_short line es h = rw (h) refl

pub sent_long :
    (line : Bytes) (es : List Event)
    → leb (length line + 1) 512 ≡ false
    → sent true (typed line ∷ es) ≡ []
sent_long line es h = rw (h) refl

pub sent_finds_none : (b : Bool) (es : List Event) → sent b (finds_none ∷ es) ≡ sent b es
sent_finds_none true es = refl
sent_finds_none false es = refl

pub sent_receive_fails : (b : Bool) (es : List Event) → sent b (receive_fails ∷ es) ≡ sent b es
sent_receive_fails true es = refl
sent_receive_fails false es = refl

pub sent_none : (b : Bool) → sent b [] ≡ []
sent_none true = refl
sent_none false = refl
