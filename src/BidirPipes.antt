-- ===== src/BidirPipes.antt =====
-- CH44-Pipes_and_FIFOs/bidirectional_pipes/bidirectional_pipes.c: a parent that sends what is typed to its child
-- and prints what comes back in upper case. A turn is one pass of both loops; what the user types is an
-- input, the calls on the pipes succeed.
pub mod Line
pub mod Upper
mod Tests
use linux_programming.Base.{
  ℕ, ◌-◌, Bool, true, false, ◌&&◌, List, [], ◌∷◌, ◌++◌, Option, none, some, leb, ◌==◌,
  if◌then◌else◌, ◌>>=◌, length, drop,
}
use linux_programming.Base.Bytes.{Bytes}
use linux_programming.Libc.Str.{toupper}

abbrev pub buffer_len : ℕ
buffer_len = 512

abbrev pub newline : ℕ
newline = 10

-- read puts these bytes at the start of a buffer.
abbrev pub overlay : Bytes → Bytes → Bytes
overlay got buf = got ++ drop (length got) buf

-- strchr(buffer, '\n'), and a NUL behind what it finds. `none` where the code goes past the end of the
-- buffer.
abbrev cut_here : Bytes → Option Bytes
cut_here [] = none
cut_here (c ∷ buf) = some (newline ∷ 0 ∷ buf)

unfoldable pub cut : Bytes → Option Bytes
cut [] = none
cut (c ∷ buf) =
    let rest = cut buf in
    if c == 0
    then some (c ∷ buf)
    else if c == newline
    then cut_here buf
    else rest >>= λ b. some (c ∷ b)

-- The loop over the characters before the NUL.
unfoldable pub upper : Bytes → Option Bytes
upper [] = none
upper (c ∷ buf) =
    let rest = upper buf in if c == 0 then some (c ∷ buf) else (rest >>= λ b. some (toupper c ∷ b))

-- The string in a buffer, which strlen measures.
unfoldable pub string : Bytes → Option Bytes
string [] = none
string (c ∷ buf) = let rest = string buf in if c == 0 then some [] else (rest >>= λ s. some (c ∷ s))

-- One pass of the child's loop: what it writes, and its buffer.
unfoldable pub child_turn : Bytes → Bytes → Option (Bytes × Bytes)
child_turn got buf =
    cut (overlay got buf) >>= λ b. upper b >>= λ b'. string b' >>= λ s. some (s, b')

-- A pass of the parent's loop: it prints something, and both buffers are as given; it waits for ever for
-- the child; or one of them goes past the end of its buffer.
pub data Turn : Type 0 where
  shows : Bytes → Bytes → Bytes → Turn
  waits fault : Turn

-- The parent behind its read from the child.
abbrev pub show : Bytes → Option Bytes → Turn
show child none = fault
show child (some parent) = elim (string parent) [ none ↦ fault | some s ↦ shows s parent child ]

-- The child has written `s`; where that is empty there is nothing to read.
abbrev pub receive : Bytes → Option (Bytes × Bytes) → Turn
receive parent none = fault
receive parent (some ([], child)) = waits
receive parent (some (b ∷ s, child)) = show child (cut (overlay (b ∷ s) parent))

-- The whole buffer is sent, whatever has been read; `none` for a read that fails.
abbrev pub typed_in : Option Bytes → Bytes → Bytes
typed_in none parent = parent
typed_in (some typed) parent = overlay typed parent

unfoldable pub turn : Option Bytes → Bytes → Bytes → Turn
turn typed parent child = let sent = typed_in typed parent in receive sent (child_turn sent child)

-- What has been printed, and how far the loops have come.
pub data End : Type 0 where
  at : Bytes → Bytes → End
  waiting broken : End

pub record Printed : Type 0 where
  pub out : Bytes
  pub end : End

abbrev pub print : Bytes → Printed → Printed
print s p = record { out = s ++ p.out; end = p.end }

unfoldable pub turns : List (Option Bytes) → Bytes → Bytes → Printed
turns [] parent child = record { out = []; end = at parent child }
turns (typed ∷ rest) parent child = elim (turn typed parent child) [
  | shows s parent' child' ↦ print s (turns rest parent' child')
  | waits ↦ record { out = []; end = waiting }
  | fault ↦ record { out = []; end = broken }
]

-- The processes behind fork: which loop runs, or exit; `fork` is 0 in the child, and -1 falls through to
-- its branch.
pub data Role : Type 0 where
  parent_loop child_loop exits : Role

unfoldable pub role : Option ℕ → Bool → Bool → Role
role none close1 close2 = if close1 && close2 then child_loop else exits
role (some pid) close1 close2 =
    if close1 && close2 then (if pid == 0 then child_loop else parent_loop) else exits
