-- ===== src/BidirPipes/Line.antt =====
-- A line in the buffers of bidirectional_pipes.c.

use linux_programming.Base.{
  ℕ, suc, ◌≡◌, refl, ap, Bool, true, false, not, ◌&&◌, [], ◌∷◌, ◌++◌, append_assoc, append-nil, map,
  some, arith, ◌==◌, length, drop_all, length-append, drop, All,
}
use linux_programming.Base.Bytes.{Bytes}
use linux_programming.Libc.Str.{toupper}
use linux_programming.BidirPipes.{overlay, cut, upper, string, child_turn, receive, show}

-- Neither a NUL nor the end of the line.
abbrev pub is_plain : ℕ → Bool
is_plain c = not (c == 0) && not (c == 10)

abbrev pub Plain : Bytes → Type 0
Plain = All (λ c. is_plain c ≡ true)

-- A line as it is in upper case.
abbrev pub in_upper : Bytes → Bytes
in_upper = map toupper

pub cut_line :
    (l : Bytes) (c : ℕ) (rest : Bytes)
    → Plain l
    → cut (l ++ 10 ∷ c ∷ rest) ≡ some (l ++ 10 ∷ 0 ∷ rest)
unfolding cut
cut_line [] c rest h = refl
cut_line (x ∷ l) c rest (p, h) =
    let n0 : (x == 0) ≡ false = ground (arith, p) in
    let n10 : (x == 10) ≡ false = ground (arith, p) in rw (n0, n10, cut_line l c rest h) refl

pub upper_line :
    (l rest : Bytes) → Plain l → upper (l ++ 10 ∷ 0 ∷ rest) ≡ some (in_upper l ++ 10 ∷ 0 ∷ rest)
unfolding upper
upper_line [] rest h = refl
upper_line (x ∷ l) rest (p, h) =
    let n0 : (x == 0) ≡ false = ground (arith, p) in rw (n0, upper_line l rest h) refl

pub string_line : (l rest : Bytes) → Plain l → string (l ++ 10 ∷ 0 ∷ rest) ≡ some (l ++ 10 ∷ [])
unfolding string
string_line [] rest h = refl
string_line (x ∷ l) rest (p, h) =
    let n0 : (x == 0) ≡ false = ground (arith, p) in rw (n0, string_line l rest h) refl

pub toupper-plain : (c : ℕ) → is_plain c ≡ true → is_plain (toupper c) ≡ true
toupper-plain c h = ground arith

pub in_upper-Plain : (l : Bytes) → Plain l → Plain (in_upper l)
in_upper-Plain [] h = tt
in_upper-Plain (c ∷ l) (p, h) = (toupper-plain c p, in_upper-Plain l h)

pub toupper-toupper : (c : ℕ) → toupper (toupper c) ≡ toupper c
toupper-toupper c = ground arith

pub drop_line : (l rest : Bytes) → drop (length (l ++ 10 ∷ [])) (l ++ 10 ∷ rest) ≡ rest
drop_line [] rest = refl
drop_line (c ∷ l) rest = drop_line l rest

pub length-in_upper : (l : Bytes) → length (in_upper l) ≡ length l
length-in_upper [] = refl
length-in_upper (c ∷ l) = ap suc (length-in_upper l)

-- A whole buffer goes over the child's buffer.
pub overlay_all : (b buf : Bytes) → length b ≡ 512 → length buf ≡ 512 → overlay b buf ≡ b
overlay_all b buf h k = rw (drop_all (length b) buf (omega arith)) (append-nil b)

pub overlay_line :
    (u l : Bytes) (rest : Bytes)
    → length u ≡ length l
    → overlay (u ++ 10 ∷ []) (l ++ 10 ∷ rest) ≡ u ++ 10 ∷ rest
overlay_line u l rest e =
    let same : length (u ++ 10 ∷ []) ≡ length (l ++ 10 ∷ []) =
      omega (arith, e, length-append u (10 ∷ []), length-append l (10 ∷ [])) in
    rw (same, drop_line l rest) (append_assoc u (10 ∷ []) rest)

pub receive_line :
    (s parent child : Bytes)
    → receive parent (some (s ++ 10 ∷ [], child)) ≡ show child (cut (overlay (s ++ 10 ∷ []) parent))
receive_line [] parent child = refl
receive_line (c ∷ s) parent child = refl

pub child_turn_line :
    (l : Bytes) (c : ℕ) (rest child : Bytes)
    → Plain l
    → length (l ++ 10 ∷ c ∷ rest) ≡ 512
    → length child ≡ 512
    → child_turn (l ++ 10 ∷ c ∷ rest) child
      ≡ some (in_upper l ++ 10 ∷ [], in_upper l ++ 10 ∷ 0 ∷ rest)
unfolding child_turn
child_turn_line l c rest child h n m =
    rw
      (
        overlay_all (l ++ 10 ∷ c ∷ rest) child n m,
        cut_line l c rest h,
        upper_line l rest h,
        string_line (in_upper l) rest (in_upper-Plain l h),
      )
      refl
