-- ===== src/BidirPipes/Upper.antt =====
-- The turns of bidirectional_pipes.c in which lines are typed, and those behind the end of the input.
use mathlib.Core.Path.{subst}
use linux_programming.Base.{
  ℕ, zero, suc, ◌≤◌, ◌<◌, ◌≡◌, refl, ap, ap₂, List, [], ◌∷◌, ◌++◌, append_assoc, map, Option, some,
  arith, length, length-append, length-drop, drop, replicate, All,
}
use linux_programming.Base.Bytes.{Bytes}
use linux_programming.BidirPipes.{string, shows, typed_in, turn, show, Printed, print, at, turns}
use linux_programming.BidirPipes.Line.{
  Plain, in_upper, cut_line, string_line, in_upper-Plain, toupper-toupper, length-in_upper,
  overlay_line, receive_line, child_turn_line,
}

-- What both buffers hold behind a turn.
abbrev pub left_by : Bytes → Bytes → Bytes
left_by l rest = in_upper l ++ 10 ∷ 0 ∷ rest

show_line :
    (parent child s : Bytes)
    → string parent ≡ some s
    → show child (some parent) ≡ shows s parent child
show_line parent child s h = rw (h, show) refl

turn_line :
    (typed : Option Bytes) (parent child l : Bytes) (c : ℕ) (rest : Bytes)
    → Plain l
    → typed_in typed parent ≡ l ++ 10 ∷ c ∷ rest
    → length (l ++ 10 ∷ c ∷ rest) ≡ 512
    → length child ≡ 512
    → turn typed parent child ≡ shows (in_upper l ++ 10 ∷ []) (left_by l rest) (left_by l rest)
unfolding turn
turn_line typed parent child l c rest h e n m =
    rw
      (
        e,
        child_turn_line l c rest child h n m,
        receive_line (in_upper l) (l ++ 10 ∷ c ∷ rest) (left_by l rest),
        overlay_line (in_upper l) l (c ∷ rest) (length-in_upper l),
        cut_line (in_upper l) c rest (in_upper-Plain l h),
      )
      (show_line (left_by l rest) (left_by l rest) _
        (string_line (in_upper l) rest (in_upper-Plain l h)))

drop_next : (k : ℕ) (xs : Bytes) → k < length xs → (c : ℕ) × (rest : Bytes) × (drop k xs ≡ c ∷ rest)
drop_next k [] h = ground (arith, h)
drop_next zero (x ∷ xs) h = (x, xs, refl)
drop_next (suc k) (x ∷ xs) h = drop_next k xs (omega arith)

abbrev pub IsLine : Bytes → Type 0
IsLine l = Plain l × (length l ≤ 510)

-- What the user types, and what the parent prints.
abbrev pub typed_lines : List Bytes → List (Option Bytes)
typed_lines = map (λ l. some (l ++ 10 ∷ []))

abbrev pub upper_lines : List Bytes → Bytes
upper_lines [] = []
upper_lines (l ∷ ls) = (in_upper l ++ 10 ∷ []) ++ upper_lines ls

-- The buffer of the parent behind the read of a line.
read_line :
    (l parent : Bytes)
    → length l ≤ 510
    → length parent ≡ 512
    → (c : ℕ) × (rest : Bytes) × (typed_in (some (l ++ 10 ∷ [])) parent ≡ l ++ 10 ∷ c ∷ rest)
      × (length (l ++ 10 ∷ c ∷ rest) ≡ 512)
read_line l parent short n =
    let k = length (l ++ 10 ∷ []) in
    let size = length-append l (10 ∷ []) in
    let (c, rest, e) = drop_next k parent (omega (arith, size)) in
    (
      c,
      rest,
      rw e (append_assoc l (10 ∷ []) (c ∷ rest)),
      omega (arith, size, length-append l (10 ∷ c ∷ rest), ap length e, length-drop k parent),
    )

length-left_by :
    (l rest : Bytes) (c : ℕ) → length (l ++ 10 ∷ c ∷ rest) ≡ 512 → length (left_by l rest) ≡ 512
length-left_by l rest c h = omega (
  arith,
  length-append l (10 ∷ c ∷ rest),
  length-append (in_upper l) (10 ∷ 0 ∷ rest),
  length-in_upper l,
)

-- A turn in which a line is typed.
pub turn_typed :
    (l parent child : Bytes)
    → IsLine l
    → length parent ≡ 512
    → length child ≡ 512
    → (rest : Bytes) × (turn (some (l ++ 10 ∷ [])) parent child
        ≡ shows (in_upper l ++ 10 ∷ []) (left_by l rest) (left_by l rest))
      × (length (left_by l rest) ≡ 512)
turn_typed l parent child (plain, short) n m =
    let (c, rest, e, size) = read_line l parent short n in
    (
      rest,
      turn_line (some (l ++ 10 ∷ [])) parent child l c rest plain e size m,
      length-left_by l rest c size,
    )

turns_next :
    (typed : Option Bytes) (rest : List (Option Bytes)) (parent child s parent' child' : Bytes)
    (r : Printed)
    → turn typed parent child ≡ shows s parent' child'
    → turns rest parent' child' ≡ r
    → turns (typed ∷ rest) parent child ≡ print s r
unfolding turns
turns_next typed rest parent child s parent' child' r e f = rw (e, turns) (ap (print s) f)

-- Where each read of the parent delivers exactly one line, as from a terminal, lines of at most 510 bytes
-- before their end, without NUL bytes, come back in upper case, each behind the one before, whatever the
-- buffers held; and the loops are ready for the next one.
pub turns-upper_lines :
    (ls : List Bytes) (parent child : Bytes)
    → All IsLine ls
    → length parent ≡ 512
    → length child ≡ 512
    → (p q : Bytes) × (turns (typed_lines ls) parent child
        ≡ record { out = upper_lines ls; end = at p q })
unfolding turns
turns-upper_lines [] parent child h n m = (parent, child, refl)
turns-upper_lines (l ∷ ls) parent child (line, h) n m =
    let (rest, e, size) = turn_typed l parent child line n m in
    let (p, q, f) = turns-upper_lines ls (left_by l rest) (left_by l rest) h size size in
    (p, q, turns_next _ _ _ _ _ _ _ _ e f)

-- The turns in which read returns 0.
abbrev pub no_input : ℕ → List (Option Bytes)
no_input k = replicate k (some [])

abbrev pub repeated : ℕ → Bytes → Bytes
repeated zero s = []
repeated (suc k) s = s ++ repeated k s

in_upper-in_upper : (l : Bytes) → in_upper (in_upper l) ≡ in_upper l
in_upper-in_upper [] = refl
in_upper-in_upper (c ∷ l) = ap₂ (λ x xs. x ∷ xs) (toupper-toupper c) (in_upper-in_upper l)

turns-no_input :
    (k : ℕ) (l rest : Bytes)
    → Plain l
    → length (left_by l rest) ≡ 512
    → turns (no_input k) (left_by l rest) (left_by l rest) ≡ record {
      out = repeated k (in_upper l ++ 10 ∷ []);
      end = at (left_by l rest) (left_by l rest);
    }
unfolding turns
turns-no_input zero l rest h n = refl
turns-no_input (suc k) l rest h n =
    let b = left_by l rest in
    let again = turn_line (some []) b b (in_upper l) 0 rest (in_upper-Plain l h) refl n n in
    let same : turn (some []) b b ≡ shows (in_upper l ++ 10 ∷ []) b b =
      subst
        (λ x. turn (some []) b b ≡ shows (x ++ 10 ∷ []) (x ++ 10 ∷ 0 ∷ rest) (x ++ 10 ∷ 0 ∷ rest))
        (in_upper-in_upper l) again in
    turns_next _ _ _ _ _ _ _ _ same (turns-no_input k l rest h n)

-- Behind the end of the input, where read returns 0 in each turn, the loops do not end: the last line is
-- printed again in each of `k` turns.
pub turns-repeated :
    (k : ℕ) (l parent child : Bytes)
    → IsLine l
    → length parent ≡ 512
    → length child ≡ 512
    → (p : Bytes) × (turns (some (l ++ 10 ∷ []) ∷ no_input k) parent child
        ≡ record { out = repeated (suc k) (in_upper l ++ 10 ∷ []); end = at p p })
unfolding turns
turns-repeated k l parent child line n m =
    let (rest, e, size) = turn_typed l parent child line n m in
    (left_by l rest, turns_next _ _ _ _ _ _ _ _ e (turns-no_input k l rest line.0 size))
