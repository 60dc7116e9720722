-- ===== src/BidirPipes/Tests.antt =====
-- Two lines typed to bidirectional_pipes.c, and a buffer without a NUL.
use linux_programming.Base.{
  ℕ, ◌≡◌, refl, true, arith, [], ◌∷◌, ◌++◌, some, none, replicate, length-replicate,
}
use linux_programming.Base.Bytes.{Bytes, codes}
use linux_programming.BidirPipes.{cut, at, turns, role, child_loop}
use linux_programming.BidirPipes.Upper.{
  typed_lines, upper_lines, turns-upper_lines, no_input, repeated, turns-repeated,
}
use linux_programming.BidirPipes.Line.{in_upper}

-- Where fork fails the parent goes into the child's loop.
no_child : role none true true ≡ child_loop
unfolding role
no_child = refl

no_end : cut (codes "abc") ≡ none
unfolding cut
no_end = refl

two_upper : upper_lines (codes "Ab" ∷ codes "c1" ∷ []) ≡ codes "AB" ++ 10 ∷ codes "C1" ++ 10 ∷ []
two_upper = refl

abbrev buffer : Bytes
buffer = replicate 512 7

turns-upper_lines_example :
    (p q : Bytes) × (turns (typed_lines (codes "Ab" ∷ codes "c1" ∷ [])) buffer buffer
      ≡ record { out = upper_lines (codes "Ab" ∷ codes "c1" ∷ []); end = at p q })
turns-upper_lines_example =
    turns-upper_lines (codes "Ab" ∷ codes "c1" ∷ []) buffer buffer
      (((refl, (refl, tt)), omega arith), (((refl, (refl, tt)), omega arith), tt))
      (length-replicate {A = ℕ} 512 7) (length-replicate {A = ℕ} 512 7)

turns-repeated_example :
    (p : Bytes) × (turns (some (codes "Ab" ++ 10 ∷ []) ∷ no_input 3) buffer buffer
      ≡ record { out = repeated 4 (in_upper (codes "Ab") ++ 10 ∷ []); end = at p p })
turns-repeated_example =
    turns-repeated 3 (codes "Ab") buffer buffer ((refl, (refl, tt)), omega arith)
      (length-replicate {A = ℕ} 512 7) (length-replicate {A = ℕ} 512 7)
