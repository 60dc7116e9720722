-- ===== src/Tree/Tests.antt =====
-- thread_safe_tree.c at a concrete tree: "m" at address 1 with the child "t" at address 2.
use linux_programming.Base.{◌≡◌, refl, Bool, ◌||◌, List, [], ◌∷◌, none, some, arith, inl}
use linux_programming.Base.Int.{ℤ, minus_one}
use linux_programming.Base.Bytes.{Bytes, codes}
use linux_programming.Libc.Str.{strcmp, str_eq, less}
use linux_programming.Nodes.{Ptr, ok, blocked, write}
use linux_programming.Nodes.Rep.{Cells, Shape, leaf, node, full, Tree, nil, cons}
use linux_programming.Tree.{add, lookup}
use linux_programming.Tree.Add.Steps.{quiet}
use linux_programming.Tree.Add.Insert.{Added, add-insert}
use linux_programming.Tree.Map.{add-lookup}
use linux_programming.Tree.Memory.{add-no_memory}

abbrev two : Cells
two = write (write (λ _. none) 1 (some (full (codes "m") 0 0 2))) 2 (some (full (codes "t") 0 0 0))

abbrev shape : Shape
shape = node 1 (codes "m") 0 leaf (node 2 (codes "t") 0 leaf leaf)

two-Tree : Tree two 1 shape
two-Tree =
    cons (omega arith) refl refl refl (λ a i. cc) nil
      (cons (omega arith) refl refl refl (λ a i. cc) nil nil)

add-insert_example : Added 3 1 (codes "p") 7 5 [] two shape
add-insert_example =
    add-insert 3 (codes "p") 7 5 [] (omega arith) refl two-Tree (omega arith) (omega arith)

add-lookup_example :
    (r : ℤ) × (d : Cells) × (rest : List Ptr) × (add 4 1 (some (codes "p")) 7 (quiet two (5 ∷ []))
      ≡ ok r (quiet d rest))
    × ((j : Bytes)
        → (old : Bool) × (lookup 4 1 (some j) (quiet two []) ≡ ok old (quiet two []))
          × (lookup 4 1 (some j) (quiet d rest) ≡ ok (str_eq j (codes "p") || old) (quiet d rest)))
add-lookup_example =
    add-lookup 4 (codes "p") 7 5 [] (omega arith) refl two-Tree (omega arith) (omega arith)

a_before_m : strcmp (codes "a") (codes "m") ≡ less
unfolding strcmp
a_before_m = refl

add-no_memory_example :
    (d : Cells) × (add 2 1 (some (codes "a")) 7 (quiet two []) ≡ ok minus_one (quiet d []))
    × (add 2 1 (some (codes "z")) 7 (quiet d []) ≡ blocked)
add-no_memory_example =
    add-no_memory 1 (codes "a") (codes "z") 7 two 1 0 2 0 (codes "m") (omega arith) refl
      (inl (a_before_m, refl))
