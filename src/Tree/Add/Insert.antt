-- ===== src/Tree/Add/Insert.antt =====
-- The shape after `add`, and the theorem that the memory holds it.
use linux_programming.Base.{
  ℕ, zero, suc, ◌<◌, ◌≡◌, refl, ◌≢◌, inl, inr, true, false, List, ◌∷◌, none, some, arith, ◌==◌,
  Bool-cases,
}
use linux_programming.Base.Int.{ℤ, minus_one}
use linux_programming.Base.Bytes.{Bytes}
use linux_programming.Libc.Str.{less, equal, greater, strcmp, Order-cases, before, same, after}
use linux_programming.Nodes.{Ptr, null, Cmd, blank, ok, and_then, pure, mutex_unlock, ◌>>◌}
use linux_programming.Nodes.Rep.{
  Cells, Shape, leaf, node, has, ◌∉◌, Disjoint, full, Tree, nil, cons, depth, SameOutside, frame,
  not-mem_of_none,
}
use linux_programming.Tree.{zero_result, Side, child, with_child, on_left, on_right, add, descend}
use linux_programming.Tree.Lookup.{load-ok}
use linux_programming.Tree.Add.Steps.{
  quiet, hold, set, set_self, lock-ok, unlock-set, fill-ok, descend-present, descend-absent,
}

-- The new node has address `q`; a key that is there already changes nothing.
unfoldable pub insert : Bytes → Ptr → Ptr → Shape → Shape
insert k v q leaf = node q k v leaf leaf
insert k v q (node p k' v' l r) = elim (strcmp k k') [
  | less ↦ node p k' v' (insert k v q l) r
  | greater ↦ node p k' v' l (insert k v q r)
  | equal ↦ node p k' v' l r
]

-- Only a clash with the key of the root is reported.
unfoldable pub add_result : Bytes → Shape → ℤ
add_result k leaf = zero_result
add_result k (node p k' v l r) = elim (strcmp k k') [ equal ↦ minus_one | _ ↦ zero_result ]

not-mem-insert : (a : Ptr) (k : Bytes) (v q : Ptr) (t : Shape) → a ∉ t → a ≢ q → a ∉ insert k v q t
unfolding insert
not-mem-insert a k v q leaf out ne = ground arith
not-mem-insert a k v q (node p k' v' l r) out ne =
    ground (arith, not-mem-insert a k v q l, not-mem-insert a k v q r)

-- `add` at a root that holds no key yet.
add-blank :
    (fuel : ℕ) (c : Cells) (fs : List Ptr) (p : Ptr) (k : Bytes) (v : Ptr)
    → p ≢ null
    → c p ≡ some blank
    → add (suc fuel) p (some k) v (quiet c fs)
      ≡ ok zero_result (quiet (set c p (full k v null null)) fs)
unfolding add
add-blank fuel c fs p k v ne holds =
    rw (lock-ok c fs p blank ne holds refl, and_then)
      (rw
        (
          load-ok {s = quiet (set c p (hold true blank)) fs} {n = hold true blank} ne
              (ground arith),
          and_then,
        )
        (fill-ok c fs p k v ne))

-- What a run of `add` on a tree leaves behind.
abbrev pub Added : ℕ → Ptr → Bytes → Ptr → Ptr → List Ptr → Cells → Shape → Type 0
Added fuel p k v q fs c t =
    (d : Cells) × (rest : List Ptr) × (add fuel p (some k) v (quiet c (q ∷ fs))
      ≡ ok (add_result k t) (quiet d rest))
    × Tree d p (insert k v q t)
    × SameOutside t q c d

-- At a locked root node the key decides where `add` goes on.
pub add-node :
    (fuel : ℕ) (k : Bytes) (v : Ptr) (gs : List Ptr) (c : Cells) (p a b w : Ptr) (k' : Bytes)
    → p ≢ null
    → c p ≡ some (full k' w a b)
    → let again : Ptr → Cmd ℤ = λ x. add fuel x (some k) v in
      let go : Cmd ℤ = elim (strcmp k k') [
        | less ↦ descend again p on_left
        | greater ↦ descend again p on_right
        | equal ↦ mutex_unlock p >> pure minus_one
      ] in
      add (suc fuel) p (some k) v (quiet c gs) ≡ go (quiet (set c p (hold true (full k' w a b))) gs)
unfolding add
add-node fuel k v gs c p a b w k' ne holds =
    let n = hold true (full k' w a b) in
    rw (lock-ok c gs p (full k' w a b) ne holds refl, and_then)
      (rw (load-ok {s = quiet (set c p n) gs} {n = n} ne (ground arith), and_then) refl)

module _ (fuel : ℕ) (k : Bytes) (v q : Ptr) (fs : List Ptr) (c : Cells) (p a b w : Ptr) (k' : Bytes)
    (l r : Shape) (ne_q : q ≢ null) (unused : c q ≡ none) (ne : p ≢ null)
    (holds : c p ≡ some (full k' w a b)) (out_l : p ∉ l) (out_r : p ∉ r)
    (apart : Disjoint l r) where
  q_apart : (q == p) ≡ false
  q_apart = ground arith

  -- The trees put together again after a change on the left.
  left-insert :
      (d : Cells) (a' : Ptr)
      → d p ≡ some (full k' w a' b)
      → SameOutside (node p k' w l leaf) q c d
      → Tree c b r
      → Tree d a' (insert k v q l)
      → Tree d p (node p k' w (insert k v q l) r)
  left-insert d a' at_p kept right new =
      let q_out = not-mem_of_none q right unused in
      cons ne at_p (not-mem-insert p k v q l out_l (ground arith)) out_r
        (λ x i. elim (Bool-cases (has x l)) [
          | inl old ↦ apart x old
          | inr fresh ↦ ground (arith, not-mem-insert x k v q l fresh)
        ])
        new (frame right (λ x i. kept x (ground (arith, apart x)) (ground arith)))

  right-insert :
      (d : Cells) (b' : Ptr)
      → d p ≡ some (full k' w a b')
      → SameOutside (node p k' w leaf r) q c d
      → Tree c a l
      → Tree d b' (insert k v q r)
      → Tree d p (node p k' w l (insert k v q r))
  right-insert d b' at_p kept left new =
      let q_out = not-mem_of_none q left unused in
      cons ne at_p out_l (not-mem-insert p k v q r out_r (ground arith))
        (λ x i. not-mem-insert x k v q r (apart x i) (ground arith))
        (frame left (λ x i. kept x (ground (arith, apart x)) (ground arith))) new

  -- The new node alone.
  single : {d : Cells} → d q ≡ some (full k v null null) → Tree d q (insert k v q leaf)
  unfolding insert
  single at_q = cons ne_q at_q refl refl (λ x i. refl) nil nil

  -- The two ways down: to a new node, and to a child that is there.
  abbrev again : Ptr → Cmd ℤ
  again x = add (suc fuel) x (some k) v

  abbrev with_new : Side → Cells
  with_new side =
      set (set (set c q blank) p (with_child side q (full k' w a b))) q (full k v null null)

  descend-new :
      (side : Side)
      → (child side (full k' w a b) == null) ≡ true
      → descend again p side (quiet (set c p (hold true (full k' w a b))) (q ∷ fs))
        ≡ ok zero_result (quiet (with_new side) fs)
  descend-new on_left absent =
      let step =
        descend-absent on_left c fs p (hold true (full k' w a b)) ne again q ne_q q_apart absent in
      rw (step, add-blank fuel (set (set c q blank) p (full k' w q b)) fs q k v ne_q (ground arith))
        refl
  descend-new on_right absent =
      let step =
        descend-absent on_right c fs p (hold true (full k' w a b)) ne again q ne_q q_apart absent in
      rw (step, add-blank fuel (set (set c q blank) p (full k' w a q)) fs q k v ne_q (ground arith))
        refl

  descend-old :
      (side : Side) {d : Cells} {rest : List Ptr} {x : ℤ}
      → (child side (full k' w a b) == null) ≡ false
      → add (suc fuel) (child side (full k' w a b)) (some k) v (quiet c (q ∷ fs))
        ≡ ok x (quiet d rest)
      → descend again p side (quiet (set c p (hold true (full k' w a b))) (q ∷ fs))
        ≡ ok zero_result (quiet d rest)
  descend-old on_left there run =
      rw
        (
          descend-present on_left c (q ∷ fs) p (hold true (full k' w a b)) ne again there,
          set_self c p (full k' w a b) holds,
          run,
        )
        refl
  descend-old on_right there run =
      rw
        (
          descend-present on_right c (q ∷ fs) p (hold true (full k' w a b)) ne again there,
          set_self c p (full k' w a b) holds,
          run,
        )
        refl

  module _ (e : strcmp k k' ≡ less) (right : Tree c b r) where
    less-new : a ≡ null → l ≡ leaf → Added (suc (suc fuel)) p k v q fs c (node p k' w l r)
    unfolding insert add_result
    less-new no_a no_l = (
      with_new on_left,
      fs,
      rw (add-node (suc fuel) k v (q ∷ fs) c p a b w k' ne holds, e, add_result)
          (descend-new on_left (ground arith)),
      rw (e, insert)
          (left-insert (with_new on_left) q (ground arith) (λ x i n. ground arith) right
            (rw no_l (single (ground arith)))),
      λ x i n. ground arith,
    )

    less-old :
        a ≢ null
        → Added (suc fuel) a k v q fs c l
        → Added (suc (suc fuel)) p k v q fs c (node p k' w l r)
    unfolding insert add_result
    less-old ne_a (d, rest, run, new, kept) = (
      d,
      rest,
      rw (add-node (suc fuel) k v (q ∷ fs) c p a b w k' ne holds, e, add_result)
          (descend-old on_left (ground arith) run),
      rw (e, insert)
          (left-insert d a (ground (arith, kept p)) (λ x i n. kept x (ground arith) n) right new),
      λ x i n. kept x (ground arith) n,
    )

  module _ (e : strcmp k k' ≡ greater) (left : Tree c a l) where
    greater-new : b ≡ null → r ≡ leaf → Added (suc (suc fuel)) p k v q fs c (node p k' w l r)
    unfolding insert add_result
    greater-new no_b no_r = (
      with_new on_right,
      fs,
      rw (add-node (suc fuel) k v (q ∷ fs) c p a b w k' ne holds, e, add_result)
          (descend-new on_right (ground arith)),
      rw (e, insert)
          (right-insert (with_new on_right) q (ground arith) (λ x i n. ground arith) left
            (rw no_r (single (ground arith)))),
      λ x i n. ground arith,
    )

    greater-old :
        b ≢ null
        → Added (suc fuel) b k v q fs c r
        → Added (suc (suc fuel)) p k v q fs c (node p k' w l r)
    unfolding insert add_result
    greater-old ne_b (d, rest, run, new, kept) = (
      d,
      rest,
      rw (add-node (suc fuel) k v (q ∷ fs) c p a b w k' ne holds, e, add_result)
          (descend-old on_right (ground arith) run),
      rw (e, insert)
          (right-insert d b (ground (arith, kept p)) (λ x i n. kept x (ground arith) n) left new),
      λ x i n. kept x (ground arith) n,
    )

less_case :
    (fuel : ℕ) (k : Bytes) (v q : Ptr) (fs : List Ptr) {c : Cells} {p : Ptr} {k' : Bytes}
    {w a b : Ptr} {l r : Shape}
    → q ≢ null
    → c q ≡ none
    → p ≢ null
    → c p ≡ some (full k' w a b)
    → p ∉ l
    → p ∉ r
    → Disjoint l r
    → Tree c a l
    → Tree c b r
    → strcmp k k' ≡ less
    → (a ≢ null → Added (suc fuel) a k v q fs c l)
    → Added (suc (suc fuel)) p k v q fs c (node p k' w l r)
less_case fuel k v q fs ne_q unused ne holds out_l out_r apart nil right e ih =
    less-new fuel k v q fs _ _ _ _ _ _ _ _ ne_q unused ne holds out_l out_r apart e right refl refl
less_case fuel k v q fs ne_q unused ne holds out_l out_r apart (cons ne_a h ol or ap l r) right e
      ih =
    less-old fuel k v q fs _ _ _ _ _ _ _ _ ne_q unused ne holds out_l out_r apart e right ne_a
      (ih ne_a)

greater_case :
    (fuel : ℕ) (k : Bytes) (v q : Ptr) (fs : List Ptr) {c : Cells} {p : Ptr} {k' : Bytes}
    {w a b : Ptr} {l r : Shape}
    → q ≢ null
    → c q ≡ none
    → p ≢ null
    → c p ≡ some (full k' w a b)
    → p ∉ l
    → p ∉ r
    → Disjoint l r
    → Tree c a l
    → Tree c b r
    → strcmp k k' ≡ greater
    → (b ≢ null → Added (suc fuel) b k v q fs c r)
    → Added (suc (suc fuel)) p k v q fs c (node p k' w l r)
greater_case fuel k v q fs ne_q unused ne holds out_l out_r apart left nil e ih =
    greater-new fuel k v q fs _ _ _ _ _ _ _ _ ne_q unused ne holds out_l out_r apart e left refl
      refl
greater_case fuel k v q fs ne_q unused ne holds out_l out_r apart left (cons ne_b h ol or ap l r) e
      ih =
    greater-old fuel k v q fs _ _ _ _ _ _ _ _ ne_q unused ne holds out_l out_r apart e left ne_b
      (ih ne_b)

equal_case :
    (fuel : ℕ) (k : Bytes) (v q : Ptr) (fs : List Ptr) {c : Cells} {p : Ptr} {k' : Bytes}
    {w a b : Ptr} {l r : Shape}
    → p ≢ null
    → c p ≡ some (full k' w a b)
    → Tree c p (node p k' w l r)
    → strcmp k k' ≡ equal
    → Added (suc fuel) p k v q fs c (node p k' w l r)
unfolding insert add_result
equal_case fuel k v q fs {c} {p} {k'} {w} {a} {b} ne holds t e = (
  c,
  q ∷ fs,
  rw (add-node fuel k v (q ∷ fs) c p a b w k' ne holds, e, add_result)
      (rw
        (unlock-set c (q ∷ fs) p (hold true (full k' w a b)) ne, set_self c p (full k' w a b) holds)
        refl),
  rw (e, insert) t,
  λ x i n. refl,
)

-- While no mutex call fails and calloc gives an unused address for the one node that may be needed,
-- `add` at the root of a tree ends, with every mutex free, and leaves the tree with the key inserted
-- at the end of its search path (as it was, if the key is there); it writes nowhere outside the tree
-- and that address, and returns -1 exactly if the key is the root's.
pub add-insert :
    (fuel : ℕ) (k : Bytes) (v q : Ptr) (fs : List Ptr) {c : Cells} {p : Ptr} {t : Shape}
    → q ≢ null
    → c q ≡ none
    → Tree c p t
    → p ≢ null
    → depth t < fuel
    → Added fuel p k v q fs c t
add-insert zero k v q fs ne_q unused t ne h = absurd (omega arith)
add-insert (suc fuel) k v q fs ne_q unused nil ne h = absurd (ne refl)
add-insert (suc zero) k v q fs ne_q unused (cons ne' holds out_l out_r apart left right) ne h =
    absurd (omega arith)
add-insert (suc (suc fuel)) k v q fs ne_q unused
      (cons {p} {k = k'} ne' holds out_l out_r apart left right) ne h =
    elim (Order-cases (strcmp k k')) [
      | before e ↦
          less_case fuel k v q fs ne_q unused ne holds out_l out_r apart left right e
            (λ ne_a. add-insert (suc fuel) k v q fs ne_q unused left ne_a (omega arith))
      | same e ↦
          equal_case (suc fuel) k v q fs ne holds (cons ne' holds out_l out_r apart left right) e
      | after e ↦
          greater_case fuel k v q fs ne_q unused ne holds out_l out_r apart left right e
            (λ ne_b. add-insert (suc fuel) k v q fs ne_q unused right ne_b (omega arith))
    ]
