-- ===== src/Tree/Map.antt =====
-- The tree of thread_safe_tree.c as a map: `lookup` after `add`.
use linux_programming.Base.{
  ℕ, ◌+◌, ◌<◌, ◌≤◌, ◌≡◌, refl, ◌≢◌, inl, inr, Bool, true, false, ◌||◌, List, ◌∷◌, none, some, arith,
  Bool-cases,
}
use linux_programming.Base.Int.{ℤ}
use linux_programming.Base.Bytes.{Bytes}
use linux_programming.Libc.Str.{
  Order, less, equal, greater, strcmp, Order-cases, before, same, after, str_eq, str_eq_refl,
  eq_of_str_eq, flip, strcmp_swap, strcmp_refl, eq_of_strcmp,
}
use linux_programming.Nodes.{Ptr, null, ok}
use linux_programming.Nodes.Rep.{Cells, Shape, leaf, node, Tree, depth}
use linux_programming.Tree.{add, lookup}
use linux_programming.Tree.Lookup.{find, is_some, lookup-find}
use linux_programming.Tree.Add.Steps.{quiet}
use linux_programming.Tree.Add.Insert.{insert, add_result, add-insert}

other_key : (j k : Bytes) → strcmp k j ≢ equal → str_eq j k ≡ false
other_key j k h = elim (Bool-cases (str_eq j k)) [
  | inl e ↦ absurd (h (rw (eq_of_str_eq j k e) (strcmp_refl k)))
  | inr e ↦ e
]

or_true : (b : Bool) → true ≡ (b || true)
or_true true = refl
or_true false = refl

-- A key that goes another way at a node is another key.
other_way :
    (j k k' : Bytes) (o : Order) → strcmp k k' ≡ o → strcmp k' j ≢ flip o → str_eq j k ≡ false
other_way j k k' o e ne = elim (Bool-cases (str_eq j k)) [
  | inl is ↦ absurd (ne (rw (eq_of_str_eq j k is, strcmp_swap k k', e)))
  | inr is ↦ is
]

pub find-insert :
    (j k : Bytes) (v q : Ptr) (t : Shape)
    → is_some (find j (insert k v q t)) ≡ (str_eq j k || is_some (find j t))
unfolding find insert
find-insert j k v q leaf = elim (Order-cases (strcmp k j)) [
  | before e ↦ rw (e, is_some, other_key j k (λ x. cc)) refl
  | same e ↦ rw (e, is_some, eq_of_strcmp k j e, str_eq_refl j) refl
  | after e ↦ rw (e, is_some, other_key j k (λ x. cc)) refl
]
find-insert j k v q (node p k' w l r) = elim (Order-cases (strcmp k k')) [
  | before e ↦ elim (Order-cases (strcmp k' j)) [
    | before f ↦ rw (e, find, is_some) (rw (f, is_some, other_way j k k' less e (λ x. cc)) refl)
    | same f ↦ rw (e, find, is_some) (rw (f, is_some) (or_true (str_eq j k)))
    | after f ↦ rw (e, find, is_some) (rw (f, is_some) (find-insert j k v q l))
  ]
  | same e ↦ elim (Order-cases (strcmp k' j)) [
    | before f ↦ rw (e, find, is_some) (rw (f, is_some, other_way j k k' equal e (λ x. cc)) refl)
    | same f ↦ rw (e, find, is_some) (rw (f, is_some) (or_true (str_eq j k)))
    | after f ↦ rw (e, find, is_some) (rw (f, is_some, other_way j k k' equal e (λ x. cc)) refl)
  ]
  | after e ↦ elim (Order-cases (strcmp k' j)) [
    | before f ↦ rw (e, find, is_some) (rw (f, is_some) (find-insert j k v q r))
    | same f ↦ rw (e, find, is_some) (rw (f, is_some) (or_true (str_eq j k)))
    | after f ↦ rw (e, find, is_some) (rw (f, is_some, other_way j k k' greater e (λ x. cc)) refl)
  ]
]

depth-insert : (k : Bytes) (v q : Ptr) (t : Shape) → depth (insert k v q t) ≤ depth t + 1
unfolding insert
depth-insert k v q leaf = omega arith
depth-insert k v q (node p k' w l r) = elim (Order-cases (strcmp k k')) [
  | before e ↦ rw (e, depth) (omega (arith, depth-insert k v q l))
  | same e ↦ rw (e, depth) (omega arith)
  | after e ↦ rw (e, depth) (omega (arith, depth-insert k v q r))
]

-- After `add` of a key (no mutex call failing, memory for the one node that may be needed), `lookup`
-- answers true for that key and for the keys for which it did so before, and for no other key.
pub add-lookup :
    (fuel : ℕ) (k : Bytes) (v q : Ptr) (fs : List Ptr) {c : Cells} {p : Ptr} {t : Shape}
    → q ≢ null
    → c q ≡ none
    → Tree c p t
    → p ≢ null
    → depth t + 1 < fuel
    → (r : ℤ) × (d : Cells) × (rest : List Ptr) × (add fuel p (some k) v (quiet c (q ∷ fs))
        ≡ ok r (quiet d rest))
      × ((j : Bytes)
          → (old : Bool) × (lookup fuel p (some j) (quiet c fs) ≡ ok old (quiet c fs))
            × (lookup fuel p (some j) (quiet d rest) ≡ ok (str_eq j k || old) (quiet d rest)))
add-lookup fuel k v q fs {c} {p} {t} ne_q unused tree ne h =
    let (d, rest, run, new, kept) = add-insert fuel k v q fs ne_q unused tree ne (omega arith) in
    (
      add_result k t,
      d,
      rest,
      run,
      λ j.
          let now =
            lookup-find fuel {s = quiet d rest} j new (omega (arith, depth-insert k v q t)) in
          (
            is_some (find j t),
            lookup-find fuel {s = quiet c fs} j tree (omega arith),
            rw (now, find-insert j k v q t) refl,
          ),
    )
