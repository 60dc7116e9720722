-- ===== src/Tree/Lookup.antt =====
-- lookup and getNode of thread_safe_tree.c against a search of the shape.
use linux_programming.Base.{
  ℕ, zero, suc, ◌<◌, ◌≡◌, refl, ◌≢◌, Bool, true, false, Option, none, some, arith, ◌==◌,
}
use linux_programming.Base.Int.{minus_one}
use linux_programming.Base.Bytes.{Bytes}
use linux_programming.Libc.Str.{less, equal, greater, strcmp, Order-cases, before, same, after}
use linux_programming.Nodes.{Ptr, null, Node, Store, ok, load, and_then}
use linux_programming.Nodes.Rep.{Shape, leaf, node, Tree, nil, cons, depth}
use linux_programming.Tree.{zero_result, lookup, get_node}

-- The address of the node with a key, found as a binary search tree is searched.
unfoldable pub find : Bytes → Shape → Option Ptr
find k leaf = none
find k (node p k' v l r) = elim (strcmp k' k) [
  | greater ↦ find k l
  | less ↦ find k r
  | equal ↦ some p
]

abbrev pub is_some : Option Ptr → Bool
is_some none = false
is_some (some p) = true

pub load-ok : {s : Store} {p : Ptr} {n : Node} → p ≢ null → s.cell p ≡ some n → load p s ≡ ok n s
unfolding load
load-ok ne holds = ground arith

pub not_null : {p : Ptr} → p ≢ null → (p == null) ≡ false
not_null ne = ground arith

-- On a tree, `lookup` says whether the search finds the key, and writes nothing.
pub lookup-find :
    (fuel : ℕ) {s : Store} {p : Ptr} {t : Shape} (key : Bytes)
    → Tree s.cell p t
    → depth t < fuel
    → lookup fuel p (some key) s ≡ ok (is_some (find key t)) s
unfolding lookup find
lookup-find zero key t h = absurd (omega arith)
lookup-find (suc fuel) key nil h = refl
lookup-find (suc fuel) {s} key
      (cons {p} {a} {b} {v} {k} {l} {r} ne holds out_l out_r apart left right) h =
    let on_l = lookup-find fuel {s = s} key left (omega arith) in
    let on_r = lookup-find fuel {s = s} key right (omega arith) in
    rw (not_null ne, load-ok {s = s} ne holds)
      (elim (Order-cases (strcmp k key)) [
        | before e ↦ rw (e, and_then, is_some) on_r
        | same e ↦ rw (e, and_then, is_some) refl
        | after e ↦ rw (e, and_then, is_some) on_l
      ])

-- On a tree, getNode finds the address of the key's node and returns 0, or returns -1 and leaves the
-- caller's pointer alone; it writes nothing.
pub get_node-find :
    (fuel : ℕ) {s : Store} {p : Ptr} {t : Shape} (key : Bytes) (self : Option Ptr)
    → Tree s.cell p t
    → depth t < fuel
    → get_node fuel p (some key) self s
      ≡ ok (elim (find key t) [ none ↦ (minus_one, self) | some q ↦ (zero_result, some q) ]) s
unfolding get_node find
get_node-find zero key self t h = absurd (omega arith)
get_node-find (suc fuel) key self nil h = refl
get_node-find (suc fuel) {s} key self
      (cons {p} {a} {b} {v} {k} {l} {r} ne holds out_l out_r apart left right) h =
    let on_l = get_node-find fuel {s = s} key self left (omega arith) in
    let on_r = get_node-find fuel {s = s} key self right (omega arith) in
    rw (not_null ne, load-ok {s = s} ne holds)
      (elim (Order-cases (strcmp k key)) [
        | before e ↦ rw (e, and_then, is_some) on_r
        | same e ↦ rw (e, and_then, is_some) refl
        | after e ↦ rw (e, and_then, is_some) on_l
      ])
