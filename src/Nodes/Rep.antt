-- ===== src/Nodes/Rep.antt =====
-- When the memory holds a tree, and what a change elsewhere leaves of it.
use linux_programming.Base.{
  ℕ, suc, ◌≡◌, refl, ◌≢◌, Bool, true, false, ◌||◌, Option, none, some, arith, ◌==◌, max,
}
use linux_programming.Base.Bytes.{Bytes}
use linux_programming.Nodes.{Ptr, null, Node}

-- The shape of a tree: the address, the key and the value of each node.
pub data Shape : Type 0 where
  leaf : Shape
  node : Ptr → Bytes → Ptr → Shape → Shape → Shape

abbrev pub has : Ptr → Shape → Bool
has a leaf = false
has a (node p k v l r) = (a == p) || (has a l || has a r)

infix 40 ◌∈◌ ◌∉◌
abbrev pub ◌∈◌ : Ptr → Shape → Type 0
a ∈ t = has a t ≡ true

abbrev pub ◌∉◌ : Ptr → Shape → Type 0
a ∉ t = has a t ≡ false

abbrev pub Disjoint : Shape → Shape → Type 0
Disjoint s t = (a : Ptr) → a ∈ s → a ∉ t

abbrev pub Cells : Type 0
Cells = Ptr → Option Node

abbrev pub full : Bytes → Ptr → Ptr → Ptr → Node
full k v l r = record { key = some k; value = v; left = l; right = r; locked = false }

-- From `p` the pointers lead through the nodes of the shape, which are distinct and unlocked.
pub data Tree (c : Cells) : Ptr → Shape → Type 0 where
  nil : Tree c null leaf
  cons :
      {p a b v : Ptr} {k : Bytes} {l r : Shape}
      → p ≢ null
      → c p ≡ some (full k v a b)
      → p ∉ l
      → p ∉ r
      → Disjoint l r
      → Tree c a l
      → Tree c b r
      → Tree c p (node p k v l r)

abbrev pub depth : Shape → ℕ
depth leaf = 0
depth (node p k v l r) = suc (max (depth l) (depth r))

abbrev pub SameOutside : Shape → Ptr → Cells → Cells → Type 0
SameOutside t q c d = (a : Ptr) → a ∉ t → a ≢ q → d a ≡ c a

module _ {c : Cells} where
  pub frame :
      {d : Cells} {p : Ptr} {t : Shape} → Tree c p t → ((a : Ptr) → a ∈ t → d a ≡ c a) → Tree d p t
  frame nil same = nil
  frame (cons {p} ne holds out_l out_r apart l r) same =
      cons ne (ground (arith, same p)) out_l out_r apart (frame l λ a i. same a (ground arith))
        (frame r λ a i. same a (ground arith))

  pub not-mem_of_none : {p : Ptr} {t : Shape} (a : Ptr) → Tree c p t → c a ≡ none → a ∉ t
  not-mem_of_none a nil unused = refl
  not-mem_of_none a (cons ne holds out_l out_r apart l r) unused =
      ground (arith, not-mem_of_none a l unused, not-mem_of_none a r unused)
