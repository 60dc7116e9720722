-- ===== src/Pstree.antt =====
-- CH12-System_and_Process_Information/pstree/pstree.c: the processes that /proc shows, as a linked list and
-- then as a tree that is printed. Memory is always granted. Loops along the list run on fuel.
pub mod Linked
pub mod Status
mod Tests
use linux_programming.Base.{
  ℕ, zero, suc, ◌+◌, ◌-◌, Bool, true, false, not, ◌&&◌, ◌||◌, List, [], ◌∷◌, ◌++◌, Option, none,
  some, ltb, ◌==◌, if◌then◌else◌, length,
}
use linux_programming.Base.Int.{ℤ, pos, eqb_ℤ, to_int}
use linux_programming.Base.Bytes.{Bytes, codes}
use linux_programming.Libc.Str.{str_eq, upto}
use linux_programming.Libc.Strtol.{strtol}
use linux_programming.Libc.Decimal.{print_int}

-- What a status file says of a process.
pub record Process : Type 0 where
  pub name : Bytes
  pub pid : ℤ
  pub ppid : ℤ

-- `process_node`, with addresses as pointers; a parent is `none` for the ghost process.
pub record ProcessNode : Type 0 where
  pub process : Process
  pub parent : Option ℕ
  pub childs : List ℕ
  pub next : Option ℕ

-- The nodes made so far stand at the addresses below `count`. `process_ll_head` has no meaning while
-- `process_ll_start` is NULL.
pub record Processes : Type 0 where
  pub cell : ℕ → ProcessNode
  pub count : ℕ
  pub process_ll_start : Option ℕ
  pub process_ll_head : ℕ

abbrev pub node_of : Process → ProcessNode
node_of p = record { process = p; parent = none; childs = []; next = none }

abbrev pub change : (ℕ → ProcessNode) → ℕ → (ProcessNode → ProcessNode) → ℕ → ProcessNode
change cells a f b = if b == a then f (cells b) else cells b

-- The new node at `res` becomes the successor of the node at `head`, and the head.
abbrev pub link : Processes → ℕ → Process → Processes
link s head p =
    let res = s.count in
    let cells = change s.cell res (λ _. node_of p) in
    record s {
      cell = change cells head (λ n. record n { next = some res });
      count = suc res;
      process_ll_head = res;
    }

-- On the first call the new node is start and head before its successor is set.
unfoldable pub create_and_insert_process_node_ll : Process → Processes → Processes
create_and_insert_process_node_ll p s = elim s.process_ll_start [
  | none ↦ link (record s { process_ll_start = some s.count }) s.count p
  | some start ↦ link s s.process_ll_head p
]

unfoldable pub insert_all : List Process → Processes → Processes
insert_all [] s = s
insert_all (p ∷ ps) s = insert_all ps (create_and_insert_process_node_ll p s)

-- A search along the list: `running` is one that has not ended when the fuel is used up.
pub data Search : Type 0 where
  found : ℕ → Search
  absent : Search
  running : Search

unfoldable pub find_from : ℕ → Processes → ℤ → Option ℕ → Search
find_from zero s pid i = running
find_from (suc fuel) s pid none = absent
find_from (suc fuel) s pid (some i) =
    let rest = find_from fuel s pid (s.cell i).next in
    if eqb_ℤ (s.cell i).process.pid pid then found i else rest

unfoldable pub find_node_in_ll : ℕ → Processes → ℤ → Search
find_node_in_ll fuel s pid = find_from fuel s pid s.process_ll_start

-- The tree: the nodes, and the children of the ghost process. Otherwise the program has exited with a
-- failure, or still runs.
pub data Built : Type 0 where
  built : Processes → List ℕ → Built
  failed : Built
  runs_on : Built

-- `parent` is `none` for the ghost process.
abbrev pub adopt : Processes → ℕ → Option ℕ → Processes
adopt s i parent = record s { cell = change s.cell i (λ n. record n { parent = parent }) }

abbrev pub add_child : Processes → ℕ → ℕ → Processes
add_child s parent i = record s {
  cell = change s.cell parent (λ n. record n { childs = n.childs ++ i ∷ [] });
}

-- The loop of create_tree; `all` is the fuel of each search.
unfoldable pub create_from : ℕ → ℕ → Processes → List ℕ → Option ℕ → Built
create_from all zero s ghost i = runs_on
create_from all (suc fuel) s ghost none = built s ghost
create_from all (suc fuel) s ghost (some i) = elim (eqb_ℤ (s.cell i).process.ppid (pos 0)) [
  | true ↦ create_from all fuel (adopt s i none) (ghost ++ i ∷ []) (s.cell i).next
  | false ↦ elim (find_node_in_ll all s (s.cell i).process.ppid) [
    | found parent ↦
        create_from all fuel (adopt (add_child s parent i) i (some parent)) ghost (s.cell i).next
    | absent ↦ failed
    | running ↦ runs_on
  ]
]

unfoldable pub create_tree : ℕ → Processes → Built
create_tree fuel s = create_from fuel fuel s [] s.process_ll_start

abbrev pub spaces : Bool → ℕ → Bytes
spaces is_last zero = []
spaces is_last (suc n) = (if is_last then codes "    " else codes "|   ") ++ spaces is_last n

abbrev pub branch : Bool → ℕ → Bytes
branch is_last zero = []
branch is_last (suc depth) = if is_last then codes "`-- " else codes "|-- "

-- The loop over the children; `again` prints one of them, and is told whether it is the last.
abbrev pub print_children : (ℕ → Bool → Bytes) → List ℕ → Bytes
print_children again [] = []
print_children again (c ∷ []) = again c true
print_children again (c ∷ d ∷ cs) = again c false ++ print_children again (d ∷ cs)

-- The text for a node and for all nodes below it; `fuel` bounds the depth of the tree.
unfoldable pub print_tree_recursive : ℕ → Processes → ℕ → ℕ → Bool → Bytes
print_tree_recursive zero s node depth is_last = []
print_tree_recursive (suc fuel) s node depth is_last =
    let n = s.cell node in
    spaces is_last (depth - 1)
    ++ branch is_last depth
    ++ n.process.name
    ++ codes "("
    ++ print_int n.process.pid
    ++ codes ")\n"
    ++ print_children (λ c last. print_tree_recursive fuel s c (depth + 1) last) n.childs

unfoldable pub print_tree : ℕ → Processes → List ℕ → Bytes
print_tree fuel s ghost =
    codes "GHOST PROCESS(0)\n"
    ++ print_children (λ c last. print_tree_recursive fuel s c 1 last) ghost
