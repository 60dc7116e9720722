-- ===== src/Pstree/Linked.antt =====
-- The linked list of pstree.c.
use linux_programming.Base.{
  ℕ, zero, suc, ◌+◌, ◌<◌, ◌≤◌, ◌≡◌, refl, ap, sym, ◌∙◌, false, List, [], ◌∷◌, ◌++◌, append_assoc,
  append-nil, none, some, arith, ◌==◌, ==_refl, if◌then◌else◌, length, length-append, Bool-cases,
  inl, inr,
}
use linux_programming.Base.Int.{ℤ, eqb_ℤ}
use linux_programming.Pstree.{
  Process, ProcessNode, Processes, node_of, change, link, create_and_insert_process_node_ll,
  insert_all, Search, found, absent, running, find_from, find_node_in_ll,
}

abbrev pub empty : Processes
empty = record {
  cell = λ _. record {
    process = record { name = []; pid = ℤ.pos 0; ppid = ℤ.pos 0 };
    parent = none;
    childs = [];
    next = none;
  };
  count = 0;
  process_ll_start = none;
  process_ll_head = 0;
}

-- The nodes from the address `i` on are those of the processes, in order.
Holds : (ℕ → ProcessNode) → ℕ → List Process → Type 0
Holds c i [] = Unit
Holds c i (p ∷ ps) = ((c i).process ≡ p) × Holds c (suc i) ps

-- The nodes for `ps` are linked from the first to the last.
record Linked (s : Processes) (ps : List Process) : Type 0 where
  start_first : s.process_ll_start ≡ some 0
  head_last : suc s.process_ll_head ≡ length ps
  counted : s.count ≡ length ps
  holds : Holds s.cell 0 ps
  linked : (i : ℕ) → suc i < length ps → (s.cell i).next ≡ some (suc i)

change-other :
    (c : ℕ → ProcessNode) (a b : ℕ) (f : ProcessNode → ProcessNode)
    → (b == a) ≡ false
    → change c a f b ≡ c b
change-other c a b f ne = rw ne refl

change-same :
    (c : ℕ → ProcessNode) (a : ℕ) (f : ProcessNode → ProcessNode) → change c a f a ≡ f (c a)
change-same c a f = rw (==_refl a) refl

Holds-keep :
    (c d : ℕ → ProcessNode) (i n : ℕ) (ps : List Process)
    → i + length ps ≤ n
    → ((j : ℕ) → j < n → (d j).process ≡ (c j).process)
    → Holds c i ps
    → Holds d i ps
unfolding Holds
Holds-keep c d i n [] h same held = tt
Holds-keep c d i n (p ∷ ps) h same (here, held) =
    (same i (omega arith) ∙ here, Holds-keep c d (suc i) n ps (omega arith) same held)

Holds-snoc :
    (c : ℕ → ProcessNode) (i : ℕ) (ps : List Process) (p : Process)
    → Holds c i ps
    → (c (i + length ps)).process ≡ p
    → Holds c i (ps ++ p ∷ [])
unfolding Holds
Holds-snoc c i [] p held last = (ap (λ j. (c j).process) (omega arith) ∙ last, tt)
Holds-snoc c i (q ∷ ps) p (here, held) last =
    (here, Holds-snoc c (suc i) ps p held (ap (λ j. (c j).process) (omega arith) ∙ last))

-- The cells after `link`, for a head that is older than the new node.
module _ (s : Processes) (p : Process) (older : s.process_ll_head < s.count) where
  linked_cell : ℕ → ProcessNode
  linked_cell = (link s s.process_ll_head p).cell

  link-new : linked_cell s.count ≡ node_of p
  unfolding linked_cell
  link-new =
      let ne : (s.count == s.process_ll_head) ≡ false = ground arith in
      rw (ne, ==_refl s.count) refl

  link-head :
      linked_cell s.process_ll_head ≡ record (s.cell s.process_ll_head) { next = some s.count }
  unfolding linked_cell
  link-head =
      let ne : (s.process_ll_head == s.count) ≡ false = ground arith in
      rw (==_refl s.process_ll_head, ne) refl

  link-old : (j : ℕ) → j < s.process_ll_head → linked_cell j ≡ s.cell j
  unfolding linked_cell
  link-old j h =
      let ne : (j == s.count) ≡ false = ground arith in
      let other : (j == s.process_ll_head) ≡ false = ground arith in rw (other, ne) refl

  link-process : (j : ℕ) → j < s.count → (linked_cell j).process ≡ (s.cell j).process
  unfolding linked_cell
  link-process j h =
      let ne : (j == s.count) ≡ false = ground arith in
      elim (Bool-cases (j == s.process_ll_head)) [
        | inl e ↦ rw (e, ne) refl
        | inr e ↦ rw (e, ne) refl
      ]

-- The new node is linked behind the others, and ends the list.
insert-Linked :
    (s : Processes) (ps : List Process) (p : Process)
    → Linked s ps
    → Linked (create_and_insert_process_node_ll p s) (ps ++ p ∷ [])
      × ((create_and_insert_process_node_ll p s).cell (length ps)).next ≡ none
unfolding create_and_insert_process_node_ll linked_cell
insert-Linked s ps p l =
    let older : s.process_ll_head < s.count = omega (arith, l.head_last, l.counted) in
    let at_end = ap (linked_cell s p older) (sym l.counted) ∙ link-new s p older in
    let longer = length-append ps (p ∷ []) in
    let kept =
      Holds-keep s.cell (linked_cell s p older) 0 (length ps) ps (omega arith)
        (λ j h. link-process s p older j (omega (arith, h, l.counted))) l.holds in
    let next_of : (i : ℕ)
        → suc i < length (ps ++ p ∷ [])
        → (linked_cell s p older i).next ≡ some (suc i) =
      λ i h. elim (Bool-cases (i == s.process_ll_head)) [
        | inl e ↦
            let same : i ≡ s.process_ll_head = ground arith in
            let number : s.count ≡ suc i = omega (arith, same, l.head_last, l.counted) in
            ap (λ j. (linked_cell s p older j).next) same
            ∙ (ap (λ n. n.next) (link-head s p older) ∙ ap some number)
        | inr e ↦
            let before : i < s.process_ll_head = ground (arith, e, h, longer, l.head_last) in
            ap (λ n. n.next) (link-old s p older i before)
            ∙ l.linked i (omega (arith, before, l.head_last))
      ] in
    rw l.start_first (
      record {
        start_first = refl;
        head_last = omega (arith, longer, l.counted);
        counted = omega (arith, longer, l.counted);
        holds =
            Holds-snoc (linked_cell s p older) 0 ps p kept
              (ap (λ n. n.process) (ap (linked_cell s p older) (omega arith) ∙ at_end));
        linked = next_of;
      },
      ap (λ n. n.next) at_end,
    )

insert_all-Linked :
    (ps qs : List Process) (s : Processes)
    → Linked s qs
    → ((s.cell s.process_ll_head).next ≡ none)
    → Linked (insert_all ps s) (qs ++ ps)
      × (((insert_all ps s).cell (insert_all ps s).process_ll_head).next ≡ none)
unfolding insert_all
insert_all-Linked [] qs s l last = (rw append-nil l, last)
insert_all-Linked (p ∷ ps) qs s l last =
    let (l', last') = insert-Linked s qs p l in
    let longer = length-append qs (p ∷ []) in
    let s' = create_and_insert_process_node_ll p s in
    let head : s'.process_ll_head ≡ length qs = omega (arith, l'.head_last, longer) in
    let e = append_assoc qs (p ∷ []) ps in
    rw e at (insert_all-Linked ps (qs ++ p ∷ []) s' l' (ap (λ i. (s'.cell i).next) head ∙ last'))

-- The address of the first process with the pid, counted from `i`.
abbrev pub position : ℤ → List Process → ℕ → Search
position pid [] i = absent
position pid (p ∷ ps) i =
    let rest = position pid ps (suc i) in if eqb_ℤ p.pid pid then found i else rest

-- A search along nodes that hold `ps` from `i` on and are linked to the end.
find_from-position :
    (fuel : ℕ) (s : Processes) (pid : ℤ) (i : ℕ) (p : Process) (ps : List Process)
    → Holds s.cell i (p ∷ ps)
    → ((j : ℕ) → j < i + length ps → (s.cell j).next ≡ some (suc j))
    → (s.cell (i + length ps)).next ≡ none
    → suc (length ps) < fuel
    → find_from fuel s pid (some i) ≡ position pid (p ∷ ps) i
unfolding find_from Holds
find_from-position zero s pid i p ps held next last h = absurd (omega arith)
find_from-position (suc (suc fuel)) s pid i p [] (here, held) next last h =
    let ends : (s.cell i).next ≡ none = ap (λ j. (s.cell j).next) (omega arith) ∙ last in
    rw (here, ends) refl
find_from-position (suc zero) s pid i p [] (here, held) next last h = absurd (omega arith)
find_from-position (suc fuel) s pid i p (q ∷ ps) (here, held) next last h =
    let more : (s.cell i).next ≡ some (suc i) = next i (omega arith) in
    let rest =
      find_from-position fuel s pid (suc i) q ps held (λ j k. next j (omega arith))
        (ap (λ j. (s.cell j).next) (omega arith) ∙ last) (omega arith) in
    rw (here, more, rest) refl

one : Process → Processes
one p = create_and_insert_process_node_ll p empty

one-Linked : (p : Process) → Linked (one p) (p ∷ [])
unfolding one create_and_insert_process_node_ll Holds
one-Linked p = record {
  start_first = refl;
  head_last = refl;
  counted = refl;
  holds = (refl, tt);
  linked = λ i h. absurd (omega (arith, h));
}

-- Of two or more processes, find_node_in_ll finds the first with the pid among them in the order in
-- which they were inserted, and NULL if there is none.
pub find_node_in_ll-position :
    (fuel : ℕ) (p q : Process) (ps : List Process) (pid : ℤ)
    → length ps + 2 < fuel
    → find_node_in_ll fuel (insert_all (p ∷ q ∷ ps) empty) pid ≡ position pid (p ∷ q ∷ ps) 0
unfolding find_node_in_ll insert_all one
find_node_in_ll-position fuel p q ps pid h =
    let (l2, last2) = insert-Linked (one p) (p ∷ []) q (one-Linked p) in
    let s2 = create_and_insert_process_node_ll q (one p) in
    let head2 : s2.process_ll_head ≡ 1 = omega (arith, l2.head_last) in
    let (l, last) =
      insert_all-Linked ps (p ∷ q ∷ []) s2 l2 (ap (λ i. (s2.cell i).next) head2 ∙ last2) in
    let s = insert_all ps s2 in
    let head : s.process_ll_head ≡ length (q ∷ ps) = omega (arith, l.head_last) in
    ap (find_from fuel s pid) l.start_first
    ∙ (find_from-position fuel s pid 0 p (q ∷ ps) l.holds (λ j k. l.linked j (omega arith))
        (ap (λ i. (s.cell i).next) (omega arith ∙ sym head) ∙ last) (omega arith))

-- With a single process the list is a cycle: a search for another pid does not end, whatever the fuel.
find_node_in_ll-running :
    (fuel : ℕ) (p : Process) (pid : ℤ)
    → eqb_ℤ p.pid pid ≡ false
    → find_node_in_ll fuel (insert_all (p ∷ []) empty) pid ≡ running
unfolding find_node_in_ll find_from insert_all create_and_insert_process_node_ll
find_node_in_ll-running zero p pid other = refl
find_node_in_ll-running (suc fuel) p pid other = rw other (find_node_in_ll-running fuel p pid other)
