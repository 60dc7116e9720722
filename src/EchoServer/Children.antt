-- ===== src/EchoServer/Children.antt =====
-- How many children the server of is_echo_sv.c has.
use linux_programming.Base.{
  ℕ, zero, suc, ◌+◌, ◌<◌, ◌≤◌, ◌≡◌, refl, sym, ◌∙◌, List, [], ◌∷◌, arith, ◌==◌, Bool-cases, inl,
  inr,
}
use mathlib.Core.Path.{subst}
use linux_programming.Base.Int.{
  ℤ, pos, pos_part, neg_part, ◌+ℤ◌, ◌-ℤ◌, +ℤ_parts, -ℤ_parts, eqb_ℤ, eq_of_parts,
}
use linux_programming.EchoServer.{
  Phase, accepting, counting, loaded, testing, returned, failed, Server, Event, accept_fails,
  fork_fails, forks, loads, stores, tests, child_ends, sigchld, max_child, loop_test, grim_reaper,
  end_child, reap, on, step, run, begin,
}

-- The children that have been made and not reaped.
abbrev pub unreaped : Server → ℕ
unreaped s = s.running + s.zombies

-- The decrements that are lost: those of the handler between the load and the store of the increment.
abbrev pub lost_by : Phase → Event → Server → ℕ
lost_by (loaded count) sigchld s = s.zombies
lost_by _ _ s = 0

unfoldable pub lost : Server → List Event → ℕ
lost s [] = 0
lost s (e ∷ es) = lost_by s.phase e s + lost (step s e) es

-- A count is the number of unreaped children with the `l` lost decrements.
abbrev pub Tally : ℤ → ℕ → Type 0
Tally count n = pos_part count ≡ n + neg_part count

-- `l` decrements have been lost.
abbrev pub Counted : Phase → ℕ → Server → Type 0
Counted accepting l s = Tally s.child_count (unreaped s + l) × (unreaped s + l < max_child)
Counted counting l s =
    (pos_part s.child_count + 1 ≡ unreaped s + l + neg_part s.child_count)
    × (unreaped s + l ≤ max_child)
Counted (loaded count) l s =
    (pos_part count + 1 ≡ unreaped s + l + neg_part count) × (unreaped s + l ≤ max_child)
Counted testing l s = Tally s.child_count (unreaped s + l) × (unreaped s + l ≤ max_child)
Counted returned l s = unreaped s + l ≡ max_child
Counted failed l s = unreaped s + l < max_child

grim_reaper_parts :
    (z : ℕ) (c : ℤ)
    → pos_part (grim_reaper z c) + neg_part c + z ≡ neg_part (grim_reaper z c) + pos_part c
unfolding grim_reaper
grim_reaper_parts zero c = omega arith
grim_reaper_parts (suc z) c = omega (arith, grim_reaper_parts z (c -ℤ pos 1), -ℤ_parts c (pos 1))

loop_test-Counted :
    (l : ℕ) (s : Server) → Counted testing l s → Counted (loop_test s).phase l (loop_test s)
loop_test-Counted l s (h, le) = elim (Bool-cases (eqb_ℤ s.child_count (pos max_child))) [
  | inl e ↦ rw e (ground (arith, e, h))
  | inr e ↦ rw e (h, ground (arith, e, h, le))
]

end_child-unreaped : (s : Server) → unreaped (end_child s) ≡ unreaped s
end_child-unreaped s = elim (Bool-cases (s.running == 0)) [
  | inl e ↦ rw e refl
  | inr e ↦ rw e (ground arith)
]

end_child-phase : (s : Server) → (end_child s).phase ≡ s.phase
end_child-phase s = ground arith

end_child-count : (s : Server) → (end_child s).child_count ≡ s.child_count
end_child-count s = ground arith

-- The end of a child and its reaping keep the relation.
end_child-Counted : (p : Phase) (l : ℕ) (s : Server) → Counted p l s → Counted p l (end_child s)
end_child-Counted accepting l s h = rw (end_child-unreaped s, end_child-count s) h
end_child-Counted counting l s h = rw (end_child-unreaped s, end_child-count s) h
end_child-Counted (loaded count) l s h = rw (end_child-unreaped s) h
end_child-Counted testing l s h = rw (end_child-unreaped s, end_child-count s) h
end_child-Counted returned l s h = rw (end_child-unreaped s) h
end_child-Counted failed l s h = rw (end_child-unreaped s) h

abbrev Good : ℕ → Server → Type 0
Good l s = Counted s.phase l s

here : {p : Phase} (l : ℕ) (t : Server) → t.phase ≡ p → Counted p l t → Good l t
here l t at h = subst (λ q. Counted q l t) (sym at) h

-- Where nothing is lost.
stays : (l : ℕ) (t : Server) → Good l t → Good (l + 0) t
stays l t h = subst (λ m. Good m t) (omega arith) h

ends-Good : (p : Phase) (l : ℕ) (s : Server) → s.phase ≡ p → Counted p l s → Good l (end_child s)
ends-Good p l s at h = here l (end_child s) (end_child-phase s ∙ at) (end_child-Counted p l s h)

on-Good :
    (p : Phase) (e : Event) (l : ℕ) (s : Server)
    → s.phase ≡ p
    → Counted p l s
    → Good (l + lost_by p e s) (on p e s)
unfolding reap
on-Good accepting child_ends l s at h = stays l (end_child s) (ends-Good accepting l s at h)
on-Good counting child_ends l s at h = stays l (end_child s) (ends-Good counting l s at h)
on-Good (loaded count) child_ends l s at h =
    stays l (end_child s) (ends-Good (loaded count) l s at h)
on-Good testing child_ends l s at h = stays l (end_child s) (ends-Good testing l s at h)
on-Good returned child_ends l s at h = stays l (end_child s) (ends-Good returned l s at h)
on-Good failed child_ends l s at h = stays l (end_child s) (ends-Good failed l s at h)
on-Good accepting sigchld l s at h =
    here (l + 0) (reap s) at (omega (arith, grim_reaper_parts s.zombies s.child_count))
on-Good counting sigchld l s at h =
    here (l + 0) (reap s) at (omega (arith, grim_reaper_parts s.zombies s.child_count))
on-Good (loaded count) sigchld l s at h = here (l + s.zombies) (reap s) at (omega arith)
on-Good testing sigchld l s at h =
    here (l + 0) (reap s) at (omega (arith, grim_reaper_parts s.zombies s.child_count))
on-Good accepting accept_fails l s at h = omega arith
on-Good accepting fork_fails l s at h = omega arith
on-Good accepting forks l s at h = omega arith
on-Good counting loads l s at h = omega arith
on-Good (loaded count) stores l s at h = omega (arith, +ℤ_parts count (pos 1))
on-Good testing tests l s at h = stays l (loop_test s) (loop_test-Counted l s h)
on-Good accepting _ l s at h = stays l s (here l s at h)
on-Good counting _ l s at h = stays l s (here l s at h)
on-Good (loaded count) _ l s at h = stays l s (here l s at h)
on-Good testing _ l s at h = stays l s (here l s at h)
on-Good returned _ l s at h = stays l s (here l s at h)
on-Good failed _ l s at h = stays l s (here l s at h)

run-Good : (es : List Event) (l : ℕ) (s : Server) → Good l s → Good (l + lost s es) (run s es)
unfolding run step lost
run-Good [] l s h = stays l s h
run-Good (e ∷ es) l s h =
    let m = lost_by s.phase e s in
    let t = on s.phase e s in
    let later = run-Good es (l + m) t (on-Good s.phase e l s refl h) in
    subst (λ n. Good n (run t es)) (omega arith) later

begin-Good : Good 0 begin
unfolding begin
begin-Good = omega arith

-- What the count is in each phase, where `l` decrements have been lost, and how many children there are.
abbrev pub Exact : Phase → ℕ → Server → Type 0
Exact accepting l s = (s.child_count ≡ pos (unreaped s + l)) × (unreaped s + l < max_child)
Exact counting l s = (s.child_count +ℤ pos 1 ≡ pos (unreaped s + l)) × (unreaped s + l ≤ max_child)
Exact (loaded count) l s = (count +ℤ pos 1 ≡ pos (unreaped s + l)) × (unreaped s + l ≤ max_child)
Exact testing l s = (s.child_count ≡ pos (unreaped s + l)) × (unreaped s + l ≤ max_child)
Exact returned l s = unreaped s + l ≡ max_child
Exact failed l s = unreaped s + l < max_child

Tally_lem : (count : ℤ) (n : ℕ) → Tally count n → count ≡ pos n
Tally_lem count n h = eq_of_parts count (pos n) (omega arith)

Tally-next : (count : ℤ) (n : ℕ) → pos_part count + 1 ≡ n + neg_part count → count +ℤ pos 1 ≡ pos n
Tally-next count n h = eq_of_parts (count +ℤ pos 1) (pos n) (omega (arith, +ℤ_parts count (pos 1)))

Counted-Exact : (p : Phase) (l : ℕ) (s : Server) → Counted p l s → Exact p l s
Counted-Exact accepting l s h = (Tally_lem s.child_count (unreaped s + l) h.0, h.1)
Counted-Exact counting l s h = (Tally-next s.child_count (unreaped s + l) h.0, h.1)
Counted-Exact (loaded count) l s h = (Tally-next count (unreaped s + l) h.0, h.1)
Counted-Exact testing l s h = (Tally_lem s.child_count (unreaped s + l) h.0, h.1)
Counted-Exact returned l s h = h
Counted-Exact failed l s h = h

bound : (p : Phase) (l : ℕ) (s : Server) → Counted p l s → unreaped s ≤ max_child
bound accepting l s h = omega arith
bound counting l s h = omega arith
bound (loaded count) l s h = omega arith
bound testing l s h = omega arith
bound returned l s h = omega arith
bound failed l s h = omega arith

-- However clients come, children end and the signal is delivered, also between the load and the store of the
-- increment, the server never has more than ten children that are not reaped. Let n be their number and
-- that of the decrements that the handler has made between a load and its store, which are lost. In accept
-- the count is n, and n is below ten; before the condition of the loop it is n; between fork and the load it
-- is n - 1, and between the load and the store what has been loaded is. Main returns only where n is ten.
pub run-Exact :
    (es : List Event)
    → (unreaped (run begin es) ≤ max_child)
      × Exact (run begin es).phase (lost begin es) (run begin es)
run-Exact es =
    let s = run begin es in
    let l = lost begin es in
    let good = subst (λ n. Good n s) (omega arith) (run-Good es 0 begin begin-Good) in
    (bound s.phase l s good, Counted-Exact s.phase l s good)
