-- ===== src/FdReader/Report.antt =====
-- What fd_reader.c prints, and what it leaves behind.
use linux_programming.Base.{
  ℕ, suc, ◌+◌, ◌-◌, ◌<◌, ◌≤◌, ◌≡◌, refl, sym, ap, ◌∙◌, inl, inr, Bool, true, false, Bool-cases,
  Option-cases, not, ◌&&◌, ◌||◌, List, [], ◌∷◌, ◌++◌, append_assoc, append-nil, Option, none, some,
  is_none, arith, ltb, lt→ltb, if◌then◌else◌, length, take, All,
}
use linux_programming.Base.Bytes.{Bytes, codes}
use linux_programming.Libc.Str.{str_eq}
use linux_programming.FdReader.{
  buf_size, Link, Entry, State, state, write_at, path_writes, is_dots, scanned, fd_loop, finished,
  goes, is_proc, entry_step, proc_loop, main,
}

abbrev pub count : {A : Type 0} → (A → Bool) → List A → ℕ
count p [] = 0
count p (x ∷ xs) = let rest = count p xs in if p x then suc rest else rest

-- A descriptor of the file.
abbrev pub refers : Bytes → Option Bytes → Bool
refers file none = false
refers file (some target) = str_eq file (take (buf_size - 1) target)

unfoldable pub any_refers : Bytes → List Link → Bool
any_refers file [] = false
any_refers file (l ∷ ls) = (not (is_dots l.name) && refers file l.target) || any_refers file ls

fd_loop-any :
    (file exe : Bytes) (ls : List Link) (o : Bytes) (d p b : ℕ)
    → fd_loop (some file) exe ls (state o d p b)
      ≡ scanned (
          if any_refers file ls
          then state (o ++ (exe ++ codes "\n")) d p (b + 1)
          else state o d p b)
unfolding fd_loop any_refers
fd_loop-any file exe [] o d p b = refl
fd_loop-any file exe (l ∷ ls) o d p b = elim (Bool-cases (is_dots l.name)) [
  | inl dots ↦ rw dots (fd_loop-any file exe ls o d p b)
  | inr other ↦ elim (Option-cases l.target) [
    | inl n ↦ rw (other, n) (fd_loop-any file exe ls o d p b)
    | inr (target, t) ↦ elim (Bool-cases (str_eq file (take (buf_size - 1) target))) [
      | inl same ↦ rw (other, t, same) refl
      | inr differ ↦ rw (other, t, differ) (fd_loop-any file exe ls o d p b)
    ]
  ]
]

-- A process that has the file open, by the entries that are seen.
abbrev pub links_refer : Bytes → Option (List Link) → Bool
links_refer file none = false
links_refer file (some ls) = any_refers file ls

abbrev pub readable : Entry → Bool
readable e = is_proc e && not (is_none e.exe)

abbrev pub unreadable : Entry → Bool
unreadable e = is_proc e && is_none e.exe

abbrev pub holds : Bytes → Entry → Bool
holds file e = readable e && links_refer file e.links

abbrev pub exe_text : Option Bytes → Bytes
exe_text none = []
exe_text (some exe) = take buf_size exe

-- A path of an executable that fills the array.
abbrev pub long : Entry → Bool
long e = readable e && not (ltb (length (exe_text e.exe)) buf_size)

-- The executables of the processes that have the file open, a line for each.
unfoldable pub lines : Bytes → List Entry → Bytes
lines file [] = []
lines file (e ∷ es) =
    let rest = lines file es in (if holds file e then exe_text e.exe ++ codes "\n" else []) ++ rest

-- The "fd" of a process whose "exe" can be read opens.
abbrev pub accessible : Entry → Bool
accessible e = not (readable e) || not (is_none e.links)

path_writes_lem : (name : Bytes) → path_writes name ≡ 1
unfolding path_writes
path_writes_lem name = ground arith

-- What one entry adds.
abbrev bit : Bool → ℕ
bit c = if c then 1 else 0

abbrev added : Bytes → Entry → Bytes → ℕ → ℕ → ℕ → State
added file e o d p b =
    state (o ++ (if holds file e then exe_text e.exe ++ codes "\n" else [])) (d + bit (readable e))
      (p + (bit (is_proc e) + bit (long e))) (b + (bit (unreadable e) + bit (holds file e)))

state_eq :
    {o o' : Bytes} {d d' p p' b b' : ℕ}
    → o ≡ o'
    → d ≡ d'
    → p ≡ p'
    → b ≡ b'
    → state o d p b ≡ state o' d' p' b'
state_eq eo ed ep eb = cc (eo, ed, ep, eb)

write_at-bit : (size index : ℕ) → write_at size index ≡ bit (not (ltb index size))
write_at-bit size index = ground arith

false-ne : false ≡ true → ⊥
false-ne e = ground arith

module _ (limit : ℕ) (file : Bytes) where
  entry_step-readable :
      (e : Entry) (o : Bytes) (d p b : ℕ) (exe : Bytes) (ls : List Link)
      → is_proc e ≡ true
      → e.exe ≡ some exe
      → e.links ≡ some ls
      → d < limit
      → entry_step limit (some file) e (state o d p b) ≡ goes (added file e o d p b)
  unfolding entry_step
  entry_step-readable e o d p b exe ls one at_exe at_links room =
      let inside : ltb d limit ≡ true = lt→ltb d limit room in
      let overrun = write_at-bit buf_size (length (take buf_size exe)) in
      elim (Bool-cases (any_refers file ls)) [
        | inl held ↦
            rw (one, at_exe, at_links, inside, path_writes_lem e.d_name, fd_loop-any, held, overrun)
              (ap goes (state_eq refl (omega arith) (omega arith) (omega arith)))
        | inr other ↦
            rw
              (one, at_exe, at_links, inside, path_writes_lem e.d_name, fd_loop-any, other, overrun)
              (ap goes (state_eq (sym (append-nil o)) (omega arith) (omega arith) (omega arith)))
      ]

  entry_step-added :
      (e : Entry) (o : Bytes) (d p b : ℕ)
      → accessible e ≡ true
      → d + bit (readable e) ≤ limit
      → entry_step limit (some file) e (state o d p b) ≡ goes (added file e o d p b)
  unfolding entry_step
  entry_step-added e o d p b ok room = elim (Bool-cases (is_proc e)) [
    | inr other ↦
        rw other (ap goes (state_eq (sym (append-nil o)) (omega arith) (omega arith) (omega arith)))
    | inl one ↦ elim (Option-cases e.exe) [
      | inl n ↦
          rw (one, n, path_writes_lem e.d_name)
            (ap goes (state_eq (sym (append-nil o)) (omega arith) (omega arith) (omega arith)))
      | inr (exe, at_exe) ↦ elim (Option-cases e.links) [
        | inl n ↦ absurd (false-ne (rw (one, at_exe, n) at ok))
        | inr (ls, at_links) ↦
            entry_step-readable e o d p b exe ls one at_exe at_links
              (omega (arith, rw (one, at_exe) at room))
      ]
    ]
  ]

  -- The state at the end of the loop, before closedir.
  abbrev total : List Entry → Bytes → ℕ → ℕ → ℕ → State
  total es o d p b =
      state (o ++ lines file es) (d + count readable es - 1)
        (p + (count is_proc es + count long es)) (b + (count unreadable es + count (holds file) es))

  count-cons :
      (q : Entry → Bool) (e : Entry) (es : List Entry) → count q (e ∷ es) ≡ bit (q e) + count q es
  count-cons q e es = elim (Bool-cases (q e)) [
    | inl h ↦ rw h (omega arith)
    | inr h ↦ rw h (omega arith)
  ]

  proc_loop-step :
      (e : Entry) (es : List Entry) (s t : State)
      → entry_step limit (some file) e s ≡ goes t
      → proc_loop limit (some file) (e ∷ es) s ≡ proc_loop limit (some file) es t
  unfolding proc_loop
  proc_loop-step e es s t h = rw (proc_loop, h) refl

  proc_loop-nil :
      (s : State)
      → proc_loop limit (some file) [] s ≡ finished (state s.out (s.dirs - 1) s.past s.blocks)
  unfolding proc_loop
  proc_loop-nil s = refl

  proc_loop-total :
      (es : List Entry) (o : Bytes) (d p b : ℕ)
      → All (λ e. accessible e ≡ true) es
      → d + count readable es ≤ limit
      → proc_loop limit (some file) es (state o d p b) ≡ finished (total es o d p b)
  unfolding lines
  proc_loop-total [] o d p b ok room =
      proc_loop-nil (state o d p b)
      ∙ ap finished (state_eq (sym (append-nil o)) (omega arith) (omega arith) (omega arith))
  proc_loop-total (e ∷ es) o d p b (h, hs) room =
      let r = count-cons readable e es in
      proc_loop-step e es (state o d p b) (added file e o d p b)
        (entry_step-added e o d p b h (omega arith))
      ∙ (proc_loop-total es _ _ _ _ hs (omega arith)
          ∙ ap finished (
              state_eq
                (append_assoc o (if holds file e then exe_text e.exe ++ codes "\n" else [])
                  (lines file es))
                (omega (arith, r)) (omega (arith, count-cons is_proc e es, count-cons long e es))
                (omega (arith, count-cons unreadable e es, count-cons (holds file) e es))))

  -- Where the directories of descriptors open, and no more processes are readable than directories can be
  -- open: the executable of each process that has the file open is printed, once and in the order of /proc;
  -- each directory of descriptors stays open; a byte is written beyond the end of a block for each process,
  -- and one beyond an array for each executable whose path fills it; and a block is lost for each process
  -- that is not readable and for each that is printed.
  pub main-lines :
      (es : List Entry)
      → All (λ e. accessible e ≡ true) es
      → 1 + count readable es ≤ limit
      → main limit (some file) (some es)
        ≡ finished (
            state
              (lines file es)
              (count readable es)
              (count is_proc es + count long es)
              (count unreadable es + count (holds file) es))
  unfolding main
  main-lines es ok room =
      proc_loop-total es [] 1 0 0 ok room
      ∙ ap finished (state_eq refl (omega arith) (omega arith) (omega arith))
