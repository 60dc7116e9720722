-- ===== src/AtomicAppend/Interleaved.antt =====
-- The file that two processes of atomic_append.c leave, with O_APPEND and with lseek.

use linux_programming.Base.{
  ℕ, zero, suc, ◌+◌, ◌≡◌, refl, sym, ap, ap₂, ◌∙◌, Bool, true, false, ◌&&◌, List, [], ◌∷◌, ◌++◌,
  append_assoc, append-nil, Option, some, none, arith, unwrap, length, leb, if◌then◌else◌, ◌>>=◌,
  ◌≤◌,
}
use linux_programming.Base.Bytes.{Bytes}
use linux_programming.AtomicAppend.{
  character, int_max, Process, write_at, call, State, Event, first, second, step, run, opened,
}

-- `zs` consists of `xs` and `ys`, each in its order.
pub data Interleaves : Bytes → Bytes → Bytes → Type 0 where
  nothing : Interleaves [] [] []
  from_left : (x : ℕ) (xs ys zs : Bytes) → Interleaves xs ys zs → Interleaves (x ∷ xs) ys (x ∷ zs)
  from_right : (y : ℕ) (xs ys zs : Bytes) → Interleaves xs ys zs → Interleaves xs (y ∷ ys) (y ∷ zs)

-- What the turns from number `i` on write.
abbrev pub text : ℕ → ℕ → Bytes
text i zero = []
text i (suc left) = character i ∷ text (suc i) left

abbrev event_works : Event → Bool
event_works (first works) = works
event_works (second works) = works

abbrev pub all_work : List Event → Bool
all_work [] = true
all_work (e ∷ es) = event_works e && all_work es

-- Both processes have O_APPEND.
abbrev appenders : Bytes → ℕ → ℕ → ℕ → ℕ → Option ℕ → Option ℕ → State
appenders file i n j m o q = record {
  file = file;
  p1 = record { append = true; i = i; left = n; offset = o };
  p2 = record { append = true; i = j; left = m; offset = q };
}

-- Both processes are at the end of their loops.
abbrev pub finished : State → Bool
finished s = is_zero s.p1.left && is_zero s.p2.left
  where
    is_zero : ℕ → Bool
    is_zero zero = true
    is_zero (suc n) = false

-- A turn that is made is in the range of int.
made :
    (b : Bool) (x : Process × Bytes) (f : Process × Bytes → Option State) (k : State → Option State)
    (t : State)
    → (((if b then some x else none) >>= f) >>= k) ≡ some t
    → (f x >>= k) ≡ some t
made true x f k t e = e
made false x f k t e = ground arith

run-appenders :
    (es : List Event) (file : Bytes) (i n j m : ℕ) (o q : Option ℕ) (t : State)
    → all_work es ≡ true
    → run es (appenders file i n j m o q) ≡ some t
    → finished t ≡ true
    → (z : Bytes) × (t.file ≡ file ++ z) × Interleaves (text i n) (text j m) z
unfolding run step call
run-appenders [] file i zero j zero o q t w e f =
    ([], ap (λ u. u.file) (sym (unwrap e)) ∙ sym (append-nil file), nothing)
run-appenders [] file i (suc n) j m o q t w e f = ground (arith, unwrap e)
run-appenders [] file i zero j (suc m) o q t w e f = ground (arith, unwrap e)
run-appenders (first true ∷ es) file i (suc n) j m o q t w e f =
    let (z, shown, parts) =
      run-appenders es (file ++ character i ∷ []) (suc i) n j m none q t w
        (made (leb (i + 33) int_max) _ _ _ t e) f in
    (character i ∷ z, shown ∙ append_assoc file (character i ∷ []) z, from_left _ _ _ z parts)
run-appenders (second true ∷ es) file i n j (suc m) o q t w e f =
    let (z, shown, parts) =
      run-appenders es (file ++ character j ∷ []) i n (suc j) m o none t w
        (made (leb (j + 33) int_max) _ _ _ t e) f in
    (character j ∷ z, shown ∙ append_assoc file (character j ∷ []) z, from_right _ _ _ z parts)
run-appenders (first true ∷ es) file i zero j m o q t w e f = ground arith
run-appenders (second true ∷ es) file i n j zero o q t w e f = ground arith
run-appenders (first false ∷ es) file i n j m o q t w e f = ground arith
run-appenders (second false ∷ es) file i n j m o q t w e f = ground arith

-- Two processes that open the file with O_APPEND and write `n` and `m` bytes, with calls that succeed, in
-- any order of their calls, leave behind what the file had before, where both have come to the ends of
-- their loops, the bytes of both, each byte once and those of each process in their order.
pub appends-Interleaves :
    (es : List Event) (file : Bytes) (n m : ℕ) (t : State)
    → all_work es ≡ true
    → run es (record { file = file; p1 = opened true n; p2 = opened true m }) ≡ some t
    → finished t ≡ true
    → (z : Bytes) × (t.file ≡ file ++ z) × Interleaves (text 0 n) (text 0 m) z
appends-Interleaves es file n m t w e f = run-appenders es file 0 n 0 m none none t w e f

-- In each turn both processes call lseek before either writes.
abbrev pub seeks_first : ℕ → List Event
seeks_first zero = []
seeks_first (suc n) = first true ∷ second true ∷ first true ∷ second true ∷ seeks_first n

write_at-end : (file : Bytes) (c : ℕ) → write_at (length file) c file ≡ file ++ c ∷ []
unfolding write_at
write_at-end [] c = refl
write_at-end (b ∷ file) c = ap (λ x. b ∷ x) (write_at-end file c)

write_at-last :
    (file : Bytes) (c d : ℕ) → write_at (length file) c (file ++ d ∷ []) ≡ file ++ c ∷ []
unfolding write_at
write_at-last [] c d = refl
write_at-last (b ∷ file) c d = ap (λ x. b ∷ x) (write_at-last file c d)

abbrev pub seekers : Bytes → ℕ → ℕ → State
seekers file i n = record {
  file = file;
  p1 = record { append = false; i = i; left = n; offset = none };
  p2 = record { append = false; i = i; left = n; offset = none };
}

run-seekers :
    (n i : ℕ) (file : Bytes)
    → i + n + 32 ≤ int_max
    → run (seeks_first n) (seekers file i n) ≡ some (seekers (file ++ text i n) (i + n) 0)
unfolding run step call
run-seekers zero i file h = ap₂ (λ f k. some (seekers f k 0)) (sym (append-nil file)) (omega arith)
run-seekers (suc n) i file h =
    let c = character i in
    let fits : leb (i + 33) int_max ≡ true = ground arith in
    simp (fits, write_at-end file c, write_at-last file c c)
      (run-seekers n (suc i) (file ++ c ∷ []) (omega arith)
        ∙ ap₂ (λ f k. some (seekers f k 0)) (append_assoc file (c ∷ []) (text (suc i) n))
            (omega arith))

-- Without O_APPEND two processes that write `n` bytes each can leave `n` bytes behind what the file had
-- before: each of them overwrites a byte of the other. That is for each `n` whose turns are defined: up to
-- 2 ^ 31 - 33.
pub seeks-lost :
    (n : ℕ) (file : Bytes)
    → n + 32 ≤ int_max
    → run (seeks_first n) (record { file = file; p1 = opened false n; p2 = opened false n })
      ≡ some (seekers (file ++ text 0 n) n 0)
seeks-lost n file h =
    run-seekers n 0 file (omega arith)
    ∙ ap (λ k. some (seekers (file ++ text 0 n) k 0)) (omega arith)
