-- ===== src/Execlp/Arrays.antt =====
-- The arrays of execlp_from_execve.c.
use linux_programming.Base.{
  ℕ, zero, suc, ◌+◌, ◌<◌, ◌≤◌, ◌≡◌, refl, ap, ◌∙◌, true, false, List, [], ◌∷◌, ◌++◌, map,
  append_assoc, append-nil, sym, Option, none, some, arith, ltb, length, length-append, replicate,
  length-replicate,
}
use linux_programming.Base.Bytes.{Bytes}
use linux_programming.Execlp.{
  Pointers, store_at, copy_from, copy_env, ArgVector, grow, push, capture_loop, capture_args,
}

store_at-inside :
    (i : ℕ) (x : Option Bytes) (ps : Pointers)
    → i < length ps
    → (qs : Pointers) × (store_at i x ps ≡ some qs) × (length qs ≡ length ps)
unfolding store_at
store_at-inside i x [] h = absurd (omega arith)
store_at-inside zero x (y ∷ ys) h = (x ∷ ys, refl, refl)
store_at-inside (suc i) x (y ∷ ys) h =
    let (zs, e, l) = store_at-inside i x ys (omega arith) in (y ∷ zs, rw e refl, omega (arith, l))

store_at-outside :
    (i : ℕ) (x : Option Bytes) (ps : Pointers) → length ps ≤ i → store_at i x ps ≡ none
unfolding store_at
store_at-outside i x [] h = refl
store_at-outside zero x (y ∷ ys) h = absurd (omega arith)
store_at-outside (suc i) x (y ∷ ys) h = rw (store_at-outside i x ys (omega arith)) refl

copy_from-outside :
    (es : List Bytes) (i : ℕ) (envp : Pointers)
    → length envp ≡ i + length es
    → copy_from i es envp ≡ none
unfolding copy_from
copy_from-outside [] i envp h = store_at-outside i none envp (omega arith)
copy_from-outside (e ∷ es) i envp h =
    let (envp', stored, l) = store_at-inside i (some e) envp (omega arith) in
    rw (stored, copy_from) (copy_from-outside es (suc i) envp' (omega arith))

-- The copy of the environment is written past its end by its NULL, whatever the environment holds.
copy_env-outside : (environ : List Bytes) → copy_env environ ≡ none
unfolding copy_env
copy_env-outside [] = refl
copy_env-outside (e ∷ es) =
    copy_from-outside (e ∷ es) 0 (replicate (suc (length es)) none)
      (omega (arith, length-replicate {A = Option Bytes} (suc (length es)) none))

store_at-append :
    (pre pad : Pointers) (x y : Option Bytes)
    → store_at (length pre) x (pre ++ y ∷ pad) ≡ some (pre ++ x ∷ pad)
unfolding store_at
store_at-append [] pad x y = refl
store_at-append (z ∷ pre) pad x y = rw (store_at-append pre pad x y) refl

-- The array begins with `pre`, which is all that is stored in it.
record Filled (a : ArgVector) (pre : Pointers) : Type 0 where
  pad : Pointers
  filled : a.argv ≡ pre ++ pad
  counted : a.argc ≡ length pre
  sized : a.cap ≡ length pre + length pad

-- Behind `grow` there is a place for one more.
grow-room :
    (a : ArgVector) (pre pad0 : Pointers)
    → a.argv ≡ pre ++ pad0
    → a.argc ≡ length pre
    → a.cap ≡ length pre + length pad0
    → (y : Option Bytes) × (pad : Pointers) × ((grow a).argv ≡ pre ++ y ∷ pad)
      × ((grow a).argc ≡ length pre)
      × ((grow a).cap ≡ length pre + suc (length pad))
unfolding grow
grow-room a pre [] e c z =
    let full : ltb a.cap (a.argc + 1) ≡ true = ground (arith, c, z) in
    rw full (
      none,
      replicate 4 none,
      ap (λ l. l ++ replicate 5 none) (e ∙ append-nil pre),
      c,
      omega (arith, z),
    )
grow-room a pre (y ∷ pad) e c z =
    let free : ltb a.cap (a.argc + 1) ≡ false = ground (arith, c, z) in rw free (y, pad, e, c, z)

push-Filled :
    (a : ArgVector) (pre : Pointers) (x : Option Bytes)
    → Filled a pre
    → (a' : ArgVector) × (push x (grow a) ≡ some a') × Filled a' (pre ++ x ∷ [])
push-Filled a pre x f =
    let (y, pad, e, c, z) = grow-room a pre f.pad f.filled f.counted f.sized in
    let stored : store_at (grow a).argc x (grow a).argv ≡ some (pre ++ x ∷ pad) =
      rw (c, e) (store_at-append pre pad x y) in
    let longer = length-append pre (x ∷ []) in
    (
      record { cap = (grow a).cap; argc = suc (grow a).argc; argv = pre ++ x ∷ pad },
      rw (stored, push) refl,
      record {
        pad = pad;
        filled = sym (append_assoc pre (x ∷ []) pad);
        counted = omega (arith, c, longer);
        sized = omega (arith, z, longer);
      },
    )

capture_loop-Filled :
    (xs : List Bytes) (a : ArgVector) (pre : Pointers)
    → Filled a pre
    → (a' : ArgVector) × (capture_loop xs a ≡ some a')
      × Filled a' (pre ++ (map some xs ++ none ∷ []))
unfolding capture_loop
capture_loop-Filled [] a pre f = push-Filled a pre none f
capture_loop-Filled (x ∷ xs) a pre f =
    let (a1, pushed, f1) = push-Filled a pre (some x) f in
    let (a', run, f') = capture_loop-Filled xs a1 (pre ++ some x ∷ []) f1 in
    let e = append_assoc pre (some x ∷ []) (map some xs ++ none ∷ []) in
    (a', rw (pushed, capture_loop) run, rw e at f')

length-map : (xs : List Bytes) → length (map some xs) ≡ length xs
length-map [] = refl
length-map (x ∷ xs) = ap suc (length-map xs)

-- However many arguments there are, the argument vector is never written past its end: it holds the
-- arguments in order, then NULL, and the count is theirs with NULL.
pub capture_args-map :
    (arg : Bytes) (xs : List Bytes)
    → (a : ArgVector) × (pad : Pointers) × (capture_args (some arg) xs ≡ some a)
      × (a.argv ≡ map some (arg ∷ xs) ++ none ∷ pad)
      × (a.argc ≡ length xs + 2)
unfolding capture_args store_at
capture_args-map arg xs =
    let f : Filled (record { cap = 10; argc = 1; argv = some arg ∷ replicate 9 none })
        (some arg ∷ []) =
      record { pad = replicate 9 none; filled = refl; counted = refl; sized = refl } in
    let (a, run, f') = capture_loop-Filled xs _ (some arg ∷ []) f in
    let whole = append_assoc (map some (arg ∷ xs)) (none ∷ []) f'.pad in
    let size = length-append (map some (arg ∷ xs)) (none ∷ []) in
    (a, f'.pad, run, f'.filled ∙ whole, omega (arith, f'.counted, size, length-map xs))
