-- ===== src/DirBase/Split.antt =====
-- The parts of a path that dirname_basename_tsd.c delivers.
use linux_programming.Base.{
  ℕ, ◌+◌, ◌<◌, ◌≡◌, refl, ap, ◌∙◌, Bool, true, false, [], ◌∷◌, ◌++◌, Option, none, some, arith, ltb,
  ◌==◌, length, length-append, All,
}
use linux_programming.Base.Bytes.{Bytes}
use linux_programming.DirBase.{
  Buffer, Key, basename_key, Specific, set, Ran, ran, fault, copy, with_buffer, strip, last_slash,
  base_part, dir_part, on_path, basename_ts, dirname_ts,
}

-- A name without slashes.
abbrev pub Plain : Bytes → Type 0
Plain = All (λ c. (c == 47) ≡ false)

strip-Plain : (c : ℕ) (s : Bytes) → Plain (c ∷ s) → strip (c ∷ s) ≡ c ∷ s
unfolding strip
strip-Plain c [] (h, plain) = rw h refl
strip-Plain c (d ∷ s) (h, plain) = ap (λ l. c ∷ l) (strip-Plain d s plain)

strip-append : (dir : Bytes) (y : ℕ) (ys : Bytes) → strip (dir ++ y ∷ ys) ≡ dir ++ strip (y ∷ ys)
unfolding strip
strip-append [] y ys = refl
strip-append (c ∷ []) y ys = refl
strip-append (c ∷ d ∷ dir) y ys = ap (λ l. c ∷ l) (strip-append (d ∷ dir) y ys)

last_slash-Plain : (s : Bytes) → Plain s → last_slash s ≡ none
unfolding last_slash
last_slash-Plain [] plain = refl
last_slash-Plain (c ∷ s) (h, plain) = rw (last_slash-Plain s plain, h) refl

last_slash-append :
    (dir base : Bytes) → Plain base → last_slash (dir ++ 47 ∷ base) ≡ some (dir, base)
unfolding last_slash
last_slash-append [] base plain = rw (last_slash-Plain base plain) refl
last_slash-append (c ∷ dir) base plain = rw (last_slash-append dir base plain) refl

strip_path :
    (dir : Bytes) (c : ℕ) (s : Bytes)
    → Plain (c ∷ s)
    → strip (dir ++ 47 ∷ c ∷ s) ≡ dir ++ 47 ∷ c ∷ s
unfolding strip
strip_path dir c s plain =
    strip-append dir 47 (c ∷ s) ∙ ap (λ l. dir ++ 47 ∷ l) (strip-Plain c s plain)

copy_fits :
    (key : Key) (t : Specific) (buf : Buffer) (s : Bytes) (path : Option Bytes)
    → length s < buf.size
    → copy key t buf s path ≡ ran key (set key (record buf { text = s }) t) path
unfolding copy
copy_fits key t buf s path h =
    let fits : ltb buf.size (length s + 1) ≡ false = ground arith in rw fits refl

module _ (key : Key) (t : Specific) where
  on_path-some :
      (part : Key → Specific → Buffer → Bytes → Ran) (dir rest : Bytes) (buf : Buffer)
      → on_path part key t (some (dir ++ 47 ∷ rest)) buf ≡ part key t buf (strip (dir ++ 47 ∷ rest))
  on_path-some part [] rest buf = refl
  on_path-some part (c ∷ dir) rest buf = refl

  base_part-split :
      (buf : Buffer) (dir : Bytes) (c : ℕ) (s : Bytes)
      → Plain (c ∷ s)
      → length (dir ++ 47 ∷ c ∷ s) < buf.size
      → on_path base_part key t (some (dir ++ 47 ∷ c ∷ s)) buf
        ≡ ran key (set key (record buf { text = c ∷ s }) t) (some (dir ++ 47 ∷ c ∷ s))
  base_part-split buf dir c s plain h =
      let path = dir ++ 47 ∷ c ∷ s in
      on_path-some base_part dir (c ∷ s) buf
      ∙ ap (base_part key t buf) (strip_path dir c s plain)
      ∙ rw (last_slash-append dir (c ∷ s) plain, base_part)
          (copy_fits key t buf (c ∷ s) (some path) (omega (arith, length-append dir (47 ∷ c ∷ s))))

  dir_part-split :
      (buf : Buffer) (dir : Bytes) (c : ℕ) (s : Bytes)
      → Plain (c ∷ s)
      → length (dir ++ 47 ∷ c ∷ s) < buf.size
      → on_path dir_part key t (some (dir ++ 47 ∷ c ∷ s)) buf
        ≡ ran key (set key (record buf { text = dir }) t) (some dir)
  dir_part-split buf dir c s plain h =
      on_path-some dir_part dir (c ∷ s) buf
      ∙ ap (dir_part key t buf) (strip_path dir c s plain)
      ∙ rw (last_slash-append dir (c ∷ s) plain, dir_part)
          (copy_fits key t buf dir (some dir) (omega (arith, length-append dir (47 ∷ c ∷ s))))

-- What a thread has stored, with a text in the buffer of basename_ts.
abbrev pub stored : Buffer → Bytes → Option Buffer → Specific
stored buf text other = record {
  of_basename = some (record buf { text = text });
  of_dirname = other;
}

-- Of a path "dir/base", with a base that is not empty and has no slash, basename_ts delivers the base and
-- dirname_ts the dir, where the buffer that the thread has for the key of basename_ts holds the path. But
-- whatever the thread has for the key of dirname_ts, both return the pointer that is stored for the key of
-- basename_ts, and write to its buffer over what it held: after both calls, in either order, that buffer
-- has the result of the second one alone, and what is stored for the key of dirname_ts is as it was.
pub dirname_ts-basename_ts :
    (memory : Bool) (buf : Buffer) (other : Option Buffer) (dir : Bytes) (c : ℕ) (s old : Bytes)
    → Plain (c ∷ s)
    → length (dir ++ 47 ∷ c ∷ s) < buf.size
    → (basename_ts memory (stored buf old other) (some (dir ++ 47 ∷ c ∷ s))
        ≡ ran basename_key (stored buf (c ∷ s) other) (some (dir ++ 47 ∷ c ∷ s)))
      × (dirname_ts memory (stored buf (c ∷ s) other) (some (dir ++ 47 ∷ c ∷ s))
          ≡ ran basename_key (stored buf dir other) (some dir))
      × (dirname_ts memory (stored buf old other) (some (dir ++ 47 ∷ c ∷ s))
          ≡ ran basename_key (stored buf dir other) (some dir))
      × (basename_ts memory (stored buf dir other) (some (dir ++ 47 ∷ c ∷ s))
          ≡ ran basename_key (stored buf (c ∷ s) other) (some (dir ++ 47 ∷ c ∷ s)))
unfolding basename_ts dirname_ts with_buffer
dirname_ts-basename_ts memory buf other dir c s old plain h =
    let base = λ (text : Bytes).
      base_part-split basename_key (stored buf text other) (record buf { text = text }) dir c s
        plain h in
    let directory = λ (text : Bytes).
      dir_part-split basename_key (stored buf text other) (record buf { text = text }) dir c s plain
        h in
    (base old, directory (c ∷ s), directory old, base dir)

-- The first call of a thread, on a name that is not empty and has no slash, writes past the end of the
-- buffer, which has no place for the NUL.
basename_ts-fault :
    (other : Option Buffer) (c : ℕ) (s : Bytes)
    → Plain (c ∷ s)
    → let t : Specific = record { of_basename = none; of_dirname = other } in
      (basename_ts true t (some (c ∷ s)) ≡ fault) × (dirname_ts true t (some (c ∷ s)) ≡ fault)
unfolding basename_ts dirname_ts with_buffer copy
basename_ts-fault other c s plain =
    let whole = strip-Plain c s plain in
    let no_slash = last_slash-Plain (c ∷ s) plain in
    let short : ltb (length (c ∷ s)) (length (c ∷ s) + 1) ≡ true = ground arith in
    let fresh : Buffer = record { size = length (c ∷ s); text = [] } in
    let t : Specific = record { of_basename = none; of_dirname = other } in
    (
      ap (base_part basename_key t fresh) whole ∙ rw (no_slash, base_part) (rw short refl),
      ap (dir_part basename_key t fresh) whole ∙ rw (no_slash, dir_part) (rw short refl),
    )
