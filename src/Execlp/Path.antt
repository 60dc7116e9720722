-- ===== src/Execlp/Path.antt =====
-- The search along PATH in execlp_from_execve.c.
use linux_programming.Base.{
  ◌+◌, ◌≡◌, ◌≢◌, refl, ap, sym, ◌∙◌, Bool, true, false, List, [], ◌∷◌, ◌++◌, append_assoc,
  append-nil, some, arith, ltb, ◌==◌, length, length-append, All,
}
use linux_programming.Base.Bytes.{Bytes}
use linux_programming.Execlp.{
  flush, tokens_from, tokens, ends_in_slash, pathname, pathname_size, overrun, exec_path, has_slash,
  path_or_default, exec_file,
}

-- A directory as it stands in PATH: not empty, without colons.
abbrev pub Dir : Bytes → Type 0
Dir d = (d ≢ []) × All (λ c. (c == 58) ≡ false) d

abbrev pub join : List Bytes → Bytes
join [] = []
join (d ∷ []) = d
join (d ∷ e ∷ ds) = d ++ 58 ∷ join (e ∷ ds)

flush_dir : (d : Bytes) (rest : List Bytes) → d ≢ [] → flush d rest ≡ d ∷ rest
flush_dir [] rest ne = absurd (ne refl)
flush_dir (c ∷ d) rest ne = refl

tokens_from-append :
    (d acc rest : Bytes)
    → All (λ c. (c == 58) ≡ false) d
    → tokens_from acc (d ++ rest) ≡ tokens_from (acc ++ d) rest
unfolding tokens_from
tokens_from-append [] acc rest plain = ap (λ a. tokens_from a rest) (sym (append-nil acc))
tokens_from-append (c ∷ d) acc rest (h, plain) = rw h (
    tokens_from-append d (acc ++ c ∷ []) rest plain
    ∙ ap (λ a. tokens_from a rest) (append_assoc acc (c ∷ []) d))

-- The tokens of directories that are joined by colons are these directories.
pub tokens-join : (ds : List Bytes) → All Dir ds → tokens (join ds) ≡ ds
unfolding tokens tokens_from
tokens-join [] dirs = refl
tokens-join (d ∷ []) ((ne, plain), dirs) =
    ap (tokens_from []) (sym (append-nil d))
    ∙ (tokens_from-append d [] [] plain ∙ flush_dir d [] ne)
tokens-join (d ∷ e ∷ ds) ((ne, plain), dirs) =
    tokens_from-append d [] (58 ∷ join (e ∷ ds)) plain
    ∙ (flush_dir d (tokens_from [] (join (e ∷ ds))) ne
        ∙ ap (λ l. d ∷ l) (tokens-join (e ∷ ds) dirs))

pathname-open : (d file : Bytes) → ends_in_slash d ≡ false → pathname d file ≡ d ++ 47 ∷ file
unfolding pathname
pathname-open d file open_end = rw open_end (append_assoc d (47 ∷ []) file)

exec_path-overrun :
    (runs : Bytes → Bool) (file d : Bytes) (ds : List Bytes)
    → ends_in_slash d ≡ false
    → exec_path runs file (d ∷ ds) ≡ overrun
unfolding exec_path
exec_path-overrun runs file d ds open_end =
    let size = ap length (pathname-open d file open_end) ∙ length-append d (47 ∷ file) in
    let short : ltb (pathname_size d file) (length (pathname d file) + 1) ≡ true =
      ground (arith, size) in
    rw (short, exec_path) refl

path_of_join :
    (d : Bytes) (ds : List Bytes) → Dir d → path_or_default (some (join (d ∷ ds))) ≡ join (d ∷ ds)
path_of_join [] ds (ne, plain) = absurd (ne refl)
path_of_join (c ∷ d) [] dir = refl
path_of_join (c ∷ d) (e ∷ ds) dir = refl

-- For a file without a slash and a PATH of directories of which the first does not end in a slash, the
-- first pathname is written past the end of its memory.
exec_file-overrun :
    (runs : Bytes → Bool) (file d : Bytes) (ds : List Bytes)
    → has_slash file ≡ false
    → All Dir (d ∷ ds)
    → ends_in_slash d ≡ false
    → exec_file runs (some (join (d ∷ ds))) file ≡ overrun
unfolding exec_file
exec_file-overrun runs file d ds bare (dir, dirs) open_end =
    rw (bare, path_of_join d ds dir, tokens-join (d ∷ ds) (dir, dirs))
      (exec_path-overrun runs file d ds open_end)
