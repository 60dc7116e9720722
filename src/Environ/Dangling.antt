-- ===== src/Environ/Dangling.antt =====
-- What the environment of environ.c points at.
use linux_programming.Base.{
  drop, ℕ, ◌≡◌, refl, ap, inl, inr, Bool, true, false, ◌||◌, [], ◌∷◌, ◌++◌, none, some, arith, ◌==◌,
  ==_refl, All, Bool-cases,
}
use linux_programming.Base.Int.{pos}
use linux_programming.Base.Bytes.{Bytes}
use linux_programming.Libc.Str.{str_eq_refl, upto}
use linux_programming.Environ.{
  Entry, Env, equals_sign, is_entry, getenv, putenv, release, free, unchanged, result, is_present,
  pair, my_setenv, my_unsetenv,
}

upto_equals : (name value : Bytes) → upto name 61 ≡ name → upto (name ++ 61 ∷ value) 61 ≡ name
unfolding upto
upto_equals [] value h = refl
upto_equals (x ∷ name) value h = elim (Bool-cases (x == 61)) [
  | inl e ↦ absurd (ground (arith, h, e))
  | inr e ↦
      let tail : upto name 61 ≡ name = ap (drop 1) (rw (e, upto) at h) in
      rw e (ap (λ l. x ∷ l) (upto_equals name value tail))
]

-- The entry that putenv leaves is the one that getenv finds.
getenv-putenv :
    (env : Env) (new : Entry) (name : Bytes)
    → upto new.text 61 ≡ name
    → getenv name (putenv new env) ≡ some new
unfolding getenv putenv
getenv-putenv [] new name h = rw (h, str_eq_refl name) refl
getenv-putenv (e ∷ env) new name h = elim (Bool-cases (is_entry name e)) [
  | inl is ↦ rw (h, is, h, str_eq_refl name) refl
  | inr other ↦ rw (h, other) (rw other (getenv-putenv env new name h))
]

getenv-free :
    (p : ℕ) (env : Env) (name : Bytes) (e : Entry)
    → getenv name env ≡ some e
    → getenv name (free p env) ≡ some (release p e)
unfolding getenv free
getenv-free p [] name e found = absurd (ground (arith, found))
getenv-free p (e0 ∷ env) name e found = elim (Bool-cases (is_entry name e0)) [
  | inl is ↦ rw is (let one : some e0 ≡ some e = rw (is, getenv) at found in cc)
  | inr other ↦ rw other (getenv-free p env name e (rw (other, getenv) at found))
]

-- The environment has an entry for `name` with that value, and its text has been freed.
abbrev pub Dangling : Bytes → Bytes → Env → Type 0
Dangling name value env =
    (e : Entry) × (getenv name env ≡ some e)
    × (e.text ≡ name ++ equals_sign ∷ value)
    × (e.live ≡ false)

put_free-Dangling :
    (p : ℕ) (name value : Bytes) (env : Env)
    → upto name equals_sign ≡ name
    → Dangling name value (free p (putenv (pair p name value) env))
put_free-Dangling p name value env plain =
    let there = getenv-putenv env (pair p name value) name (upto_equals name value plain) in
    (release p (pair p name value), getenv-free p _ name _ there, refl, rw (==_refl p) refl)

-- Where my_setenv changes the environment (memory is there, putenv succeeds, and it is told to overwrite
-- or the name has an entry already; the name has no '='), it returns 0, and the entry for the name has
-- the value but points at memory that has been freed.
pub my_setenv-Dangling :
    (p : ℕ) (name value : Bytes) (overwrite : Bool) (env : Env)
    → upto name equals_sign ≡ name
    → (overwrite || is_present (getenv name env)) ≡ true
    → ((my_setenv (some p) true (some name) value overwrite env).value ≡ pos 0)
      × Dangling name value (my_setenv (some p) true (some name) value overwrite env).env
unfolding my_setenv
my_setenv-Dangling p name value overwrite env plain changes =
    rw changes (refl, put_free-Dangling p name value env plain)

-- my_unsetenv of a name without '=' returns 0 where memory is there and putenv succeeds, and the name
-- has an entry afterwards, with the empty value, which points at memory that has been freed.
my_unsetenv-Dangling :
    (p : ℕ) (name : Bytes) (env : Env)
    → upto name equals_sign ≡ name
    → ((my_unsetenv (some p) true name env).value ≡ pos 0)
      × Dangling name [] (my_unsetenv (some p) true name env).env
unfolding my_unsetenv
my_unsetenv-Dangling p name env plain = (refl, put_free-Dangling p name [] env plain)

free_other : (p : ℕ) (env : Env) → All (λ e. (e.address == p) ≡ false) env → free p env ≡ env
unfolding free
free_other p [] fresh = refl
free_other p (e ∷ env) (other, fresh) = rw (other, free_other p env fresh) refl

-- my_setenv without overwrite sets nothing for a name that has no entry, though it returns 0.
my_setenv-getenv :
    (p : ℕ) (put : Bool) (name value : Bytes) (env : Env)
    → All (λ e. (e.address == p) ≡ false) env
    → getenv name env ≡ none
    → my_setenv (some p) put (some name) value false env ≡ result (pos 0) unchanged env
unfolding my_setenv
my_setenv-getenv p put name value env fresh absent = rw (absent, free_other p env fresh) refl
