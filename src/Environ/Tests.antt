-- ===== src/Environ/Tests.antt =====
-- environ.c at a concrete environment.
use linux_programming.Base.{◌≡◌, refl, true, [], ◌∷◌, none}
use linux_programming.Base.Bytes.{codes}
use linux_programming.Libc.Str.{upto, str_eq}
use linux_programming.Environ.{Env, getenv, equals_sign}

abbrev home : Env
home = record { address = 4; text = codes "HOME=/root"; live = true } ∷ []

plain_home : upto (codes "HOME") equals_sign ≡ codes "HOME"
unfolding upto
plain_home = refl

no_path : getenv (codes "PATH") home ≡ none
unfolding getenv upto str_eq
no_path = refl
