-- ===== src/Execlp/Tests.antt =====
-- execlp_from_execve.c at concrete calls.
use linux_programming.Base.{◌+◌, ◌≡◌, refl, false, [], ◌∷◌, ◌++◌, map, none, some, length}
use linux_programming.Base.Bytes.{codes}
use linux_programming.Libc.Str.{strchr}
use linux_programming.Execlp.{Pointers, ArgVector, capture_args, has_slash}
use linux_programming.Execlp.Arrays.{capture_args-map}
use linux_programming.Execlp.Path.{Dir}

capture_args-map_example :
    (a : ArgVector) × (pad : Pointers) × (capture_args (some (codes "vim")) (codes "-p2" ∷ [])
      ≡ some a)
    × (a.argv ≡ map some (codes "vim" ∷ codes "-p2" ∷ []) ++ none ∷ pad)
    × (a.argc ≡ length (codes "-p2" ∷ []) + 2)
capture_args-map_example = capture_args-map (codes "vim") (codes "-p2" ∷ [])

bin-Dir : Dir (codes "/bin")
bin-Dir = (λ e. cc, (refl, (refl, (refl, (refl, tt)))))

opt-Dir : Dir (codes "/opt/")
opt-Dir = (λ e. cc, (refl, (refl, (refl, (refl, (refl, tt))))))

no_slash : has_slash (codes "vim") ≡ false
unfolding strchr
no_slash = refl
