-- ===== src/DirectoryObserver/Tests.antt =====
-- directory_observer.c: a directory that is created, and a buffer that is cut short.
use linux_programming.Base.{
  ◌≡◌, ◌≢◌, ◌<◌, inl, inr, refl, true, false, [], ◌∷◌, some, arith, length, All,
}
use linux_programming.Base.Bytes.{codes}
use linux_programming.DirectoryObserver.{
  Entry, Walk, nftw, add_watch, visit, directory_action, State, running, events,
}
use linux_programming.Libc.Str.{str_eq}
use linux_programming.DirectoryObserver.Buffer.{events-running}
use linux_programming.DirectoryObserver.Events.{
  Event, Valid, encode, encode_all, replay, events-replay,
}

abbrev top : Entry
top = record { path = codes "t"; is_dir = true; added = true }

abbrev file : Entry
file = record { path = codes "t/f"; is_dir = false; added = true }

abbrev sub : Entry
sub = record { path = codes "t/d"; is_dir = true; added = true }

abbrev walk : Walk
walk = record { entries = top ∷ file ∷ sub ∷ []; walked = true }

-- "d" is created as a directory: IN_CREATE and IN_ISDIR.
abbrev creation : Event
creation = record { wd = 1; mask = 1073742080; cookie = 0; name = codes "d"; nuls = 15 }

abbrev access : Event
access = record { wd = 2; mask = 1; cookie = 0; name = []; nuls = 0 }

abbrev start : State
start = record { out = []; watched = codes "t" ∷ []; walks = 1 }

valid : All Valid (access ∷ creation ∷ [])
unfolding Valid
valid = (
  (omega arith, omega arith, omega arith, omega arith, tt, inl refl),
  ((omega arith, omega arith, omega arith, omega arith, (omega arith, tt), inr (omega arith)), tt),
)

fits : length (encode_all (access ∷ creation ∷ [])) < 49
unfolding encode encode_all
fits = omega arith

events-replay_example :
    events (λ k. walk) 49 (encode_all (access ∷ creation ∷ [])) start
    ≡ replay (λ k. walk) (access ∷ creation ∷ []) start
events-replay_example = events-replay (λ k. walk) 49 (access ∷ creation ∷ []) start fits valid

events-running_example : events (λ k. walk) 4 (7 ∷ 0 ∷ 0 ∷ []) start ≢ running start
events-running_example = events-running (λ k. walk) 4 (7 ∷ 0 ∷ 0 ∷ []) start start (omega arith)

walk_lem : nftw walk (codes "t" ∷ []) ≡ some (codes "t" ∷ codes "t/d" ∷ [])
unfolding nftw visit directory_action add_watch str_eq
walk_lem = refl
