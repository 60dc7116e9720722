-- ===== src/UsersProcesses/Tests.antt =====
-- users_processes.c with one process of the user and one of root.
use linux_programming.Base.{
  ℕ, ◌≡◌, refl, true, false, List, [], ◌∷◌, map, Option, some, none, arith, All,
}
use linux_programming.Base.Bytes.{Bytes, codes}
use linux_programming.Libc.Str.{str_eq}
use linux_programming.Libc.Strtol.{strtol, digits, skip_space}
use linux_programming.Pstree.Status.{DirEntry, strtok, skip_tabs, after_tab}
use linux_programming.Libc.Str.{upto}
use linux_programming.UsersProcesses.{user_id_from_name, printed, main}
use linux_programming.UsersProcesses.Status.{Other}
use linux_programming.UsersProcesses.Listing.{
  Proc, Item, process, passed, entry, Sound, SoundItem, expected, main-expected,
}

abbrev shell : Proc
shell = record {
  pid = 17;
  name = codes "sh";
  uid = 1000;
  other_ids = codes "1000\n";
  before = [];
  between = codes "Umask:\t0022\n" ∷ [];
  behind = [];
}

abbrev kernel_thread : Proc
kernel_thread = record {
  pid = 2;
  name = codes "kthreadd";
  uid = 0;
  other_ids = codes "0\n";
  before = [];
  between = [];
  behind = [];
}

abbrev dot : DirEntry
dot = record { d_name = codes "."; is_dir = true; status = none }

abbrev items : List Item
items = passed dot ∷ process kernel_thread ∷ process shell ∷ []

abbrev users : Bytes → Option ℕ
users name = some 1000

umask-Other : Other (codes "Umask:\t0022\n")
unfolding Other strtok skip_tabs after_tab upto str_eq
umask-Other = (codes "Umask:", refl, refl, refl)

sound : All SoundItem items
unfolding SoundItem Sound str_eq
sound = (
  refl,
  (
    (
      omega arith,
      (refl, (refl, (refl, (refl, (refl, (refl, (refl, (refl, tt)))))))),
      omega arith,
      tt,
      tt,
      tt,
    ),
    ((omega arith, (refl, (refl, tt)), omega arith, tt, (umask-Other, tt), tt), tt),
  ),
)

named : str_eq (codes "ann") (codes "--help") ≡ false
unfolding str_eq
named = refl

ann : user_id_from_name users (codes "ann") ≡ 1000
unfolding user_id_from_name strtol skip_space digits
ann = refl

numbered : str_eq (codes "100000") (codes "--help") ≡ false
unfolding str_eq
numbered = refl

number_lem : user_id_from_name users (codes "100000") ≡ 100000
unfolding user_id_from_name strtol skip_space digits
number_lem = refl

main-expected_example :
    main users (codes "ann" ∷ []) (some (map entry items))
    ≡ printed (expected (codes "ann") 1000 items)
main-expected_example = main-expected users (codes "ann") 1000 items named ann (omega arith) sound
