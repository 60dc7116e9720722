-- ===== src/MmapCopy/Tests.antt =====
-- cp.c on a file of two bytes.
use linux_programming.Base.{◌≡◌, refl, true, [], ◌∷◌, none}
use linux_programming.Base.Bytes.{codes}
use linux_programming.Libc.Str.{str_eq}
use linux_programming.MmapCopy.{Files, store, Calls, failure, main}
use linux_programming.MmapCopy.Copied.{Copied, main-Copied}

abbrev calls : Calls
calls = record {
  open_source = true;
  fstat = true;
  mmap_source = true;
  close = true;
  open_destination = true;
  ftruncate = true;
  mmap_destination = true;
  munmap_source = true;
  munmap_destination = true;
}

abbrev files : Files
files = store (codes "b") (codes "longer") (store (codes "a") (codes "xy") (λ k. none))

one_argument : main calls (codes "a" ∷ []) files ≡ failure files
unfolding main
one_argument = refl

main-Copied_example :
    Copied (codes "b") files (codes "xy") (main calls (codes "a" ∷ codes "b" ∷ []) files)
unfolding str_eq
main-Copied_example = main-Copied calls (codes "a") (codes "b") (codes "xy") files refl refl refl
