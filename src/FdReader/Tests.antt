-- ===== src/FdReader/Tests.antt =====
-- fd_reader.c with a process that has the file open, and one whose "exe" cannot be read.
use linux_programming.Base.{◌+◌, ◌≤◌, ◌≡◌, refl, true, List, [], ◌∷◌, some, none, arith, All}
use linux_programming.Base.Bytes.{codes}
use linux_programming.Libc.Str.{str_eq}
use linux_programming.Libc.Strtol.{strtol, digits, skip_space}
use linux_programming.FdReader.{Entry, state, finished, is_proc, main}
use linux_programming.FdReader.Report.{
  count, readable, unreadable, accessible, holds, long, lines, main-lines,
}

abbrev daemon : Entry
daemon = record {
  d_name = codes "41";
  is_dir = true;
  exe = some (codes "/bin/d");
  links = some (record { name = codes "0"; target = some (codes "/tmp/f") } ∷ []);
}

abbrev kernel_thread : Entry
kernel_thread = record { d_name = codes "2"; is_dir = true; exe = none; links = none }

abbrev entries : List Entry
entries = kernel_thread ∷ daemon ∷ []

entries-All : All (λ e. accessible e ≡ true) entries
unfolding str_eq strtol digits skip_space
entries-All = (refl, (refl, tt))

room : 1 + count readable entries ≤ 1024
unfolding str_eq strtol digits skip_space
room = omega arith

main-lines_example :
    main 1024 (some (codes "/tmp/f")) (some entries)
    ≡ finished (
        state
          (lines (codes "/tmp/f") entries)
          (count readable entries)
          (count is_proc entries + count long entries)
          (count unreadable entries + count (holds (codes "/tmp/f")) entries))
main-lines_example = main-lines 1024 (codes "/tmp/f") entries entries-All room
