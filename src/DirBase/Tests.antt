-- ===== src/DirBase/Tests.antt =====
-- dirname_basename_tsd.c at concrete paths.
use linux_programming.Base.{◌≡◌, refl, false, [], some, none, arith}
use linux_programming.Base.Bytes.{codes}
use linux_programming.DirBase.{Buffer, basename_key, ran, basename_ts, dirname_ts}
use linux_programming.DirBase.Split.{stored, dirname_ts-basename_ts}

abbrev buffer : Buffer
buffer = record { size = 10; text = [] }

dirname_ts-basename_ts_example :
    (basename_ts false (stored buffer (codes "old") none) (some (codes "/a/b"))
      ≡ ran basename_key (stored buffer (codes "b") none) (some (codes "/a/b")))
    × (dirname_ts false (stored buffer (codes "b") none) (some (codes "/a/b"))
        ≡ ran basename_key (stored buffer (codes "/a") none) (some (codes "/a")))
    × (dirname_ts false (stored buffer (codes "old") none) (some (codes "/a/b"))
        ≡ ran basename_key (stored buffer (codes "/a") none) (some (codes "/a")))
    × (basename_ts false (stored buffer (codes "/a") none) (some (codes "/a/b"))
        ≡ ran basename_key (stored buffer (codes "b") none) (some (codes "/a/b")))
dirname_ts-basename_ts_example =
    dirname_ts-basename_ts false buffer none (codes "/a") 98 [] (codes "old") (refl, tt)
      (omega arith)
