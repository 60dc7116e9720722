-- ===== src/ReadvWritev/Tests.antt =====
-- Two buffers, written and read back.
use linux_programming.Base.{◌<◌, ◌-◌, ◌^◌, ◌≡◌, List, [], ◌∷◌, map, arith, length}
use linux_programming.Base.Int.{pos}
use linux_programming.Base.Bytes.{Bytes, codes}
use linux_programming.ReadvWritev.{wrote, my_writev, my_readv}
use linux_programming.ReadvWritev.RoundTrip.{concat, whole_out, whole_in, my_readv-my_writev}

abbrev bufs : List Bytes
bufs = codes "scatter" ∷ codes "gather" ∷ []

bufs_small : length (concat bufs) < 2 ^ 63 - 1
unfolding concat
bufs_small = omega arith

my_readv-my_writev_example :
    (my_writev (map whole_out bufs) [] ≡ wrote (pos (length (concat bufs))) (concat bufs))
    × (my_readv (map whole_in bufs) (concat bufs)
        ≡ record { result = pos (length (concat bufs)); bufs = bufs; left = [] })
my_readv-my_writev_example = my_readv-my_writev (codes "scatter") (codes "gather" ∷ []) bufs_small
