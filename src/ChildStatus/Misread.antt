-- ===== src/ChildStatus/Misread.antt =====
-- child_status.c reads si_status, which is an exit value or a signal, as if it were a wait status.
use linux_programming.Base.{
  ℕ, ◌<◌, ◌/◌, ◌%◌, ◌≡◌, refl, true, false, ◌||◌, List, [], ◌∷◌, ◌++◌, Option, some, arith, ltb,
  ◌==◌,
}
use linux_programming.Base.Bytes.{Bytes}
use linux_programming.ChildStatus.{
  wifexited, wifsignaled, SigInfo, exits, killed_text, status_text, print_child_info, watch_child,
  wifsignaled, returned_text,
}

module _ (strsignal : ℕ → Bytes) (hexadecimal hexadecimal4 : ℕ → Bytes) where
  -- An exit value from 1 to 126, and a signal that stops or continues the child, is reported as the
  -- signal of that number that has killed the child.
  pub status_text-killed_text :
      (s : ℕ)
      → 0 < s
      → s < 127
      → status_text strsignal hexadecimal hexadecimal4 s
        ≡ killed_text strsignal hexadecimal hexadecimal4 s false
  unfolding status_text
  status_text-killed_text s lo hi =
      let low : s % 128 ≡ s = omega arith in
      let no_core : (s / 128 % 2 == 1) ≡ false = ground arith in
      let alive : (s == 0) ≡ false = ground arith in
      let above : ltb 0 s ≡ true = ground arith in
      let below : ltb s 127 ≡ true = ground arith in rw (low, alive, above, below, no_core) refl

  -- Where the status is below 127 the parent prints of the first event and exits with success, whatever
  -- the event is: also when the child has only been stopped or continued and still runs.
  watch_child-exits :
      (info : SigInfo) (rest : List (Option SigInfo))
      → info.si_status < 127
      → watch_child strsignal hexadecimal hexadecimal4 [] (some info ∷ rest)
        ≡ exits 0 (
            returned_text strsignal hexadecimal hexadecimal4 info
            ++ print_child_info strsignal hexadecimal hexadecimal4 info)
  unfolding watch_child
  watch_child-exits info rest h =
      let ended : (wifexited info.si_status || wifsignaled info.si_status) ≡ true = ground arith in
      rw ended refl
