-- ===== src/Itimerspec.antt =====
-- CH23-Timers_and_Sleeping/Exercise_23-4/itimerspec_from_str.c: the times of a timer, read from a text. atoi is
-- strtol in base ten, converted to int.
pub mod RoundTrip
mod Tests
use linux_programming.Base.{ℕ, Option, none, some}
use linux_programming.Base.Int.{ℤ, pos, to_int}
use linux_programming.Base.Bytes.{Bytes}
use linux_programming.Libc.Str.{strchr, upto}
use linux_programming.Libc.Strtol.{Parsed, strtol}

abbrev pub atoi : Bytes → ℤ
atoi s = to_int (strtol s 10).value

-- `struct timespec` and `struct itimerspec`.
pub record Timespec : Type 0 where
  pub tv_sec : ℤ
  pub tv_nsec : ℤ

pub record Itimerspec : Type 0 where
  pub it_value : Timespec
  pub it_interval : Timespec

abbrev pub colon : ℕ
colon = 58

abbrev pub slash : ℕ
slash = 47

-- The seconds, and behind a slash the nanoseconds.
abbrev pub nanoseconds : Option Bytes → ℤ
nanoseconds none = pos 0
nanoseconds (some s) = atoi s

unfoldable pub timespec_from_str : Bytes → Timespec
timespec_from_str s = record {
  tv_sec = atoi (upto s slash);
  tv_nsec = nanoseconds (strchr s slash);
}

abbrev pub interval_from_str : Option Bytes → Timespec
interval_from_str none = record { tv_sec = pos 0; tv_nsec = pos 0 }
interval_from_str (some s) = timespec_from_str s

unfoldable pub itimerspec_from_str : Bytes → Itimerspec
itimerspec_from_str s = record {
  it_value = timespec_from_str (upto s colon);
  it_interval = interval_from_str (strchr s colon);
}
