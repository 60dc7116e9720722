-- ===== src/Itimerspec/Tests.antt =====
-- "2:3/500", a timer that starts after 2 seconds.
use linux_programming.Base.{◌≡◌, none, some, arith}
use linux_programming.Base.Int.{pos}
use linux_programming.Itimerspec.{itimerspec_from_str}
use linux_programming.Itimerspec.RoundTrip.{
  Times, TimeInRange, times_text, timespec, interval_of, itimerspec_from_str-times_text,
}

abbrev two_three : Times
two_three = record {
  value = record { sec = pos 2; nsec = none };
  interval = some (record { sec = pos 3; nsec = some (pos 500) });
}

itimerspec_from_str-times_text_example :
    itimerspec_from_str (times_text two_three)
    ≡ record { it_value = timespec two_three.value; it_interval = interval_of two_three.interval }
unfolding TimeInRange
itimerspec_from_str-times_text_example =
    itimerspec_from_str-times_text two_three
      ((omega arith, omega arith), (omega arith, omega arith))
      ((omega arith, omega arith), (omega arith, omega arith))
