-- ===== src/Timeout.antt =====
-- grav/timeout.go: time limits in seconds. An `int` is 64 bits wide, as a `time.Duration` is; a number
-- from 2^63 on stands for the negative one that is 2^64 less.
pub mod Range
use grav.Common.{
  ℕ, ◌*◌, ◌%◌, ◌^◌, Bool, true, false, ◌&&◌, Option, none, some, if◌then◌else◌, ite, dec_lt, dec_le,
}

-- 2^63 and 2^64
abbrev pub int_limit : ℕ
int_limit = 9223372036854775808

abbrev pub int_count : ℕ
int_count = 18446744073709551616

-- `time.Second`, in nanoseconds
abbrev pub second : ℕ
second = 1000000000

unfoldable pub is_positive : ℕ → Bool
is_positive n = ite (dec_lt 0 n) (ite (dec_lt n int_limit) true false) false

-- `time.Second * time.Duration(seconds)`
unfoldable pub duration : ℕ → ℕ
duration seconds = (second * seconds) % int_count

-- After how many nanoseconds time.After fires: at once where the duration is not positive.
unfoldable pub after : ℕ → ℕ
unfolding is_positive
after d = if is_positive d then d else 0

-- After how many nanoseconds the channel fires; `none` is never.
unfoldable pub timeout : ℕ → Option ℕ
unfolding is_positive duration after
timeout seconds = if is_positive seconds then some (after (duration seconds)) else none

unfoldable pub to : ℕ → Option ℕ
unfolding timeout
to seconds = timeout seconds
