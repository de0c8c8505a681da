-- ===== src/Timeout/Range.antt =====
-- The time limits that are kept.
use grav.Common.{ℕ, ◌≡◌, ◌↔◌, ◌⊎◌, ◌*◌, ◌<◌, ◌≤◌, arith, none, some}
use grav.Timeout.{int_limit, int_count, second, is_positive, duration, after, timeout}

-- For every 64-bit number of seconds, the timeout never fires exactly for the numbers that are 0 or
-- negative, and it fires after exactly that many seconds exactly for those from 1 to 9223372036.
pub timeout_lem :
    (seconds : ℕ)
    → seconds < int_count
    → ((timeout seconds ≡ none) ↔ ((seconds ≡ 0) ⊎ (int_limit ≤ seconds)))
      × ((timeout seconds ≡ some (second * seconds)) ↔ ((0 < seconds) × (seconds ≤ 9223372036)))
unfolding timeout is_positive duration after
timeout_lem seconds bound = ground arith
