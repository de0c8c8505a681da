-- ===== src/AsyncCounter.antt =====
-- testutil/asynccoutner.go: the counter of the repository's tests. A goroutine of Count that waits at
-- a full channel is taken from by a receive as one is whose value lies in it, so that both are
-- counted in `count_chan`; those that have not come to the channel are counted in `counting`.
pub mod Wait
use grav.Common.{
  ℕ, zero, suc, ◌+◌, ◌-◌, ◌*◌, ◌%◌, ◌≡◌, Bool, true, false, List, [], ◌∷◌, Option, none, some, ite,
  dec_lt, dec_le, ℕ_discrete, if◌then◌else◌, ◌>>=◌,
}
use grav.Timeout.{int_limit, int_count}

pub record AsyncCounter : Type 0 where
  pub size : ℕ
  pub count_chan : ℕ
  pub counting : ℕ

unfoldable pub new_async_counter : ℕ → AsyncCounter
new_async_counter size = record { size = size; count_chan = 0; counting = 0 }

unfoldable pub count : AsyncCounter → AsyncCounter
count a = record a { counting = a.counting + 1 }

-- A goroutine of Count comes to the channel.
unfoldable pub arrive : AsyncCounter → AsyncCounter
arrive a =
    ite (ℕ_discrete a.counting 0) a
      (record a { count_chan = a.count_chan + 1; counting = a.counting - 1 })

-- The `select`: one value, if there is one.
unfoldable pub receive : ℕ → AsyncCounter → ℕ × AsyncCounter
receive n a =
    ite (ℕ_discrete a.count_chan 0) (n, a) (n + 1, record a { count_chan = a.count_chan - 1 })

-- `int64(timeoutSeconds * 1000)`
unfoldable pub timeout_ms : ℕ → ℕ
timeout_ms seconds = (seconds * 1000) % int_count

-- `time.Since(start).Milliseconds() > timeoutMs`, where a limit from 2^63 on is negative
unfoldable pub is_over : ℕ → ℕ → Bool
is_over elapsed limit = ite (dec_lt limit int_limit) (ite (dec_lt limit elapsed) true false) true

-- What the other goroutines do before a `select`, and the time after it.
pub record Round : Type 0 where
  pub calls : ℕ
  pub arrivals : ℕ
  pub elapsed : ℕ

abbrev pub times : ℕ → (AsyncCounter → AsyncCounter) → AsyncCounter → AsyncCounter
times zero f a = a
times (suc n) f a = times n f (f a)

-- The body of the loop up to the test of the time.
unfoldable pub wait_round : Round → ℕ → AsyncCounter → ℕ × AsyncCounter
unfolding count arrive receive
wait_round r n a = receive n (times r.arrivals arrive (times r.calls count a))

-- `none`: the rounds are used up, and Wait still runs.
unfoldable pub wait_loop : List Round → ℕ → ℕ → AsyncCounter → Option (ℕ × AsyncCounter)
unfolding wait_round is_over
wait_loop [] limit n a = none
wait_loop (r ∷ rs) limit n a =
    let (n', a') = wait_round r n a in
    let rest = wait_loop rs limit n' a' in if is_over r.elapsed limit then some (n', a') else rest

-- The error holds the count.
unfoldable pub wait : List Round → ℕ → ℕ → AsyncCounter → Option (Option ℕ × AsyncCounter)
unfolding wait_loop timeout_ms
wait rounds total timeout_seconds a = do
  (n, a') ← wait_loop rounds (timeout_ms timeout_seconds) 0 a
  some (ite (ℕ_discrete n total) none (some n), a')
