-- ===== src/Busy.antt =====
-- grav/bus.go and grav/pool.go while other goroutines run: the loops of the bus, where pods report
-- feedback and new pods connect before each of their rounds. A schedule lists what arrives before
-- each round; `none` is a panic or the end of the schedule.
pub mod Story
pub mod Admit
pub mod Round
pub mod Loops
pub mod Everyone
pub mod Schedule
pub mod Reach
use grav.Common.{ℕ, suc, ◌+◌, List, [], ◌∷◌, Option, none, some, ℕ_discrete, ◌>>=◌}
use grav.Message.{Message}
use grav.MsgBuffer.{MsgBuffer, push}
use grav.PodConnection.{Ptr, Feedback}
use grav.Pool.{ConnectionPool, insert, next, prepare_next}
use grav.Pool.Feed.{feed}
use grav.Bus.{MessageBus, traverse_round}

-- `p.feedbackChan <- msg` of the pod whose connection is at an address, and `Connect` of a new pod
-- that has put feedback into its channel.
pub data Arrival : Type 0 where
  reports : Ptr → List Feedback → Arrival
  connects : List Feedback → Arrival

-- An address without a connection belongs to no pod, and nothing is reported from there.
unfoldable pub admit : Arrival → ConnectionPool → Option ConnectionPool
unfolding feed
admit (reports a feedback) pool = elim (feed pool a feedback) [
  | none ↦ some pool
  | some fed ↦ some fed
]
admit (connects feedback) pool = insert pool feedback

unfoldable pub admit_all : List Arrival → ConnectionPool → Option ConnectionPool
unfolding admit
admit_all [] pool = some pool
admit_all (x ∷ xs) pool = do p ← admit x pool; admit_all xs p

unfoldable pub traverse_busy :
    List (List Arrival) → MsgBuffer → Message → ℕ → Ptr → ConnectionPool → Option ConnectionPool
unfolding admit_all traverse_round
traverse_busy [] buffer msg start_id conn pool = none
traverse_busy (now ∷ later) buffer msg start_id conn pool = do
  p ← admit_all now pool
  (start_id', a, id, ahead) ← traverse_round buffer msg start_id conn p
  elim (ℕ_discrete start_id' id) [
    | yes _ ↦ some ahead
    | no _ ↦ traverse_busy later buffer msg start_id' a ahead
  ]

unfoldable pub prepare_busy :
    List (List Arrival) → MsgBuffer → ConnectionPool → Option ConnectionPool
unfolding admit_all
prepare_busy [] buffer pool = none
prepare_busy (now ∷ later) buffer pool = do
  p ← admit_all now pool
  (err, ready) ← prepare_next p buffer
  elim err [ none ↦ some ready | some _ ↦ prepare_busy later buffer ready ]

-- The handling of one message, with what arrives during the first loop and during the second.
unfoldable pub handle_busy :
    List (List Arrival) → List (List Arrival) → MessageBus → Message → Option MessageBus
unfolding prepare_busy traverse_busy
handle_busy before during bus msg = do
  ready ← prepare_busy before bus.buffer bus.pool
  (start, ahead) ← next ready
  a ← start
  c ← ahead.heap a
  pool ← traverse_busy during bus.buffer msg c.id a ahead
  buffer ← push bus.buffer msg
  some (record { pool = pool; buffer = buffer })

-- How many pods connect.
abbrev pub joins : List Arrival → ℕ
joins [] = 0
joins (reports a feedback ∷ xs) = joins xs
joins (connects feedback ∷ xs) = suc (joins xs)

abbrev pub all_joins : List (List Arrival) → ℕ
all_joins [] = 0
all_joins (xs ∷ xss) = joins xs + all_joins xss
