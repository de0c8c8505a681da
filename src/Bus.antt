-- ===== src/Bus.antt =====
-- grav/bus.go: the loop that takes each message round the ring of connections. Channels stand as
-- they are when a message is taken: what pods send meanwhile is seen at the next one. The two loops
-- run on fuel; `none` is a panic or the end of the fuel.
pub mod Lap
pub mod Traverse
pub mod Handle
pub mod Members
pub mod Everyone
pub mod Fuel
pub mod Deliver
pub mod Race
pub mod Circle
use grav.Common.{ℕ, zero, suc, List, [], ◌∷◌, Option, none, some, ite, ℕ_discrete, ◌>>=◌}
use grav.Message.{Message}
use grav.MsgBuffer.{MsgBuffer, default_buffer_size, new_msg_buffer, push}
use grav.PodConnection.{Ptr, Feedback, PodConnection, send}
use grav.Pool.{
  ConnectionPool, PrepareError, new_connection_pool, store, insert, peek, next, prepare_next,
}

abbrev pub default_bus_chan_size : ℕ
default_bus_chan_size = 256

pub record MessageBus : Type 0 where
  pub pool : ConnectionPool
  pub buffer : MsgBuffer

unfoldable pub new_message_bus : MessageBus
unfolding new_connection_pool new_msg_buffer
new_message_bus = record { pool = new_connection_pool; buffer = new_msg_buffer default_buffer_size }

unfoldable pub add_pod : MessageBus → List Feedback → Option MessageBus
add_pod b feedback = do pool ← insert b.pool feedback; some (record b { pool = pool })

-- `conn.send(msg)`
unfoldable pub send_to : Ptr → Message → ConnectionPool → Option ConnectionPool
unfolding store send
send_to conn msg pool = do c ← pool.heap conn; some (store pool conn (send c (some msg)))

-- The new `startID`: where the start itself was deleted, the ID of the connection behind it.
unfoldable pub moved_start : Option PrepareError → ℕ → Option Ptr → ConnectionPool → Option ℕ
moved_start none start_id nxt pool = some start_id
moved_start (some err) start_id nxt pool = do
  a ← nxt
  n ← pool.heap a
  ite (ℕ_discrete start_id n.id) (do b ← n.next; c ← pool.heap b; some c.id) (some start_id)

-- One round of the loop: the new `startID`, the new `conn` and its ID.
unfoldable pub traverse_round :
    MsgBuffer → Message → ℕ → Ptr → ConnectionPool → Option (ℕ × Ptr × ℕ × ConnectionPool)
unfolding send_to moved_start
traverse_round buffer msg start_id conn pool = do
  sent ← send_to conn msg pool
  nxt ← peek sent
  (err, ready) ← prepare_next sent buffer
  start_id' ← moved_start err start_id nxt ready
  (arrived, ahead) ← next ready
  a ← arrived
  c ← ahead.heap a
  some (start_id', a, c.id, ahead)

unfoldable pub traverse_loop :
    ℕ → MsgBuffer → Message → ℕ → Ptr → ConnectionPool → Option ConnectionPool
unfolding traverse_round
traverse_loop zero buffer msg start_id conn pool = none
traverse_loop (suc fuel) buffer msg start_id conn pool = do
  (start_id', a, id, ahead) ← traverse_round buffer msg start_id conn pool
  elim (ℕ_discrete start_id' id) [
    | yes _ ↦ some ahead
    | no _ ↦ traverse_loop fuel buffer msg start_id' a ahead
  ]

unfoldable pub traverse : ℕ → MsgBuffer → Message → Ptr → ConnectionPool → Option ConnectionPool
unfolding traverse_loop
traverse fuel buffer msg start pool = do
  c ← pool.heap start
  traverse_loop fuel buffer msg c.id start pool

-- `for { if err := b.pool.prepareNext(b.buffer); err == nil { break } }`: `none` is a panic, and `some none`
-- the end of the fuel.
unfoldable pub prepare_rounds : ℕ → MsgBuffer → ConnectionPool → Option (Option ConnectionPool)
prepare_rounds zero buffer pool = some none
prepare_rounds (suc fuel) buffer pool = do
  (err, ready) ← prepare_next pool buffer
  elim err [ none ↦ some (some ready) | some _ ↦ prepare_rounds fuel buffer ready ]

-- The pool with which the loop ends.
unfoldable pub prepare_loop : ℕ → MsgBuffer → ConnectionPool → Option ConnectionPool
unfolding prepare_rounds
prepare_loop fuel buffer pool = do ended ← prepare_rounds fuel buffer pool; ended

-- The body of the loop over `busChan`.
unfoldable pub handle : ℕ → MessageBus → Message → Option MessageBus
unfolding prepare_loop traverse
handle fuel bus msg = do
  ready ← prepare_loop fuel bus.buffer bus.pool
  (start, ahead) ← next ready
  a ← start
  pool ← traverse fuel bus.buffer msg a ahead
  buffer ← push bus.buffer msg
  some (record { pool = pool; buffer = buffer })

-- The messages of `busChan`, one after another.
unfoldable pub run : ℕ → MessageBus → List Message → Option MessageBus
unfolding handle
run fuel bus [] = some bus
run fuel bus (msg ∷ msgs) = do bus' ← handle fuel bus msg; run fuel bus' msgs
