-- ===== src/ConnectionHandler.antt =====
-- grav/connectionhandler.go and grav/withdraw/signaler.go: the hub's side of a mesh connection.
use grav.Common.{
  ℕ, ◌+◌, String, Bool, true, false, if◌then◌else◌, ◌||◌, List, [], ◌∷◌, ◌++◌, Option, none, some,
  ite, ℕ_discrete,
}
use grav.Message.{Message}
use grav.Transport.{Conn, Sending, Wire, ReadResult, read_failed, read_withdraw, read_msg}

-- The counts are of the values that the two channels hold; both have room for one.
pub record Signaler : Type 0 where
  pub withdraw_chan : ℕ
  pub done_chan : ℕ
  pub self_withdrawn : Bool
  pub peer_withdrawn : Bool

unfoldable pub new_signaler : Signaler
new_signaler = record {
  withdraw_chan = 0;
  done_chan = 0;
  self_withdrawn = false;
  peer_withdrawn = false;
}

-- Whether the call returns at once: it waits where the channel is full.
unfoldable pub signal : Signaler → Bool × Signaler
signal s =
    ite (ℕ_discrete s.withdraw_chan 0) (true, record s { self_withdrawn = true; withdraw_chan = 1 })
      (false, record s { self_withdrawn = true })

unfoldable pub done : Signaler → Bool × Signaler
done s = ite (ℕ_discrete s.done_chan 0) (true, record s { done_chan = 1 }) (false, s)

unfoldable pub set_peer_withdrawn : Signaler → Signaler
set_peer_withdrawn s = record s { peer_withdrawn = true }

-- A connection is never nil: a plugin gives one, or an error. `err_chan` counts the goroutines that
-- wait to put an error into ErrChan, which holds none itself.
pub record ConnectionHandler : Type 0 where
  pub uuid : String
  pub conn : Conn
  pub signaler : Signaler
  pub err_chan : ℕ
  pub belongs_to : String
  pub interests : List String

-- What a call of Send comes to: it returns nil, it returns ErrNodeWithdrawn, or SendMsg has failed and
-- the call waits at ErrChan. It returns the error once the scan has taken it there.
pub data SendResult : Type 0 where
  send_ok node_withdrawn waiting : SendResult

-- A call of Send up to its return or its wait, with the calls of SendMsg so far.
unfoldable pub send :
    Wire
    → ConnectionHandler
    → Message
    → List Sending
    → SendResult × ConnectionHandler × List Sending
send w c msg sends =
    if c.signaler.peer_withdrawn
    then (node_withdrawn, c, sends)
    else if w.send_msg sends c.conn msg
    then (send_ok, c, sends ++ (record { conn = c.conn; msg = msg; ok = true } ∷ []))
    else (
      waiting,
      record c { err_chan = c.err_chan + 1 },
      sends ++ (record { conn = c.conn; msg = msg; ok = false } ∷ []),
    )

-- One round of the goroutine that reads: the handler, whether the goroutine goes on, and the message
-- that it sends to the pod.
unfoldable pub read : ConnectionHandler → ReadResult → ConnectionHandler × Bool × Option Message
unfolding set_peer_withdrawn
read c read_failed =
    if c.signaler.self_withdrawn || c.signaler.peer_withdrawn
    then (c, false, none)
    else (record c { err_chan = c.err_chan + 1 }, false, none)
read c (read_withdraw ack) = (record c { signaler = set_peer_withdrawn c.signaler }, false, none)
read c (read_msg msg) = (c, true, some msg)

-- The goroutine that sends the withdraw, once withdrawChan has a value: whether it ends, which it does
-- not where SendWithdraw fails, since it waits at ErrChan before it calls Done.
unfoldable pub send_withdraw : ConnectionHandler → Bool → Bool × ConnectionHandler
unfolding done
send_withdraw c sent =
    let taken = record c.signaler { withdraw_chan = 0 } in
    if sent
    then (let (returned, s) = done taken in (returned, record c { signaler = s }))
    else (false, record c { signaler = taken; err_chan = c.err_chan + 1 })
