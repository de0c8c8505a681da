-- ===== src/Bridge.antt =====
-- transport/nats/transport.go and transport/kafka/transport.go: what a bridge connection keeps once it is
-- started. The broker is other code: what its calls return is an argument, and what it was given is kept.
pub mod Traffic
pub mod Relay
use grav.Common.{
  ℕ, Bool, true, false, String, List, [], ◌∷◌, ◌++◌, Option, none, some, if◌then◌else◌,
}
use grav.Message.{Bytes, Message}
use grav.Filter.{allow}
use grav.Pod.{Pod, FuncResult, send, receive}

-- `reading`: the goroutine that reads the topic goes on. `is_open`: Close has not been called.
pub record BridgeConn : Type 0 where
  pub topic : String
  pub pod : Pod
  pub published : List Bytes
  pub reading : Bool
  pub is_open : Bool

-- A function given to OnType: the bytes that it has published, if any, and what it returns.
abbrev pub PublishFunc : Type 0
PublishFunc = Message → Option Bytes × FuncResult

-- What a value of the topic is made into, with the UUID and the time that `NewMsg` would take.
abbrev pub DecodeFunc : Type 0
DecodeFunc = String → ℕ → Bytes → Message

abbrev pub option_list : Option Bytes → List Bytes
option_list none = []
option_list (some bytes) = bytes ∷ []

-- Whether the pod calls its onFunc for a message.
unfoldable pub calls : Pod → Message → Bool
calls p msg = elim p.on_func [ none ↦ false | some _ ↦ allow p.message_filter msg ]

-- A message of the bus.
unfoldable pub handle_msg : PublishFunc → BridgeConn → Message → BridgeConn
unfolding calls receive
handle_msg publish c msg = record c {
  pod = receive c.pod msg;
  published = if calls c.pod msg then c.published ++ option_list (publish msg).0 else c.published;
}

-- `c.pod.Send(msg)`
unfoldable pub send_msg : BridgeConn → Message → BridgeConn
unfolding send
send_msg c msg = record c { pod = (send c.pod msg).1 }
