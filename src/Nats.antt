-- ===== src/Nats.antt =====
-- transport/nats/transport.go: the bridge to NATS. What the client's calls return is an argument.
pub mod Run
pub mod Relay
use grav.Common.{ℕ, Bool, true, false, String, List, [], Option, none, some, if◌then◌else◌}
use grav.Message.{Bytes, Message, Codec, marshal, msg_from_bytes, new_msg}
use grav.Pod.{Pod, FuncResult, ok, failed, on_type}
use grav.Transport.{BridgeOptions}
use grav.Bridge.{BridgeConn, send_msg}

-- The connection to the server, and one to a topic, by numbers.
pub record Transport : Type 0 where
  pub server_conn : ℕ
  pub opts : Option BridgeOptions

pub record Conn : Type 0 where
  pub topic : String
  pub sub : ℕ

-- `server` is what nats.Connect returns.
unfoldable pub new : Option ℕ → Option Transport
new none = none
new (some nc) = some (record { server_conn = nc; opts = none })

unfoldable pub setup : Transport → BridgeOptions → Transport
setup t opts = record t { opts = some opts }

-- `subscribe` is SubscribeSync.
unfoldable pub connect_topic : (ℕ → String → Option ℕ) → Transport → String → Option Conn
connect_topic subscribe t topic = elim (subscribe t.server_conn topic) [
  | none ↦ none
  | some sub ↦ some (record { topic = topic; sub = sub })
]

-- The function given to OnType; `pub_fn` is whether pubFn returns nil on the bytes of a message.
unfoldable pub publish : Codec → (Message → Bool) → Message → Option Bytes × FuncResult
unfolding marshal
publish codec pub_fn msg = elim (marshal codec msg) [
  | none ↦ (none, failed)
  | some bytes ↦ if pub_fn msg then (some bytes, ok) else (none, failed)
]

unfoldable pub start : Codec → (Message → Bool) → Conn → Pod → BridgeConn
unfolding on_type publish
start codec pub_fn c pod = record {
  topic = c.topic;
  pod = on_type pod c.topic (some (λ msg. (publish codec pub_fn msg).1));
  published = [];
  reading = true;
  is_open = true;
}

-- What a value of the topic is made into: `uuid` and `now` are those of `NewMsg`.
unfoldable pub decode : Codec → String → String → ℕ → Bytes → Message
unfolding msg_from_bytes new_msg
decode codec topic uuid now bytes = elim (msg_from_bytes codec bytes) [
  | none ↦ new_msg uuid now topic bytes
  | some msg ↦ msg
]

-- What NextMsg returns.
pub data NextMsg : Type 0 where
  err_timeout other_error : NextMsg
  next_msg : (uuid : String) (now : ℕ) (bytes : Bytes) → NextMsg

-- One round of the loop that reads the topic.
unfoldable pub read_round : Codec → BridgeConn → NextMsg → BridgeConn
unfolding decode send_msg
read_round codec c err_timeout = c
read_round codec c other_error = record c { reading = false }
read_round codec c (next_msg uuid now bytes) = send_msg c (decode codec c.topic uuid now bytes)

-- A round that starts only if the loop has not ended.
unfoldable pub read_topic : Codec → BridgeConn → NextMsg → BridgeConn
unfolding read_round
read_topic codec c next = if c.reading then read_round codec c next else c

-- The subscription is given up; an error of that is logged only. The pod and the loop stay as they are.
unfoldable pub close : BridgeConn → BridgeConn
close c = record c { is_open = false }
