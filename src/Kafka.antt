-- ===== src/Kafka.antt =====
-- transport/kafka/transport.go: the bridge to Kafka. What the client's calls return is an argument.
pub mod Run
use grav.Common.{ℕ, Bool, true, false, String, List, [], ◌∷◌, Option, none, some, if◌then◌else◌}
use grav.Message.{Bytes, Message, Codec, marshal, msg_from_bytes, new_msg}
use grav.Pod.{Pod, FuncResult, ok, failed, on_type}
use grav.Transport.{BridgeOptions}
use grav.Bridge.{BridgeConn, send_msg}

pub record Transport : Type 0 where
  pub endpoint : String
  pub opts : Option BridgeOptions

-- The client is known by a number.
pub record Conn : Type 0 where
  pub topic : String
  pub conn : ℕ

unfoldable pub new : String → Transport
new endpoint = record { endpoint = endpoint; opts = none }

unfoldable pub setup : Transport → BridgeOptions → Transport
setup t opts = record t { opts = some opts }

-- `new_client` is kgo.NewClient.
unfoldable pub connect_topic : (String → String → Option ℕ) → Transport → String → Option Conn
connect_topic new_client t topic = elim (new_client t.endpoint topic) [
  | none ↦ none
  | some client ↦ some (record { topic = topic; conn = client })
]

-- The function given to OnType; `produced` is whether ProduceSync has no error on the record of a
-- message.
unfoldable pub produce : Codec → (Message → Bool) → Message → Option Bytes × FuncResult
unfolding marshal
produce codec produced msg = elim (marshal codec msg) [
  | none ↦ (none, failed)
  | some bytes ↦ if produced msg then (some bytes, ok) else (none, failed)
]

unfoldable pub start : Codec → (Message → Bool) → Conn → Pod → BridgeConn
unfolding on_type produce
start codec produced c pod = record {
  topic = c.topic;
  pod = on_type pod c.topic (some (λ msg. (produce codec produced msg).1));
  published = [];
  reading = true;
  is_open = true;
}

-- A record, with the UUID and the time that `NewMsg` would take for it.
pub record Fetched : Type 0 where
  pub uuid : String
  pub now : ℕ
  pub value : Bytes

unfoldable pub decode : Codec → String → Fetched → Message
unfolding msg_from_bytes new_msg
decode codec topic r = elim (msg_from_bytes codec r.value) [
  | none ↦ new_msg r.uuid r.now topic r.value
  | some msg ↦ msg
]

-- The loop over the records of a fetch.
unfoldable pub send_records : Codec → BridgeConn → List Fetched → BridgeConn
unfolding decode send_msg
send_records codec c [] = c
send_records codec c (r ∷ rs) = send_records codec (send_msg c (decode codec c.topic r)) rs

-- What PollFetches returns: errors, or the records.
pub data Fetches : Type 0 where
  fetch_errors : Fetches
  records : List Fetched → Fetches

-- One round of the loop that reads the topic.
unfoldable pub poll : Codec → BridgeConn → Fetches → BridgeConn
unfolding send_records
poll codec c fetch_errors = c
poll codec c (records rs) = send_records codec c rs

-- The client is closed. The pod and the loop stay as they are.
unfoldable pub close : BridgeConn → BridgeConn
close c = record c { is_open = false }
