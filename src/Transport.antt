-- ===== src/Transport.antt =====
-- grav/transport.go: what the hub exchanges with a mesh plugin. A connection of a plugin is known by
-- a number; what its methods answer is an argument of the operations that call them.
use grav.Common.{ℕ, String, Bool, List}
use grav.Message.{Message}

abbrev pub Conn : Type 0
Conn = ℕ

pub record TransportHandshake : Type 0 where
  pub uuid : String
  pub belongs_to : String
  pub interests : List String

pub record TransportHandshakeAck : Type 0 where
  pub accept : Bool
  pub uuid : String
  pub belongs_to : String
  pub interests : List String

-- The options of a bridge, without the logger.
pub record BridgeOptions : Type 0 where
  pub node_uuid : String

-- A call of SendMsg, and whether it returned nil.
pub record Sending : Type 0 where
  pub conn : Conn
  pub msg : Message
  pub ok : Bool

-- What a call of ReadMsg returns; a withdraw says whether it acknowledges one.
pub data ReadResult : Type 0 where
  read_failed : ReadResult
  read_withdraw : (ack : Bool) → ReadResult
  read_msg : Message → ReadResult

-- Whether SendMsg and Close return nil: SendMsg may answer by what was sent before.
pub record Wire : Type 0 where
  pub send_msg : List Sending → Conn → Message → Bool
  pub close : Conn → Bool
