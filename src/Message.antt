-- ===== src/Message.antt =====
-- grav/message.go: the built-in `_message` and its constructors. The uuid and the time are arguments
-- (uuid.New and time.Now), and JSON is a parameter.
use grav.Common.{◌≡◌, ℕ, String, List, [], Option, some, ◌>>=◌}

abbrev pub Bytes : Type 0
Bytes = List ℕ

pub record Message : Type 0 where
  pub uuid : String
  pub parent_id : String
  pub reply_to : String
  pub msg_type : String
  pub timestamp : ℕ
  pub payload : Bytes

-- encoding/json at `_message`: `unmarshal` reads over the fields that the target has.
pub record Codec : Type 0 where
  pub marshal : Message → Option Bytes
  pub unmarshal : Bytes → Message → Option Message

abbrev pub msg_type_default : String
msg_type_default = "grav.default"

abbrev pub msg_type_pod_feedback : String
msg_type_pod_feedback = "grav.feedback"

unfoldable pub new : String → ℕ → String → String → Bytes → Message
new uuid now msg_type parent_id payload = record {
  uuid = uuid;
  parent_id = parent_id;
  reply_to = "";
  msg_type = msg_type;
  timestamp = now;
  payload = payload;
}

unfoldable pub set_reply_to : Message → String → Message
set_reply_to m uuid = record m { reply_to = uuid }

unfoldable pub new_msg : String → ℕ → String → Bytes → Message
unfolding new
new_msg uuid now msg_type payload = new uuid now msg_type "" payload

unfoldable pub new_msg_with_parent_id : String → ℕ → String → String → Bytes → Message
unfolding new
new_msg_with_parent_id uuid now msg_type parent_id payload = new uuid now msg_type parent_id payload

-- `ticket` is the UUID of the receipt.
unfoldable pub new_msg_reply_to : String → ℕ → String → String → Bytes → Message
unfolding new set_reply_to
new_msg_reply_to uuid now ticket msg_type payload =
    set_reply_to (new uuid now msg_type "" payload) ticket

-- `&_message{}`
abbrev pub zero_message : Message
zero_message = record {
  uuid = "";
  parent_id = "";
  reply_to = "";
  msg_type = "";
  timestamp = 0;
  payload = [];
}

-- `Marshal` and `Unmarshal` of `_message`
unfoldable pub marshal : Codec → Message → Option Bytes
marshal c m = c.marshal m

unfoldable pub unmarshal : Codec → Message → Bytes → Option Message
unmarshal c m bytes = c.unmarshal bytes m

unfoldable pub msg_from_bytes : Codec → Bytes → Option Message
unfolding unmarshal
msg_from_bytes c bytes = unmarshal c zero_message bytes

-- `body` is what reading the request's body gives: `none` is a read error.
unfoldable pub msg_from_request : Codec → Option Bytes → Option Message
unfolding msg_from_bytes
msg_from_request c body = do bytes ← body; msg_from_bytes c bytes

-- JSON gives the message back.
pub record Encodes (c : Codec) (m : Message) : Type 0 where
  pub bytes : Bytes
  pub marshalled : c.marshal m ≡ some bytes
  pub unmarshalled : c.unmarshal bytes zero_message ≡ some m

-- `json` is what json.Unmarshal does at the type of the target.
unfoldable pub unmarshal_data {ℓ} : {A : Type ℓ} → (Bytes → A → Option A) → Message → A → Option A
unmarshal_data json m target = json m.payload target
