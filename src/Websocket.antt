-- ===== src/Websocket.antt =====
-- transport/websocket/transport.go: mesh connections over websockets. The websocket itself is other code:
-- what its calls return is an argument, and the frames that were written are kept. JSON is a parameter.
pub mod Frames
pub mod Peers
pub mod Withdraw
use grav.Common.{
  ℕ, ◌≡◌, String, Bool, true, false, if◌then◌else◌, List, [], ◌∷◌, ◌++◌, Option, none, some, ite,
  bytes_discrete, is_prefix, ◌>>=◌,
}
use grav.Message.{Bytes, Message, Codec, marshal, msg_from_bytes, new_msg}
use grav.Transport.{
  TransportHandshake, TransportHandshakeAck, ReadResult, read_failed, read_withdraw, read_msg,
}

abbrev pub msg_type_websocket_message : String
msg_type_websocket_message = "websocket.message"

-- "WITHDRAW" and "WITHDRAW ACK"
abbrev pub withdraw_message : Bytes
withdraw_message = b'W' ∷ b'I' ∷ b'T' ∷ b'H' ∷ b'D' ∷ b'R' ∷ b'A' ∷ b'W' ∷ []

abbrev pub withdraw_ack_message : Bytes
withdraw_ack_message = withdraw_message ++ (b' ' ∷ b'A' ∷ b'C' ∷ b'K' ∷ [])

-- The message types of the websocket package.
pub data FrameType : Type 0 where
  text_message binary_message : FrameType

pub record Frame : Type 0 where
  pub frame_type : FrameType
  pub payload : Bytes

pub record Conn : Type 0 where
  pub node_uuid : String
  pub written : List Frame

-- encoding/json at the two handshake types.
pub record Json : Type 0 where
  pub marshal_handshake : TransportHandshake → Option Bytes
  pub unmarshal_handshake : Bytes → Option TransportHandshake
  pub marshal_ack : TransportHandshakeAck → Option Bytes
  pub unmarshal_ack : Bytes → Option TransportHandshakeAck

-- What the websocket's WriteMessage returns.
pub data WriteResult : Type 0 where
  written_ok close_sent write_error : WriteResult

unfoldable pub write_message : WriteResult → Conn → Frame → WriteResult × Conn
write_message written_ok c frame = (written_ok, record c { written = c.written ++ (frame ∷ []) })
write_message close_sent c frame = (close_sent, c)
write_message write_error c frame = (write_error, c)

pub data SendMsgError : Type 0 where
  marshal_failed connection_closed write_failed : SendMsgError

abbrev pub send_msg_error : WriteResult → Option SendMsgError
send_msg_error written_ok = none
send_msg_error close_sent = some connection_closed
send_msg_error write_error = some write_failed

unfoldable pub send_msg : Codec → WriteResult → Conn → Message → Option SendMsgError × Conn
unfolding marshal write_message
send_msg codec result c msg = elim (marshal codec msg) [
  | none ↦ (some marshal_failed, c)
  | some bytes ↦
      let (r, c') =
        write_message result c (record { frame_type = binary_message; payload = bytes }) in
      (send_msg_error r, c')
]

-- A message of bytes that are not JSON: `uuid` and `now` are those of `NewMsg`.
unfoldable pub decode : Codec → String → ℕ → Bytes → Message
unfolding msg_from_bytes new_msg
decode codec uuid now bytes = elim (msg_from_bytes codec bytes) [
  | none ↦ new_msg uuid now msg_type_websocket_message bytes
  | some msg ↦ msg
]

-- `frame` is what ReadMessage returns: `none` is an error.
unfoldable pub receive_msg : Codec → String → ℕ → Option Frame → ReadResult
unfolding decode
receive_msg codec uuid now none = read_failed
receive_msg codec uuid now (some frame) = elim frame.frame_type [
  | text_message ↦ ite (bytes_discrete frame.payload withdraw_message) (read_withdraw false) (
      ite (bytes_discrete frame.payload withdraw_ack_message) (read_withdraw true)
        (read_msg (decode codec uuid now frame.payload)))
  | binary_message ↦ read_msg (decode codec uuid now frame.payload)
]

-- Whether the error is nil.
unfoldable pub send_withdraw : WriteResult → Conn → Bool → Bool × Conn
unfolding write_message
send_withdraw result c ack =
    let payload = if ack then withdraw_ack_message else withdraw_message in
    let (r, c') =
      write_message result c (record { frame_type = text_message; payload = payload }) in
    (elim r [ written_ok ↦ true | close_sent ↦ false | write_error ↦ false ], c')

-- `closes` is whether the websocket's Close returns nil; the connection keeps its fields.
unfoldable pub close : Bool → Conn → Bool × Conn
close closes c = (closes, c)

abbrev pub is_ok : WriteResult → Bool
is_ok written_ok = true
is_ok close_sent = false
is_ok write_error = false

abbrev pub is_binary : FrameType → Bool
is_binary binary_message = true
is_binary text_message = false

-- The ack that is read, or nothing where a step fails. `reply` is what ReadMessage returns.
unfoldable pub read_ack : Json → Option Frame → Conn → Option TransportHandshakeAck × Conn
read_ack json none c = (none, c)
read_ack json (some frame) c =
    if is_binary frame.frame_type
    then (elim (json.unmarshal_ack frame.payload) [
      | none ↦ (none, c)
      | some ack ↦ (some ack, record c { node_uuid = ack.uuid })
    ])
    else (none, c)

unfoldable pub outgoing_handshake :
    Json
    → WriteResult
    → Option Frame
    → Conn
    → TransportHandshake
    → Option TransportHandshakeAck × Conn
unfolding write_message read_ack
outgoing_handshake json result reply c handshake = elim (json.marshal_handshake handshake) [
  | none ↦ (none, c)
  | some bytes ↦
      let (r, c') =
        write_message result c (record { frame_type = binary_message; payload = bytes }) in
      if is_ok r then read_ack json reply c' else (none, c')
]

-- The handshake that a frame holds.
unfoldable pub read_handshake : Json → Option Frame → Option TransportHandshake
read_handshake json none = none
read_handshake json (some frame) =
    if is_binary frame.frame_type then json.unmarshal_handshake frame.payload else none

-- What the callback is called with, if it is, and whether the error is nil.
unfoldable pub incoming_handshake :
    Json
    → (TransportHandshake → TransportHandshakeAck)
    → Option Frame
    → WriteResult
    → Conn
    → Option TransportHandshake × Bool × Conn
unfolding read_handshake write_message
incoming_handshake json callback frame result c = elim (read_handshake json frame) [
  | none ↦ (none, false, c)
  | some handshake ↦ elim (json.marshal_ack (callback handshake)) [
    | none ↦ (some handshake, false, c)
    | some bytes ↦
        let (r, c') =
          write_message result c (record { frame_type = binary_message; payload = bytes }) in
        if is_ok r
        then (some handshake, true, record c' { node_uuid = handshake.uuid })
        else (some handshake, false, c')
  ]
]

-- `ws` and `ws://`
abbrev pub ws : Bytes
ws = b'w' ∷ b's' ∷ []

abbrev pub ws_scheme : Bytes
ws_scheme = ws ++ (b':' ∷ b'/' ∷ b'/' ∷ [])

-- The endpoint that `Connect` dials.
unfoldable pub dial_endpoint : Bytes → Bytes
dial_endpoint endpoint = if is_prefix ws endpoint then endpoint else ws_scheme ++ endpoint

-- `Connect`: `parsed` is whether url.Parse accepts the endpoint, `dialled` whether Dial returns a
-- websocket for it.
unfoldable pub connect : (Bytes → Bool) → (Bytes → Bool) → Bytes → Option Conn
unfolding dial_endpoint
connect parsed dialled endpoint =
    let url = dial_endpoint endpoint in
    if parsed url
    then (if dialled url then some (record { node_uuid = ""; written = [] }) else none)
    else none

-- `connection_func`: the function that Setup stores, by a number; nil before.
pub record Transport : Type 0 where
  pub connection_func : Option ℕ

unfoldable pub new : Transport
new = record { connection_func = none }

unfoldable pub setup : Transport → ℕ → Transport
setup t conn_func = record { connection_func = some conn_func }

-- What the HTTP handler does: the last one is the call of connectionFunc.
pub data HandlerResult : Type 0 where
  internal_server_error upgrade_failed : HandlerResult
  connected : (connection_func : ℕ) → Conn → HandlerResult

-- `upgraded` is whether the request becomes a websocket.
unfoldable pub http_handler_func : Transport → Bool → HandlerResult
http_handler_func t upgraded = elim t.connection_func [
  | none ↦ internal_server_error
  | some f ↦
      if upgraded then connected f (record { node_uuid = ""; written = [] }) else upgrade_failed
]
