-- ===== src/Websocket/Peers.antt =====
-- Two hubs at the two ends of a websocket.
use grav.Common.{
  ◌≡◌, ◌≢◌, ◌⊎◌, ap, ap₂, ◌∙◌, arith, String, Bool, true, List, [], ◌∷◌, Option, none, some, ite,
  lookup,
}
use grav.Message.{Bytes}
use grav.Transport.{TransportHandshake, TransportHandshakeAck}
use grav.Hub.{
  Hub, close, add_connection, setup_outgoing_connection, handshake_callback,
  handle_incoming_connection,
}
use grav.Hub.Handshake.{Welcomes, handshake_of, handshake_agrees}
use grav.Websocket.{Frame, Conn, Json, written_ok, outgoing_handshake, incoming_handshake}
use grav.Transport

-- JSON gives a handshake and an ack back.
pub record Carries (json : Json) (x : TransportHandshake) (ack : TransportHandshakeAck)
    : Type 0 where
  pub handshake_bytes : Bytes
  pub handshake_marshalled : json.marshal_handshake x ≡ some handshake_bytes
  pub handshake_unmarshalled : json.unmarshal_handshake handshake_bytes ≡ some x
  pub ack_bytes : Bytes
  pub ack_marshalled : json.marshal_ack ack ≡ some ack_bytes
  pub ack_unmarshalled : json.unmarshal_ack ack_bytes ≡ some ack

abbrev pub first : List Frame → Option Frame
first [] = none
first (f ∷ fs) = some f

abbrev pub new_conn : Conn
new_conn = record { node_uuid = ""; written = [] }

module _ (json : Json) (a b : Hub) where
  -- The frame with which `a` begins, `b` at that frame, and `a` at the answer.
  abbrev pub greeting : Option Frame
  greeting = first (outgoing_handshake json written_ok none new_conn (handshake_of a)).1.written

  abbrev pub answered : Option TransportHandshake × Bool × Conn
  answered = incoming_handshake json (handshake_callback b) greeting written_ok new_conn

  abbrev pub acknowledged : Option TransportHandshakeAck × Conn
  acknowledged =
      outgoing_handshake json written_ok (first answered.2.written) new_conn (handshake_of a)

  exchange :
      Carries json (handshake_of a) (handshake_callback b (handshake_of a))
      → (answered.0 ≡ some (handshake_of a))
        × (answered.1 ≡ true)
        × (acknowledged.0 ≡ some (handshake_callback b (handshake_of a)))
  unfolding outgoing_handshake incoming_handshake
  exchange j = ground (
    arith, j.handshake_marshalled, j.handshake_unmarshalled, j.ack_marshalled, j.ack_unmarshalled,
  )

  -- Where two hubs with nonempty UUIDs are joined by a websocket that takes every frame, JSON gives
  -- back the handshake and the ack of this pair, they have no connection to each other, and the
  -- dialling one knows the UUID of the other or none: the frames they write make both add the other
  -- if the group of the dialling hub is that of the other or `*`, and else both close the
  -- connection.
  pub websocket_handshake :
      (conn conn' : Transport.Conn) (uuid : String)
      → Carries json (handshake_of a) (handshake_callback b (handshake_of a))
      → a.node_uuid ≢ ""
      → b.node_uuid ≢ ""
      → lookup b.node_uuid a.mesh_connections ≡ none
      → lookup a.node_uuid b.mesh_connections ≡ none
      → (uuid ≡ "") ⊎ (uuid ≡ b.node_uuid)
      → (welcome : Dec (Welcomes b a.belongs_to))
      → (setup_outgoing_connection a conn uuid acknowledged.0
          ≡ ite welcome (add_connection a conn b.node_uuid b.belongs_to b.interests) (close a conn))
        × (handle_incoming_connection b conn' answered.0 answered.1
            ≡ ite welcome
                (add_connection b conn' a.node_uuid a.belongs_to a.interests)
                (close b conn'))
  websocket_handshake conn conn' uuid j a_named b_named a_new b_new known welcome =
      let (called, fine, acked) = exchange j in
      let both = handshake_agrees a b conn conn' uuid a_named b_named a_new b_new known welcome in
      (
        ap (setup_outgoing_connection a conn uuid) acked ∙ both.0,
        ap₂ (handle_incoming_connection b conn') called fine ∙ both.1,
      )
