-- ===== src/Tests/Sockets.antt =====
-- Two hubs with a websocket between them.
use grav.Common.{◌≡◌, refl, inl, true, false, List, [], ◌∷◌, some, lookup, string_discrete}
use grav.Message.{Codec, Encodes}
use grav.Transport.{read_msg, read_withdraw}
use grav.Hub.{
  Hub, init_hub, add_connection, setup_outgoing_connection, handle_incoming_connection,
  handshake_callback,
}
use grav.Hub.Handshake.{handshake_of}
use grav.Websocket.{Json}
use grav.Websocket.Frames.{Outgoing, out_msg, out_withdraw, read_all, send_all, receive-send_all}
use grav.Websocket.Peers.{Carries, websocket_handshake, answered, acknowledged}
use grav.Tests.Samples.{message}
use grav.Tests.Meshes.{named, alone}

-- An encoder that knows one message.
abbrev pub codec : Codec
codec = record { marshal = λ m. some (b'm' ∷ []); unmarshal = λ bytes m. some (message "m") }

pub message-Encodes : Encodes codec (message "m")
message-Encodes = record { bytes = b'm' ∷ []; marshalled = refl; unmarshalled = refl }

abbrev calls : List Outgoing
calls = out_msg (message "m") ∷ out_withdraw true ∷ out_msg (message "m") ∷ out_withdraw false ∷ []

receive-send_all_example :
    read_all codec "u" 0 (send_all codec (record { node_uuid = ""; written = [] }) calls).written
    ≡ read_msg (message "m")
      ∷ read_withdraw true
      ∷ read_msg (message "m")
      ∷ read_withdraw false
      ∷ []
receive-send_all_example =
    receive-send_all codec "u" 0 "" calls (message-Encodes, (tt, (message-Encodes, (tt, tt))))

abbrev other : Hub
other = init_hub "z" "acme" []

-- JSON at the handshake of these hubs.
abbrev json : Json
json = record {
  marshal_handshake = λ x. some (b'h' ∷ []);
  unmarshal_handshake = λ bytes. some (handshake_of alone);
  marshal_ack = λ x. some (b'a' ∷ []);
  unmarshal_ack = λ bytes. some (handshake_callback other (handshake_of alone));
}

carried : Carries json (handshake_of alone) (handshake_callback other (handshake_of alone))
carried = record {
  handshake_bytes = b'h' ∷ [];
  handshake_marshalled = refl;
  handshake_unmarshalled = refl;
  ack_bytes = b'a' ∷ [];
  ack_marshalled = refl;
  ack_unmarshalled = refl;
}

websocket_handshake_example :
    (setup_outgoing_connection alone 3 "" (acknowledged json alone other).0
      ≡ add_connection alone 3 "z" "acme" [])
    × (handle_incoming_connection other 4
          (answered json alone other).0
          (answered json alone other).1
        ≡ add_connection other 4 "a" "acme" ("ui" ∷ []))
unfolding init_hub lookup string_discrete
websocket_handshake_example =
    websocket_handshake json alone other 3 4 "" carried (named "a" refl) (named "z" refl) refl refl
      (inl refl) (yes (inl refl))
