-- ===== src/Tests/Meshes.antt =====
-- A hub with two peers that both offer the capability `fn`.
use grav.Common.{
  subst, ◌≡◌, ◌≢◌, refl, arith, inl, String, true, false, [], ◌∷◌, none, some, ite, ℕ_discrete,
  lookup, insert, string_discrete,
}
use grav.Balancer.{Balancer, add, new_balancer}
use grav.Hub.Spread.{Spread, message_handler_lem}
use grav.Hub.Traffic.{message_handler}
use grav.Transport.{Conn, TransportHandshake, Wire}
use grav.ConnectionHandler.{ConnectionHandler, new_signaler, signal, set_peer_withdrawn}
use grav.Hub.{
  Hub, init_hub, setup_new_connection, setup_outgoing_connection, handle_incoming_connection,
  add_connection, handshake_callback, find_connection, add_interests,
}
use grav.Hub.Traffic.{
  tunneled, send_tunneled_message, remove_mesh_connection, scan_failed_mesh_connections,
}
use grav.Hub.Table.{
  IsConsistent, insert-IsConsistent, init_hub-IsConsistent, setup_new_connection-IsConsistent,
}
use grav.Hub.Rounds.{Delivered}
use grav.Hub.Deliver.{send_tunneled_message-remove_last}
use grav.Hub.Retry.{AllTake, send_tunneled_message_live}
use grav.Hub.Handshake.{handshake_agrees, handshake_of}
use grav.Hub.Reach.{started, stepped, incoming, scanned}
use grav.Hub.Consistent.{Reachable-Agrees}
use grav.Tests.Samples.{message}

pub named : (s : String) → ite (string_discrete s "") true false ≡ false → s ≢ ""
named s h e = ground (arith, h, e)

abbrev pub alone : Hub
alone = init_hub "a" "acme" ("ui" ∷ [])

abbrev pub handshake : String → TransportHandshake
handshake uuid = record { uuid = uuid; belongs_to = "acme"; interests = "fn" ∷ [] }

abbrev pub handler : String → Conn → ConnectionHandler
handler uuid conn = record {
  uuid = uuid;
  conn = conn;
  signaler = new_signaler;
  err_chan = 0;
  belongs_to = "acme";
  interests = "fn" ∷ [];
}

abbrev fn_balancer : Balancer
fn_balancer = record { uuids = "b" ∷ "c" ∷ []; index = 0 }

abbrev meshed : Hub
meshed = record alone {
  mesh_connections = ("b", handler "b" 7) ∷ ("c", handler "c" 8) ∷ [];
  capability_balancers = ("fn", fn_balancer) ∷ [];
}

-- Sending to the first peer fails.
abbrev pub wire : Wire
wire = record {
  send_msg = λ sends conn msg. ite (ℕ_discrete conn 8) true false;
  close = λ conn. true;
}

built :
    setup_new_connection
      (setup_new_connection alone 7 "b" "acme" ("fn" ∷ []))
      8
      "c"
      "acme"
      ("fn" ∷ [])
    ≡ meshed
unfolding setup_new_connection find_connection add_connection add_interests add new_balancer
    init_hub lookup insert string_discrete
built = refl

alone-IsConsistent : IsConsistent alone
alone-IsConsistent = init_hub-IsConsistent "a" "acme" ("ui" ∷ [])

meshed-IsConsistent : IsConsistent meshed
meshed-IsConsistent = subst IsConsistent built (
    setup_new_connection-IsConsistent (setup_new_connection alone 7 "b" "acme" ("fn" ∷ [])) 8 "c"
      "acme" ("fn" ∷ [])
      (setup_new_connection-IsConsistent alone 7 "b" "acme" ("fn" ∷ []) alone-IsConsistent))

-- The first peer has withdrawn.
abbrev half_left : Hub
half_left = record meshed {
  mesh_connections =
      insert "b" (record (handler "b" 7) { signaler = set_peer_withdrawn new_signaler })
        meshed.mesh_connections;
}

half_left-IsConsistent : IsConsistent half_left
unfolding lookup string_discrete
half_left-IsConsistent =
    insert-IsConsistent meshed "b" (handler "b" 7)
      (record (handler "b" 7) { signaler = set_peer_withdrawn new_signaler }) refl refl
      meshed-IsConsistent

half_left-AllTake : AllTake wire "fn" (message "m") half_left
unfolding lookup insert string_discrete ℕ_discrete new_signaler set_peer_withdrawn
half_left-AllTake v d e named present = ground (arith, e, present)

send_tunneled_message_live_example :
    (h' : Hub) × (send_tunneled_message wire "fn" (message "m") half_left ≡ some (tunneled, h'))
    × Delivered wire "fn" (message "m") half_left.mesh_connections half_left.sends h'
unfolding lookup insert string_discrete new_signaler
send_tunneled_message_live_example =
    send_tunneled_message_live wire "fn" (message "m") half_left fn_balancer "c" (handler "c" 8)
      half_left-IsConsistent refl (omega arith) refl (omega arith) refl half_left-AllTake

abbrev single : Hub
single = setup_new_connection alone 7 "b" "acme" ("fn" ∷ [])

send_tunneled_message-remove_last_example :
    send_tunneled_message wire "fn" (message "m") (remove_mesh_connection single "b") ≡ none
unfolding setup_new_connection find_connection add_connection init_hub lookup insert string_discrete
send_tunneled_message-remove_last_example =
    send_tunneled_message-remove_last wire "fn" (message "m") single "b" (handler "b" 7)
      (setup_new_connection-IsConsistent alone 7 "b" "acme" ("fn" ∷ []) alone-IsConsistent) refl
      (omega arith) (λ v ne. ground arith)

handshake_agrees_example :
    (setup_outgoing_connection alone 3 ""
        (some (handshake_callback (init_hub "z" "acme" []) (handshake_of alone)))
      ≡ add_connection alone 3 "z" "acme" [])
    × (handle_incoming_connection (init_hub "z" "acme" []) 4 (some (handshake_of alone)) true
        ≡ add_connection (init_hub "z" "acme" []) 4 "a" "acme" ("ui" ∷ []))
unfolding init_hub lookup string_discrete
handshake_agrees_example =
    handshake_agrees alone (init_hub "z" "acme" []) 3 4 "" (named "a" refl) (named "z" refl) refl
      refl (inl refl) (yes (inl refl))

Reachable-Agrees_example :
    IsConsistent (
      scan_failed_mesh_connections (handle_incoming_connection alone 7 (some (handshake "b")) true))
Reachable-Agrees_example = Reachable-Agrees (
    stepped
      (stepped (started {b = true} "a" "acme" ("ui" ∷ []))
        (incoming alone 7 (some (handshake "b")) true))
      (scanned (handle_incoming_connection alone 7 (some (handshake "b")) true)))

abbrev pub joined : Hub
joined = handle_incoming_connection alone 7 (some (handshake "b")) true

-- Two handshakes of one peer that have both found no connection.
abbrev twice : Hub
twice = add_connection (add_connection alone 7 "b" "acme" ("fn" ∷ [])) 8 "b" "acme" ("fn" ∷ [])

-- The UUID stands in the balancer twice, and the first connection is in no table and not closed.
setup_twice :
    (twice.capability_balancers ≡ ("fn", record { uuids = "b" ∷ "b" ∷ []; index = 0 }) ∷ [])
    × (twice.mesh_connections ≡ ("b", handler "b" 8) ∷ [])
    × (twice.closed ≡ [])
unfolding add_connection add_interests add new_balancer init_hub lookup insert string_discrete
setup_twice = (refl, refl, refl)

message_handler_lem_example :
    Spread wire
      (message "m")
      joined
      joined.mesh_connections
      (message_handler wire joined (message "m"))
message_handler_lem_example = message_handler_lem wire (message "m") joined (
    stepped (started {b = true} "a" "acme" ("ui" ∷ []))
      (incoming alone 7 (some (handshake "b")) true))

abbrev withdrawn_b : ConnectionHandler
withdrawn_b = record (handler "b" 7) { signaler = (signal new_signaler).1 }
