-- ===== src/Tests/Leaving.antt =====
-- A node that withdraws from a mesh of two.
use grav.Common.{
  ◌+◌, ◌≡◌, ◌≤◌, refl, true, false, [], ◌∷◌, none, some, lookup, map, insert, string_discrete,
}
use grav.ConnectionHandler.{
  ConnectionHandler, node_withdrawn, send, read, signal, send_withdraw, new_signaler,
}
use grav.Hub.{
  init_hub, handle_incoming_connection, handshake_callback, setup_new_connection, find_connection,
  add_connection,
}
use grav.Hub.Traffic.{scan_failed_mesh_connections}
use grav.Hub.Reach.{Reachable, started, stepped, incoming}
use grav.Hub.Counting.{
  Counter, empty, full, here, later, finished, removed, put_back, unread, lost, withdraw_count,
}
use grav.Websocket.{Conn}
use grav.Websocket.Withdraw.{notice, withdraw_lem}
use grav.Options.{Options, new_options_with_modifiers}
use grav.Options.Last.{set_discovery, modifier}
use grav.Instance.Startup.{startup}
use grav.Instance.Leave.{plugin, leave, leave_lem}
use grav.Tests.Samples.{message}
use grav.Tests.Meshes.{alone, joined, handler, handshake, wire}
use grav.Tests.Sockets.{codec}

abbrev socket : Conn
socket = record { node_uuid = "a"; written = [] }

-- The handler of the node that leaves, and that of its peer after the notice.
abbrev leaver : ConnectionHandler
leaver = record (handler "a" 3) { signaler = new_signaler }

abbrev left : ConnectionHandler
left = (read (handler "b" 7) (notice codec "u" 0 socket)).0

joined-Reachable : Reachable false joined
joined-Reachable =
    stepped (started "a" "acme" ("ui" ∷ [])) (incoming alone 7 (some (handshake "b")) true)

joined_lookup : lookup "b" joined.mesh_connections ≡ some (handler "b" 7)
unfolding handle_incoming_connection handshake_callback setup_new_connection find_connection
    add_connection init_hub lookup insert string_discrete
joined_lookup = refl

withdraw_lem_example :
    ((signal leaver.signaler).0 ≡ true)
    × ((send_withdraw (record leaver { signaler = (signal leaver.signaler).1 }) true).0 ≡ true)
    × ((send_withdraw
          (record leaver { signaler = (signal leaver.signaler).1 })
          true).1.signaler.done_chan
        ≡ 1)
    × (read (handler "b" 7) (notice codec "u" 0 socket) ≡ (left, false, none))
    × (send wire left (message "m") [] ≡ (node_withdrawn, left, []))
    × (lookup "b"
          (scan_failed_mesh_connections (record joined {
            mesh_connections = insert "b" left joined.mesh_connections;
          })).mesh_connections
        ≡ none)
unfolding new_signaler
withdraw_lem_example =
    withdraw_lem codec "u" 0 socket leaver (handler "b" 7) joined "b" wire (message "m") []
      joined-Reachable joined_lookup refl refl

abbrev dropped : Counter
dropped = record { entries = (false, empty) ∷ []; count = 1 }

abbrev late : Counter
late = record { entries = (true, full) ∷ []; count = 1 }

withdraw_count_example :
    (late.count ≡ unread late.entries) × (lost dropped.entries ≤ late.count + 1)
withdraw_count_example =
    withdraw_count 1 (later here (removed [] [] true empty refl))
      (later (later here (finished [] [] false refl)) (put_back [] [] full refl))

-- A discovery plugin without a mesh transport.
abbrev lonely : Options
lonely = new_options_with_modifiers 0 (map modifier (set_discovery (some 2) ∷ []))

leave_lem_example : leave (λ u. true) (plugin lonely (startup "a" lonely) true) alone ≡ none
leave_lem_example = leave_lem (λ u. true) "a" 0 (set_discovery (some 2) ∷ []) true alone
