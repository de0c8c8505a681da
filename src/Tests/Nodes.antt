-- ===== src/Tests/Nodes.antt =====
-- A node with a pod of its owner, and the options of a node.
use grav.Common.{
  ◌≡◌, refl, true, false, List, [], ◌∷◌, ◌++◌, true, none, some, length, map, bytes_discrete,
  ℕ_discrete,
}
use grav.MsgBuffer.{new_msg_buffer}
use grav.PodConnection.{new_pod_connection}
use grav.Pool.{update, store, insert, insert_after, next_or_self, new_connection_pool}
use grav.Pool.Ring.{Member, Represents, conn_at}
use grav.Bus.{MessageBus, new_message_bus, add_pod, handle}
use grav.Bus.Members.{HasId}
use grav.Bus.Everyone.{Handled}
use grav.Pod.{new_pod}
use grav.Hub.{init_hub}
use grav.Options.{new_options_with_modifiers, default_options, apply_modifiers, use_endpoint}
use grav.Options.Last.{
  Setting, set_endpoint, set_belongs_to, modifier, new_options_with_modifiers_lem,
}
use grav.Instance.{Grav, new, connect_bus, connect_with_opts}
use grav.Instance.Steps.{hub_id, Reachable, started, stepped, connected}
use grav.Instance.Total.{handle-Reachable}
use grav.Instance.{start_hub}
use grav.Instance.Steps.{set_hub_pod, hub_started, hub_sent}
use grav.Instance.Relay.{after_send, here, later, relayed}
use grav.Websocket.Frames.{last}
use grav.Pool.Feed.{feed}
use grav.Pod.{on, set_on_func, request_replay, send, receive}
use grav.ConnectionHandler.{ConnectionHandler, new_signaler, read}
use grav.Bridge.{calls}
use grav.Websocket.{Conn, written_ok, send_msg, receive_msg}
use grav.Tests.Sockets.{codec, message-Encodes}
use grav.Tests.Samples.{message, quiet}

-- The first setting of the port is overwritten, that of the URI is not.
abbrev settings : List Setting
settings =
    set_endpoint (b'8' ∷ b'0' ∷ []) (b'/' ∷ b'a' ∷ [])
    ∷ set_belongs_to "acme"
    ∷ set_endpoint (b'8' ∷ b'1' ∷ []) []
    ∷ []

set_options : (new_options_with_modifiers 0 (map modifier settings)).port ≡ (b'8' ∷ b'1' ∷ [])
unfolding new_options_with_modifiers apply_modifiers use_endpoint bytes_discrete
set_options = refl

new_options_with_modifiers_lem_example :
    new_options_with_modifiers 0 (map modifier settings) ≡ record {
      logger = 0;
      mesh_transport = none;
      bridge_transport = none;
      discovery = none;
      port = (b'8' ∷ b'1' ∷ []);
      uri = (b'/' ∷ b'a' ∷ []);
      belongs_to = "acme";
      interests = [];
    }
unfolding bytes_discrete
new_options_with_modifiers_lem_example = new_options_with_modifiers_lem 0 settings

abbrev node : Grav
node = record {
  node_uuid = "a";
  belongs_to = "*";
  interests = [];
  bus = record {
    pool = record {
      heap = update (λ _. none) 1 (conn_at (quiet 1 []) 1);
      current = some 1;
      max_id = 1;
    };
    buffer = new_msg_buffer 128;
  };
  hub = init_hub "a" "*" [];
  hub_pod = new_pod false;
}

node_started : new "a" 0 [] ≡ some node
unfolding new new_options_with_modifiers apply_modifiers default_options new_message_bus
    new_connection_pool connect_bus add_pod insert store new_pod_connection
node_started = refl

node-Reachable : Reachable node
node-Reachable = started node "a" 0 [] node_started

-- The owner's pod is connected behind the hub's.
abbrev owned : Grav
owned = record node {
  bus = record node.bus {
    pool = record {
      heap =
          update
            (update
              (update (update (λ _. none) 1 (conn_at (quiet 1 []) 1)) 2 (new_pod_connection 2 [])) 1
              (conn_at (quiet 1 []) 2))
            2 (conn_at (quiet 2 []) 1);
      current = some 1;
      max_id = 2;
    };
  };
}

pod_connected : connect_with_opts node true ≡ some (new_pod true, owned)
unfolding connect_with_opts connect_bus add_pod insert insert_after next_or_self store update
    new_pod_connection ℕ_discrete
pod_connected = refl

owned-Reachable : Reachable owned
owned-Reachable = stepped node-Reachable (connected owned (new_pod true) true pod_connected)

handle-Reachable_example :
    (ring ring' : List Member) × (bus' : MessageBus) × Represents owned.bus.pool ring
    × (handle (length ring) owned.bus (message "m") ≡ some bus')
    × Handled ring (message "m") bus' ring'
    × HasId hub_id ring'
handle-Reachable_example = handle-Reachable owned (message "m") owned-Reachable

-- The hub listens to its pod.
abbrev online : Grav
online = record owned {
  bus = record owned.bus {
    pool = record owned.bus.pool { heap = update owned.bus.pool.heap 1 (conn_at (quiet 1 []) 2) };
  };
  hub_pod = start_hub (new_pod false);
}

hub_listens : set_hub_pod owned (start_hub owned.hub_pod) ≡ some online
unfolding set_hub_pod feed store update start_hub on set_on_func request_replay new_pod ℕ_discrete
hub_listens = refl

online-Reachable : Reachable online
online-Reachable = stepped owned-Reachable (hub_started online hub_listens)

abbrev peer : ConnectionHandler
peer = record {
  uuid = "b";
  conn = 7;
  signaler = new_signaler;
  err_chan = 0;
  belongs_to = "*";
  interests = [];
}

abbrev socket : Conn
socket = record { node_uuid = "a"; written = [] }

-- The hub's pod has sent another message after it.
abbrev twice_sent : Grav
twice_sent = after_send (after_send online (message "m")) (message "n")

relayed_example :
    (read peer
        (receive_msg codec "u" 0 (last (send_msg codec written_ok socket (message "m")).1.written))
      ≡ (peer, true, some (message "m")))
    × ((send online.hub_pod (message "m")).1.bus_chan
        ≡ online.hub_pod.bus_chan ++ (message "m" ∷ []))
    × (calls twice_sent.hub_pod (message "m") ≡ false)
    × (receive twice_sent.hub_pod (message "m") ≡ twice_sent.hub_pod)
relayed_example =
    relayed codec socket "u" 0 online twice_sent peer (message "m") online-Reachable message-Encodes
      (later here (hub_sent (message "n")) tt)
