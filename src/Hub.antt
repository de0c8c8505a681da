-- ===== src/Hub.antt =====
-- grav/hub.go: the table of mesh connections, the balancers of the capabilities, and handshakes.
-- The answers of the plugin are arguments. A call that holds the lock of the hub is one step;
-- setupNewConnection makes two such calls, `find_connection` and `add_connection`, and is here the run
-- in which nothing comes between them. What comes of the other runs is in Reach.
pub mod Traffic
pub mod Table
pub mod Calls
pub mod Tunnel
pub mod Rounds
pub mod Deliver
pub mod Stuck
pub mod Counting
pub mod Spread
pub mod Scan
pub mod Accept
pub mod Keyed
pub mod Keys
pub mod Reach
pub mod Consistent
pub mod Handshake
pub mod Retry
use grav.Common.{
  ℕ, zero, suc, String, Bool, true, false, if◌then◌else◌, not, ◌&&◌, List, [], ◌∷◌, ◌++◌, Option,
  none, some, ite, string_discrete, is_some, Map, lookup, insert, delete, ◌>>=◌,
}
use grav.Message.{Message}
use grav.Balancer
use grav.Balancer.{Balancer, new_balancer}
use grav.Transport.{Conn, TransportHandshake, TransportHandshakeAck, Sending, Wire}
use grav.ConnectionHandler.{ConnectionHandler, new_signaler}

abbrev pub tunnel_retry_count : ℕ
tunnel_retry_count = 32

-- `sends` and `closed` record the calls of SendMsg and of Close on connections.
pub record Hub : Type 0 where
  pub node_uuid : String
  pub belongs_to : String
  pub interests : List String
  pub mesh_connections : Map ConnectionHandler
  pub bridge_connections : Map Conn
  pub capability_balancers : Map Balancer
  pub sends : List Sending
  pub closed : List Conn

-- The hub of `initHub`, before its goroutines run.
unfoldable pub init_hub : String → String → List String → Hub
init_hub node_uuid belongs_to interests = record {
  node_uuid = node_uuid;
  belongs_to = belongs_to;
  interests = interests;
  mesh_connections = [];
  bridge_connections = [];
  capability_balancers = [];
  sends = [];
  closed = [];
}

-- `connection.Close()`
unfoldable pub close : Hub → Conn → Hub
close h conn = record h { closed = h.closed ++ (conn ∷ []) }

unfoldable pub find_connection : Hub → String → Option Conn
find_connection h uuid = do handler ← lookup uuid h.mesh_connections; some handler.conn

-- `h.capabilityBalancers[c]`, made where it is missing
abbrev pub or_new : Option Balancer → Balancer
or_new none = new_balancer
or_new (some b) = b

-- `h.capabilityBalancers[c].Add(uuid)` for each interest.
unfoldable pub add_interests : String → List String → Map Balancer → Map Balancer
add_interests uuid [] balancers = balancers
add_interests uuid (c ∷ cs) balancers =
    add_interests uuid cs (insert c (Balancer.add (or_new (lookup c balancers)) uuid) balancers)

unfoldable pub add_connection : Hub → Conn → String → String → List String → Hub
unfolding add_interests
add_connection h conn uuid belongs_to interests = record h {
  mesh_connections =
      insert uuid
        (record {
          uuid = uuid;
          conn = conn;
          signaler = new_signaler;
          err_chan = 0;
          belongs_to = belongs_to;
          interests = interests;
        })
        h.mesh_connections;
  capability_balancers = add_interests uuid interests h.capability_balancers;
}

unfoldable pub setup_new_connection : Hub → Conn → String → String → List String → Hub
unfolding find_connection add_connection close
setup_new_connection h conn uuid belongs_to interests =
    if is_some (find_connection h uuid)
    then close h conn
    else add_connection h conn uuid belongs_to interests

-- `ack` is what OutgoingHandshake returns: `none` is an error.
unfoldable pub setup_outgoing_connection : Hub → Conn → String → Option TransportHandshakeAck → Hub
unfolding setup_new_connection close
setup_outgoing_connection h conn uuid none = close h conn
setup_outgoing_connection h conn uuid (some ack) =
    if not ack.accept
    then close h conn
    else ite (string_discrete uuid "")
        (ite (string_discrete ack.uuid "") (close h conn)
          (setup_new_connection h conn ack.uuid ack.belongs_to ack.interests))
        (ite (string_discrete ack.uuid uuid)
          (setup_new_connection h conn uuid ack.belongs_to ack.interests) (close h conn))

abbrev pub ack_of : Hub → Bool → TransportHandshakeAck
ack_of h true = record {
  accept = true;
  uuid = h.node_uuid;
  belongs_to = h.belongs_to;
  interests = h.interests;
}
ack_of h false = record { accept = false; uuid = h.node_uuid; belongs_to = ""; interests = [] }

-- The handshake callback of `handleIncomingConnection`.
unfoldable pub handshake_callback : Hub → TransportHandshake → TransportHandshakeAck
handshake_callback h incoming =
    ite (string_discrete incoming.belongs_to h.belongs_to) (ack_of h true)
      (ite (string_discrete incoming.belongs_to "*") (ack_of h true) (ack_of h false))

-- IncomingHandshake calls the callback with `handshake` if there is one, and then returns nil if `ok`.
unfoldable pub handle_incoming_connection : Hub → Conn → Option TransportHandshake → Bool → Hub
unfolding handshake_callback setup_new_connection close
handle_incoming_connection h conn handshake false = close h conn
handle_incoming_connection h conn none true = close h conn
handle_incoming_connection h conn (some handshake) true =
    ite (string_discrete handshake.uuid "") (close h conn) (
      if not (handshake_callback h handshake).accept
      then close h conn
      else setup_new_connection h conn handshake.uuid handshake.belongs_to handshake.interests)

pub data ConnectError : Type 0 where
  transport_not_configured create_failed : ConnectError

-- `connected` is what `mesh.Connect` returns for the endpoint, or `none` where there is no mesh
-- transport; `ack` is the answer to the handshake.
unfoldable pub connect_endpoint :
    Hub → String → Option (Option Conn) → Option TransportHandshakeAck → Option ConnectError × Hub
unfolding setup_outgoing_connection
connect_endpoint h uuid none ack = (some transport_not_configured, h)
connect_endpoint h uuid (some none) ack = (some create_failed, h)
connect_endpoint h uuid (some (some conn)) ack = (none, setup_outgoing_connection h conn uuid ack)

unfoldable pub discovery_handler :
    Hub → String → Option (Option Conn) → Option TransportHandshakeAck → Hub
unfolding connect_endpoint find_connection
discovery_handler h uuid connected ack =
    ite (string_discrete uuid h.node_uuid) h
      (if is_some (find_connection h uuid) then h else (connect_endpoint h uuid connected ack).1)

unfoldable pub add_topic_connection : Hub → Conn → String → Hub
add_topic_connection h conn topic = record h {
  bridge_connections = insert topic conn h.bridge_connections;
}

unfoldable pub connect_bridge_topic :
    Hub → String → Option (Option Conn) → Option ConnectError × Hub
unfolding add_topic_connection
connect_bridge_topic h topic none = (some transport_not_configured, h)
connect_bridge_topic h topic (some none) = (some create_failed, h)
connect_bridge_topic h topic (some (some conn)) = (none, add_topic_connection h conn topic)
