-- ===== src/Hub/Handshake.antt =====
-- Which connections a hub takes, and the two ends of one handshake.
use grav.Common.{
  Option-cases, ◌≡◌, ◌≢◌, ◌⊎◌, arith, String, Bool, true, false, none, some, ite, lookup, inl, inr,
}
use grav.Transport.{Conn, TransportHandshake}
use grav.Hub.{
  Hub, close, add_connection, setup_outgoing_connection, handshake_callback,
  handle_incoming_connection,
}
use grav.Hub.Table.{setup_new_connection_new, setup_new_connection_known}

-- The groups that a hub lets in.
abbrev pub Welcomes : Hub → String → Type 0
Welcomes h group = (group ≡ h.belongs_to) ⊎ (group ≡ "*")

-- What a connection has to bring to be taken.
abbrev pub Admits : Hub → TransportHandshake → Bool → Type 0
Admits h x ok =
    (ok ≡ true)
    × (x.uuid ≢ "")
    × Welcomes h x.belongs_to
    × (lookup x.uuid h.mesh_connections ≡ none)

-- The handshake that `setupOutgoingConnection` sends.
abbrev pub handshake_of : Hub → TransportHandshake
handshake_of h = record { uuid = h.node_uuid; belongs_to = h.belongs_to; interests = h.interests }

-- An incoming connection on which the callback got a handshake is added under the UUID of the
-- handshake if the handshake ended without an error, its UUID is not empty, its group is the hub's
-- or `*`, and the UUID has no connection yet; otherwise it is closed.
pub handle_incoming_connection_lem :
    (h : Hub) (conn : Conn) (x : TransportHandshake) (ok : Bool) (admits : Dec (Admits h x ok))
    → handle_incoming_connection h conn (some x) ok
      ≡ ite admits (add_connection h conn x.uuid x.belongs_to x.interests) (close h conn)
unfolding handle_incoming_connection handshake_callback
handle_incoming_connection_lem h conn x false admits = ground arith
handle_incoming_connection_lem h conn x true admits =
    elim (Option-cases (lookup x.uuid h.mesh_connections)) [
      | inl out ↦
          ground (arith, setup_new_connection_new h conn x.uuid x.belongs_to x.interests out)
      | inr (c, e) ↦
          ground (arith, setup_new_connection_known h conn x.uuid x.belongs_to x.interests c e)
    ]

-- Where two hubs with nonempty UUIDs have no connection to each other, and the dialling one knows
-- the UUID of the other or none, the two ends of a handshake decide alike: if the group of the
-- dialling hub is that of the other or `*`, each adds the other with its group and its interests,
-- else both close the connection.
pub handshake_agrees :
    (a b : Hub) (conn conn' : Conn) (uuid : String)
    → a.node_uuid ≢ ""
    → b.node_uuid ≢ ""
    → lookup b.node_uuid a.mesh_connections ≡ none
    → lookup a.node_uuid b.mesh_connections ≡ none
    → (uuid ≡ "") ⊎ (uuid ≡ b.node_uuid)
    → (welcome : Dec (Welcomes b a.belongs_to))
    → (setup_outgoing_connection a conn uuid (some (handshake_callback b (handshake_of a)))
        ≡ ite welcome (add_connection a conn b.node_uuid b.belongs_to b.interests) (close a conn))
      × (handle_incoming_connection b conn' (some (handshake_of a)) true
          ≡ ite welcome
              (add_connection b conn' a.node_uuid a.belongs_to a.interests)
              (close b conn'))
unfolding setup_outgoing_connection handle_incoming_connection handshake_callback
handshake_agrees a b conn conn' uuid a_named b_named a_new b_new known welcome = ground (
  arith,
  setup_new_connection_new a conn b.node_uuid b.belongs_to b.interests a_new,
  setup_new_connection_new b conn' a.node_uuid a.belongs_to a.interests b_new,
)
