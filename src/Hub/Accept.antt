-- ===== src/Hub/Accept.antt =====
-- What every handshake keeps: a handshake ends with `close` or with `setupNewConnection`.
use grav.Common.{
  ite, if◌then◌else◌, not, string_discrete, is_some, String, Bool, true, false, List, Option, none,
  some,
}
use grav.Transport.{Conn, TransportHandshake, TransportHandshakeAck}
use grav.Hub.{
  Hub, close, handle_incoming_connection, setup_outgoing_connection, setup_new_connection,
  connect_endpoint, discovery_handler, handshake_callback, find_connection,
}

module _ (P : Hub → Type 0) (h : Hub) (i : P h) (closes : (conn : Conn) → P (close h conn))
    (setups : (conn : Conn) (uuid group : String) (interests : List String)
      → P (setup_new_connection h conn uuid group interests)) where
  keeps_ite : {Q : Type 0} (d : Dec Q) (x y : Hub) → P x → P y → P (ite d x y)
  keeps_ite (yes q) x y ix iy = ix
  keeps_ite (no n) x y ix iy = iy

  keeps_if : (b : Bool) (x y : Hub) → P x → P y → P (if b then x else y)
  keeps_if true x y ix iy = ix
  keeps_if false x y ix iy = iy

  outgoing_keeps :
      (conn : Conn) (uuid : String) (ack : Option TransportHandshakeAck)
      → P (setup_outgoing_connection h conn uuid ack)
  unfolding setup_outgoing_connection
  outgoing_keeps conn uuid none = closes conn
  outgoing_keeps conn uuid (some ack) =
      let added = λ (u : String). setups conn u ack.belongs_to ack.interests in
      keeps_if (not ack.accept) _ _ (closes conn) (
        keeps_ite (string_discrete uuid "") _ _
          (keeps_ite (string_discrete ack.uuid "") _ _ (closes conn) (added ack.uuid))
          (keeps_ite (string_discrete ack.uuid uuid) _ _ (added uuid) (closes conn)))

  pub incoming_keeps :
      (conn : Conn) (x : Option TransportHandshake) (ok : Bool)
      → P (handle_incoming_connection h conn x ok)
  unfolding handle_incoming_connection
  incoming_keeps conn x false = closes conn
  incoming_keeps conn none true = closes conn
  incoming_keeps conn (some x) true = keeps_ite (string_discrete x.uuid "") _ _ (closes conn) (
      keeps_if (not (handshake_callback h x).accept) _ _ (closes conn)
        (setups conn x.uuid x.belongs_to x.interests))

  pub connect_keeps :
      (uuid : String) (conn : Option (Option Conn)) (ack : Option TransportHandshakeAck)
      → P (connect_endpoint h uuid conn ack).1
  unfolding connect_endpoint
  connect_keeps uuid none ack = i
  connect_keeps uuid (some none) ack = i
  connect_keeps uuid (some (some conn)) ack = outgoing_keeps conn uuid ack

  pub discovered_keeps :
      (uuid : String) (conn : Option (Option Conn)) (ack : Option TransportHandshakeAck)
      → P (discovery_handler h uuid conn ack)
  unfolding discovery_handler
  discovered_keeps uuid conn ack =
      keeps_ite (string_discrete uuid h.node_uuid) _ _ i
        (keeps_if (is_some (find_connection h uuid)) _ _ i (connect_keeps uuid conn ack))
